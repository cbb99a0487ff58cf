-- ===== src/Network/Message/Chunks.antt =====
-- network.rs: what stands at the front of a buffer, and what more bytes behind it change: nothing.
use ironcat.Base.{
  ℕ, zero, suc, ◌+◌, ◌≤◌, ◌≡◌, refl, sym, ap, ◌∙◌, List, [], ◌∷◌, ◌++◌, true, leb, leb→le, le→leb,
  ◌==◌, length, take, drop, length-append, length-drop, arith,
}
use ironcat.Base.Result.{ok, ensure, >>-eq-ok, ensure-eq-ok, ok-injective}
use ironcat.Network.Cursor.{Bytes, from_le_bytes}
use ironcat.Types.Hash.{Sha256, bytes_eq}
use ironcat.Network.Message.{
  max_message_size, net_magic, frame_header_size, Message, incomplete, corrupt, invalid_magic,
  length_above_limit, checksum_mismatch, slice, parsed_message, message_from_bytes,
  calculate_checksum,
}

pub take-append_left {ℓ} :
    {A : Type ℓ} (n : ℕ) (s t : List A) → n ≤ length s → take n (s ++ t) ≡ take n s
take-append_left zero s t le = refl
take-append_left (suc n) [] t le = absurd (omega (arith, le))
take-append_left (suc n) (x ∷ s) t le = ap (λ q. x ∷ q) (take-append_left n s t (omega (arith, le)))

pub drop-append_left {ℓ} :
    {A : Type ℓ} (n : ℕ) (s t : List A) → n ≤ length s → drop n (s ++ t) ≡ drop n s ++ t
drop-append_left zero s t le = refl
drop-append_left (suc n) [] t le = absurd (omega (arith, le))
drop-append_left (suc n) (x ∷ s) t le = drop-append_left n s t (omega (arith, le))

slice-append :
    (start size : ℕ) (s t : Bytes)
    → start + size ≤ length s
    → slice start size (s ++ t) ≡ slice start size s
slice-append start size s t le =
    ap (take size) (drop-append_left start s t (omega (arith, le)))
    ∙ take-append_left size (drop start s) t (omega (arith, le, length-drop start s))

-- The declared length of the payload.
abbrev pub declared : Bytes → ℕ
declared s = from_le_bytes (slice 16 4 s)

module _ (sha : Sha256) where
  -- A whole message with the right checksum stands at the front.
  pub record IsFramed (s : Bytes) : Type 0 where
    pub magic_ok : bytes_eq (slice 0 4 s) net_magic ≡ true
    pub length_ok : leb (declared s) max_message_size ≡ true
    pub is_whole : frame_header_size + declared s ≤ length s
    pub sum_ok :
        (calculate_checksum sha (slice frame_header_size (declared s) s)
          == from_le_bytes (slice 20 4 s))
        ≡ true

  abbrev pub first_message : Bytes → Message × ℕ
  first_message s = (parsed_message s (declared s), frame_header_size + declared s)

  pub message_from_bytes-eq-ok :
      (s : Bytes) (p : Message × ℕ)
      → message_from_bytes sha s ≡ ok p
      → IsFramed s × (p ≡ first_message s)
  unfolding message_from_bytes
  message_from_bytes-eq-ok s p h =
      let len = from_le_bytes (slice 16 4 s) in
      let m = parsed_message s len in
      let (h1, last) = >>-eq-ok _ (ok (m, frame_header_size + len)) h in
      let (h2, sum) =
        >>-eq-ok _
          (ensure (calculate_checksum sha m.payload == m.checksum) (corrupt checksum_mismatch))
          h1 in
      let (h3, whole) =
        >>-eq-ok _ (ensure (leb (frame_header_size + len) (length s)) incomplete) h2 in
      let (h4, small) =
        >>-eq-ok _ (ensure (leb len max_message_size) (corrupt length_above_limit)) h3 in
      let (_, magic) =
        >>-eq-ok _ (ensure (bytes_eq (slice 0 4 s) net_magic) (corrupt invalid_magic)) h4 in
      (
        record {
          magic_ok = ensure-eq-ok _ _ magic;
          length_ok = ensure-eq-ok _ _ small;
          is_whole = leb→le _ _ (ensure-eq-ok _ _ whole);
          sum_ok = ensure-eq-ok _ _ sum;
        },
        sym (ok-injective last),
      )

  pub message_from_bytes-ok :
      (s : Bytes) → IsFramed s → message_from_bytes sha s ≡ ok (first_message s)
  unfolding message_from_bytes
  message_from_bytes-ok s f =
      let header : leb frame_header_size (length s) ≡ true =
        le→leb _ _ (omega (arith, f.is_whole)) in
      rw (header, f.magic_ok, f.length_ok, le→leb _ _ f.is_whole, f.sum_ok) refl

  declared-append : (s t : Bytes) → frame_header_size ≤ length s → declared (s ++ t) ≡ declared s
  declared-append s t le = ap from_le_bytes (slice-append 16 4 s t (omega (arith, le)))

  -- More bytes behind a message change nothing of it.
  pub IsFramed-append :
      (s t : Bytes) → IsFramed s → IsFramed (s ++ t) × (first_message (s ++ t) ≡ first_message s)
  IsFramed-append s t f =
      let header : frame_header_size ≤ length s = omega (arith, f.is_whole) in
      let same = declared-append s t header in
      let payload_same = slice-append frame_header_size (declared s) s t f.is_whole in
      let magic_same = slice-append 0 4 s t (omega (arith, header)) in
      let sum_same = slice-append 20 4 s t (omega (arith, header)) in
      let command_same = slice-append 4 12 s t (omega (arith, header)) in
      (
        record {
          magic_ok = rw magic_same f.magic_ok;
          length_ok = rw same f.length_ok;
          is_whole = rw same (omega (arith, f.is_whole, length-append s t));
          sum_ok = rw (same, payload_same, sum_same) f.sum_ok;
        },
        rw (same, magic_same, command_same, sum_same, payload_same) refl,
      )
