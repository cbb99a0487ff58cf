-- ===== src/Network/Message/RoundTrip.antt =====
-- network.rs: a message that was made and written is read back.
use ironcat.Base.{
  ℕ, zero, suc, ◌+◌, ◌-◌, ◌^◌, ◌≤◌, ◌<◌, ◌≡◌, refl, sym, ap, ◌∙◌, List, [], ◌∷◌, ◌++◌, append-nil,
  not, ltb, leb→le, ltb→lt, le→leb, ◌==◌, ==_refl, length, take, drop, take-append, replicate,
  length-append, length-take, All, arith,
}
use native.Mathlib.Nat.{pow-le-pow_right}
use ironcat.Base.Result.{ok, ensure, ensure-eq-ok, >>-eq-ok, ok-injective}
use ironcat.Network.Cursor.{
  Bytes, IsByte, to_le_bytes, from_le_bytes, from_le_bytes-to_le_bytes, from_le_bytes-lt,
}
use ironcat.Types.Hash.{Sha256, double_sha256}
use ironcat.Network.Message.{
  command_length, max_message_size, net_magic, frame_header_size, Message, command_not_ascii,
  command_too_long, command_too_short, all_ascii, calculate_checksum, new_message, message_to_bytes,
  slice, message_from_bytes,
}
use ironcat.Network.Message.Chunks.{
  declared, IsFramed, first_message, message_from_bytes-ok, IsFramed-append,
}

length-replicate {ℓ} : {A : Type ℓ} (n : ℕ) (a : A) → length (replicate n a) ≡ n
length-replicate zero a = refl
length-replicate (suc n) a = ap suc (length-replicate n a)

drop-beyond {ℓ} :
    {A : Type ℓ} (xs ys : List A) (n k : ℕ) → n ≡ length xs + k → drop n (xs ++ ys) ≡ drop k ys
drop-beyond [] ys n k e = ap (λ q. drop q ys) (omega (arith, e))
drop-beyond (x ∷ xs) ys zero k e = absurd (omega (arith, e))
drop-beyond (x ∷ xs) ys (suc n) k e = drop-beyond xs ys n k (omega (arith, e))

All-take {ℓ κ} : {A : Type ℓ} (P : A → Type κ) (n : ℕ) (xs : List A) → All P xs → All P (take n xs)
All-take P zero xs h = tt
All-take P (suc n) [] h = tt
All-take P (suc n) (x ∷ xs) h = (h.0, All-take P n xs h.1)

take_all {ℓ} : {A : Type ℓ} (xs : List A) → take (length xs) xs ≡ xs
take_all xs = ap (take (length xs)) (sym (append-nil xs)) ∙ take-append xs []

same_message :
    {a b : Message} {i j : ℕ}
    → a.magic ≡ b.magic
    → a.command ≡ b.command
    → a.payload_length ≡ b.payload_length
    → a.checksum ≡ b.checksum
    → a.payload ≡ b.payload
    → i ≡ j
    → ◌≡◌ {A = Message × ℕ} (a, i) (b, j)
same_message p q r s t n = λ k. (
  record { magic = p k; command = q k; payload_length = r k; checksum = s k; payload = t k },
  n k,
)

module _ (sha : Sha256) where
  checksum_small :
      (bytes : Bytes) → All IsByte (double_sha256 sha bytes) → calculate_checksum sha bytes < 2 ^ 32
  unfolding calculate_checksum
  checksum_small bytes h =
      let digest = double_sha256 sha bytes in
      let small = from_le_bytes-lt (take 4 digest) (All-take IsByte 4 digest h) in
      let few : length (take 4 digest) ≤ 4 = omega (arith, length-take 4 digest) in
      omega (arith, small, pow-le-pow_right {n = 256} (omega arith) few)

  -- A message as `new` makes it.
  record IsMade (bytes : Bytes) (m : Message) : Type 0 where
    magic_eq : m.magic ≡ net_magic
    command_size : length m.command ≡ 12
    length_eq : m.payload_length ≡ length bytes
    sum_eq : m.checksum ≡ calculate_checksum sha bytes
    payload_eq : m.payload ≡ bytes
    small : length bytes ≤ max_message_size

  new_message-IsMade :
      (name bytes : Bytes) (m : Message) → new_message sha name bytes ≡ ok m → IsMade bytes m
  unfolding new_message
  new_message-IsMade name bytes m h =
      let (h1, made) = >>-eq-ok _ (ok _) h in
      let (h2, _) = >>-eq-ok _ (ensure (not (length name == 0)) command_too_short) h1 in
      let (h3, short) =
        >>-eq-ok _ (ensure (ltb (length name) command_length) command_too_long) h2 in
      let (h4, _) = >>-eq-ok _ (ensure (all_ascii name) command_not_ascii) h3 in
      let room = ltb→lt _ _ (ensure-eq-ok _ _ short) in
      rw (← ok-injective made) (record {
        magic_eq = refl;
        command_size = omega (
          arith,
          length-append name (replicate (command_length - length name) 0),
          length-replicate {A = ℕ} (command_length - length name) 0,
          room,
        );
        length_eq = refl;
        sum_eq = refl;
        payload_eq = refl;
        small = leb→le _ _ (ensure-eq-ok _ _ h4);
      })

  -- The bytes of a message that `new` made have a whole frame in front.
  module _ (bytes : Bytes) (m : Message) (made : IsMade bytes m)
      (digest_bytes : All IsByte (double_sha256 sha bytes)) where
    fields : Bytes
    fields = to_le_bytes 4 m.payload_length ++ (to_le_bytes 4 m.checksum ++ m.payload)

    written : message_to_bytes m ≡ net_magic ++ (m.command ++ fields)
    unfolding message_to_bytes fields
    written = ap (λ q. q ++ (m.command ++ fields)) made.magic_eq

    -- What stands behind the command.
    behind : (n k : ℕ) → n ≡ 16 + k → drop n (message_to_bytes m) ≡ drop k fields
    behind n k e =
        let at : n ≡ 4 + (12 + k) = omega (arith, e) in
        ap (drop n) written
        ∙ drop-beyond net_magic (m.command ++ fields) n (12 + k) at
        ∙ drop-beyond m.command fields (12 + k) k (omega (arith, made.command_size))

    declared_is : declared (message_to_bytes m) ≡ length bytes
    unfolding fields to_le_bytes
    declared_is =
        ap (λ q. from_le_bytes (take 4 q)) (behind 16 0 (omega arith))
        ∙ from_le_bytes-to_le_bytes 4 m.payload_length (omega (arith, made.length_eq, made.small))
        ∙ made.length_eq

    sum_is : from_le_bytes (slice 20 4 (message_to_bytes m)) ≡ calculate_checksum sha bytes
    unfolding fields to_le_bytes
    sum_is =
        ap (λ q. from_le_bytes (take 4 q)) (behind 20 4 (omega arith))
        ∙ from_le_bytes-to_le_bytes 4 m.checksum
            (omega (arith, made.sum_eq, checksum_small bytes digest_bytes))
        ∙ made.sum_eq

    payload_is : drop frame_header_size (message_to_bytes m) ≡ bytes
    unfolding fields to_le_bytes
    payload_is = behind 24 8 (omega arith) ∙ made.payload_eq

    whole_size : length (message_to_bytes m) ≡ frame_header_size + length bytes
    unfolding fields to_le_bytes
    whole_size =
        let size = length-append m.command fields in
        ap length written ∙ omega (arith, size, made.command_size, ap length made.payload_eq)

    payload_slice :
        slice frame_header_size (declared (message_to_bytes m)) (message_to_bytes m) ≡ bytes
    payload_slice = rw (declared_is, payload_is) (take_all bytes)

    command_is : slice 4 12 (message_to_bytes m) ≡ m.command
    command_is =
        ap (slice 4 12) written
        ∙ ap (λ n. take n (m.command ++ fields)) (sym made.command_size)
        ∙ take-append m.command fields

    magic_is : slice 0 4 (message_to_bytes m) ≡ net_magic
    magic_is = ap (take 4) written

    framed : IsFramed sha (message_to_bytes m)
    framed = record {
      magic_ok = rw magic_is refl;
      length_ok = rw declared_is (le→leb _ _ made.small);
      is_whole = omega (arith, whole_size, declared_is);
      sum_ok = rw (payload_slice, sum_is) (==_refl (calculate_checksum sha bytes));
    }

    first_is : first_message sha (message_to_bytes m) ≡ (m, length (message_to_bytes m))
    first_is =
        same_message (magic_is ∙ sym made.magic_eq) command_is (declared_is ∙ sym made.length_eq)
          (sum_is ∙ sym made.sum_eq) (payload_slice ∙ sym made.payload_eq)
          (omega (arith, whole_size, declared_is))

  -- A message that `new` made, written and followed by anything, is read back, and its length is the
  -- number of bytes taken. The digest's elements are bytes.
  pub message_from_bytes-message_to_bytes :
      (name bytes rest : Bytes) (m : Message)
      → All IsByte (double_sha256 sha bytes)
      → new_message sha name bytes ≡ ok m
      → message_from_bytes sha (message_to_bytes m ++ rest) ≡ ok (m, length (message_to_bytes m))
  message_from_bytes-message_to_bytes name bytes rest m digest_bytes h =
      let made = new_message-IsMade name bytes m h in
      let (whole, same) =
        IsFramed-append sha (message_to_bytes m) rest (framed bytes m made digest_bytes) in
      message_from_bytes-ok sha (message_to_bytes m ++ rest) whole
      ∙ ap ok (same ∙ first_is bytes m made digest_bytes)
