-- ===== src/Network/Message/Stream.antt =====
-- network.rs: the queue, whatever the chunks in which the bytes arrive.
use ironcat.Base.{
  ℕ, zero, suc, ◌+◌, ◌*◌, ◌≤◌, ◌<◌, ◌≡◌, refl, sym, ap, ◌∙◌, List, [], ◌∷◌, ◌++◌, append_assoc,
  true, false, none, some, leb, ltb, le→ltb_false, ltb_false→le, length, drop, length-append,
  length-drop, arith, Bool-cases, inl, inr,
}
use ironcat.Base.Result.{Result, ok, err, ensure-eq-ok}
use ironcat.Network.Cursor.{Bytes}
use ironcat.Types.Hash.{Sha256}
use ironcat.Network.Message.{
  max_message_size, Message, MessageParseError, incomplete, corrupt, message_from_bytes, Extracted,
  with_message, extract_round, extract, extract_all, NetworkQueue, take_extracted,
  process_incoming_data,
}
use ironcat.Network.Message.Chunks.{
  drop-append_left, message_from_bytes-eq-ok, message_from_bytes-ok, IsFramed-append,
}

err-ne-ok {ℓ κ} :
    {E : Type ℓ} {A : Type κ} {e : E} {a : A} → ◌≡◌ {A = Result E A} (err e) (ok a) → ⊥
err-ne-ok h = cc

ap2_queue :
    {b c : Bytes} {ms ns : List Message}
    → b ≡ c
    → ms ≡ ns
    → ◌≡◌ {A = NetworkQueue}
        (record { buffer = b; messages = ms })
        (record { buffer = c; messages = ns })
ap2_queue h k = rw (h, k) refl

module _ (sha : Sha256) where
  -- A message at the front has bytes, and no more than there are.
  message-size :
      (s : Bytes) (p : Message × ℕ) → message_from_bytes sha s ≡ ok p → (0 < p.1) × (p.1 ≤ length s)
  message-size s p h =
      let (framed, same) = message_from_bytes-eq-ok sha s p h in
      let size = ap (λ q. q.1) same in (omega (arith, size), omega (arith, size, framed.is_whole))

  -- Fuel beyond the number of the bytes changes nothing.
  extract_fuel :
      (j k : ℕ) (s : Bytes) → length s ≤ j → length s ≤ k → extract sha j s ≡ extract sha k s
  unfolding extract message_from_bytes
  extract_fuel zero zero s hj hk = refl
  extract_fuel zero (suc k) [] hj hk = refl
  extract_fuel zero (suc k) (b ∷ s) hj hk = absurd (omega (arith, hj))
  extract_fuel (suc j) zero [] hj hk = refl
  extract_fuel (suc j) zero (b ∷ s) hj hk = absurd (omega (arith, hk))
  extract_fuel (suc j) (suc k) s hj hk = go (extract_fuel j k) (message_from_bytes sha s) refl
    where
      go :
          ((rest : Bytes)
            → length rest ≤ j
            → length rest ≤ k
            → extract sha j rest ≡ extract sha k rest)
          → (r : Result MessageParseError (Message × ℕ)) → message_from_bytes sha s ≡ r
          → extract_round sha r s (extract sha j) ≡ extract_round sha r s (extract sha k)
      go ih (err incomplete) e = refl
      go ih (err (corrupt c)) e = refl
      go ih (ok p) e =
          let (some_byte, inside) = message-size s p e in
          let fewer = length-drop p.1 s in
          ap (with_message sha p.0) (
            ih (drop p.1 s) (omega (arith, some_byte, inside, fewer, hj))
              (omega (arith, some_byte, inside, fewer, hk)))

  extract_all-ok :
      (s : Bytes) (p : Message × ℕ)
      → message_from_bytes sha s ≡ ok p
      → extract_all sha s ≡ with_message sha p.0 (extract_all sha (drop p.1 s))
  unfolding extract_all extract
  extract_all-ok [] p e =
      let (some_byte, inside) = message-size [] p e in absurd (omega (arith, some_byte, inside))
  extract_all-ok (b ∷ s) p e =
      let (some_byte, inside) = message-size (b ∷ s) p e in
      let fewer = length-drop p.1 (b ∷ s) in
      rw e (
        ap (with_message sha p.0) (
          extract_fuel (length s) (length (drop p.1 (b ∷ s))) (drop p.1 (b ∷ s))
            (omega (arith, some_byte, inside, fewer)) (omega arith)))

  abbrev prepend : List Message → Extracted sha → Extracted sha
  prepend ms r = (ms ++ r.0, r.1, r.2)

  -- What is taken from the front is taken before more bytes arrive as well as after.
  extract-append :
      (k : ℕ) (s t : Bytes)
      → length s ≤ k
      → (extract sha k s).2 ≡ none
      → (extract_all sha (s ++ t)
          ≡ prepend (extract sha k s).0 (extract_all sha ((extract sha k s).1 ++ t)))
        × (length (extract sha k s).1 ≤ length s)
  unfolding extract
  extract-append zero s t le h = (refl, omega arith)
  extract-append (suc k) s t le h = go (extract-append k) (message_from_bytes sha s) refl h
    where
      go :
          ((s' t' : Bytes)
            → length s' ≤ k
            → (extract sha k s').2 ≡ none
            → (extract_all sha (s' ++ t')
                ≡ prepend (extract sha k s').0 (extract_all sha ((extract sha k s').1 ++ t')))
              × (length (extract sha k s').1 ≤ length s'))
          → (r : Result MessageParseError (Message × ℕ)) → message_from_bytes sha s ≡ r
          → (extract_round sha r s (extract sha k)).2 ≡ none
          → (extract_all sha (s ++ t)
              ≡ prepend
                  (extract_round sha r s (extract sha k)).0
                  (extract_all sha ((extract_round sha r s (extract sha k)).1 ++ t)))
            × (length (extract_round sha r s (extract sha k)).1 ≤ length s)
      go ih (err incomplete) e h = (refl, omega arith)
      go ih (err (corrupt c)) e h = cc
      go ih (ok p) e h =
          let (some_byte, inside) = message-size s p e in
          let fewer = length-drop p.1 s in
          let (same, shorter) = ih (drop p.1 s) t (omega (arith, some_byte, inside, fewer, le)) h in
          let (framed, p_is) = message_from_bytes-eq-ok sha s p e in
          let (framed_too, first_same) = IsFramed-append sha s t framed in
          let parsed =
            message_from_bytes-ok sha (s ++ t) framed_too ∙ ap ok (first_same ∙ sym p_is) in
          (
            extract_all-ok (s ++ t) p parsed
                ∙ ap (λ q. with_message sha p.0 (extract_all sha q))
                    (drop-append_left p.1 s t inside)
                ∙ ap (with_message sha p.0) same,
            omega (arith, shorter, fewer),
          )

  -- When the queue takes bytes: what it found in them, and what it leaves.
  record IsTaken (q : NetworkQueue) (bytes : Bytes) (r : NetworkQueue) : Type 0 where
    within : ltb (max_message_size * 2) (length q.buffer + length bytes) ≡ false
    sound : (extract_all sha (q.buffer ++ bytes)).2 ≡ none
    buffer_eq : r.buffer ≡ (extract_all sha (q.buffer ++ bytes)).1
    messages_eq : r.messages ≡ q.messages ++ (extract_all sha (q.buffer ++ bytes)).0
    small : leb (length (extract_all sha (q.buffer ++ bytes)).1) max_message_size ≡ true

  take_extracted-eq-ok :
      (q r : NetworkQueue) (whole : Bytes) (x : Extracted sha)
      → take_extracted q whole x ≡ (r, ok tt)
      → (x.2 ≡ none)
        × (r.buffer ≡ x.1)
        × (r.messages ≡ q.messages ++ x.0)
        × (leb (length x.1) max_message_size ≡ true)
  take_extracted-eq-ok q r whole (found, rest, some c) h = absurd (err-ne-ok (ap (λ p. p.1) h))
  take_extracted-eq-ok q r whole (found, rest, none) h = (
    refl,
    sym (ap (λ p. p.0.buffer) h),
    sym (ap (λ p. p.0.messages) h),
    ensure-eq-ok _ _ (ap (λ p. p.1) h),
  )

  process_incoming_data-IsTaken :
      (q : NetworkQueue) (bytes : Bytes) (r : NetworkQueue)
      → process_incoming_data sha q bytes ≡ (r, ok tt)
      → IsTaken q bytes r
  unfolding process_incoming_data
  process_incoming_data-IsTaken q bytes r h =
      elim (Bool-cases (ltb (max_message_size * 2) (length q.buffer + length bytes))) [
        | inl y ↦ absurd (err-ne-ok (ap (λ p. p.1) (rw y at h)))
        | inr n ↦
            let (sound, buffer, messages, small) =
              take_extracted-eq-ok q r (q.buffer ++ bytes) _ (rw n at h) in
            record {
              within = n;
              sound = sound;
              buffer_eq = buffer;
              messages_eq = messages;
              small = small;
            }
      ]

  IsTaken-process_incoming_data :
      (q : NetworkQueue) (bytes : Bytes) (r : NetworkQueue)
      → IsTaken q bytes r
      → process_incoming_data sha q bytes ≡ (r, ok tt)
  unfolding process_incoming_data
  IsTaken-process_incoming_data q bytes r t =
      let state : record {
        buffer = (extract_all sha (q.buffer ++ bytes)).1;
        messages = q.messages ++ (extract_all sha (q.buffer ++ bytes)).0;
      }
          ≡ r =
        ap2_queue (sym t.buffer_eq) (sym t.messages_eq) in
      rw (t.within, t.sound, t.small) (ap (λ x. (x, ok tt)) state)

  -- Bytes that the queue takes at once it takes in two chunks as well, where it takes the first of
  -- them, and it ends with the same messages and the same buffer.
  pub process_incoming_data-append :
      (q first r : NetworkQueue) (a b : Bytes)
      → process_incoming_data sha q a ≡ (first, ok tt)
      → process_incoming_data sha q (a ++ b) ≡ (r, ok tt)
      → process_incoming_data sha first b ≡ (r, ok tt)
  unfolding extract_all
  process_incoming_data-append q first r a b ha hab =
      let t = process_incoming_data-IsTaken q a first ha in
      let u = process_incoming_data-IsTaken q (a ++ b) r hab in
      let whole = q.buffer ++ a in
      let (same, shorter) = extract-append (length whole) whole b (omega arith) t.sound in
      let all : extract_all sha (q.buffer ++ (a ++ b))
          ≡ prepend (extract_all sha whole).0 (extract_all sha (first.buffer ++ b)) =
        ap (extract_all sha) (sym (append_assoc q.buffer a b))
        ∙ same
        ∙ ap (λ q'. prepend (extract_all sha whole).0 (extract_all sha (q' ++ b)))
            (sym t.buffer_eq) in
      IsTaken-process_incoming_data first b r (record {
        within = le→ltb_false _ _ (
            omega (
              arith,
              ltb_false→le _ _ u.within,
              shorter,
              length-append q.buffer a,
              length-append a b,
              ap length t.buffer_eq,
            ));
        sound = sym (ap (λ x. x.2) all) ∙ u.sound;
        buffer_eq = u.buffer_eq ∙ ap (λ x. x.1) all;
        messages_eq =
            u.messages_eq
            ∙ ap (λ x. q.messages ++ x.0) all
            ∙ sym (append_assoc q.messages (extract_all sha whole).0 _)
            ∙ ap (λ ms. ms ++ (extract_all sha (first.buffer ++ b)).0) (sym t.messages_eq);
        small = ap (λ x. leb (length x.1) max_message_size) (sym all) ∙ u.small;
      })
