-- ===== src/Validation/Context/Height.antt =====
-- The height that a coinbase begins with.
use ironcat.Base.{
  ℕ, zero, suc, ◌+◌, ◌-◌, ◌*◌, ◌/◌, ◌%◌, ◌^◌, ◌≤◌, ◌<◌, ◌≡◌, refl, sym, ap, ◌∙◌, List, [], ◌∷◌,
  ◌++◌, true, false, ◌&&◌, ◌==◌, ==_iff, leb, ltb, if◌then◌else◌, length, take, drop, take-append,
  take-append-drop, arith, Bool-cases, inl, inr, le→leb, lt→leb_false,
}
use native.Mathlib.Nat.{pow-suc}
use ironcat.Base.Int.{pos, leb_ℤ}
use ironcat.Base.Result.{ok, ensure_then, >>-eq-ok, ensure-eq-ok}
use ironcat.Network.Cursor.{Bytes, from_le_bytes}
use ironcat.Types.Hash.{bytes_eq→eq}
use ironcat.Types.Transaction.{TxIn, Transaction}
use ironcat.Types.Block.{Block}
use ironcat.Validation.Context.{
  bip34_height, max_future_block_time, too_old, too_new, version_too_low, script_too_short,
  minimal_bytes, with_sign, encode_script_height, check_script, check_bip34_height, check_first,
  check_block_context,
}

-- The number that the script pushes first.
unfoldable pub pushed_height : Bytes → ℕ
pushed_height [] = 0
pushed_height (b ∷ rest) =
    if b == 0
    then 0
    else (if leb 0x51 b && leb b 0x60 then b - 0x50 else from_le_bytes (take b rest))

pub minimal_bytes_lem : (n v : ℕ) → v < 256 ^ n → from_le_bytes (minimal_bytes n v) ≡ v
unfolding minimal_bytes from_le_bytes
minimal_bytes_lem zero v h = omega arith
minimal_bytes_lem (suc n) v h = elim (Bool-cases (v == 0)) [
  | inl e ↦ rw e (sym ((==_iff _ _).0 e))
  | inr e ↦
      let small : v / 256 < 256 ^ n = grind (arith, pow-suc) in
      rw e (omega (arith, minimal_bytes_lem n (v / 256) small))
]

pub length-minimal_bytes : (n v : ℕ) → length (minimal_bytes n v) ≤ n
unfolding minimal_bytes
length-minimal_bytes zero v = omega arith
length-minimal_bytes (suc n) v = elim (Bool-cases (v == 0)) [
  | inl e ↦ rw e (omega arith)
  | inr e ↦ rw e (omega (arith, length-minimal_bytes n (v / 256)))
]

-- The zero on top changes no value, and is one more byte at most.
with_sign_lem :
    (bs : Bytes)
    → (from_le_bytes (with_sign bs) ≡ from_le_bytes bs)
      × (length (with_sign bs) ≤ length bs + 1)
      × (length bs ≤ length (with_sign bs))
unfolding with_sign from_le_bytes
with_sign_lem [] = (refl, omega arith, omega arith)
with_sign_lem (b ∷ []) = elim (Bool-cases (leb 0x80 b)) [
  | inl e ↦ rw e (omega arith, omega arith, omega arith)
  | inr e ↦ rw e (refl, omega arith, omega arith)
]
with_sign_lem (b ∷ c ∷ rest) =
    let (e, p, q) = with_sign_lem (c ∷ rest) in (ap (λ n. b + 256 * n) e, omega arith, omega arith)

has_byte : (bs : Bytes) → 0 < from_le_bytes bs → 0 < length bs
unfolding from_le_bytes
has_byte [] h = absurd (omega arith)
has_byte (b ∷ bs) h = omega arith

-- The encoding of a u32 height, followed by anything, pushes that height.
pushed_height-encode :
    (h : ℕ) (rest : Bytes) → h < 2 ^ 32 → pushed_height (encode_script_height h ++ rest) ≡ h
unfolding pushed_height encode_script_height
pushed_height-encode h rest lt = elim (Bool-cases (h == 0)) [
  | inl e ↦ rw e (sym ((==_iff _ _).0 e))
  | inr e ↦ elim (Bool-cases (leb h 16)) [
    | inl small ↦ rw (e, small) (short h e small)
    | inr large ↦
        let number = with_sign (minimal_bytes 4 h) in
        let (same, most, least) = with_sign_lem (minimal_bytes 4 h) in
        let number_is : from_le_bytes number ≡ h = same ∙ minimal_bytes_lem 4 h (omega arith) in
        let some_byte : 0 < length number =
          has_byte number (omega (arith, number_is, nonzero h e)) in
        let few : length number ≤ 5 = omega (arith, most, length-minimal_bytes 4 h) in
        let first : (length number == 0) ≡ false = ground arith in
        let second : leb 0x51 (length number) ≡ false = lt→leb_false _ _ (omega arith) in
        rw (e, large, first, second, take-append) number_is
  ]
]
  where
    nonzero : (n : ℕ) → (n == 0) ≡ false → 0 < n
    nonzero n a = ground arith

    short : (n : ℕ) → (n == 0) ≡ false → leb n 16 ≡ true → pushed_height ((0x50 + n) ∷ rest) ≡ n
    short n a b = ground arith

check_script_inv :
    (script expected : Bytes)
    → check_script script expected ≡ ok tt
    → script ≡ expected ++ drop (length expected) script
check_script_inv script expected h =
    let (_, e) = ensure_then (leb (length expected) (length script)) script_too_short _ h in
    let same = bytes_eq→eq _ _ (ensure-eq-ok _ _ e) in
    sym (take-append-drop (length expected) script)
    ∙ ap (λ front. front ++ drop (length expected) script) same

check_bip34_height-pushes :
    (is : List TxIn) (a b : ℕ)
    → a < 2 ^ 32
    → b < 2 ^ 32
    → check_bip34_height is a ≡ ok tt
    → check_bip34_height is b ≡ ok tt
    → a ≡ b
unfolding check_bip34_height
check_bip34_height-pushes [] a b la lb ha hb = cc
check_bip34_height-pushes (i ∷ is) a b la lb ha hb =
    let pa =
      ap pushed_height (check_script_inv i.script_sig (encode_script_height a) ha)
      ∙ pushed_height-encode a _ la in
    let pb =
      ap pushed_height (check_script_inv i.script_sig (encode_script_height b) hb)
      ∙ pushed_height-encode b _ lb in
    sym pa ∙ pb

first_pushes :
    (txs : List Transaction) (a b : ℕ)
    → a < 2 ^ 32
    → b < 2 ^ 32
    → check_first txs a ≡ ok tt
    → check_first txs b ≡ ok tt
    → a ≡ b
first_pushes [] a b la lb ha hb = cc
first_pushes (tx ∷ txs) a b la lb ha hb = check_bip34_height-pushes tx.vin a b la lb ha hb

-- What a block that was accepted from the activation height on has passed.
accepted_first :
    (b : Block) (height mtp time : ℕ)
    → bip34_height ≤ height
    → check_block_context b height mtp time ≡ ok tt
    → check_first b.transactions height ≡ ok tt
unfolding check_block_context
accepted_first b height mtp time high h =
    let (_, h1) = ensure_then (ltb mtp b.header.timestamp) too_old _ h in
    let (_, h2) =
      ensure_then (leb b.header.timestamp ((time + max_future_block_time) % 2 ^ 32)) too_new _ h1 in
    let (_, h3) =
      ensure_then (leb_ℤ (pos 2) b.header.version) version_too_low _ (rw (le→leb _ _ high) at h2) in
    (>>-eq-ok (check_first b.transactions height) _ h3).0

-- From the activation height of BIP34 on, a block is accepted at one u32 height only, whatever the
-- times it is checked against.
pub check_block_context-one_height :
    (block : Block) (a b mtp_a mtp_b time_a time_b : ℕ)
    → bip34_height ≤ a
    → bip34_height ≤ b
    → a < 2 ^ 32
    → b < 2 ^ 32
    → check_block_context block a mtp_a time_a ≡ ok tt
    → check_block_context block b mtp_b time_b ≡ ok tt
    → a ≡ b
check_block_context-one_height block a b mtp_a mtp_b time_a time_b high_a high_b la lb ha hb =
    first_pushes block.transactions a b la lb (accepted_first block a mtp_a time_a high_a ha)
      (accepted_first block b mtp_b time_b high_b hb)
