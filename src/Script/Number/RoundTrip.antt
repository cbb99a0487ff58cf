-- ===== src/Script/Number/RoundTrip.antt =====
-- script/engine.rs: what a script number reads back as, and what its truth says of it.
use ironcat.Base.{
  ℕ, zero, suc, ◌+◌, ◌-◌, ◌*◌, ◌/◌, ◌^◌, ◌≤◌, ◌<◌, ◌≡◌, refl, ap, ◌∙◌, [], ◌∷◌, Bool, true, false,
  ◌==◌, ==_iff, leb, ltb, le→leb, leb→le, le→ltb_false, leb_false→lt, if◌then◌else◌, length, arith,
  Bool-cases, inl, inr, All, ◌⊎◌,
}
use native.Mathlib.Nat.{pow-suc, pow-le-pow_right}
use ironcat.Base.Int.{ℤ, pos, negsuc, sub_ℕ, pos_part, neg_part}
use ironcat.Base.Result.{Result, ok}
use ironcat.Network.Cursor.{Bytes, IsByte, from_le_bytes}
use ironcat.Validation.Context.{minimal_bytes}
use ironcat.Validation.Context.Height.{minimal_bytes_lem}
use ironcat.Script.Error.{ScriptError}
use ironcat.Script.Number.{
  set_sign, has_sign_bit, encode_script_number, last_has_sign, decode_script_number,
}

-- The value of the sign bit of `n` bytes.
abbrev sign_weight : ℕ → ℕ
sign_weight n = 0x80 * 256 ^ (n - 1)

sign_weight-suc : (n : ℕ) → sign_weight (suc (suc n)) ≡ 256 * sign_weight (suc n)
sign_weight-suc n =
    let more : 256 ^ (suc (suc n) - 1) ≡ 256 ^ n * 256 =
      ap (λ k. 256 ^ k) (omega arith) ∙ pow-suc 256 n in
    let less : 256 ^ (suc n - 1) ≡ 256 ^ n = ap (λ k. 256 ^ k) (omega arith) in
    omega (arith, more, less)

minimal_bytes_zero : (n : ℕ) → minimal_bytes n 0 ≡ []
unfolding minimal_bytes
minimal_bytes_zero zero = refl
minimal_bytes_zero (suc n) = refl

one_byte_more :
    (v k : ℕ)
    → 0 < v
    → (v / 256 ≡ 0 → k ≡ 0)
    → (0 < v / 256 → 256 ^ k ≤ 256 * (v / 256))
    → 256 ^ suc k ≤ 256 * v
one_byte_more v k positive none_left below = elim (Bool-cases (v / 256 == 0)) [
  | inl top ↦ rw (none_left ((==_iff _ _).0 top)) (omega (arith, positive))
  | inr more ↦ omega (arith, below (ground (arith, more)), pow-suc 256 k)
]

-- The encoding of a number has no zero byte on top.
minimal_bytes_top : (n v : ℕ) → v < 256 ^ n → 0 < v → 256 ^ length (minimal_bytes n v) ≤ 256 * v
unfolding minimal_bytes
minimal_bytes_top zero v h positive = absurd (omega arith)
minimal_bytes_top (suc n) v h positive = elim (Bool-cases (v == 0)) [
  | inl e ↦ absurd (omega (arith, (==_iff v 0).0 e, positive))
  | inr e ↦
      let small : v / 256 < 256 ^ n = grind (arith, pow-suc) in
      rw e (
        one_byte_more v (length (minimal_bytes n (v / 256))) positive
          (λ top. ap (λ q. length (minimal_bytes n q)) top ∙ ap length (minimal_bytes_zero n))
          (minimal_bytes_top n (v / 256) small))
]

minimal_bytes-IsByte : (n v : ℕ) → All IsByte (minimal_bytes n v)
unfolding minimal_bytes
minimal_bytes-IsByte zero v = tt
minimal_bytes-IsByte (suc n) v = elim (Bool-cases (v == 0)) [
  | inl e ↦ rw e tt
  | inr e ↦ rw e (omega arith, minimal_bytes-IsByte n (v / 256))
]

-- What the sign adds to a number of at least one byte.
record Signed (negative : Bool) (bs signed : Bytes) : Type 0 where
  value_eq :
      from_le_bytes signed
      ≡ from_le_bytes bs + (if negative then sign_weight (length signed) else 0)
  sign_eq : last_has_sign signed ≡ negative
  some_byte : 0 < length signed
  size : (length signed ≡ length bs) ⊎ (0x80 * 256 ^ length signed ≤ 65536 * from_le_bytes bs)

set_sign-Signed :
    (negative : Bool) (b : ℕ) (bs : Bytes)
    → All IsByte (b ∷ bs)
    → Signed negative (b ∷ bs) (set_sign negative (b ∷ bs))
unfolding set_sign from_le_bytes last_has_sign
set_sign-Signed true b [] small = elim (Bool-cases (has_sign_bit b)) [
  | inl y ↦ rw y (record {
    value_eq = omega arith;
    sign_eq = refl;
    some_byte = omega arith;
    size = inr (omega (arith, leb→le _ _ y));
  })
  | inr n ↦ rw n (record {
    value_eq = omega arith;
    sign_eq = le→leb _ _ (omega arith);
    some_byte = omega arith;
    size = inl refl;
  })
]
set_sign-Signed false b [] small = elim (Bool-cases (has_sign_bit b)) [
  | inl y ↦ rw y (record {
    value_eq = omega arith;
    sign_eq = refl;
    some_byte = omega arith;
    size = inr (omega (arith, leb→le _ _ y));
  })
  | inr n ↦
      rw n
        (record { value_eq = omega arith; sign_eq = n; some_byte = omega arith; size = inl refl })
]
set_sign-Signed negative b (c ∷ bs) small =
    let ih = set_sign-Signed negative c bs small.1 in
    let rest = set_sign negative (c ∷ bs) in
    record {
      value_eq = weigh negative (length rest) _ _ ih.some_byte ih.value_eq;
      sign_eq = under rest ih.some_byte ∙ ih.sign_eq;
      some_byte = omega arith;
      size = elim ih.size [
        | inl same ↦ inl (ap suc same)
        | inr large ↦ inr (omega (arith, large, pow-suc 256 (length rest)))
      ];
    }
  where
    under : (s : Bytes) → 0 < length s → last_has_sign (b ∷ s) ≡ last_has_sign s
    under [] h = absurd (omega arith)
    under (x ∷ s) h = refl

    weigh :
        (sign : Bool) (n x y : ℕ)
        → 0 < n
        → x ≡ y + (if sign then sign_weight n else 0)
        → b + 256 * x ≡ b + 256 * y + (if sign then sign_weight (suc n) else 0)
    weigh false n x y h e = omega (arith, e)
    weigh true (suc n) x y h e = omega (arith, e, sign_weight-suc n)
    weigh true zero x y h e = absurd (omega arith)

-- A magnitude below 2^31 is encoded in four bytes at most.
few_bytes : (k u : ℕ) → u < 2 ^ 31 → 256 ^ k ≤ 512 * u → k ≤ 4
few_bytes k u h le = elim (Bool-cases (leb k 4)) [
  | inl y ↦ leb→le _ _ y
  | inr n ↦
      let large : 256 ^ 5 ≤ 256 ^ k = pow-le-pow_right (omega arith) (leb_false→lt _ _ n) in
      absurd (omega (arith, large, le, h))
]

record Encoded (negative : Bool) (u : ℕ) (signed : Bytes) : Type 0 where
  value_eq : from_le_bytes signed ≡ u + (if negative then sign_weight (length signed) else 0)
  sign_eq : last_has_sign signed ≡ negative
  some_byte : 0 < length signed
  few : length signed ≤ 4

encoded :
    (negative : Bool) (u : ℕ)
    → 0 < u
    → u < 2 ^ 31
    → Encoded negative u (set_sign negative (minimal_bytes 8 u))
unfolding from_le_bytes
encoded negative u positive h =
    go (minimal_bytes 8 u) (minimal_bytes_lem 8 u (omega (arith, h)))
      (minimal_bytes_top 8 u (omega (arith, h)) positive) (minimal_bytes-IsByte 8 u)
  where
    no_bytes : from_le_bytes [] ≡ u → ⊥
    no_bytes e = omega (arith, e, positive)

    go :
        (bs : Bytes)
        → from_le_bytes bs ≡ u
        → 256 ^ length bs ≤ 256 * u
        → All IsByte bs
        → Encoded negative u (set_sign negative bs)
    go [] e top bytes = absurd (no_bytes e)
    go (b ∷ bs) e top bytes =
        let s = set_sign-Signed negative b bs bytes in
        record {
          value_eq = rw (← e) s.value_eq;
          sign_eq = s.sign_eq;
          some_byte = s.some_byte;
          few = elim s.size [
            | inl same ↦ few_bytes _ u h (rw same (omega (arith, top)))
            | inr large ↦ few_bytes _ u h (omega (arith, large, e))
          ];
        }

decode-Encoded :
    (negative : Bool) (u : ℕ) (signed : Bytes)
    → Encoded negative u signed
    → decode_script_number signed ≡ ok (if negative then sub_ℕ 0 u else pos u)
unfolding decode_script_number
decode-Encoded negative u signed e =
    let filled : (length signed == 0) ≡ false = ground (arith, e.some_byte) in
    let short : ltb 4 (length signed) ≡ false = le→ltb_false _ _ e.few in
    rw (filled, short, e.sign_eq, e.value_eq) (signed_value negative (sign_weight (length signed)))
  where
    signed_value :
        (sign : Bool) (w : ℕ)
        → ◌≡◌ {A = Result ScriptError ℤ}
            (if sign
              then ok (sub_ℕ 0 (u + (if sign then w else 0) - w))
              else ok (pos (u + (if sign then w else 0))))
            (ok (if sign then sub_ℕ 0 u else pos u))
    signed_value true w = ap (λ q. ok (sub_ℕ 0 q)) (omega arith)
    signed_value false w = ap (λ q. ok (pos q)) (omega arith)

abbrev pub magnitude : ℤ → ℕ
magnitude n = pos_part n + neg_part n

-- A number of a magnitude below 2^31 reads back from its encoding.
pub decode-encode :
    (n : ℤ) → magnitude n < 2 ^ 31 → decode_script_number (encode_script_number n) ≡ ok n
unfolding encode_script_number decode_script_number set_sign
decode-encode (pos zero) small = rw (minimal_bytes_zero 8) refl
decode-encode (pos (suc n)) small =
    decode-Encoded false (suc n) _ (encoded false (suc n) (omega arith) (omega (arith, small)))
decode-encode (negsuc n) small =
    decode-Encoded true (n + 1) _ (encoded true (n + 1) (omega arith) (omega (arith, small)))
    ∙ ap ok (ground arith)
