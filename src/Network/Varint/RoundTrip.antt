-- ===== src/Network/Varint/RoundTrip.antt =====
-- `decode_varint` and `write_varint` are inverse to one another.
use ironcat.Base.{
  ℕ, ◌%◌, ◌<◌, ◌^◌, ◌≤◌, ◌≡◌, refl, ◌++◌, [], ◌∷◌, ltb, leb, ◌==◌, arith, Bool-cases, Bool, false,
  le→leb, lt→ltb, inl, inr, All, true, ◌∙◌, ==_iff,
}
use ironcat.Base.Result.{ok}
use ironcat.Network.Cursor.{
  Bytes, IsByte, ◌>>=◌, ◌>>◌, pure, require, to_le_bytes, read_uint, non_canonical_varint,
  ParseError, step, step_inv, read_uint-to_le_bytes, read_uint_inv,
}
use ironcat.Network.Varint.{write_varint, decode_tail, decode_varint}
use mathlib.Core.Path.{ap₂}

read_first : (b : ℕ) (rest : Bytes) → b < 256 → read_uint 1 (b ∷ rest) ≡ ok (b, rest)
unfolding to_le_bytes
read_first b rest h =
    let e : b % 256 ≡ b = omega arith in rw e at (read_uint-to_le_bytes 1 b rest (omega arith))

to_le_bytes_one : (b : ℕ) → b < 256 → to_le_bytes 1 b ≡ b ∷ []
unfolding to_le_bytes
to_le_bytes_one b h = ground arith

prefix : (b : ℕ) (rest : Bytes) → b < 256 → decode_varint (b ∷ rest) ≡ decode_tail b rest
unfolding decode_varint
prefix b rest h = step _ _ (read_first b rest h) refl

one_byte : (n : ℕ) (rest : Bytes) → n < 0xfd → decode_tail n rest ≡ ok (n, rest)
unfolding decode_tail pure
one_byte n rest h = ground arith

two_bytes :
    (n : ℕ) (rest : Bytes)
    → 0xfd ≤ n
    → n ≤ 0xffff
    → decode_tail 0xfd (to_le_bytes 2 n ++ rest) ≡ ok (n, rest)
unfolding decode_tail pure require ◌>>=◌
two_bytes n rest lo hi = rw (read_uint-to_le_bytes 2 n rest (omega arith)) (rw (le→leb _ _ lo))

four_bytes :
    (n : ℕ) (rest : Bytes)
    → 0xffff < n
    → n ≤ 0xffff_ffff
    → decode_tail 0xfe (to_le_bytes 4 n ++ rest) ≡ ok (n, rest)
unfolding decode_tail pure require ◌>>=◌
four_bytes n rest lo hi = rw (read_uint-to_le_bytes 4 n rest (omega arith)) (rw (lt→ltb _ _ lo))

eight_bytes :
    (n : ℕ) (rest : Bytes)
    → 0xffff_ffff < n
    → n < 2 ^ 64
    → decode_tail 0xff (to_le_bytes 8 n ++ rest) ≡ ok (n, rest)
unfolding decode_tail pure require ◌>>=◌
eight_bytes n rest lo hi = rw (read_uint-to_le_bytes 8 n rest (omega arith)) (rw (lt→ltb _ _ lo))

-- A number of 64 bits that `write_varint` wrote is read back, whatever follows it.
pub decode_varint-write_varint :
    (n : ℕ) (rest : Bytes) → n < 2 ^ 64 → decode_varint (write_varint n ++ rest) ≡ ok (n, rest)
unfolding write_varint
decode_varint-write_varint n rest h = ground (
  arith,
  prefix n rest,
  prefix 0xfd (to_le_bytes 2 n ++ rest),
  prefix 0xfe (to_le_bytes 4 n ++ rest),
  prefix 0xff (to_le_bytes 8 n ++ rest),
  one_byte n rest,
  two_bytes n rest,
  four_bytes n rest,
  eight_bytes n rest,
)

require-pure_inv :
    (b : Bool) (e : ParseError) (v n : ℕ) (t rest : Bytes)
    → (require b e >> pure v) t ≡ ok (n, rest)
    → (b ≡ true) × (v ≡ n) × (t ≡ rest)
unfolding pure require ◌>>=◌
require-pure_inv true e v n t rest h = ground arith
require-pure_inv false e v n t rest h = cc

-- What a wider form with a guard accepts.
guarded_inv :
    (k : ℕ) (test : ℕ → Bool) (x : ParseError) (s : Bytes) (n : ℕ) (rest : Bytes)
    → All IsByte s
    → (read_uint k >>= λ v. require (test v) x >> pure v) s ≡ ok (n, rest)
    → (test n ≡ true) × (s ≡ to_le_bytes k n ++ rest) × (n < 256 ^ k) × All IsByte rest
guarded_inv k test x s n rest h e =
    let (v, t, p, q) = step_inv (read_uint k) (λ v. require (test v) x >> pure v) s e in
    let (b, same, end) = require-pure_inv (test v) x v n t rest q in
    let (whole, bound, bytes) = read_uint_inv k s v t h p in
    (
      rw (← same) b,
      whole ∙ ap₂ (λ w r. to_le_bytes k w ++ r) same end,
      rw (← same) bound,
      rw (← end) bytes,
    )

form_two : (n : ℕ) → leb 0xfd n ≡ true → n < 65536 → write_varint n ≡ 0xfd ∷ to_le_bytes 2 n
unfolding write_varint
form_two n lo hi = ground arith

form_four : (n : ℕ) → ltb 0xffff n ≡ true → n < 4294967296 → write_varint n ≡ 0xfe ∷ to_le_bytes 4 n
unfolding write_varint
form_four n lo hi = ground arith

form_eight : (n : ℕ) → ltb 0xffff_ffff n ≡ true → write_varint n ≡ 0xff ∷ to_le_bytes 8 n
unfolding write_varint
form_eight n lo = ground arith

form_one : (n : ℕ) → n < 0xfd → write_varint n ≡ n ∷ []
unfolding write_varint
form_one n lo = ground arith

abbrev Decoded : Bytes → ℕ → Bytes → Type 0
Decoded s n rest = (s ≡ write_varint n ++ rest) × (n < 2 ^ 64) × All IsByte rest

one_byte_inv :
    (b : ℕ) (s : Bytes) (n : ℕ) (rest : Bytes)
    → b < 256
    → All IsByte s
    → b < 0xfd
    → pure b s ≡ ok (n, rest)
    → Decoded (b ∷ s) n rest
unfolding pure
one_byte_inv b s n rest lt h small e =
    let same : b ≡ n = ground arith in
    let end : s ≡ rest = ground arith in
    (cc (form_one b small, same, end), omega arith, rw (← end) h)

decode_tail_inv :
    (b : ℕ) (s : Bytes) (n : ℕ) (rest : Bytes)
    → b < 256
    → All IsByte s
    → decode_tail b s ≡ ok (n, rest)
    → Decoded (b ∷ s) n rest
unfolding decode_tail
decode_tail_inv b s n rest lt h e = elim (Bool-cases (b == 0xfd)) [
  | inl two ↦
      let (t, p, k, r) =
        guarded_inv 2 (λ v. leb 0xfd v) non_canonical_varint s n rest h (rw two at e) in
      (cc (form_two n t k, p, (==_iff _ _).0 two), omega arith, r)
  | inr not_two ↦ elim (Bool-cases (b == 0xfe)) [
    | inl four ↦
        let (t, p, k, r) =
          guarded_inv 4 (λ v. ltb 0xffff v) non_canonical_varint s n rest h
            (rw (not_two, four) at e) in
        (cc (form_four n t k, p, (==_iff _ _).0 four), omega arith, r)
    | inr not_four ↦ elim (Bool-cases (b == 0xff)) [
      | inl eight ↦
          let (t, p, k, r) =
            guarded_inv 8 (λ v. ltb 0xffff_ffff v) non_canonical_varint s n rest h
              (rw (not_two, not_four, eight) at e) in
          (cc (form_eight n t, p, (==_iff _ _).0 eight), omega arith, r)
      | inr not_eight ↦
          one_byte_inv b s n rest lt h (ground arith) (rw (not_two, not_four, not_eight) at e)
    ]
  ]
]

-- Every input of bytes that `decode_varint` accepts begins with the one form that `write_varint`
-- makes of the result, which is below 2^64, and what follows is left, still bytes.
pub write_varint-decode_varint :
    (s : Bytes) (n : ℕ) (rest : Bytes)
    → All IsByte s
    → decode_varint s ≡ ok (n, rest)
    → (s ≡ write_varint n ++ rest) × (n < 2 ^ 64) × All IsByte rest
unfolding decode_varint
write_varint-decode_varint s n rest h e =
    let (b, t, p, q) = step_inv (read_uint 1) decode_tail s e in
    let (whole, bound, bytes) = read_uint_inv 1 s b t h p in
    let first : to_le_bytes 1 b ≡ b ∷ [] = to_le_bytes_one b (omega arith) in
    rw (whole, first) (decode_tail_inv b t n rest (omega arith) bytes q)
