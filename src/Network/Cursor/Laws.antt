-- ===== src/Network/Cursor/Laws.antt =====
-- What the readers return on the bytes that the writers make.
use ironcat.Base.{
  inl, inr, ℕ, zero, suc, ◌/◌, ◌^◌, ◌<◌, ◌≡◌, refl, ap, List, [], ◌∷◌, ◌++◌, arith, length, All,
  All-append_left, All-append_right, append_assoc,
}
use ironcat.Base.Int.{ℤ, pos, negsuc, IsI32, IsI64}
use ironcat.Base.Result.{Result, ok, err, Result-cases}
use ironcat.Network.Cursor.Defs.{
  Bytes, IsByte, Reader, continue, ◌>>=◌, pure, to_le_bytes, from_le_bytes, read_exact, read_uint,
  to_unsigned, from_unsigned, i32_to_le_bytes, i64_to_le_bytes, read_i32, read_i64, read_many,
  write_all, ParseError,
}
use native.Mathlib.Nat.{pow-suc}

module _ {A B : Type 0} where
  -- One step of a reader whose first part succeeds.
  pub step :
      (m : Reader A) (f : A → Reader B) {s r : Bytes} {a : A} {z : Result ParseError (B × Bytes)}
      → m s ≡ ok (a, r)
      → f a r ≡ z
      → (m >>= f) s ≡ z
  unfolding ◌>>=◌
  step m f p q = rw p q

  continue_inv :
      (x : Result ParseError (A × Bytes)) (f : A → Reader B) {y : B × Bytes}
      → continue x f ≡ ok y
      → (a : A) × (r : Bytes) × (x ≡ ok (a, r)) × (f a r ≡ ok y)
  continue_inv (ok (a, r)) f h = (a, r, refl, h)
  continue_inv (err e) f h = cc

  -- A reader that succeeds has parts that succeed.
  pub step_inv :
      (m : Reader A) (f : A → Reader B) (s : Bytes) {y : B × Bytes}
      → (m >>= f) s ≡ ok y
      → (a : A) × (r : Bytes) × (m s ≡ ok (a, r)) × (f a r ≡ ok y)
  unfolding ◌>>=◌
  step_inv m f s h = continue_inv (m s) f h

pub read_exact-append :
    (n : ℕ) (xs rest : Bytes) → length xs ≡ n → read_exact n (xs ++ rest) ≡ ok (xs, rest)
unfolding read_exact
read_exact-append zero [] rest h = refl
read_exact-append zero (x ∷ xs) rest h = absurd (omega arith)
read_exact-append (suc n) [] rest h = absurd (omega arith)
read_exact-append (suc n) (x ∷ xs) rest h =
    rw (read_exact-append n xs rest (omega arith), read_exact)

read_exact_inv :
    (n : ℕ) (s : Bytes) (xs r : Bytes)
    → read_exact n s ≡ ok (xs, r)
    → (s ≡ xs ++ r) × (length xs ≡ n)
unfolding read_exact
read_exact_inv zero s xs r h = ground arith
read_exact_inv (suc n) [] xs r h = cc
read_exact_inv (suc n) (b ∷ s) xs r h = elim (Result-cases (read_exact n s)) [
  | inl ((ys, t), e) ↦ ground (arith, read_exact_inv n s ys t e)
  | inr (e, p) ↦ cc
]

pub length-to_le_bytes : (n v : ℕ) → length (to_le_bytes n v) ≡ n
unfolding to_le_bytes
length-to_le_bytes zero v = refl
length-to_le_bytes (suc n) v = ap suc (length-to_le_bytes n (v / 256))

pub from_le_bytes-to_le_bytes : (n v : ℕ) → v < 256 ^ n → from_le_bytes (to_le_bytes n v) ≡ v
unfolding to_le_bytes from_le_bytes
from_le_bytes-to_le_bytes zero v h = omega arith
from_le_bytes-to_le_bytes (suc n) v h =
    omega (arith, from_le_bytes-to_le_bytes n (v / 256) (grind (arith, pow-suc)))

pub to_le_bytes-from_le_bytes :
    (bs : Bytes) → All IsByte bs → to_le_bytes (length bs) (from_le_bytes bs) ≡ bs
unfolding to_le_bytes from_le_bytes
to_le_bytes-from_le_bytes [] h = refl
to_le_bytes-from_le_bytes (b ∷ bs) h = ground (arith, to_le_bytes-from_le_bytes bs h.1)

pub from_le_bytes-lt : (bs : Bytes) → All IsByte bs → from_le_bytes bs < 256 ^ length bs
unfolding from_le_bytes
from_le_bytes-lt [] h = omega arith
from_le_bytes-lt (b ∷ bs) h = omega (arith, from_le_bytes-lt bs h.1, pow-suc 256 (length bs))

pub to_le_bytes-IsByte : (n v : ℕ) → All IsByte (to_le_bytes n v)
unfolding to_le_bytes
to_le_bytes-IsByte zero v = tt
to_le_bytes-IsByte (suc n) v = (omega arith, to_le_bytes-IsByte n (v / 256))

-- `read_uint` reads back what `to_le_bytes` wrote.
pub read_uint-to_le_bytes :
    (n v : ℕ) (rest : Bytes) → v < 256 ^ n → read_uint n (to_le_bytes n v ++ rest) ≡ ok (v, rest)
unfolding read_uint pure
read_uint-to_le_bytes n v rest h =
    step _ _ (read_exact-append n (to_le_bytes n v) rest (length-to_le_bytes n v))
      (ap (λ u. ok (u, rest)) (from_le_bytes-to_le_bytes n v h))

read_uint_parts :
    (n : ℕ) (s : Bytes) (v : ℕ) (r bs t : Bytes)
    → All IsByte s
    → (s ≡ bs ++ t) × (length bs ≡ n)
    → from_le_bytes bs ≡ v
    → t ≡ r
    → (s ≡ to_le_bytes n v ++ r) × (v < 256 ^ n) × All IsByte r
read_uint_parts n s v r bs t h (p, l) q c =
    let whole : All IsByte (bs ++ t) = rw p at h in
    let front : All IsByte bs = All-append_left IsByte bs t whole in
    rw (← q, ← l, ← c, p, to_le_bytes-from_le_bytes bs front)
      (refl, from_le_bytes-lt bs front, All-append_right IsByte bs t whole)

-- What `read_uint` accepts is what `to_le_bytes` writes.
pub read_uint_inv :
    (n : ℕ) (s : Bytes) (v : ℕ) (r : Bytes)
    → All IsByte s
    → read_uint n s ≡ ok (v, r)
    → (s ≡ to_le_bytes n v ++ r) × (v < 256 ^ n) × All IsByte r
unfolding read_uint pure
read_uint_inv n s v r h e =
    let (bs, t, p, q) = step_inv (read_exact n) (λ bs. pure (from_le_bytes bs)) s e in
    read_uint_parts n s v r bs t h (read_exact_inv n s bs t p) (ground arith) (ground arith)

pub read_i32-i32_to_le_bytes :
    (v : ℤ) (rest : Bytes) → IsI32 v → read_i32 (i32_to_le_bytes v ++ rest) ≡ ok (v, rest)
unfolding read_i32 i32_to_le_bytes pure to_unsigned from_unsigned
read_i32-i32_to_le_bytes (pos n) rest h =
    step _ _ (read_uint-to_le_bytes 4 _ rest (omega arith)) (ground arith)
read_i32-i32_to_le_bytes (negsuc n) rest h =
    step _ _ (read_uint-to_le_bytes 4 _ rest (omega arith)) (ground arith)

pub read_i64-i64_to_le_bytes :
    (v : ℤ) (rest : Bytes) → IsI64 v → read_i64 (i64_to_le_bytes v ++ rest) ≡ ok (v, rest)
unfolding read_i64 i64_to_le_bytes pure to_unsigned from_unsigned
read_i64-i64_to_le_bytes (pos n) rest h =
    step _ _ (read_uint-to_le_bytes 8 _ rest (omega arith)) (ground arith)
read_i64-i64_to_le_bytes (negsuc n) rest h =
    step _ _ (read_uint-to_le_bytes 8 _ rest (omega arith)) (ground arith)

module _ {A : Type 0} (P : A → Type 0) (read : Reader A) (write : A → Bytes) where
  -- Where `read` undoes `write` on one item, `read_many` undoes `write_all` on a list.
  pub read_many-write_all :
      ((x : A) (rest : Bytes) → P x → read (write x ++ rest) ≡ ok (x, rest))
      → (xs : List A) (rest : Bytes) → All P xs
      → read_many (length xs) read (write_all write xs ++ rest) ≡ ok (xs, rest)
  unfolding read_many write_all pure
  read_many-write_all back [] rest h = refl
  read_many-write_all back (x ∷ xs) rest h = rw append_assoc (
      step _ _ (back x (write_all write xs ++ rest) h.0)
        (step _ _ (read_many-write_all back xs rest h.1) refl))
