-- ===== src/Network/Cursor/Defs.antt =====
-- The readers of `std::io::Cursor` and byteorder, as functions of the bytes that are left.
use ironcat.Base.{
  ℕ, zero, suc, ◌+◌, ◌-◌, ◌*◌, ◌/◌, ◌%◌, ◌<◌, List, [], ◌∷◌, ◌++◌, Bool, true, false, ltb,
  if◌then◌else◌,
}
use ironcat.Base.Int.{ℤ, pos, negsuc}
use ironcat.Base.Result.{Result, ok, err}

abbrev pub Bytes : Type 0
Bytes = List ℕ

abbrev pub IsByte : ℕ → Type 0
IsByte b = b < 256

-- Why a parse stops. The source's messages are strings.
pub data ParseError : Type 0 where
  unexpected_eof non_canonical_varint script_too_large vin_count_too_large : ParseError
  vout_count_too_large tx_too_large tx_count_too_large header_too_short : ParseError
  entry_past_end : ParseError

abbrev pub Reader : Type 0 → Type 0
Reader A = Bytes → Result ParseError (A × Bytes)

module _ {A B : Type 0} where
  abbrev pub continue :
      Result ParseError (A × Bytes) → (A → Reader B) → Result ParseError (B × Bytes)
  continue (ok (a, r)) f = f a r
  continue (err e) f = err e

  infixl 5 ◌>>=◌
  unfoldable pub ◌>>=◌ : Reader A → (A → Reader B) → Reader B
  ◌>>=◌ m f s = continue (m s) f

  infixl 5 ◌>>◌
  abbrev pub ◌>>◌ : Reader A → Reader B → Reader B
  m >> k = m >>= λ _. k

module _ {A : Type 0} where
  unfoldable pub pure : A → Reader A
  pure a s = ok (a, s)

  unfoldable pub fail : ParseError → Reader A
  fail e s = err e

-- `anyhow::bail!` unless the test holds.
unfoldable pub require : Bool → ParseError → Reader (Unit {0})
require true e s = ok (tt, s)
require false e s = err e

-- `v.to_le_bytes()` for an unsigned `v` of `n` bytes.
unfoldable pub to_le_bytes : ℕ → ℕ → Bytes
to_le_bytes zero v = []
to_le_bytes (suc n) v = v % 256 ∷ to_le_bytes n (v / 256)

unfoldable pub from_le_bytes : Bytes → ℕ
from_le_bytes [] = 0
from_le_bytes (b ∷ bs) = b + 256 * from_le_bytes bs

-- `read_exact` into a buffer of `n` bytes.
unfoldable pub read_exact : ℕ → Reader Bytes
read_exact zero s = ok ([], s)
read_exact (suc n) [] = err unexpected_eof
read_exact (suc n) (b ∷ s) = elim (read_exact n s) [ ok (bs, r) ↦ ok (b ∷ bs, r) | err e ↦ err e ]

-- `read_u8`, `read_u16`, `read_u32` and `read_u64` are this at 1, 2, 4 and 8.
unfoldable pub read_uint : ℕ → Reader ℕ
read_uint n = read_exact n >>= λ bs. pure (from_le_bytes bs)

-- The bit pattern of an i32 or i64 (`half` is 2^31 or 2^63) as an unsigned number, and back.
unfoldable pub to_unsigned : ℕ → ℤ → ℕ
to_unsigned half (pos n) = n
to_unsigned half (negsuc n) = 2 * half - 1 - n

unfoldable pub from_unsigned : ℕ → ℕ → ℤ
from_unsigned half u = if ltb u half then pos u else negsuc (2 * half - 1 - u)

abbrev pub i32_half : ℕ
i32_half = 2147483648

abbrev pub i64_half : ℕ
i64_half = 9223372036854775808

unfoldable pub i32_to_le_bytes : ℤ → Bytes
i32_to_le_bytes v = to_le_bytes 4 (to_unsigned i32_half v)

unfoldable pub i64_to_le_bytes : ℤ → Bytes
i64_to_le_bytes v = to_le_bytes 8 (to_unsigned i64_half v)

unfoldable pub read_i32 : Reader ℤ
read_i32 = read_uint 4 >>= λ u. pure (from_unsigned i32_half u)

unfoldable pub read_i64 : Reader ℤ
read_i64 = read_uint 8 >>= λ u. pure (from_unsigned i64_half u)

module _ {A : Type 0} where
  -- `for _ in 0..n { v.push(read(cursor)?) }`
  unfoldable pub read_many : ℕ → Reader A → Reader (List A)
  read_many zero read = pure []
  read_many (suc n) read = read >>= λ x. read_many n read >>= λ xs. pure (x ∷ xs)

  -- The encodings of the items, one behind the other.
  unfoldable pub write_all : (A → Bytes) → List A → Bytes
  write_all write [] = []
  write_all write (x ∷ xs) = write x ++ write_all write xs
