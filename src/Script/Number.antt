-- ===== src/Script/Number.antt =====
-- script/engine.rs: script numbers and the truth of a stack element.
pub mod RoundTrip
use ironcat.Base.{
  ℕ, ◌+◌, ◌-◌, ◌*◌, ◌^◌, List, [], ◌∷◌, Bool, true, false, not, ◌&&◌, ◌||◌, ◌==◌, leb, ltb,
  if◌then◌else◌, length,
}
use ironcat.Base.Int.{ℤ, pos, negsuc, sub_ℕ}
use ironcat.Base.Result.{Result, ok, err}
use ironcat.Network.Cursor.{Bytes, from_le_bytes}
use ironcat.Validation.Context.{minimal_bytes}
use ironcat.Script.Error.{ScriptError, numeric_overflow}

-- A byte that has its high bit.
abbrev pub has_sign_bit : ℕ → Bool
has_sign_bit b = leb 0x80 b

unfoldable pub is_truthy : Bytes → Bool
is_truthy [] = false
is_truthy (b ∷ []) = not (b == 0) && not (b == 0x80)
is_truthy (b ∷ c ∷ rest) = not (b == 0) || is_truthy (c ∷ rest)

-- The sign goes into the high bit of the last byte, or into one more byte where that bit is taken.
unfoldable pub set_sign : Bool → Bytes → Bytes
set_sign negative [] = []
set_sign negative (b ∷ []) =
    if has_sign_bit b
    then b ∷ (if negative then 0x80 else 0) ∷ []
    else (if negative then b + 0x80 else b) ∷ []
set_sign negative (b ∷ c ∷ rest) = b ∷ set_sign negative (c ∷ rest)

-- Eight bytes hold the magnitude of an i64.
unfoldable pub encode_script_number : ℤ → Bytes
encode_script_number (pos n) = set_sign false (minimal_bytes 8 n)
encode_script_number (negsuc n) = set_sign true (minimal_bytes 8 (n + 1))

unfoldable pub last_has_sign : Bytes → Bool
last_has_sign [] = false
last_has_sign (b ∷ []) = has_sign_bit b
last_has_sign (b ∷ c ∷ rest) = last_has_sign (c ∷ rest)

unfoldable pub decode_script_number : Bytes → Result ScriptError ℤ
decode_script_number data_bytes =
    if length data_bytes == 0
    then ok (pos 0)
    else if ltb 4 (length data_bytes)
    then err numeric_overflow
    else if last_has_sign data_bytes
    then ok (sub_ℕ 0 (from_le_bytes data_bytes - 0x80 * 256 ^ (length data_bytes - 1)))
    else ok (pos (from_le_bytes data_bytes))
