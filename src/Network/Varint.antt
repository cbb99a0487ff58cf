-- ===== src/Network/Varint.antt =====
-- network.rs: `write_varint` and `decode_varint`, Bitcoin's variable-length integers.
pub mod RoundTrip
use ironcat.Base.{ℕ, ◌++◌, ◌%◌, [], ◌∷◌, ltb, leb, not, ◌==◌, if◌then◌else◌}
use ironcat.Network.Cursor.{
  Bytes, Reader, ◌>>=◌, ◌>>◌, pure, require, to_le_bytes, read_uint, non_canonical_varint,
}

-- The bytes that `write_varint(buf, n)` adds to `buf`.
unfoldable pub write_varint : ℕ → Bytes
write_varint n =
    if ltb n 0xfd
    then n % 256 ∷ []
    else if leb n 0xffff
    then 0xfd ∷ to_le_bytes 2 (n % 65536)
    else if leb n 0xffff_ffff
    then 0xfe ∷ to_le_bytes 4 (n % 4294967296)
    else 0xff ∷ to_le_bytes 8 n

-- A prefix byte for a wider number is refused where a shorter form would do.
unfoldable pub decode_tail : ℕ → Reader ℕ
decode_tail first_byte =
    if first_byte == 0xfd
    then (read_uint 2 >>= λ v. require (leb 0xfd v) non_canonical_varint >> pure v)
    else if first_byte == 0xfe
    then (read_uint 4 >>= λ v. require (ltb 0xffff v) non_canonical_varint >> pure v)
    else if first_byte == 0xff
    then (read_uint 8 >>= λ v. require (ltb 0xffff_ffff v) non_canonical_varint >> pure v)
    else pure first_byte

unfoldable pub decode_varint : Reader ℕ
unfolding decode_tail
decode_varint = read_uint 1 >>= decode_tail
