-- ===== src/Examples/Wire.antt =====
-- Wire forms of a block, a transaction and lengths.
use ironcat.Base.{◌<◌, ◌^◌, ◌≡◌, refl, [], ◌∷◌, ◌++◌, All, length, arith}
use ironcat.Base.Result.{ok}
use ironcat.Network.Cursor.{
  IsByte, ◌>>=◌, pure, require, to_le_bytes, from_le_bytes, read_exact, read_uint, i32_to_le_bytes,
  i64_to_le_bytes, write_all,
}
use ironcat.Network.Varint.{write_varint, decode_varint}
use ironcat.Network.Varint.RoundTrip.{decode_varint-write_varint, write_varint-decode_varint}
use ironcat.Types.Transaction.{
  read_tx, tx_to_bytes, tx_in_to_bytes, tx_out_to_bytes, outpoint_to_bytes,
}
use ironcat.Types.Transaction.RoundTrip.{read_tx-tx_to_bytes}
use ironcat.Types.Block.{header_to_bytes, header_from_bytes, block_from_bytes}
use ironcat.Types.Block.RoundTrip.{
  IsHeader, IsBlock, wire_block, header_from_bytes-header_to_bytes, block_from_bytes-wire_block,
}
use ironcat.Validation.Block.{block_serialized_size}
use ironcat.Validation.Block.Size.{block_serialized_size_lem}
use ironcat.Examples.Data.{spend, header, block}
use ironcat.Examples.Chain.{coinbase-IsTransaction, spend-IsTransaction}

pub header-IsHeader : IsHeader header
header-IsHeader = record {
  version = omega arith;
  prev_hash = refl;
  merkle_root = refl;
  timestamp = omega arith;
  bits = omega arith;
  nonce = omega arith;
}

block-IsBlock : IsBlock block
block-IsBlock = record {
  header = header-IsHeader;
  tx_count = omega arith;
  transactions = (coinbase-IsTransaction, (spend-IsTransaction, tt));
}

decode_varint-write_varint_example :
    decode_varint (write_varint 70000 ++ 5 ∷ []) ≡ ok (70000, 5 ∷ [])
decode_varint-write_varint_example = decode_varint-write_varint 70000 (5 ∷ []) (omega arith)

decoded : decode_varint (0xfd ∷ 0 ∷ 1 ∷ 9 ∷ []) ≡ ok (256, 9 ∷ [])
unfolding decode_varint ◌>>=◌ read_uint read_exact pure from_le_bytes require
decoded = refl

write_varint-decode_varint_example :
    ((0xfd ∷ 0 ∷ 1 ∷ 9 ∷ []) ≡ write_varint 256 ++ 9 ∷ []) × (256 < 2 ^ 64) × All IsByte (9 ∷ [])
write_varint-decode_varint_example =
    write_varint-decode_varint (0xfd ∷ 0 ∷ 1 ∷ 9 ∷ []) 256 (9 ∷ []) bytes decoded
  where
    bytes : All IsByte (0xfd ∷ 0 ∷ 1 ∷ 9 ∷ [])
    bytes = (omega arith, (omega arith, (omega arith, (omega arith, tt))))

read_tx-tx_to_bytes_example : read_tx (tx_to_bytes spend ++ 1 ∷ []) ≡ ok (spend, 1 ∷ [])
read_tx-tx_to_bytes_example = read_tx-tx_to_bytes spend (1 ∷ []) spend-IsTransaction

header_from_bytes-header_to_bytes_example :
    (length (header_to_bytes header) ≡ 80)
    × (header_from_bytes (header_to_bytes header) ≡ ok header)
header_from_bytes-header_to_bytes_example = header_from_bytes-header_to_bytes header header-IsHeader

block_from_bytes-wire_block_example : block_from_bytes (wire_block block ++ 1 ∷ 2 ∷ []) ≡ ok block
block_from_bytes-wire_block_example = block_from_bytes-wire_block block (1 ∷ 2 ∷ []) block-IsBlock

pub wire_small : length (wire_block block) < 2 ^ 62
unfolding header_to_bytes tx_to_bytes i32_to_le_bytes to_le_bytes write_varint write_all
    tx_in_to_bytes outpoint_to_bytes tx_out_to_bytes i64_to_le_bytes
wire_small = omega arith

block_serialized_size_lem_example : block_serialized_size block ≡ length (wire_block block)
block_serialized_size_lem_example =
    block_serialized_size_lem block header-IsHeader (omega (arith, wire_small))
