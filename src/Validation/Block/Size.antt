-- ===== src/Validation/Block/Size.antt =====
-- The size that the weight limit counts is the number of bytes on the wire.
use ironcat.Base.{ℕ, ◌^◌, ◌<◌, ◌≡◌, refl, List, [], ◌∷◌, ◌++◌, length, length-append, arith}
use ironcat.Network.Cursor.{length-to_le_bytes, write_all}
use ironcat.Network.Varint.{write_varint}
use ironcat.Types.Transaction.{Transaction, tx_to_bytes}
use ironcat.Types.Block.{Block, header_to_bytes}
use ironcat.Types.Block.RoundTrip.{IsHeader, wire_block, length-header_to_bytes}
use ironcat.Validation.Block.{varint_size, tx_sizes, block_serialized_size}

-- The size of a varint is the number of bytes that `write_varint` writes.
length-write_varint : (n : ℕ) → length (write_varint n) ≡ varint_size n
unfolding write_varint varint_size
length-write_varint n =
    ground (arith, length-to_le_bytes 2 n, length-to_le_bytes 4 n, length-to_le_bytes 8 n)

length-write_all : (txs : List Transaction) → length (write_all tx_to_bytes txs) ≡ tx_sizes txs
unfolding write_all tx_sizes
length-write_all [] = refl
length-write_all (tx ∷ txs) =
    omega (arith, length-append (tx_to_bytes tx) (write_all tx_to_bytes txs), length-write_all txs)

-- The serialized size of a block, of a header within the ranges of its fields, is the number of
-- bytes of the block on the wire, where that is below 2^64.
pub block_serialized_size_lem :
    (b : Block)
    → IsHeader b.header
    → length (wire_block b) < 2 ^ 64
    → block_serialized_size b ≡ length (wire_block b)
unfolding block_serialized_size
block_serialized_size_lem b v small =
    let count = write_varint (length b.transactions) in
    let body = write_all tx_to_bytes b.transactions in
    omega (
      arith,
      length-append (header_to_bytes b.header) (count ++ body),
      length-append count body,
      length-header_to_bytes b.header v,
      length-write_varint (length b.transactions),
      length-write_all b.transactions,
    )
