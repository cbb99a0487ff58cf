-- ===== src/Types/Block/RoundTrip.antt =====
-- The readers of types/block.rs undo its writers.
use ironcat.Base.{
  ◌≡◌, ◌<◌, ◌≤◌, [], ◌++◌, length, length-append, All, arith, append_assoc, append-nil, refl, ap,
  ◌∙◌, le→leb, le→ltb_false,
}
use ironcat.Base.Int.{IsI32}
use ironcat.Base.Result.{ok}
use ironcat.Network.Cursor.{
  Bytes, pure, i32_to_le_bytes, length-to_le_bytes, write_all, step, read_exact-append,
  read_uint-to_le_bytes, read_i32-i32_to_le_bytes, read_many-write_all,
}
use ironcat.Network.Varint.{write_varint}
use ironcat.Network.Varint.RoundTrip.{decode_varint-write_varint}
use ironcat.Types.Hash.{IsHash}
use ironcat.Types.Transaction.{tx_to_bytes, read_tx}
use ironcat.Types.Transaction.RoundTrip.{IsTransaction, read_tx-tx_to_bytes, require_step}
use ironcat.Types.Block.{
  BlockHeader, Block, header_to_bytes, read_header, header_from_bytes, read_block, block_from_bytes,
  value_of, max_block_txs, header_size,
}

pub record IsHeader (h : BlockHeader) : Type 0 where
  pub version : IsI32 h.version
  pub prev_hash : IsHash h.prev_hash
  pub merkle_root : IsHash h.merkle_root
  pub timestamp : h.timestamp < 4294967296
  pub bits : h.bits < 4294967296
  pub nonce : h.nonce < 4294967296

pub record IsBlock (b : Block) : Type 0 where
  pub header : IsHeader b.header
  pub tx_count : length b.transactions ≤ max_block_txs
  pub transactions : All IsTransaction b.transactions

-- The wire form of a block, as peers send it.
abbrev pub wire_block : Block → Bytes
wire_block b =
    header_to_bytes b.header
    ++ (write_varint (length b.transactions) ++ write_all tx_to_bytes b.transactions)

pub read_header-header_to_bytes :
    (h : BlockHeader) (rest : Bytes)
    → IsHeader h
    → read_header (header_to_bytes h ++ rest) ≡ ok (h, rest)
unfolding read_header header_to_bytes pure
read_header-header_to_bytes h rest v = simp append_assoc (
    step _ _ (read_i32-i32_to_le_bytes h.version _ v.version) (
      step _ _ (read_exact-append 32 h.prev_hash _ v.prev_hash) (
        step _ _ (read_exact-append 32 h.merkle_root _ v.merkle_root) (
          step _ _ (read_uint-to_le_bytes 4 h.timestamp _ (omega (arith, v.timestamp))) (
            step _ _ (read_uint-to_le_bytes 4 h.bits _ (omega (arith, v.bits)))
              (step _ _ (read_uint-to_le_bytes 4 h.nonce rest (omega (arith, v.nonce))) refl))))))

pub length-header_to_bytes :
    (h : BlockHeader) → IsHeader h → length (header_to_bytes h) ≡ header_size
unfolding header_to_bytes i32_to_le_bytes
length-header_to_bytes h v =
    omega (arith, length-append {0}, length-to_le_bytes, v.prev_hash, v.merkle_root)

-- A header within the ranges of its fields serializes to 80 bytes, and `from_bytes` returns it from them.
pub header_from_bytes-header_to_bytes :
    (h : BlockHeader)
    → IsHeader h
    → (length (header_to_bytes h) ≡ header_size) × (header_from_bytes (header_to_bytes h) ≡ ok h)
unfolding header_from_bytes
header_from_bytes-header_to_bytes h v =
    let size : length (header_to_bytes h) ≡ 80 = length-header_to_bytes h v in
    let whole : read_header (header_to_bytes h) ≡ ok (h, []) =
      rw append-nil at (read_header-header_to_bytes h [] v) in
    (size, rw (le→ltb_false (length (header_to_bytes h)) 80 (omega arith)) (rw whole))

-- A block within the limits, written to the wire and followed by any bytes, is parsed into the
-- block.
pub block_from_bytes-wire_block :
    (b : Block) (rest : Bytes) → IsBlock b → block_from_bytes (wire_block b ++ rest) ≡ ok b
unfolding block_from_bytes read_block pure
block_from_bytes-wire_block b rest v =
    let whole : read_block (wire_block b ++ rest) ≡ ok (b, rest) = simp append_assoc (
      step _ _ (read_header-header_to_bytes b.header _ v.header) (
        step _ _ (decode_varint-write_varint (length b.transactions) _ (omega (arith, v.tx_count)))
          (step _ _
            (require_step _ _ _ _ (le→leb _ _ v.tx_count)
              ∙ read_many-write_all IsTransaction read_tx tx_to_bytes read_tx-tx_to_bytes
                  b.transactions rest v.transactions)
            refl))) in
    ap value_of whole
