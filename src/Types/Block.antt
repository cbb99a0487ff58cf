-- ===== src/Types/Block.antt =====
-- types/block.rs: block headers and blocks.
pub mod RoundTrip
use ironcat.Base.{
  ℕ, zero, suc, ◌≡◌, List, [], ◌∷◌, ◌++◌, Bool, true, false, leb, ltb, if◌then◌else◌, length,
}
use ironcat.Base.Int.{ℤ}
use ironcat.Base.Result.{Result, ok, err}
use ironcat.Network.Cursor.{
  Bytes, Reader, ◌>>=◌, ◌>>◌, pure, require, to_le_bytes, read_exact, read_uint, i32_to_le_bytes,
  read_i32, read_many, ParseError, tx_count_too_large, header_too_short,
}
use ironcat.Network.Varint.{decode_varint}
use ironcat.Types.Hash.{Hash256, hash_len, Sha256, double_sha256}
use ironcat.Types.Transaction.{Transaction, read_tx}

abbrev pub header_size : ℕ
header_size = 80

pub record BlockHeader : Type 0 where
  pub version : ℤ
  pub prev_hash : Hash256
  pub merkle_root : Hash256
  pub timestamp : ℕ
  pub bits : ℕ
  pub nonce : ℕ

unfoldable pub header_to_bytes : BlockHeader → Bytes
header_to_bytes h =
    i32_to_le_bytes h.version
    ++ (h.prev_hash
        ++ (h.merkle_root
            ++ (to_le_bytes 4 h.timestamp ++ (to_le_bytes 4 h.bits ++ to_le_bytes 4 h.nonce))))

-- `BlockHeader::from_cursor`.
unfoldable pub read_header : Reader BlockHeader
read_header = read_i32 >>= λ v. read_exact hash_len >>= λ prev. read_exact hash_len >>= λ merkle.
    read_uint 4 >>= λ t. read_uint 4 >>= λ b. read_uint 4 >>= λ n. pure (record {
      version = v;
      prev_hash = prev;
      merkle_root = merkle;
      timestamp = t;
      bits = b;
      nonce = n;
    })

abbrev pub value_of : {A : Type 0} → Result ParseError (A × Bytes) → Result ParseError A
value_of (ok (a, rest)) = ok a
value_of (err e) = err e

unfoldable pub header_from_bytes : Bytes → Result ParseError BlockHeader
header_from_bytes bytes =
    if ltb (length bytes) header_size then err header_too_short else value_of (read_header bytes)

unfoldable pub block_hash : Sha256 → BlockHeader → Hash256
block_hash sha h = double_sha256 sha (header_to_bytes h)

abbrev pub max_block_txs : ℕ
max_block_txs = 100000

pub record Block : Type 0 where
  pub header : BlockHeader
  pub transactions : List Transaction

unfoldable pub read_block : Reader Block
read_block = read_header >>= λ h. decode_varint >>= λ tx_count.
    require (leb tx_count max_block_txs) tx_count_too_large >> read_many tx_count read_tx >>= λ txs.
    pure (record { header = h; transactions = txs })

-- `Block::from_bytes` does not look at what follows the last transaction.
unfoldable pub block_from_bytes : Bytes → Result ParseError Block
block_from_bytes bytes = value_of (read_block bytes)
