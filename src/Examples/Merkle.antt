-- ===== src/Examples/Merkle.antt =====
-- A block of four transactions, of which the last two are one.
use ironcat.Base.{◌≡◌, ◌↔◌, refl, sym, List, [], ◌∷◌, ◌++◌, map, Bool, true, false, some, arith}
use ironcat.Base.Result.{ok, err}
use ironcat.Types.Hash.{Hash256, double_sha256, double_sha256-IsHash}
use ironcat.Types.Transaction.{txid_of}
use ironcat.Types.Block.{Block, block_from_bytes}
use ironcat.Types.Block.RoundTrip.{IsBlock, wire_block, block_from_bytes-wire_block}
use ironcat.Types.Merkle.{
  merkle_loop, compute_merkle_root, duplicate_transaction, from_bytes_and_validate,
}
use ironcat.Types.Merkle.Duplicates.{
  last_of, compute_merkle_root-doubled, from_bytes_and_validate-doubled,
}
use ironcat.Types.Merkle.Accepts.{Tree, root, level, pair, no_more, from_bytes_and_validate_iff}
use ironcat.Examples.Data.{prefix_sha, coinbase, spend, header}
use ironcat.Examples.Chain.{coinbase-IsTransaction, spend-IsTransaction, differ}
use ironcat.Examples.Wire.{header-IsHeader}

abbrev txids : List Hash256
txids = txid_of prefix_sha coinbase ∷ txid_of prefix_sha spend ∷ txid_of prefix_sha coinbase ∷ []

abbrev doubled_root : Hash256 × Bool
doubled_root = merkle_loop prefix_sha 3 txids false

has_root : compute_merkle_root prefix_sha txids ≡ some (doubled_root.0, doubled_root.1)
unfolding compute_merkle_root
has_root = refl

compute_merkle_root-doubled_example :
    compute_merkle_root prefix_sha (txids ++ last_of txids ∷ []) ≡ some (doubled_root.0, true)
compute_merkle_root-doubled_example =
    compute_merkle_root-doubled prefix_sha txids doubled_root.0 doubled_root.1 (omega arith)
      (omega arith) has_root

abbrev doubled : Block
doubled = record { header = header; transactions = coinbase ∷ spend ∷ coinbase ∷ coinbase ∷ [] }

doubled-IsBlock : IsBlock doubled
doubled-IsBlock = record {
  header = header-IsHeader;
  tx_count = omega arith;
  transactions = (
    coinbase-IsTransaction,
    (spend-IsTransaction, (coinbase-IsTransaction, (coinbase-IsTransaction, tt))),
  );
}

from_bytes_and_validate-doubled_example :
    from_bytes_and_validate prefix_sha (wire_block doubled ++ []) ≡ err duplicate_transaction
from_bytes_and_validate-doubled_example =
    from_bytes_and_validate-doubled prefix_sha (wire_block doubled ++ []) doubled txids
      doubled_root.0 doubled_root.1 (block_from_bytes-wire_block doubled [] doubled-IsBlock) refl
      (omega arith) (omega arith) has_root

-- A block of two transactions under the hash of their txids.
abbrev good : Block
good = record {
  header = record header {
    merkle_root =
        double_sha256 prefix_sha (txid_of prefix_sha coinbase ++ txid_of prefix_sha spend);
  };
  transactions = coinbase ∷ spend ∷ [];
}

from_bytes_and_validate_iff_example :
    (from_bytes_and_validate prefix_sha (wire_block good ++ []) ≡ ok good) ↔ (
      (block_from_bytes (wire_block good ++ []) ≡ ok good)
      × Tree prefix_sha (map (txid_of prefix_sha) good.transactions) good.header.merkle_root)
from_bytes_and_validate_iff_example =
    from_bytes_and_validate_iff prefix_sha (wire_block good ++ []) good

good-IsBlock : IsBlock good
good-IsBlock = record {
  header = record {
    version = omega arith;
    prev_hash = refl;
    merkle_root =
        double_sha256-IsHash prefix_sha (txid_of prefix_sha coinbase ++ txid_of prefix_sha spend);
    timestamp = omega arith;
    bits = omega arith;
    nonce = omega arith;
  };
  tx_count = omega arith;
  transactions = (coinbase-IsTransaction, (spend-IsTransaction, tt));
}

good_accepted : from_bytes_and_validate prefix_sha (wire_block good ++ []) ≡ ok good
good_accepted = (from_bytes_and_validate_iff prefix_sha (wire_block good ++ []) good).1 (
  block_from_bytes-wire_block good [] good-IsBlock,
  level
      (pair (txid_of prefix_sha coinbase) (txid_of prefix_sha spend) (λ e. differ (sym e)) no_more)
      (root _),
)
