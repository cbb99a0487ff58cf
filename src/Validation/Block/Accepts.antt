-- ===== src/Validation/Block/Accepts.antt =====
-- `check_block` accepts the blocks that the rules allow, and a block that it accepted creates no
-- money when it is connected.
use ironcat.Base.{
  ℕ, ◌*◌, ◌%◌, ◌^◌, ◌<◌, ◌≤◌, ◌≡◌, ◌↔◌, refl, List, [], ◌∷◌, true, not, ltb, leb, length, All,
  arith, lt→ltb, leb→le, le→leb,
}
use ironcat.Base.Int.{ℤ, pos, ◌+ℤ◌, ◌≤ℤ◌}
use ironcat.Base.Result.{Result, ok, err, ensure_then, >>-eq-ok}
use ironcat.Network.Cursor.{Bytes}
use ironcat.Types.Hash.{Hash256, Sha256}
use ironcat.Types.Transaction.{Transaction, is_coinbase}
use ironcat.Types.Block.{Block}
use ironcat.Types.Block.RoundTrip.{IsHeader, wire_block}
use ironcat.Storage.Table.{TableOps}
use ironcat.Validation.Subsidy.{get_block_subsidy}
use ironcat.Validation.Transaction.{TxError, check_transaction}
use ironcat.Validation.Transaction.Rules.{IsValidTx, not-true}
use ironcat.Validation.Transaction.Accepts.{check_transaction_iff, amounts_nonneg}
use ironcat.Validation.Block.{
  no_transactions, first_not_coinbase, multiple_coinbases, too_heavy, max_block_weight,
  block_serialized_size, starts_with_coinbase, check_spends, tail, in_block, check_transactions,
  check_block,
}
use ironcat.Validation.Block.Size.{block_serialized_size_lem}
use ironcat.Chainstate.Undo.{TxUndo}
use ironcat.Chainstate.State.{Verifier, connect_txs, ChainState, connect_block}
use ironcat.Chainstate.Restore.Runs.{IsSpend}
use ironcat.Chainstate.Value.Sums.{IsNonNegative}
use ironcat.Chainstate.Value.Blocks.{paid, spent_value, connect_block-no_inflation}

-- One coinbase, and it comes first.
abbrev pub CoinbaseFirst : List Transaction → Type 0
CoinbaseFirst [] = ⊥
CoinbaseFirst (tx ∷ txs) = (is_coinbase tx ≡ true) × All IsSpend txs

pub record IsValidBlock (b : Block) : Type 0 where
  pub coinbase : CoinbaseFirst b.transactions
  pub weight : 4 * length (wire_block b) ≤ max_block_weight
  pub transactions : All IsValidTx b.transactions

spends_sound : (txs : List Transaction) → check_spends txs ≡ ok tt → All IsSpend txs
unfolding check_spends
spends_sound [] h = tt
spends_sound (tx ∷ txs) h =
    let (a, b) = ensure_then (not (is_coinbase tx)) multiple_coinbases _ h in
    (not-true _ a, spends_sound txs b)

spends_complete : (txs : List Transaction) → All IsSpend txs → check_spends txs ≡ ok tt
unfolding check_spends
spends_complete [] h = refl
spends_complete (tx ∷ txs) h = rw h.0 (spends_complete txs h.1)

in_block_inv : (r : Result TxError (Unit {0})) → in_block r ≡ ok tt → r ≡ ok tt
in_block_inv (ok u) h = refl
in_block_inv (err e) h = cc

transactions_sound : (txs : List Transaction) → check_transactions txs ≡ ok tt → All IsValidTx txs
unfolding check_transactions
transactions_sound [] h = tt
transactions_sound (tx ∷ txs) h =
    let (a, b) = >>-eq-ok (in_block (check_transaction tx)) _ h in
    ((check_transaction_iff tx).0 (in_block_inv _ a), transactions_sound txs b)

transactions_complete :
    (txs : List Transaction) → All IsValidTx txs → check_transactions txs ≡ ok tt
unfolding check_transactions
transactions_complete [] h = refl
transactions_complete (tx ∷ txs) h =
    rw ((check_transaction_iff tx).1 h.0) (transactions_complete txs h.1)

coinbase_first :
    (txs : List Transaction)
    → starts_with_coinbase txs ≡ true
    → check_spends (tail txs) ≡ ok tt
    → CoinbaseFirst txs
unfolding starts_with_coinbase
coinbase_first [] a b = cc
coinbase_first (tx ∷ txs) a b = (a, spends_sound txs b)

passes_first :
    (txs : List Transaction)
    → CoinbaseFirst txs
    → (ltb 0 (length txs) ≡ true)
      × (starts_with_coinbase txs ≡ true)
      × (check_spends (tail txs) ≡ ok tt)
unfolding starts_with_coinbase
passes_first [] h = absurd h
passes_first (tx ∷ txs) h =
    (lt→ltb 0 (length (tx ∷ txs)) (omega arith), h.0, spends_complete txs h.1)

-- A block with a header within the ranges of its fields, of fewer than 2^62 bytes on the wire, is
-- accepted if and only if its first transaction and no other is a coinbase, four times its size
-- on the wire is at most the maximal weight, and each transaction is valid.
pub check_block_iff :
    (b : Block)
    → IsHeader b.header
    → length (wire_block b) < 2 ^ 62
    → (check_block b ≡ ok tt) ↔ IsValidBlock b
unfolding check_block
check_block_iff b v small = (sound, complete)
  where
    size : block_serialized_size b ≡ length (wire_block b)
    size = block_serialized_size_lem b v (omega arith)

    sound : check_block b ≡ ok tt → IsValidBlock b
    sound h =
        let (_, h1) = ensure_then (ltb 0 (length b.transactions)) no_transactions _ h in
        let (c, h2) = ensure_then (starts_with_coinbase b.transactions) first_not_coinbase _ h1 in
        let (d, h3) = >>-eq-ok (check_spends (tail b.transactions)) _ h2 in
        let (e, f) =
          ensure_then (leb (block_serialized_size b * 4 % 2 ^ 64) max_block_weight) too_heavy _
            h3 in
        let le : block_serialized_size b * 4 % 2 ^ 64 ≤ 4000000 = leb→le _ _ e in
        record {
          coinbase = coinbase_first b.transactions c d;
          weight = omega (arith, size);
          transactions = transactions_sound b.transactions f;
        }

    complete : IsValidBlock b → check_block b ≡ ok tt
    complete k =
        let (a, c, d) = passes_first b.transactions k.coinbase in
        let light : leb (block_serialized_size b * 4 % 2 ^ 64) max_block_weight ≡ true =
          le→leb _ _ (omega (arith, size, k.weight)) in
        rw (a, c, d, light) (transactions_complete b.transactions k.transactions)

nonneg_txs :
    (txs : List Transaction) → All IsValidTx txs → All (λ tx. All IsNonNegative tx.vout) txs
nonneg_txs [] h = tt
nonneg_txs (tx ∷ txs) h = (amounts_nonneg tx.vout (h.0).amounts, nonneg_txs txs h.1)

module _ (db : TableOps Bytes) (index : TableOps (ℕ × ℕ × ℕ)) (sha : Sha256) (verify : Verifier)
    (svh : ℕ) where
  no_inflation :
      (s s' : ChainState db index) (block : Block) (height : ℕ) (hash : Hash256)
      (l : List Transaction) (t : db.Table) (fees : ℤ) (undos : List TxUndo)
      → block.transactions ≡ l
      → CoinbaseFirst l
      → All IsValidTx l
      → connect_txs db sha verify svh s.utxos height block.transactions (pos 0)
        ≡ ok (t, fees, undos)
      → connect_block db index sha verify svh s block height hash ≡ ok s'
      → paid block.transactions ≤ℤ spent_value undos +ℤ get_block_subsidy height
  no_inflation s s' block height hash [] t fees undos shape first valid run h = absurd first
  no_inflation s s' block height hash (cb ∷ txs) t fees undos shape first valid run h =
      connect_block-no_inflation db index sha verify svh s s' block height hash cb txs t fees undos
        shape first.0 first.1 (nonneg_txs txs valid.1) run h

  -- A block that `check_block` accepted, with a header within the ranges of its fields and fewer
  -- than 2^62 bytes on the wire, and that `connect_block` connected: all its outputs are worth at
  -- most the coins that its undo data records as spent and the subsidy of its height.
  pub check_block-no_inflation :
      (s s' : ChainState db index) (block : Block) (height : ℕ) (hash : Hash256) (t : db.Table)
      (fees : ℤ) (undos : List TxUndo)
      → IsHeader block.header
      → length (wire_block block) < 2 ^ 62
      → check_block block ≡ ok tt
      → connect_txs db sha verify svh s.utxos height block.transactions (pos 0)
        ≡ ok (t, fees, undos)
      → connect_block db index sha verify svh s block height hash ≡ ok s'
      → paid block.transactions ≤ℤ spent_value undos +ℤ get_block_subsidy height
  check_block-no_inflation s s' block height hash t fees undos v small checked run h =
      let k = (check_block_iff block v small).0 checked in
      no_inflation s s' block height hash block.transactions t fees undos refl k.coinbase
        k.transactions run h
