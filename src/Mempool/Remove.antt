-- ===== src/Mempool/Remove.antt =====
-- mempool/mod.rs: `remove_with_descendants`, `evict_if_needed` and `remove_block_txs`.
use ironcat.Base.{
  ℕ, zero, suc, ◌-◌, ◌%◌, ◌^◌, List, [], ◌∷◌, ◌++◌, Option, none, some, leb, length, if◌then◌else◌,
}
use ironcat.Types.Hash.{Hash256, Sha256, bytes_eq}
use ironcat.Types.Transaction.{TxIn, TxOut, Transaction, txid_of, is_coinbase}
use ironcat.Types.Block.{Block}
use ironcat.Mempool.{
  Floats, MempoolEntry, TxEntries, Spends, Mempool, find_tx, erase_tx, set_spends, sum_entries,
}

-- An entry leaves: its size and the outpoints that it spends go with it.
unfoldable pub drop_entry : Hash256 → MempoolEntry → Mempool → Mempool
drop_entry txid e m = record m {
  txs = erase_tx txid m.txs;
  total_size = m.total_size - e.size;
  spends = set_spends none e.tx.vin m.spends;
}

abbrev pub push_some {ℓ} : {A : Type ℓ} → Option A → List A → List A
push_some none stack = stack
push_some (some a) stack = a ∷ stack

-- The spenders of the outputs from number `idx` on, onto the stack of what is still to remove.
unfoldable pub push_children : Spends → Hash256 → ℕ → List TxOut → List Hash256 → List Hash256
push_children spends parent idx [] stack = stack
push_children spends parent idx (o ∷ os) stack =
    push_children spends parent (suc idx) os
      (push_some (spends (record { txid = parent; index = idx % 2 ^ 32 })) stack)

abbrev pub remove_round :
    Option MempoolEntry → Hash256 → List Hash256 → Mempool → List Hash256 × Mempool
remove_round none current stack m = (stack, m)
remove_round (some e) current stack m =
    let rest = drop_entry current e m in (push_children rest.spends current 0 e.tx.vout stack, rest)

-- The `while let` over the stack, as long as the fuel lasts: what is left of the stack, and the pool.
unfoldable pub remove_loop : ℕ → List Hash256 → Mempool → List Hash256 × Mempool
remove_loop zero stack m = (stack, m)
remove_loop (suc fuel) [] m = ([], m)
remove_loop (suc fuel) (current ∷ stack) m =
    let next = remove_round (find_tx current m.txs) current stack m in
    remove_loop fuel next.0 next.1

unfoldable pub count_outputs : TxEntries → ℕ
count_outputs txs = sum_entries (λ e. length e.tx.vout) txs

-- A round takes one from the stack, and an entry that leaves puts one at most for each output there.
unfoldable pub remove_with_descendants : Hash256 → Mempool → Mempool
remove_with_descendants txid m = (remove_loop (suc (count_outputs m.txs)) (txid ∷ []) m).1

module _ (f : Floats) where
  -- `min_by` on the fee rates: the first of the smallest.
  unfoldable pub worst_from : Hash256 × MempoolEntry → TxEntries → Hash256
  worst_from best [] = best.0
  worst_from best (x ∷ rest) =
      worst_from
        (if f.greater (f.rate_of best.1.fee best.1.size) (f.rate_of x.1.fee x.1.size)
          then x
          else best)
        rest

  unfoldable pub worst : TxEntries → Option Hash256
  worst [] = none
  worst (x ∷ rest) = some (worst_from x rest)

  abbrev pub evict : Option Hash256 → Mempool → Mempool
  evict none m = m
  evict (some txid) m = remove_with_descendants txid m

  -- Every round removes an entry, so their number is fuel enough.
  unfoldable pub evict_loop : ℕ → Mempool → Mempool
  evict_loop zero m = m
  evict_loop (suc fuel) m =
      if leb m.total_size m.max_size then m else evict_loop fuel (evict (worst m.txs) m)

  unfoldable pub evict_if_needed : Mempool → Mempool
  evict_if_needed m = evict_loop (length m.txs) m

abbrev pub remove_confirmed : Option MempoolEntry → Hash256 → Mempool → Mempool
remove_confirmed none txid m = m
remove_confirmed (some e) txid m = drop_entry txid e m

abbrev pub other_spender : Option Hash256 → Hash256 → List Hash256
other_spender none txid = []
other_spender (some c) txid = if bytes_eq c txid then [] else c ∷ []

-- The other entries that spend an input of a transaction of the block.
unfoldable pub conflicts_of : Spends → Hash256 → List TxIn → List Hash256
conflicts_of spends txid [] = []
conflicts_of spends txid (i ∷ is) =
    other_spender (spends i.prev_output) txid ++ conflicts_of spends txid is

module _ (sha : Sha256) where
  -- The loop over the transactions of the block: the pool without them, and the conflicting entries.
  unfoldable pub confirm_txs : List Transaction → Mempool → Mempool × List Hash256
  confirm_txs [] m = (m, [])
  confirm_txs (tx ∷ txs) m =
      let txid = txid_of sha tx in
      let m' = remove_confirmed (find_tx txid m.txs) txid m in
      let found = if is_coinbase tx then [] else conflicts_of m'.spends txid tx.vin in
      let rest = confirm_txs txs m' in (rest.0, found ++ rest.1)

  abbrev pub remove_if_there : Option MempoolEntry → Hash256 → Mempool → Mempool
  remove_if_there none txid m = m
  remove_if_there (some e) txid m = remove_with_descendants txid m

  unfoldable pub remove_conflicts : List Hash256 → Mempool → Mempool
  remove_conflicts [] m = m
  remove_conflicts (txid ∷ rest) m =
      remove_conflicts rest (remove_if_there (find_tx txid m.txs) txid m)

  unfoldable pub remove_block_txs : Block → Mempool → Mempool
  remove_block_txs block m = let r = confirm_txs block.transactions m in remove_conflicts r.1 r.0
