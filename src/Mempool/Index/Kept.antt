-- ===== src/Mempool/Index/Kept.antt =====
-- mempool/mod.rs: what keeps the index of spent outpoints.
use ironcat.Base.{
  ℕ, zero, suc, ◌≡◌, refl, sym, ap, ◌∙◌, List, [], ◌∷◌, true, not, Option, none, some, Bool-cases,
  inl, inr, none-ne-some, some-injective, length, leb,
}
use ironcat.Base.Int.{ℤ, pos, checked_add}
use ironcat.Base.Result.{
  Result, ok, ◌>>◌, ensure, >>=-eq-ok, >>-eq-ok, ensure_then, ensure-eq-ok, ok-injective, ok_or,
}
use ironcat.Types.Hash.{Hash256, Sha256, bytes_eq, bytes_eq→eq}
use ironcat.Types.Transaction.{OutPoint, TxIn, Transaction, txid_of, tx_to_bytes, is_coinbase}
use ironcat.Validation.Transaction.{check_transaction}
use ironcat.Chainstate.Coin.{Coin}
use ironcat.Chainstate.State.{ConnectError, Verifier}
use ironcat.Mempool.{Floats, MempoolEntry, Mempool, find_tx, max_relay_tx_size}
use ironcat.Mempool.Remove.{
  drop_entry, remove_with_descendants, count_outputs, worst, evict, evict_loop, evict_if_needed,
}
use ironcat.Mempool.Accept.{
  check_valid, is_some, sum_inputs, resolve_input_value, insert_entry, check_accept, accept_tx,
  already_spent, already_in_mempool, input_overflow, coinbase_tx, tx_above_limit,
}
use ironcat.Mempool.Accounting.{remove_loop_keeps}
use ironcat.Mempool.Index.{
  HasInput, IsDistinct, IsIndexed, HasInput-cases, set_spends_own, set_spends_other, find-erase_tx,
  erase_tx-IsDistinct,
}

pub drop_entry-IsIndexed :
    (txid : Hash256) (e : MempoolEntry) (m : Mempool)
    → find_tx txid m.txs ≡ some e
    → IsIndexed m
    → IsIndexed (drop_entry txid e m)
unfolding drop_entry
drop_entry-IsIndexed txid e m there indexed = record {
  distinct = erase_tx-IsDistinct txid m.txs indexed.distinct;
  spender = λ k x o found has.
      let (before, apart) = find-erase_tx txid k m.txs x indexed.distinct found in
      let own = indexed.spender k x o before has in
      elim (HasInput-cases o e.tx.vin) [
        | inl shared ↦
            absurd (apart (some-injective (sym own ∙ indexed.spender txid e o there shared)))
        | inr absent ↦ set_spends_other none e.tx.vin m.spends o absent ∙ own
      ];
}

remove_with_descendants-IsIndexed :
    (txid : Hash256) (m : Mempool) → IsIndexed m → IsIndexed (remove_with_descendants txid m)
unfolding remove_with_descendants
remove_with_descendants-IsIndexed txid m indexed =
    remove_loop_keeps IsIndexed drop_entry-IsIndexed (suc (count_outputs m.txs)) (txid ∷ []) m
      indexed

evict_loop-IsIndexed :
    (f : Floats) (fuel : ℕ) (m : Mempool) → IsIndexed m → IsIndexed (evict_loop f fuel m)
unfolding evict_loop
evict_loop-IsIndexed f zero m indexed = indexed
evict_loop-IsIndexed f (suc fuel) m indexed = elim (Bool-cases (leb m.total_size m.max_size)) [
  | inl fits ↦ rw fits indexed
  | inr large ↦ rw large (evict_loop-IsIndexed f fuel _ (evicted (worst f m.txs)))
]
  where
    evicted : (o : Option Hash256) → IsIndexed (evict f o m)
    evicted none = indexed
    evicted (some txid) = remove_with_descendants-IsIndexed txid m indexed

-- A transaction enters whose outpoints nothing in the pool spends.
insert_entry-IsIndexed :
    (txid : Hash256) (e : MempoolEntry) (m : Mempool)
    → find_tx txid m.txs ≡ none
    → ((o : OutPoint) → HasInput o e.tx.vin → m.spends o ≡ none)
    → IsIndexed m
    → IsIndexed (insert_entry txid e m)
unfolding insert_entry find_tx IsDistinct
insert_entry-IsIndexed txid e m fresh unspent indexed = record {
  distinct = (fresh, indexed.distinct);
  spender = λ k x o found has. elim (Bool-cases (bytes_eq txid k)) [
    | inl y ↦
        let same = some-injective (rw y at found) in
        set_spends_own (some txid) e.tx.vin m.spends o (rw same has)
        ∙ ap some (bytes_eq→eq txid k y)
    | inr n ↦
        let own = indexed.spender k x o (rw n at found) has in
        set_spends_other (some txid) e.tx.vin m.spends o
          (λ shared. none-ne-some (sym (unspent o shared) ∙ own))
        ∙ own
  ];
}

is_some-false {ℓ} : {A : Type ℓ} (o : Option A) → not (is_some o) ≡ true → o ≡ none
is_some-false none h = refl
is_some-false (some a) h = cc

module _ (f : Floats) (sha : Sha256) (utxo : OutPoint → Result ConnectError (Option Coin))
    (verify : Verifier) where
  sum_inputs-unspent :
      (m : Mempool) (acc sum : ℤ) (is : List TxIn) (o : OutPoint)
      → sum_inputs f sha utxo verify m acc is ≡ ok sum
      → HasInput o is
      → m.spends o ≡ none
  unfolding sum_inputs HasInput
  sum_inputs-unspent m acc sum [] o h has = absurd has
  sum_inputs-unspent m acc sum (i ∷ is) o h has =
      let (value, first, h1) =
        >>=-eq-ok
          (ensure (not (is_some (m.spends i.prev_output))) already_spent
            >> resolve_input_value f sha utxo verify i.prev_output m)
          _ h in
      let (next, _, rest) = >>=-eq-ok (ok_or (checked_add acc value) input_overflow) _ h1 in
      let (unspent, _) =
        ensure_then (not (is_some (m.spends i.prev_output))) already_spent _ first in
      elim has [
        | inl same ↦ ap m.spends (sym same) ∙ is_some-false (m.spends i.prev_output) unspent
        | inr later ↦ sum_inputs-unspent m next sum is o rest later
      ]

  check_accept-fresh :
      (t : Transaction) (m : Mempool) (fee : ℕ)
      → check_accept f sha utxo verify t m ≡ ok fee
      → (find_tx (txid_of sha t) m.txs ≡ none)
        × ((o : OutPoint) → HasInput o t.vin → m.spends o ≡ none)
  unfolding check_accept
  check_accept-fresh t m fee h =
      let (sum, checked, _) =
        >>=-eq-ok
          (check_valid (check_transaction t)
            >> ensure (not (is_coinbase t)) coinbase_tx
            >> ensure (leb (length (tx_to_bytes t)) max_relay_tx_size) tx_above_limit
            >> ensure (not (is_some (find_tx (txid_of sha t) m.txs))) already_in_mempool
            >> sum_inputs f sha utxo verify m (pos 0) t.vin)
          _ h in
      let (before, summed) = >>-eq-ok _ (sum_inputs f sha utxo verify m (pos 0) t.vin) checked in
      let (_, fresh) =
        >>-eq-ok _ (ensure (not (is_some (find_tx (txid_of sha t) m.txs))) already_in_mempool)
          before in
      (
        is_some-false _ (ensure-eq-ok _ _ fresh),
        λ o has. sum_inputs-unspent m (pos 0) sum t.vin o summed has,
      )

  -- Accepting a transaction, with the eviction that may follow, keeps the index: every input of
  -- every transaction of the pool is in it under that transaction, so that no two of them spend the
  -- same outpoint, and no transaction stands twice.
  pub accept_tx-IsIndexed :
      (t : Transaction) (m : Mempool) (r : Hash256 × Mempool)
      → IsIndexed m
      → accept_tx f sha utxo verify t m ≡ ok r
      → IsIndexed r.1
  unfolding accept_tx evict_if_needed
  accept_tx-IsIndexed t m r indexed h =
      let (paid, checked, done) = >>=-eq-ok (check_accept f sha utxo verify t m) _ h in
      let (fresh, unspent) = check_accept-fresh t m paid checked in
      let e : MempoolEntry = record { tx = t; fee = paid; size = length (tx_to_bytes t) } in
      rw (← ok-injective done) (
        evict_loop-IsIndexed f _ _
          (insert_entry-IsIndexed (txid_of sha t) e m fresh unspent indexed))
