-- ===== src/Mempool/Limit.antt =====
-- mempool/mod.rs: the size limit of the pool after a transaction is accepted.
use ironcat.Base.{
  ℕ, zero, suc, ◌≤◌, ◌^◌, ◌≡◌, refl, sym, ap, ◌∙◌, [], ◌∷◌, false, not, Option, none, some, leb,
  leb→le, leb_false→lt, length, arith, Bool-cases, inl, inr, none-ne-some, some-injective,
}
use ironcat.Base.Int.{pos}
use ironcat.Base.Result.{Result, ok, ◌>>◌, ensure, >>=-eq-ok, >>-eq-ok, ensure-eq-ok, ok-injective}
use ironcat.Types.Hash.{Hash256, Sha256}
use ironcat.Types.Transaction.{OutPoint, Transaction, tx_to_bytes, txid_of, is_coinbase}
use ironcat.Validation.Transaction.{check_transaction}
use ironcat.Chainstate.Coin.{Coin}
use ironcat.Chainstate.State.{ConnectError, Verifier}
use ironcat.Mempool.{
  Floats, MempoolEntry, TxEntries, Mempool, find_tx, sum_entries, max_relay_tx_size,
}
use ironcat.Mempool.Remove.{worst, evict, evict_loop, evict_if_needed}
use ironcat.Mempool.Accept.{
  check_valid, is_some, sum_inputs, insert_entry, check_accept, accept_tx, coinbase_tx,
  tx_above_limit, already_in_mempool,
}
use ironcat.Mempool.Accounting.{
  IsAccounted, Kept, here, later, remove_with_descendants-Kept, worst_from_found,
}

-- The pool's size is the sum of the sizes of its transactions and is within its limit, which is no
-- more than half of a usize.
pub record IsSound (m : Mempool) : Type 0 where
  pub accounted : IsAccounted m
  pub fits : m.total_size ≤ m.max_size
  pub limit_small : m.max_size ≤ 2 ^ 63

length-sum_entries : (txs : TxEntries) → sum_entries (λ e. 1) txs ≡ length txs
unfolding sum_entries
length-sum_entries [] = refl
length-sum_entries ((k, e) ∷ rest) = omega (arith, length-sum_entries rest)

no_entries : (m : Mempool) → IsAccounted m → m.txs ≡ [] → m.total_size ≡ 0
unfolding IsAccounted sum_entries
no_entries m same empty = same ∙ ap (sum_entries (λ e. e.size)) empty

empty_of_length : (txs : TxEntries) → sum_entries (λ e. 1) txs ≤ 0 → txs ≡ []
unfolding sum_entries
empty_of_length [] le = refl
empty_of_length ((k, e) ∷ rest) le = absurd (omega (arith, le))

module _ (f : Floats) where
  worst-found :
      (txs : TxEntries) (k : Hash256)
      → worst f txs ≡ some k
      → (e : MempoolEntry) × (find_tx k txs ≡ some e)
  unfolding worst
  worst-found [] k h = absurd (none-ne-some h)
  worst-found ((j, x) ∷ rest) k h = elim (worst_from_found f (j, x) rest) [
    | inl same ↦ (x, here j x rest k (sym same ∙ some-injective h))
    | inr (e, found) ↦
        later j x rest k e (ap (λ q. find_tx q rest) (sym (some-injective h)) ∙ found)
  ]

  worst-none : (txs : TxEntries) → worst f txs ≡ none → txs ≡ []
  unfolding worst
  worst-none [] h = refl
  worst-none ((j, x) ∷ rest) h = cc

  -- The eviction ends below the limit, with the limit as it was.
  evict_loop_fits :
      (limit fuel : ℕ) (m : Mempool)
      → Kept limit fuel m
      → IsAccounted (evict_loop f fuel m)
        × ((evict_loop f fuel m).total_size ≤ limit)
        × ((evict_loop f fuel m).max_size ≡ limit)
  unfolding evict_loop
  evict_loop_fits limit zero m k =
      let none_left = no_entries m k.accounted (empty_of_length m.txs k.few) in
      (k.accounted, omega (arith, none_left), k.limit_eq)
  evict_loop_fits limit (suc fuel) m k = elim (Bool-cases (leb m.total_size m.max_size)) [
    | inl fits ↦ rw fits (k.accounted, omega (arith, leb→le _ _ fits, k.limit_eq), k.limit_eq)
    | inr large ↦ rw large (evict_loop_fits limit fuel _ (evicted (worst f m.txs) refl large))
  ]
    where
      evicted :
          (o : Option Hash256)
          → worst f m.txs ≡ o
          → leb m.total_size m.max_size ≡ false
          → Kept limit fuel (evict f o m)
      evicted none h large =
          let none_left = no_entries m k.accounted (worst-none m.txs h) in
          absurd (omega (arith, none_left, leb_false→lt _ _ large))
      evicted (some txid) h large =
          let (e, found) = worst-found m.txs txid h in
          remove_with_descendants-Kept limit fuel txid e m found k

module _ (f : Floats) (sha : Sha256) (utxo : OutPoint → Result ConnectError (Option Coin))
    (verify : Verifier) where
  check_accept-size :
      (t : Transaction) (m : Mempool) (fee : ℕ)
      → check_accept f sha utxo verify t m ≡ ok fee
      → length (tx_to_bytes t) ≤ max_relay_tx_size
  unfolding check_accept
  check_accept-size t m fee h =
      let (sum, checked, _) =
        >>=-eq-ok
          (check_valid (check_transaction t)
            >> ensure (not (is_coinbase t)) coinbase_tx
            >> ensure (leb (length (tx_to_bytes t)) max_relay_tx_size) tx_above_limit
            >> ensure (not (is_some (find_tx (txid_of sha t) m.txs))) already_in_mempool
            >> sum_inputs f sha utxo verify m (pos 0) t.vin)
          _ h in
      let (before, _) = >>-eq-ok _ (sum_inputs f sha utxo verify m (pos 0) t.vin) checked in
      let (sized, _) =
        >>-eq-ok _ (ensure (not (is_some (find_tx (txid_of sha t) m.txs))) already_in_mempool)
          before in
      let (_, small) =
        >>-eq-ok _ (ensure (leb (length (tx_to_bytes t)) max_relay_tx_size) tx_above_limit) sized in
      leb→le _ _ (ensure-eq-ok _ _ small)

  -- Accepting a transaction keeps the pool sound, by whatever order the eviction goes: the size that
  -- it holds stays the sum of the sizes of its transactions, and within the limit, which stays too.
  pub accept_tx-IsSound :
      (t : Transaction) (m : Mempool) (r : Hash256 × Mempool)
      → IsSound m
      → accept_tx f sha utxo verify t m ≡ ok r
      → IsSound r.1 × (r.1.max_size ≡ m.max_size)
  unfolding accept_tx insert_entry evict_if_needed IsAccounted sum_entries
  accept_tx-IsSound t m r sound h =
      let (fee, checked, done) = >>=-eq-ok (check_accept f sha utxo verify t m) _ h in
      let small = check_accept-size t m fee checked in
      let e : MempoolEntry = record { tx = t; fee = fee; size = length (tx_to_bytes t) } in
      let m' = insert_entry (txid_of sha t) e m in
      let (same, fits, limit) = evict_loop_fits f m.max_size (length m'.txs) m' (record {
        accounted = omega (arith, sound.accounted, sound.fits, sound.limit_small, small);
        limit_eq = refl;
        few = omega (arith, length-sum_entries m'.txs);
      }) in
      rw (← ok-injective done) (
        record {
          accounted = same;
          fits = omega (arith, fits, limit);
          limit_small = omega (arith, limit, sound.limit_small);
        },
        limit,
      )
