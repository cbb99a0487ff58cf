-- ===== src/Mempool/Index/Blocks.antt =====
-- mempool/mod.rs: what `remove_block_txs` leaves in the pool.
use ironcat.Base.{
  ℕ, suc, ◌≡◌, ◌≢◌, refl, sym, ap, ◌∙◌, List, [], ◌∷◌, ◌++◌, false, Option, none, some, inl, inr,
  none-ne-some, some-injective, if◌then◌else◌, All, get_elem?, zero,
}
use mathlib.Core.Path.{subst}
use ironcat.Types.Hash.{Hash256, Sha256}
use ironcat.Types.Transaction.{OutPoint, Transaction, txid_of, is_coinbase}
use ironcat.Types.Block.{Block}
use ironcat.Mempool.{MempoolEntry, Mempool, find_tx}
use ironcat.Mempool.Remove.{
  remove_confirmed, confirm_txs, conflicts_of, remove_if_there, remove_conflicts, remove_block_txs,
}
use ironcat.Mempool.Index.{HasInput, IsIndexed}
use ironcat.Mempool.Index.Confirmed.{
  IsPart, IsPart-all, IsPart-trans, still_absent, IsWithout, remove_with_descendants-IsWithout,
  remove_confirmed-IsWithout, IsIn, IsIn-append_left, IsIn-append_right, conflicts_of_found,
}

All-get_elem? {ℓ κ} :
    {A : Type ℓ} (P : A → Type κ) (xs : List A) (n : ℕ) (a : A)
    → All P xs
    → get_elem? xs n ≡ some a
    → P a
All-get_elem? P [] n a h at_n = absurd (none-ne-some at_n)
All-get_elem? P (x ∷ xs) zero a h at_n = subst P (some-injective at_n) h.0
All-get_elem? P (x ∷ xs) (suc n) a h at_n = All-get_elem? P xs n a h.1 at_n

module _ (sha : Sha256) where
  remove_if_there-IsWithout :
      (k : Hash256) (m : Mempool)
      → IsIndexed m
      → IsWithout m k (remove_if_there sha (find_tx k m.txs) k m)
  unfolding IsWithout
  remove_if_there-IsWithout k m i = go (find_tx k m.txs) refl
    where
      go :
          (o : Option MempoolEntry)
          → find_tx k m.txs ≡ o
          → IsWithout m k (remove_if_there sha o k m)
      go none absent = (IsPart-all m i, absent)
      go (some e) there = remove_with_descendants-IsWithout k m i

  -- The conflicting entries are gone.
  remove_conflicts-removes :
      (ks : List Hash256) (m : Mempool)
      → IsIndexed m
      → IsPart m (remove_conflicts sha ks m)
        × ((k : Hash256) → IsIn k ks → find_tx k (remove_conflicts sha ks m).txs ≡ none)
  unfolding remove_conflicts IsIn IsWithout
  remove_conflicts-removes [] m i = (IsPart-all m i, λ k h. absurd h)
  remove_conflicts-removes (x ∷ ks) m i =
      let (part, gone) = remove_if_there-IsWithout x m i in
      let (rest, others) = remove_conflicts-removes ks _ part.indexed in
      (
        IsPart-trans m _ _ part rest,
        λ k h. elim h [
          | inl same ↦ still_absent _ _ k rest (
              ap (λ q. find_tx q (remove_if_there sha (find_tx x m.txs) x m).txs) (sym same) ∙ gone)
          | inr later ↦ others k later
        ],
      )

  -- What a pool has left of a transaction of a block and of those that spend its inputs: nothing but
  -- the entries of a list.
  IsConfirmed : Mempool → List Hash256 → Transaction → Type 0
  IsConfirmed m found tx =
      (find_tx (txid_of sha tx) m.txs ≡ none)
      × (is_coinbase tx ≡ false
          → (o : OutPoint) (k : Hash256) (e : MempoolEntry) → HasInput o tx.vin
          → find_tx k m.txs ≡ some e
          → HasInput o e.tx.vin
          → IsIn k found)

  more_found :
      (m : Mempool) (xs ys : List Hash256) (txs : List Transaction)
      → All (IsConfirmed m ys) txs
      → All (IsConfirmed m (xs ++ ys)) txs
  unfolding IsConfirmed
  more_found m xs ys [] h = h
  more_found m xs ys (tx ∷ txs) h = (
    (h.0.0, λ c o k e a b d. IsIn-append_right k xs ys (h.0.1 c o k e a b d)),
    more_found m xs ys txs h.1,
  )

  confirm_txs-IsConfirmed :
      (txs : List Transaction) (m : Mempool)
      → IsIndexed m
      → IsPart m (confirm_txs sha txs m).0
        × All (IsConfirmed (confirm_txs sha txs m).0 (confirm_txs sha txs m).1) txs
  unfolding confirm_txs IsConfirmed IsWithout
  confirm_txs-IsConfirmed [] m i = (IsPart-all m i, tt)
  confirm_txs-IsConfirmed (tx ∷ txs) m i =
      let txid = txid_of sha tx in
      let m' = remove_confirmed (find_tx txid m.txs) txid m in
      let (part, gone) = remove_confirmed-IsWithout txid m i in
      let (rest, others) = confirm_txs-IsConfirmed txs m' part.indexed in
      let found = if is_coinbase tx then [] else conflicts_of m'.spends txid tx.vin in
      (
        IsPart-trans m m' _ part rest,
        (
          (
            still_absent m' _ txid rest gone,
            λ spends o k e mine there shared.
                let before = rest.inside k e there in
                let own = part.indexed.spender k e o before shared in
                let apart : k ≢ txid = λ same.
                  none-ne-some (sym gone ∙ ap (λ q. find_tx q m'.txs) (sym same) ∙ before) in
                let here = conflicts_of_found m'.spends txid k tx.vin o mine own apart in
                IsIn-append_left k found _ (rw spends here),
          ),
          more_found (confirm_txs sha txs m').0 found _ txs others,
        ),
      )

  -- What the transaction has left in the pool after a block: neither itself nor a spender of one of
  -- its inputs.
  IsSettled : Mempool → Transaction → Type 0
  IsSettled m tx =
      (find_tx (txid_of sha tx) m.txs ≡ none)
      × (is_coinbase tx ≡ false
          → (o : OutPoint) (k : Hash256) (e : MempoolEntry) → HasInput o tx.vin
          → find_tx k m.txs ≡ some e
          → HasInput o e.tx.vin
          → ⊥)

  settled :
      (m q : Mempool) (found : List Hash256) (txs : List Transaction)
      → IsPart m q
      → ((k : Hash256) → IsIn k found → find_tx k q.txs ≡ none)
      → All (IsConfirmed m found) txs
      → All (IsSettled q) txs
  unfolding IsConfirmed IsSettled
  settled m q found [] part gone h = tt
  settled m q found (tx ∷ txs) part gone h = (
    (
      still_absent m q _ part h.0.0,
      λ spends o k e mine there shared.
          none-ne-some
            (sym (gone k (h.0.1 spends o k e mine (part.inside k e there) shared)) ∙ there),
    ),
    settled m q found txs part gone h.1,
  )

  IsSettled-block :
      (block : Block) (m : Mempool)
      → IsIndexed m
      → IsIndexed (remove_block_txs sha block m)
        × All (IsSettled (remove_block_txs sha block m)) block.transactions
  unfolding remove_block_txs
  IsSettled-block block m i =
      let (part, confirmed) = confirm_txs-IsConfirmed block.transactions m i in
      let (rest, gone) =
        remove_conflicts-removes (confirm_txs sha block.transactions m).1 _ part.indexed in
      (rest.indexed, settled _ _ _ block.transactions rest gone confirmed)

  -- Removing the transactions of a block keeps the index of spent outpoints, and leaves none of them
  -- in the pool.
  pub remove_block_txs-IsIndexed :
      (block : Block) (m : Mempool) (n : ℕ) (tx : Transaction)
      → IsIndexed m
      → get_elem? block.transactions n ≡ some tx
      → IsIndexed (remove_block_txs sha block m)
        × (find_tx (txid_of sha tx) (remove_block_txs sha block m).txs ≡ none)
  unfolding IsSettled
  remove_block_txs-IsIndexed block m n tx i at_n =
      let (indexed, all_settled) = IsSettled-block block m i in
      (indexed, (All-get_elem? _ block.transactions n tx all_settled at_n).0)

  -- After a block no transaction is left in the pool that spends an outpoint which a transaction of
  -- the block spends as well, its coinbase left aside.
  pub remove_block_txs_no_conflict :
      (block : Block) (m : Mempool) (n : ℕ) (tx : Transaction) (o : OutPoint) (k : Hash256)
      (e : MempoolEntry)
      → IsIndexed m
      → get_elem? block.transactions n ≡ some tx
      → is_coinbase tx ≡ false
      → HasInput o tx.vin
      → find_tx k (remove_block_txs sha block m).txs ≡ some e
      → ¬ HasInput o e.tx.vin
  unfolding IsSettled
  remove_block_txs_no_conflict block m n tx o k e i at_n spending mine there =
      (All-get_elem? _ block.transactions n tx (IsSettled-block block m i).1 at_n).1 spending o k e
        mine there
