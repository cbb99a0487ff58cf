-- ===== src/Mempool/Accounting.antt =====
-- mempool/mod.rs: the total size of the pool, and the ends of its loops.
use ironcat.Base.{
  ℕ, zero, suc, ◌+◌, ◌≤◌, ◌^◌, ◌%◌, ◌≡◌, refl, sym, ap, ◌∙◌, List, [], ◌∷◌, Bool, true, false,
  Option, none, some, length, arith, Bool-cases, inl, inr, ◌⊎◌, none-ne-some, some-injective,
  if◌then◌else◌,
}
use ironcat.Types.Hash.{Hash256, bytes_eq, bytes_eq_refl}
use ironcat.Types.Transaction.{TxOut}
use ironcat.Mempool.{
  Floats, MempoolEntry, TxEntries, Spends, Mempool, find_tx, erase_tx, sum_entries,
}
use ironcat.Mempool.Remove.{
  drop_entry, push_some, push_children, remove_round, remove_loop, count_outputs,
  remove_with_descendants, worst_from,
}

pub sum_entries-erase_tx :
    (w : MempoolEntry → ℕ) (txid : Hash256) (txs : TxEntries) (e : MempoolEntry)
    → find_tx txid txs ≡ some e
    → w e + sum_entries w (erase_tx txid txs) ≡ sum_entries w txs
unfolding find_tx erase_tx sum_entries
sum_entries-erase_tx w txid [] e h = absurd (none-ne-some h)
sum_entries-erase_tx w txid ((k, x) ∷ rest) e h = elim (Bool-cases (bytes_eq k txid)) [
  | inl y ↦ rw (y, ap w (some-injective (rw y at h))) refl
  | inr n ↦ let ih = sum_entries-erase_tx w txid rest e (rw n at h) in rw n (omega (arith, ih))
]

-- What every removal of an entry that is there keeps, the loop keeps.
pub remove_loop_keeps :
    (P : Mempool → Type 0)
    → ((txid : Hash256) (e : MempoolEntry) (m : Mempool)
        → find_tx txid m.txs ≡ some e
        → P m
        → P (drop_entry txid e m))
    → (fuel : ℕ) (stack : List Hash256) (m : Mempool) → P m
    → P (remove_loop fuel stack m).1
unfolding remove_loop
remove_loop_keeps P keeps zero stack m p = p
remove_loop_keeps P keeps (suc fuel) [] m p = p
remove_loop_keeps P keeps (suc fuel) (current ∷ stack) m p =
    remove_loop_keeps P keeps fuel _ _ (round (find_tx current m.txs) refl)
  where
    round :
        (o : Option MempoolEntry) → find_tx current m.txs ≡ o → P (remove_round o current stack m).1
    round none found = p
    round (some e) found = keeps current e m found p

push_some-length :
    (v : Option Hash256) (stack : List Hash256) → length (push_some v stack) ≤ suc (length stack)
push_some-length none stack = omega arith
push_some-length (some a) stack = omega arith

push_children-length :
    (spends : Spends) (parent : Hash256) (idx : ℕ) (os : List TxOut) (stack : List Hash256)
    → length (push_children spends parent idx os stack) ≤ length os + length stack
unfolding push_children
push_children-length spends parent idx [] stack = omega arith
push_children-length spends parent idx (o ∷ os) stack =
    let rest =
      push_children-length spends parent (suc idx) os
        (push_some (spends (record { txid = parent; index = idx % 2 ^ 32 })) stack) in
    omega (
      arith,
      rest,
      push_some-length (spends (record { txid = parent; index = idx % 2 ^ 32 })) stack,
    )

-- The loop empties its stack: each round takes one from it, and an entry that leaves adds at most one
-- for each of its outputs.
remove_loop_ends :
    (fuel : ℕ) (stack : List Hash256) (m : Mempool)
    → length stack + count_outputs m.txs ≤ fuel
    → (remove_loop fuel stack m).0 ≡ []
unfolding remove_loop count_outputs drop_entry
remove_loop_ends zero [] m enough = refl
remove_loop_ends zero (x ∷ stack) m enough = absurd (omega (arith, enough))
remove_loop_ends (suc fuel) [] m enough = refl
remove_loop_ends (suc fuel) (current ∷ stack) m enough =
    let less = round (find_tx current m.txs) refl in
    remove_loop_ends fuel _ _ (omega (arith, enough, less))
  where
    round :
        (o : Option MempoolEntry)
        → find_tx current m.txs ≡ o
        → length (remove_round o current stack m).0
            + sum_entries (λ x. length x.tx.vout) (remove_round o current stack m).1.txs
          ≤ length stack + sum_entries (λ x. length x.tx.vout) m.txs
    round none found = omega arith
    round (some e) found =
        let fewer = sum_entries-erase_tx (λ x. length x.tx.vout) current m.txs e found in
        let more = push_children-length (drop_entry current e m).spends current 0 e.tx.vout stack in
        omega (arith, fewer, more)

-- After the removal of a transaction nothing is left on the stack of what is to remove: the fuel,
-- one more than the number of the outputs in the pool, is enough.
pub remove_with_descendants_ends :
    (txid : Hash256) (m : Mempool) → (remove_loop (suc (count_outputs m.txs)) (txid ∷ []) m).0 ≡ []
remove_with_descendants_ends txid m = remove_loop_ends _ (txid ∷ []) m (omega arith)

-- The size that the pool holds is the sum of its entries' sizes.
unfoldable pub IsAccounted : Mempool → Type 0
IsAccounted m = m.total_size ≡ sum_entries (λ e. e.size) m.txs

drop_entry-IsAccounted :
    (txid : Hash256) (e : MempoolEntry) (m : Mempool)
    → find_tx txid m.txs ≡ some e
    → IsAccounted m
    → IsAccounted (drop_entry txid e m)
unfolding IsAccounted drop_entry
drop_entry-IsAccounted txid e m found same =
    let less = sum_entries-erase_tx (λ x. x.size) txid m.txs e found in omega (arith, less, same)

-- What the removals keep, with the number of entries bounded.
pub record Kept (limit count : ℕ) (m : Mempool) : Type 0 where
  pub accounted : IsAccounted m
  pub limit_eq : m.max_size ≡ limit
  pub few : sum_entries (λ e. 1) m.txs ≤ count

drop_entry-Kept :
    (limit count : ℕ) (txid : Hash256) (e : MempoolEntry) (m : Mempool)
    → find_tx txid m.txs ≡ some e
    → Kept limit count m
    → Kept limit count (drop_entry txid e m)
unfolding drop_entry
drop_entry-Kept limit count txid e m found k = record {
  accounted = drop_entry-IsAccounted txid e m found k.accounted;
  limit_eq = k.limit_eq;
  few = let fewer = sum_entries-erase_tx (λ x. 1) txid m.txs e found in omega (arith, fewer, k.few);
}

-- A removal of an entry that is there leaves fewer.
pub remove_with_descendants-Kept :
    (limit count : ℕ) (txid : Hash256) (e : MempoolEntry) (m : Mempool)
    → find_tx txid m.txs ≡ some e
    → Kept limit (suc count) m
    → Kept limit count (remove_with_descendants txid m)
unfolding remove_with_descendants remove_loop drop_entry
remove_with_descendants-Kept limit count txid e m found k =
    remove_loop_keeps (Kept limit count) (drop_entry-Kept limit count) (count_outputs m.txs) _ _
      (first (find_tx txid m.txs) refl)
  where
    first :
        (o : Option MempoolEntry)
        → find_tx txid m.txs ≡ o
        → Kept limit count (remove_round o txid [] m).1
    first none absent = absurd (none-ne-some (sym absent ∙ found))
    first (some x) there =
        let fewer = sum_entries-erase_tx (λ q. 1) txid m.txs x there in
        let one = drop_entry-Kept limit (suc count) txid x m there k in
        record {
          accounted = one.accounted;
          limit_eq = one.limit_eq;
          few = omega (arith, fewer, k.few);
        }

pub here :
    (k : Hash256) (x : MempoolEntry) (rest : TxEntries) (txid : Hash256)
    → k ≡ txid
    → find_tx txid ((k, x) ∷ rest) ≡ some x
unfolding find_tx
here k x rest txid same = rw (← same, bytes_eq_refl k) refl

pub later :
    (k : Hash256) (x : MempoolEntry) (rest : TxEntries) (txid : Hash256) (e : MempoolEntry)
    → find_tx txid rest ≡ some e
    → (e' : MempoolEntry) × (find_tx txid ((k, x) ∷ rest) ≡ some e')
unfolding find_tx
later k x rest txid e found = elim (Bool-cases (bytes_eq k txid)) [
  | inl y ↦ (x, rw y refl)
  | inr n ↦ (e, rw n found)
]

module _ (f : Floats) where
  -- The worst entry is one of the pool.
  pub worst_from_found :
      (best : Hash256 × MempoolEntry) (rest : TxEntries)
      → (worst_from f best rest ≡ best.0)
        ⊎ ((e : MempoolEntry) × (find_tx (worst_from f best rest) rest ≡ some e))
  unfolding worst_from find_tx
  worst_from_found best [] = inl refl
  worst_from_found best ((k, x) ∷ rest) =
      let b = f.greater (f.rate_of best.1.fee best.1.size) (f.rate_of x.fee x.size) in
      pick b (worst_from_found (if b then (k, x) else best) rest)
    where
      pick :
          (b : Bool)
          → (worst_from f (if b then (k, x) else best) rest ≡ (if b then (k, x) else best).0)
            ⊎ ((e : MempoolEntry) × (find_tx (worst_from f (if b then (k, x) else best) rest) rest
                  ≡ some e))
          → (worst_from f (if b then (k, x) else best) rest ≡ best.0)
            ⊎ ((e : MempoolEntry) × (find_tx
                    (worst_from f (if b then (k, x) else best) rest)
                    ((k, x) ∷ rest)
                  ≡ some e))
      pick true (inl same) = inr (x, here k x rest _ (sym same))
      pick false (inl same) = inl same
      pick b (inr (e, found)) = inr (later k x rest _ e found)
