-- ===== src/Mempool/Index/Confirmed.antt =====
-- mempool/mod.rs: parts of a pool, and what a removal leaves.
use ironcat.Base.{
  ◌≡◌, ◌≢◌, refl, sym, ◌∙◌, List, [], ◌∷◌, ◌++◌, Option, none, some, Bool-cases, Option-cases, inl,
  inr, ◌⊎◌, none-ne-some,
}
use ironcat.Types.Hash.{Hash256, bytes_eq, bytes_eq→eq}
use ironcat.Types.Transaction.{OutPoint, TxIn}
use ironcat.Mempool.{MempoolEntry, Spends, Mempool, find_tx, erase_tx}
use ironcat.Mempool.Remove.{
  drop_entry, remove_loop, remove_with_descendants, count_outputs, remove_confirmed, other_spender,
  conflicts_of, remove_round,
}
use ironcat.Mempool.Accounting.{remove_loop_keeps}
use ironcat.Mempool.Index.{HasInput, IsIndexed, find-erase_tx}
use ironcat.Mempool.Index.Kept.{drop_entry-IsIndexed}

-- A part of a pool: indexed, with no entry that the pool does not have.
pub record IsPart (m q : Mempool) : Type 0 where
  pub indexed : IsIndexed q
  pub inside :
      (k : Hash256) (e : MempoolEntry) → find_tx k q.txs ≡ some e → find_tx k m.txs ≡ some e

pub IsPart-all : (m : Mempool) → IsIndexed m → IsPart m m
IsPart-all m i = record { indexed = i; inside = λ k e h. h }

pub IsPart-trans : (a b c : Mempool) → IsPart a b → IsPart b c → IsPart a c
IsPart-trans a b c p q = record {
  indexed = q.indexed;
  inside = λ k e h. p.inside k e (q.inside k e h);
}

-- What a pool does not have, a part of it does not have.
pub still_absent :
    (m q : Mempool) (k : Hash256) → IsPart m q → find_tx k m.txs ≡ none → find_tx k q.txs ≡ none
still_absent m q k p absent = elim (Option-cases (find_tx k q.txs)) [
  | inl none_left ↦ none_left
  | inr (e, found) ↦ absurd (none-ne-some (sym absent ∙ p.inside k e found))
]

drop_entry-IsPart :
    (m : Mempool) (txid : Hash256) (e : MempoolEntry) (q : Mempool)
    → find_tx txid q.txs ≡ some e
    → IsPart m q
    → IsPart m (drop_entry txid e q)
unfolding drop_entry
drop_entry-IsPart m txid e q there p = record {
  indexed = drop_entry-IsIndexed txid e q there p.indexed;
  inside = λ k x h. p.inside k x (find-erase_tx txid k q.txs x p.indexed.distinct h).0;
}

drop_entry-absent :
    (txid : Hash256) (e : MempoolEntry) (q : Mempool)
    → IsIndexed q
    → find_tx txid (drop_entry txid e q).txs ≡ none
unfolding drop_entry
drop_entry-absent txid e q i = elim (Option-cases (find_tx txid (erase_tx txid q.txs))) [
  | inl none_left ↦ none_left
  | inr (x, found) ↦ absurd ((find-erase_tx txid txid q.txs x i.distinct found).1 refl)
]

-- A part of the pool without a transaction.
unfoldable pub IsWithout : Mempool → Hash256 → Mempool → Type 0
IsWithout m txid q = IsPart m q × (find_tx txid q.txs ≡ none)

pub remove_with_descendants-IsWithout :
    (txid : Hash256) (m : Mempool) → IsIndexed m → IsWithout m txid (remove_with_descendants txid m)
unfolding remove_with_descendants remove_loop IsWithout
remove_with_descendants-IsWithout txid m i =
    remove_loop_keeps (IsWithout m txid) keeps (count_outputs m.txs) _ _
      (first (find_tx txid m.txs) refl)
  where
    keeps :
        (k : Hash256) (e : MempoolEntry) (q : Mempool)
        → find_tx k q.txs ≡ some e
        → IsWithout m txid q
        → IsWithout m txid (drop_entry k e q)
    keeps k e q there p =
        let part = drop_entry-IsPart q k e q there (IsPart-all q p.0.indexed) in
        (IsPart-trans m q _ p.0 part, still_absent q _ txid part p.1)

    first :
        (o : Option MempoolEntry)
        → find_tx txid m.txs ≡ o
        → IsWithout m txid (remove_round o txid [] m).1
    first none absent = (IsPart-all m i, absent)
    first (some e) there =
        (drop_entry-IsPart m txid e m there (IsPart-all m i), drop_entry-absent txid e m i)

pub remove_confirmed-IsWithout :
    (txid : Hash256) (m : Mempool)
    → IsIndexed m
    → IsWithout m txid (remove_confirmed (find_tx txid m.txs) txid m)
unfolding IsWithout
remove_confirmed-IsWithout txid m i = go (find_tx txid m.txs) refl
  where
    go :
        (o : Option MempoolEntry)
        → find_tx txid m.txs ≡ o
        → IsWithout m txid (remove_confirmed o txid m)
    go none absent = (IsPart-all m i, absent)
    go (some e) there =
        (drop_entry-IsPart m txid e m there (IsPart-all m i), drop_entry-absent txid e m i)

unfoldable pub IsIn : Hash256 → List Hash256 → Type 0
IsIn k [] = ⊥
IsIn k (x ∷ xs) = (x ≡ k) ⊎ IsIn k xs

pub IsIn-append_left : (k : Hash256) (xs ys : List Hash256) → IsIn k xs → IsIn k (xs ++ ys)
unfolding IsIn
IsIn-append_left k [] ys h = absurd h
IsIn-append_left k (x ∷ xs) ys (inl e) = inl e
IsIn-append_left k (x ∷ xs) ys (inr h) = inr (IsIn-append_left k xs ys h)

pub IsIn-append_right : (k : Hash256) (xs ys : List Hash256) → IsIn k ys → IsIn k (xs ++ ys)
unfolding IsIn
IsIn-append_right k [] ys h = h
IsIn-append_right k (x ∷ xs) ys h = inr (IsIn-append_right k xs ys h)

pub conflicts_of_found :
    (spends : Spends) (txid k : Hash256) (is : List TxIn) (o : OutPoint)
    → HasInput o is
    → spends o ≡ some k
    → k ≢ txid
    → IsIn k (conflicts_of spends txid is)
unfolding HasInput conflicts_of IsIn
conflicts_of_found spends txid k [] o h own apart = absurd h
conflicts_of_found spends txid k (i ∷ is) o (inl same) own apart =
    elim (Bool-cases (bytes_eq k txid)) [
      | inl y ↦ absurd (apart (bytes_eq→eq k txid y))
      | inr n ↦ rw (same, own, n) (inl refl)
    ]
conflicts_of_found spends txid k (i ∷ is) o (inr later) own apart =
    IsIn-append_right k (other_spender (spends i.prev_output) txid) _
      (conflicts_of_found spends txid k is o later own apart)
