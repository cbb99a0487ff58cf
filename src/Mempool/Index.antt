-- ===== src/Mempool/Index.antt =====
-- mempool/mod.rs: the index of spent outpoints, and that no two transactions of the pool spend the same
-- outpoint.
pub mod Kept
pub mod Confirmed
pub mod Blocks
use ironcat.Base.{
  ℕ, ◌≡◌, ◌≢◌, refl, sym, ap, ◌∙◌, List, [], ◌∷◌, Bool, true, false, not, Option, none, some,
  Bool-cases, Option-cases, inl, inr, ◌⊎◌, none-ne-some, some-injective, if◌then◌else◌,
}
use ironcat.Types.Hash.{Hash256, bytes_eq, bytes_eq→eq, bytes_eq_refl}
use ironcat.Types.Transaction.{OutPoint, TxIn, Transaction, outpoint_eq}
use ironcat.Validation.Transaction.Rules.{outpoint_eq→eq, outpoint_eq_refl}
use ironcat.Mempool.{
  MempoolEntry, TxEntries, Spends, Mempool, find_tx, erase_tx, set_spend, set_spends,
}
use ironcat.Mempool.Remove.{drop_entry}

unfoldable pub HasInput : OutPoint → List TxIn → Type 0
HasInput o [] = ⊥
HasInput o (i ∷ is) = (i.prev_output ≡ o) ⊎ HasInput o is

-- No key stands twice.
unfoldable pub IsDistinct : TxEntries → Type 0
IsDistinct [] = Unit
IsDistinct ((k, e) ∷ rest) = (find_tx k rest ≡ none) × IsDistinct rest

-- Every input of every transaction of the pool is in the index, under that transaction.
pub record IsIndexed (m : Mempool) : Type 0 where
  pub distinct : IsDistinct m.txs
  pub spender :
      (txid : Hash256) (e : MempoolEntry) (o : OutPoint)
      → find_tx txid m.txs ≡ some e
      → HasInput o e.tx.vin
      → m.spends o ≡ some txid

pub HasInput-cases : (o : OutPoint) (is : List TxIn) → HasInput o is ⊎ (HasInput o is → ⊥)
unfolding HasInput
HasInput-cases o [] = inr (λ h. h)
HasInput-cases o (i ∷ is) = elim (Bool-cases (outpoint_eq o i.prev_output)) [
  | inl y ↦ inl (inl (sym (outpoint_eq→eq o i.prev_output y)))
  | inr n ↦ elim (HasInput-cases o is) [
    | inl h ↦ inl (inr h)
    | inr absent ↦ inr (λ h. elim h [
      | inl same ↦ cc (n, ap (outpoint_eq o) same, outpoint_eq_refl o)
      | inr later ↦ absent later
    ])
  ]
]

set_spend_keep :
    (v : Option Hash256) (p o : OutPoint) (s : Spends) → s o ≡ v → set_spend p v s o ≡ v
set_spend_keep v p o s h = elim (Bool-cases (outpoint_eq o p)) [
  | inl y ↦ rw y refl
  | inr n ↦ rw n h
]

set_spends_keep :
    (v : Option Hash256) (is : List TxIn) (s : Spends) (o : OutPoint)
    → s o ≡ v
    → set_spends v is s o ≡ v
unfolding set_spends
set_spends_keep v [] s o h = h
set_spends_keep v (i ∷ is) s o h = set_spends_keep v is _ o (set_spend_keep v i.prev_output o s h)

pub set_spends_own :
    (v : Option Hash256) (is : List TxIn) (s : Spends) (o : OutPoint)
    → HasInput o is
    → set_spends v is s o ≡ v
unfolding set_spends HasInput
set_spends_own v [] s o h = absurd h
set_spends_own v (i ∷ is) s o (inl same) =
    set_spends_keep v is _ o (rw (same, outpoint_eq_refl o) refl)
set_spends_own v (i ∷ is) s o (inr later) = set_spends_own v is _ o later

pub set_spends_other :
    (v : Option Hash256) (is : List TxIn) (s : Spends) (o : OutPoint)
    → (HasInput o is → ⊥)
    → set_spends v is s o ≡ s o
unfolding set_spends HasInput
set_spends_other v [] s o h = refl
set_spends_other v (i ∷ is) s o h =
    set_spends_other v is _ o (λ later. h (inr later))
    ∙ unset (Bool-cases (outpoint_eq o i.prev_output))
  where
    unset :
        (outpoint_eq o i.prev_output ≡ true) ⊎ (outpoint_eq o i.prev_output ≡ false)
        → set_spend i.prev_output v s o ≡ s o
    unset (inl y) = absurd (h (inl (sym (outpoint_eq→eq o i.prev_output y))))
    unset (inr n) = rw n refl

-- What is found after an entry left is another entry, and was there before.
pub find-erase_tx :
    (txid k : Hash256) (txs : TxEntries) (e : MempoolEntry)
    → IsDistinct txs
    → find_tx k (erase_tx txid txs) ≡ some e
    → (find_tx k txs ≡ some e) × (k ≢ txid)
unfolding find_tx erase_tx IsDistinct
find-erase_tx txid k [] e d h = absurd (none-ne-some h)
find-erase_tx txid k ((j, x) ∷ rest) e d h = elim (Bool-cases (bytes_eq j txid)) [
  | inl y ↦
      let found = rw y at h in
      let j_is = bytes_eq→eq j txid y in
      let apart : k ≢ txid =
        λ same. none-ne-some (sym d.0 ∙ ap (λ q. find_tx q rest) (j_is ∙ sym same) ∙ found) in
      elim (Bool-cases (bytes_eq j k)) [
        | inl z ↦ absurd (apart (sym (bytes_eq→eq j k z) ∙ j_is))
        | inr z ↦ (rw z found, apart)
      ]
  | inr n ↦ elim (Bool-cases (bytes_eq j k)) [
    | inl z ↦ (
      rw z (rw (n, z) at h),
      λ same. cc (n, ap (bytes_eq j) (bytes_eq→eq j k z ∙ same), bytes_eq_refl j),
    )
    | inr z ↦
        let (found, apart) = find-erase_tx txid k rest e d.1 (rw (n, z) at h) in (rw z found, apart)
  ]
]

pub absent_erase :
    (txid k : Hash256) (txs : TxEntries)
    → find_tx k txs ≡ none
    → find_tx k (erase_tx txid txs) ≡ none
unfolding find_tx erase_tx
absent_erase txid k [] h = refl
absent_erase txid k ((j, x) ∷ rest) h = elim (Bool-cases (bytes_eq j k)) [
  | inl z ↦ cc (rw z at h)
  | inr z ↦ elim (Bool-cases (bytes_eq j txid)) [
    | inl y ↦ rw y (rw z at h)
    | inr n ↦ rw (n, z) (absent_erase txid k rest (rw z at h))
  ]
]

pub erase_tx-IsDistinct :
    (txid : Hash256) (txs : TxEntries) → IsDistinct txs → IsDistinct (erase_tx txid txs)
unfolding erase_tx IsDistinct
erase_tx-IsDistinct txid [] d = d
erase_tx-IsDistinct txid ((j, x) ∷ rest) d = elim (Bool-cases (bytes_eq j txid)) [
  | inl y ↦ rw y d.1
  | inr n ↦ rw n (absent_erase txid j rest d.0, erase_tx-IsDistinct txid rest d.1)
]
