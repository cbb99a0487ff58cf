-- ===== src/Validation/Transaction/Rules.antt =====
-- What `check_transaction` accepts.
use ironcat.Base.{
  ◌≤◌, ◌<◌, ◌≡◌, ◌≢◌, refl, sym, ap, ◌∙◌, List, [], ◌∷◌, Bool, true, false, not, ◌||◌, All, length,
  arith, Bool-cases, inl, inr, ==_refl,
}
use ironcat.Base.Int.{ℤ, pos, ltb_ℤ, leb_ℤ, ◌≤ℤ◌}
use ironcat.Base.Result.{ok, ensure_then}
use ironcat.Types.Hash.{bytes_eq→eq, bytes_eq_refl}
use ironcat.Types.Transaction.{
  OutPoint, coinbase_outpoint, outpoint_eq, TxIn, TxOut, Transaction, is_coinbase,
}
use ironcat.Validation.Subsidy.{max_money}
use ironcat.Chainstate.Value.Sums.{total_out}
use ironcat.Validation.Transaction.{
  negative_value, value_too_large, duplicate_inputs, min_coinbase_script_sig,
  max_coinbase_script_sig, check_values, is_in, check_distinct,
}

abbrev pub IsAmount : TxOut → Type 0
IsAmount o = (pos 0 ≤ℤ o.value) × (o.value ≤ℤ pos max_money)

-- No two inputs spend the same outpoint.
abbrev pub DistinctInputs : List TxIn → Type 0
DistinctInputs [] = Unit
DistinctInputs (i ∷ is) = All (λ j. j.prev_output ≢ i.prev_output) is × DistinctInputs is

abbrev pub HasScriptLength : TxIn → Type 0
HasScriptLength i =
    (min_coinbase_script_sig ≤ length i.script_sig)
    × (length i.script_sig ≤ max_coinbase_script_sig)

-- A coinbase has a script of 2 to 100 bytes, and no other transaction spends the null outpoint.
abbrev pub FitsKind : Bool → List TxIn → Type 0
FitsKind true is = All HasScriptLength is
FitsKind false is = All (λ i. i.prev_output ≢ coinbase_outpoint) is

pub record IsValidTx (tx : Transaction) : Type 0 where
  pub inputs : 0 < length tx.vin
  pub outputs : 0 < length tx.vout
  pub amounts : All IsAmount tx.vout
  pub total : total_out tx.vout ≤ℤ pos max_money
  pub distinct : DistinctInputs tx.vin
  pub kind : FitsKind (is_coinbase tx) tx.vin

pub not-true : (b : Bool) → not b ≡ true → b ≡ false
not-true true h = cc
not-true false h = refl

pub outpoint_eq→eq : (a b : OutPoint) → outpoint_eq a b ≡ true → a ≡ b
unfolding outpoint_eq
outpoint_eq→eq a b h = ground (arith, bytes_eq→eq a.txid b.txid)

pub outpoint_eq_refl : (a : OutPoint) → outpoint_eq a a ≡ true
unfolding outpoint_eq
outpoint_eq_refl a = rw (bytes_eq_refl a.txid, ==_refl a.index)

pub ne→outpoint_eq : (a b : OutPoint) → a ≢ b → outpoint_eq a b ≡ false
ne→outpoint_eq a b h = elim (Bool-cases (outpoint_eq a b)) [
  | inl e ↦ absurd (h (outpoint_eq→eq a b e))
  | inr e ↦ e
]

pub outpoint_eq→ne : (a b : OutPoint) → outpoint_eq a b ≡ false → a ≢ b
outpoint_eq→ne a b h e =
    absurd (true-ne-false (sym (outpoint_eq_refl a) ∙ ap (outpoint_eq a) e ∙ h))
  where
    true-ne-false : true ≡ false → ⊥
    true-ne-false p = cc

pub check_values_sound : (os : List TxOut) → check_values os ≡ ok tt → All IsAmount os
unfolding check_values
check_values_sound [] h = tt
check_values_sound (o ∷ os) h =
    let (a, h1) = ensure_then (not (ltb_ℤ o.value (pos 0))) negative_value _ h in
    let (b, h2) = ensure_then (leb_ℤ o.value (pos max_money)) value_too_large _ h1 in
    ((low o.value (not-true _ a), high o.value (pos max_money) b), check_values_sound os h2)
  where
    low : (x : ℤ) → ltb_ℤ x (pos 0) ≡ false → pos 0 ≤ℤ x
    low x e = ground arith

    high : (x y : ℤ) → leb_ℤ x y ≡ true → x ≤ℤ y
    high x y e = ground arith

pub check_values_complete : (os : List TxOut) → All IsAmount os → check_values os ≡ ok tt
unfolding check_values
check_values_complete [] h = refl
check_values_complete (o ∷ os) h =
    let (a, b) = h.0 in
    rw (low o.value a, high o.value (pos max_money) b) (check_values_complete os h.1)
  where
    low : (x : ℤ) → pos 0 ≤ℤ x → not (ltb_ℤ x (pos 0)) ≡ true
    low x e = ground arith

    high : (x y : ℤ) → x ≤ℤ y → leb_ℤ x y ≡ true
    high x y e = ground arith

-- Among the outpoints of `seen` there is none of the inputs.
abbrev NotIn : List OutPoint → List TxIn → Type 0
NotIn seen is = All (λ i. is_in i.prev_output seen ≡ false) is

split_seen :
    (o : OutPoint) (seen : List OutPoint) (is : List TxIn)
    → NotIn (o ∷ seen) is
    → All (λ j. j.prev_output ≢ o) is × NotIn seen is
unfolding is_in
split_seen o seen [] h = (tt, tt)
split_seen o seen (i ∷ is) h =
    let (a, b) = split_seen o seen is h.1 in
    let (e, f) = neither (outpoint_eq i.prev_output o) (is_in i.prev_output seen) h.0 in
    ((outpoint_eq→ne i.prev_output o e, a), (f, b))
  where
    neither : (x y : Bool) → (x || y) ≡ false → (x ≡ false) × (y ≡ false)
    neither true y e = cc
    neither false y e = (refl, e)

join_seen :
    (o : OutPoint) (seen : List OutPoint) (is : List TxIn)
    → All (λ j. j.prev_output ≢ o) is
    → NotIn seen is
    → NotIn (o ∷ seen) is
unfolding is_in
join_seen o seen [] a b = tt
join_seen o seen (i ∷ is) a b =
    (rw (ne→outpoint_eq i.prev_output o a.0) b.0, join_seen o seen is a.1 b.1)

pub check_distinct_sound :
    (seen : List OutPoint) (is : List TxIn)
    → check_distinct seen is ≡ ok tt
    → NotIn seen is × DistinctInputs is
unfolding check_distinct
check_distinct_sound seen [] h = (tt, tt)
check_distinct_sound seen (i ∷ is) h =
    let (a, h1) = ensure_then (not (is_in i.prev_output seen)) duplicate_inputs _ h in
    let (b, c) = check_distinct_sound (i.prev_output ∷ seen) is h1 in
    let (d, e) = split_seen i.prev_output seen is b in ((not-true _ a, e), (d, c))

pub check_distinct_complete :
    (seen : List OutPoint) (is : List TxIn)
    → NotIn seen is
    → DistinctInputs is
    → check_distinct seen is ≡ ok tt
unfolding check_distinct
check_distinct_complete seen [] a b = refl
check_distinct_complete seen (i ∷ is) a b = rw a.0 (
    check_distinct_complete (i.prev_output ∷ seen) is (join_seen i.prev_output seen is b.0 a.1) b.1)

pub none_seen : (is : List TxIn) → NotIn [] is
unfolding is_in
none_seen [] = tt
none_seen (i ∷ is) = (refl, none_seen is)
