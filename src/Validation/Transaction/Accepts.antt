-- ===== src/Validation/Transaction/Accepts.antt =====
-- `check_transaction` accepts the transactions that the rules allow.
use ironcat.Base.{
  ℕ, ◌≤◌, ◌≡◌, ◌≢◌, ◌↔◌, refl, sym, ap, List, [], ◌∷◌, true, false, not, ◌&&◌, some, All, ltb, leb,
  length, arith, Bool-cases, Option-cases, inl, inr, ltb→lt, lt→ltb,
}
use mathlib.Core.Path.{subst}
use ironcat.Base.Int.{ℤ, pos, leb_ℤ, ◌+ℤ◌, ◌≤ℤ◌, int_laws, is_i64, checked_add, +ℤ-zero, +ℤ_assoc}
use ironcat.Base.Result.{ok, ensure_then, >>-eq-ok, ensure-eq-ok}
use ironcat.Types.Transaction.{
  coinbase_outpoint, outpoint_eq, TxIn, TxOut, Transaction, single_null, is_coinbase,
}
use ironcat.Validation.Subsidy.{max_money}
use ironcat.Chainstate.State.{sum_from, sum_outputs}
use ironcat.Chainstate.Value.Sums.{total_out, total_out_nonneg, sum_outputs_lem, IsNonNegative}
use ironcat.Validation.Transaction.{
  no_inputs, no_outputs, total_too_large, null_prevout, check_values, within_max_money,
  check_distinct, script_length_fits, check_prevouts, check_by_kind, check_transaction,
}
use ironcat.Validation.Transaction.Rules.{
  IsAmount, HasScriptLength, FitsKind, IsValidTx, not-true, ne→outpoint_eq, outpoint_eq→ne,
  check_values_sound, check_values_complete, check_distinct_sound, check_distinct_complete,
  none_seen,
}

pub amounts_nonneg : (os : List TxOut) → All IsAmount os → All IsNonNegative os
amounts_nonneg [] h = tt
amounts_nonneg (o ∷ os) h = ((h.0).0, amounts_nonneg os h.1)

-- Within MAX_MONEY no partial sum overflows.
sum_from-fits :
    (acc : ℤ) (os : List TxOut)
    → pos 0 ≤ℤ acc
    → All IsNonNegative os
    → acc +ℤ total_out os ≤ℤ pos max_money
    → sum_from acc os ≡ some (acc +ℤ total_out os)
unfolding sum_from total_out checked_add
sum_from-fits acc [] a b c = ap some (sym (+ℤ-zero acc))
sum_from-fits acc (o ∷ os) a b c =
    let nonneg : pos 0 ≤ℤ total_out os = total_out_nonneg os b.1 in
    let sum = acc +ℤ o.value in
    let low : pos 0 ≤ℤ sum = omega (int_laws, b.0) in
    let most : sum +ℤ total_out os ≤ℤ pos max_money = omega int_laws in
    let fits : checked_add acc o.value ≡ some sum =
      added acc o.value (total_out os) low nonneg most in
    rw (fits, sum_from-fits sum os low b.1 most) (ap some (+ℤ_assoc acc o.value (total_out os)))
  where
    small : (x : ℤ) → pos 0 ≤ℤ x → x ≤ℤ pos max_money → is_i64 x ≡ true
    small x p q = ground arith

    added :
        (x y r : ℤ)
        → pos 0 ≤ℤ x +ℤ y
        → pos 0 ≤ℤ r
        → x +ℤ y +ℤ r ≤ℤ pos max_money
        → checked_add x y ≡ some (x +ℤ y)
    added x y r p q u = rw (small (x +ℤ y) p (omega int_laws))

total_sound :
    (os : List TxOut) → within_max_money (sum_outputs os) ≡ true → total_out os ≤ℤ pos max_money
total_sound os h = elim (Option-cases (sum_outputs os)) [
  | inl e ↦ absurd (no (rw e at h))
  | inr (s, e) ↦
      subst (λ (x : ℤ). x ≤ℤ pos max_money) (sum_outputs_lem os s e).0 (within s (rw e at h))
]
  where
    no : false ≡ true → ⊥
    no p = cc

    within : (s : ℤ) → leb_ℤ s (pos max_money) ≡ true → s ≤ℤ pos max_money
    within s p = ground arith

total_complete :
    (os : List TxOut)
    → All IsNonNegative os
    → total_out os ≤ℤ pos max_money
    → within_max_money (sum_outputs os) ≡ true
unfolding sum_outputs
total_complete os a h =
    rw (sum_from-fits (pos 0) os (omega arith) a (omega int_laws))
      (within (pos 0 +ℤ total_out os) (omega int_laws))
  where
    within : (s : ℤ) → s ≤ℤ pos max_money → leb_ℤ s (pos max_money) ≡ true
    within s p = ground arith

prevouts_sound :
    (is : List TxIn) → check_prevouts is ≡ ok tt → All (λ i. i.prev_output ≢ coinbase_outpoint) is
unfolding check_prevouts
prevouts_sound [] h = tt
prevouts_sound (i ∷ is) h =
    let (a, h1) =
      ensure_then (not (outpoint_eq i.prev_output coinbase_outpoint)) null_prevout _ h in
    (outpoint_eq→ne _ _ (not-true _ a), prevouts_sound is h1)

prevouts_complete :
    (is : List TxIn) → All (λ i. i.prev_output ≢ coinbase_outpoint) is → check_prevouts is ≡ ok tt
unfolding check_prevouts
prevouts_complete [] h = refl
prevouts_complete (i ∷ is) h =
    rw (ne→outpoint_eq i.prev_output coinbase_outpoint h.0) (prevouts_complete is h.1)

-- A coinbase has one input.
single_script :
    (is : List TxIn)
    → single_null is ≡ true
    → (script_length_fits is ≡ true) ↔ All HasScriptLength is
single_script [] h = cc
single_script (i ∷ []) h =
    (λ e. (fits (length i.script_sig) e, tt), λ (a, _). kept (length i.script_sig) a)
  where
    fits : (n : ℕ) → (leb 2 n && leb n 100) ≡ true → (2 ≤ n) × (n ≤ 100)
    fits n e = ground arith

    kept : (n : ℕ) → (2 ≤ n) × (n ≤ 100) → (leb 2 n && leb n 100) ≡ true
    kept n e = ground arith
single_script (i ∷ j ∷ is) h = cc

kind_sound : (tx : Transaction) → check_by_kind tx ≡ ok tt → FitsKind (is_coinbase tx) tx.vin
unfolding check_by_kind is_coinbase
kind_sound tx h = elim (Bool-cases (single_null tx.vin)) [
  | inl e ↦ rw e ((single_script tx.vin e).0 (ensure-eq-ok _ _ (rw e at h)))
  | inr e ↦ rw e (prevouts_sound tx.vin (rw e at h))
]

kind_complete : (tx : Transaction) → FitsKind (is_coinbase tx) tx.vin → check_by_kind tx ≡ ok tt
unfolding check_by_kind is_coinbase
kind_complete tx h = elim (Bool-cases (single_null tx.vin)) [
  | inl e ↦
      let fits : script_length_fits tx.vin ≡ true = (single_script tx.vin e).1 (rw e at h) in
      rw (e, fits) refl
  | inr e ↦ rw e (prevouts_complete tx.vin (rw e at h))
]

-- A transaction is accepted if and only if it has inputs and outputs, each output is worth between
-- nothing and MAX_MONEY and all together at most MAX_MONEY, no two inputs spend the same outpoint,
-- and its inputs fit its kind: the script of a coinbase has 2 to 100 bytes, and any other
-- transaction does not spend the null outpoint.
pub check_transaction_iff : (tx : Transaction) → (check_transaction tx ≡ ok tt) ↔ IsValidTx tx
unfolding check_transaction
check_transaction_iff tx = (sound, complete)
  where
    sound : check_transaction tx ≡ ok tt → IsValidTx tx
    sound h =
        let (a, h1) = ensure_then (ltb 0 (length tx.vin)) no_inputs _ h in
        let (b, h2) = ensure_then (ltb 0 (length tx.vout)) no_outputs _ h1 in
        let (c, h3) = >>-eq-ok (check_values tx.vout) _ h2 in
        let (d, h4) = ensure_then (within_max_money (sum_outputs tx.vout)) total_too_large _ h3 in
        let (e, f) = >>-eq-ok (check_distinct [] tx.vin) _ h4 in
        record {
          inputs = ltb→lt _ _ a;
          outputs = ltb→lt _ _ b;
          amounts = check_values_sound tx.vout c;
          total = total_sound tx.vout d;
          distinct = (check_distinct_sound [] tx.vin e).1;
          kind = kind_sound tx f;
        }

    complete : IsValidTx tx → check_transaction tx ≡ ok tt
    complete v =
        let a = lt→ltb _ _ v.inputs in
        let b = lt→ltb _ _ v.outputs in
        let c = check_values_complete tx.vout v.amounts in
        let d = total_complete tx.vout (amounts_nonneg tx.vout v.amounts) v.total in
        let e = check_distinct_complete [] tx.vin (none_seen tx.vin) v.distinct in
        rw (a, b, c, d, e) (kind_complete tx v.kind)
