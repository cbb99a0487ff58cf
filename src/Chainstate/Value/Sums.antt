-- ===== src/Chainstate/Value/Sums.antt =====
-- The sums of chainstate/mod.rs as sums of integers.
use ironcat.Base.{
  ℕ, ◌≡◌, sym, ◌∙◌, ap, List, [], ◌∷◌, some, true, All, arith, Option-cases, inl, inr, none-ne-some,
  some-injective,
}
use mathlib.Core.Path.{subst}
use ironcat.Base.Int.{
  +ℤ_assoc, +ℤ-zero, ℤ, pos, negsuc, ◌+ℤ◌, ◌-ℤ◌, ◌≤ℤ◌, leb_ℤ, IsI64, checked_add, checked_add-some,
  int_laws,
}
use ironcat.Base.Result.{ok, ok-injective}
use ironcat.Network.Cursor.{Bytes, from_unsigned}
use ironcat.Types.Transaction.{TxIn, TxOut}
use ironcat.Storage.Table.{TableOps}
use ironcat.Chainstate.Coin.{Coin}
use ironcat.Chainstate.State.{outpoint_to_key, wrap_i64, sum_from, sum_outputs, spend_inputs}
use ironcat.Chainstate.Restore.Spend.{spend_inv}

-- The value of a list of outputs, and of a list of coins.
unfoldable pub total_out : List TxOut → ℤ
total_out [] = pos 0
total_out (o ∷ os) = o.value +ℤ total_out os

unfoldable pub total_coins : List Coin → ℤ
total_coins [] = pos 0
total_coins (c ∷ cs) = c.tx_out.value +ℤ total_coins cs

abbrev pub IsNonNegative : TxOut → Type 0
IsNonNegative o = pos 0 ≤ℤ o.value

sum_from_lem :
    (acc : ℤ) (os : List TxOut) (s : ℤ)
    → IsI64 acc
    → sum_from acc os ≡ some s
    → (s ≡ acc +ℤ total_out os) × IsI64 s
unfolding sum_from total_out
sum_from_lem acc [] s i h =
    subst (λ x. (x ≡ acc +ℤ total_out []) × IsI64 x) (some-injective h) (sym (+ℤ-zero acc), i)
sum_from_lem acc (o ∷ os) s i h = elim (Option-cases (checked_add acc o.value)) [
  | inl over ↦ absurd (none-ne-some (rw (over, sum_from) at h))
  | inr (x, e) ↦
      let (same, fits) = checked_add-some acc o.value x e in
      let (r, k) = sum_from_lem x os s fits (rw (e, sum_from) at h) in
      (r ∙ ap (λ (y : ℤ). y +ℤ total_out os) same ∙ +ℤ_assoc acc o.value (total_out os), k)
]

pub total_out_nonneg : (os : List TxOut) → All IsNonNegative os → pos 0 ≤ℤ total_out os
unfolding total_out
total_out_nonneg [] h = omega arith
total_out_nonneg (o ∷ os) h = omega (int_laws, h.0, total_out_nonneg os h.1)

pub wrap_i64-eq_of_IsI64 : (a : ℤ) → IsI64 a → wrap_i64 a ≡ a
unfolding wrap_i64 from_unsigned
wrap_i64-eq_of_IsI64 (pos n) h = ground arith
wrap_i64-eq_of_IsI64 (negsuc n) h = ground arith

module _ (db : TableOps Bytes) where
  pub spend_inputs-total :
      (t : db.Table) (height : ℕ) (is : List TxIn) (sum : ℤ) (t' : db.Table) (total : ℤ)
      (spent : List Coin)
      → IsI64 sum
      → spend_inputs db t height is sum ≡ ok (t', total, spent)
      → (total ≡ sum +ℤ total_coins spent) × IsI64 total
  unfolding total_coins
  spend_inputs-total t height [] sum t' total spent i h =
      unfold spend_inputs in
      let e = ok-injective h in
      subst (λ (y : db.Table × ℤ × List Coin). (y.1 ≡ sum +ℤ total_coins y.2) × IsI64 y.1) e
        (sym (+ℤ-zero sum), i)
  spend_inputs-total t height (x ∷ is) sum t' total spent i h =
      let (c, cs, sum', _, added, rest, e) = spend_inv db t height x is sum t' total spent h in
      let (same, fits) = checked_add-some sum c.tx_out.value sum' added in
      let (r, k) =
        spend_inputs-total (db.remove t (outpoint_to_key x.prev_output)) height is sum' t' total cs
          fits rest in
      (
        r
            ∙ ap (λ (y : ℤ). y +ℤ total_coins cs) same
            ∙ +ℤ_assoc sum c.tx_out.value (total_coins cs)
            ∙ ap (λ l. sum +ℤ total_coins l) (sym e),
        k,
      )

pub sum_outputs_lem :
    (os : List TxOut) (s : ℤ) → sum_outputs os ≡ some s → (s ≡ total_out os) × IsI64 s
unfolding sum_outputs
sum_outputs_lem os s h =
    let (e, i) = sum_from_lem (pos 0) os s (omega arith) h in (e ∙ omega int_laws, i)

difference_within : (a b : ℤ) → IsI64 a → pos 0 ≤ℤ b → leb_ℤ b a ≡ true → IsI64 (a -ℤ b)
unfolding ◌-ℤ◌
difference_within (pos m) (pos n) i nonneg le = ground arith
difference_within (pos m) (negsuc n) i nonneg le = absurd (omega arith)
difference_within (negsuc m) (pos n) i nonneg le = ground arith
difference_within (negsuc m) (negsuc n) i nonneg le = absurd (omega arith)

-- The difference of two amounts, of which the smaller is not negative, needs no wrapping.
pub fee_exact : (a b : ℤ) → IsI64 a → pos 0 ≤ℤ b → leb_ℤ b a ≡ true → wrap_i64 (a -ℤ b) ≡ a -ℤ b
fee_exact a b i nonneg le = wrap_i64-eq_of_IsI64 (a -ℤ b) (difference_within a b i nonneg le)
