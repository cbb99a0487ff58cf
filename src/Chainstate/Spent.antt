-- ===== src/Chainstate/Spent.antt =====
-- Inputs that were spent: each of a coin that was there, once, and the coin is gone.
use ironcat.Base.{
  ℕ, ◌-◌, ◌≤◌, ◌≡◌, ◌≢◌, sym, ap, ◌∙◌, List, [], ◌∷◌, true, false, none, some, All, ◌⊎◌, inl, inr,
  leb, arith, Bool-cases, none-ne-some,
}
use mathlib.Core.Path.{subst}
use ironcat.Base.Int.{ℤ}
use ironcat.Base.Result.{ok, ok-injective}
use ironcat.Network.Cursor.{Bytes}
use ironcat.Types.Hash.{bytes_eq, bytes_eq_refl}
use ironcat.Types.Transaction.{OutPoint, TxIn}
use ironcat.Storage.Table.{TableOps}
use ironcat.Validation.Transaction.Rules.{DistinctInputs}
use ironcat.Chainstate.Coin.{Coin}
use ironcat.Chainstate.State.{coinbase_maturity, outpoint_to_key, is_mature, spend_inputs}
use ironcat.Chainstate.Restore.Spend.{get-remove_self, get-remove_other, find_coin_inv, spend_inv}

-- A coin of a coinbase is spent 100 blocks later at the earliest.
abbrev pub IsMature : ℕ → Coin → Type 0
IsMature height c = (c.is_coinbase ≡ false) ⊎ (coinbase_maturity ≤ height - c.height)

is_mature_sound : (c : Coin) (height : ℕ) → is_mature c height ≡ true → IsMature height c
unfolding is_mature
is_mature_sound c height h = elim (Bool-cases c.is_coinbase) [
  | inl e ↦ inr (enough (height - c.height) (rw e at h))
  | inr e ↦ inl e
]
  where
    enough : (n : ℕ) → leb 100 n ≡ true → 100 ≤ n
    enough n p = ground arith

module _ (db : TableOps Bytes) where
  abbrev pub IsPresent : db.Table → TxIn → Type 0
  IsPresent t i = (bytes : Bytes) × (db.get t (outpoint_to_key i.prev_output) ≡ some bytes)

  abbrev pub IsGone : db.Table → TxIn → Type 0
  IsGone t i = db.get t (outpoint_to_key i.prev_output) ≡ none

  kept_none : (t : db.Table) (k j : Bytes) → db.get t j ≡ none → db.get (db.remove t k) j ≡ none
  kept_none t k j h = elim (Bool-cases (bytes_eq k j)) [
    | inl e ↦ get-remove_self db t k j e
    | inr e ↦ get-remove_other db t k j e ∙ h
  ]

  -- What is found behind a removal is another key, and was there before.
  pub found_other :
      (t : db.Table) (k j v : Bytes)
      → db.get (db.remove t k) j ≡ some v
      → (bytes_eq k j ≡ false) × (db.get t j ≡ some v)
  found_other t k j v h = elim (Bool-cases (bytes_eq k j)) [
    | inl e ↦ absurd (none-ne-some (sym (get-remove_self db t k j e) ∙ h))
    | inr e ↦ (e, sym (get-remove_other db t k j e) ∙ h)
  ]

  differs :
      (t : db.Table) (o : OutPoint) (is : List TxIn)
      → All (IsPresent (db.remove t (outpoint_to_key o))) is
      → All (λ j. j.prev_output ≢ o) is × All (IsPresent t) is
  differs t o [] h = (tt, tt)
  differs t o (j ∷ is) h =
      let ((v, e), rest) = h in
      let (other, there) = found_other t (outpoint_to_key o) (outpoint_to_key j.prev_output) v e in
      let (a, b) = differs t o is rest in
      (
        (
          λ same. never (
              sym (bytes_eq_refl (outpoint_to_key o))
              ∙ ap (λ p. bytes_eq (outpoint_to_key o) (outpoint_to_key p)) (sym same)
              ∙ other),
          a,
        ),
        ((v, there), b),
      )
    where
      never : true ≡ false → ⊥
      never p = cc

  stays_gone :
      (t : db.Table) (height : ℕ) (is : List TxIn) (sum : ℤ) (t' : db.Table) (total : ℤ)
      (spent : List Coin) (k : Bytes)
      → db.get t k ≡ none
      → spend_inputs db t height is sum ≡ ok (t', total, spent)
      → db.get t' k ≡ none
  stays_gone t height [] sum t' total spent k gone h =
      unfold spend_inputs in
      ap (λ (y : db.Table × ℤ × List Coin). db.get y.0 k) (sym (ok-injective h)) ∙ gone
  stays_gone t height (i ∷ is) sum t' total spent k gone h =
      let (c, cs, sum', _, _, rest, _) = spend_inv db t height i is sum t' total spent h in
      stays_gone (db.remove t (outpoint_to_key i.prev_output)) height is sum' t' total cs k
        (kept_none t (outpoint_to_key i.prev_output) k gone) rest

  all-IsPresent :
      (t : db.Table) (height : ℕ) (is : List TxIn) (sum : ℤ) (t' : db.Table) (total : ℤ)
      (spent : List Coin)
      → spend_inputs db t height is sum ≡ ok (t', total, spent)
      → All (IsPresent t) is
  all-IsPresent t height [] sum t' total spent h = tt
  all-IsPresent t height (i ∷ is) sum t' total spent h =
      let (c, cs, sum', f, _, rest, _) = spend_inv db t height i is sum t' total spent h in
      let (bytes, found, _, _) = find_coin_inv db t height i c f in
      (
        (bytes, found),
        (differs t i.prev_output is (
            all-IsPresent (db.remove t (outpoint_to_key i.prev_output)) height is sum' t' total cs
              rest)).1,
      )

  -- Inputs that were spent together are of different outpoints, none of which has a coin any
  -- more, and each coin that was spent is mature: it is of no coinbase or 100 blocks old.
  pub spend_inputs-once :
      (t : db.Table) (height : ℕ) (is : List TxIn) (sum : ℤ) (t' : db.Table) (total : ℤ)
      (spent : List Coin)
      → spend_inputs db t height is sum ≡ ok (t', total, spent)
      → DistinctInputs is × All (IsGone t') is × All (IsMature height) spent
  spend_inputs-once t height [] sum t' total spent h =
      unfold spend_inputs in
      (
        tt,
        tt,
        subst (λ (y : db.Table × ℤ × List Coin). All (IsMature height) y.2) (ok-injective h) tt,
      )
  spend_inputs-once t height (i ∷ is) sum t' total spent h =
      let (c, cs, sum', f, _, rest, e) = spend_inv db t height i is sum t' total spent h in
      let (_, _, _, mature) = find_coin_inv db t height i c f in
      let t1 = db.remove t (outpoint_to_key i.prev_output) in
      let (distinct, gone, old) = spend_inputs-once t1 height is sum' t' total cs rest in
      let here =
        stays_gone t1 height is sum' t' total cs (outpoint_to_key i.prev_output)
          (get-remove_self db t _ _ (bytes_eq_refl (outpoint_to_key i.prev_output))) rest in
      (
        (
          (differs t i.prev_output is (all-IsPresent t1 height is sum' t' total cs rest)).0,
          distinct,
        ),
        (here, gone),
        subst (λ l. All (IsMature height) l) (sym e) (is_mature_sound c height mature, old),
      )
