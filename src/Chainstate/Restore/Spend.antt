-- ===== src/Chainstate/Restore/Spend.antt =====
-- What spending inputs does to the UTXO set, and what restoring them does.
use ironcat.Base.{
  ℕ, ◌≡◌, refl, sym, ◌∙◌, ap, List, [], ◌∷◌, true, false, none, some, ◌⊎◌, inl, inr, Bool-cases,
  none-ne-some,
}
use ironcat.Base.Int.{ℤ, checked_add}
use ironcat.Base.Result.{
  Result, ok, err, ensure, ok_or, >>=-eq-ok, ensure-eq-ok, ok_or-eq-ok, ok-injective,
}
use ironcat.Network.Cursor.{Bytes, ParseError}
use ironcat.Types.Hash.{bytes_eq, bytes_eq→eq}
use ironcat.Types.Transaction.{TxIn}
use ironcat.Storage.Table.{TableOps}
use ironcat.Chainstate.Coin.{Coin, coin_to_bytes, coin_from_bytes}
use ironcat.Chainstate.Coin.RoundTrip.{IsCoin, coin_from_bytes-coin_to_bytes}
use ironcat.Chainstate.State.{
  missing_utxo, immature_coinbase, input_overflow, outpoint_to_key, is_mature, stored, find_coin,
  spend_inputs, restore_inputs,
}

module _ (db : TableOps Bytes) where
  abbrev pub SameTable : db.Table → db.Table → Type 0
  SameTable a b = (k : Bytes) → db.get a k ≡ db.get b k

  -- Every stored value is the form of a coin.
  abbrev pub IsTable : db.Table → Type 0
  IsTable t =
      (k bytes : Bytes)
      → db.get t k ≡ some bytes
      → (c : Coin) × (bytes ≡ coin_to_bytes c) × IsCoin c

  pub get-remove_self :
      (t : db.Table) (k j : Bytes) → bytes_eq k j ≡ true → db.get (db.remove t k) j ≡ none
  get-remove_self t k j h = rw (db.get-remove, h)

  pub get-remove_other :
      (t : db.Table) (k j : Bytes) → bytes_eq k j ≡ false → db.get (db.remove t k) j ≡ db.get t j
  get-remove_other t k j h = rw (db.get-remove, h)

  pub get-insert_self :
      (t : db.Table) (k : Bytes) (v : Bytes) (j : Bytes)
      → bytes_eq k j ≡ true
      → db.get (db.insert t k v) j ≡ some v
  get-insert_self t k v j h = rw (db.get-insert, h)

  pub get-insert_other :
      (t : db.Table) (k : Bytes) (v : Bytes) (j : Bytes)
      → bytes_eq k j ≡ false
      → db.get (db.insert t k v) j ≡ db.get t j
  get-insert_other t k v j h = rw (db.get-insert, h)

  pub get_at_eq : (t : db.Table) (k j : Bytes) → bytes_eq k j ≡ true → db.get t k ≡ db.get t j
  get_at_eq t k j h = ap (db.get t) (bytes_eq→eq k j h)

  stored_inv : (r : Result ParseError Coin) {c : Coin} → stored db r ≡ ok c → r ≡ ok c
  stored_inv (ok d) h = cc
  stored_inv (err e) h = cc

  -- A coin that is found is the parse of what is stored, and mature.
  pub find_coin_inv :
      (t : db.Table) (height : ℕ) (i : TxIn) (c : Coin)
      → find_coin db t height i ≡ ok c
      → (bytes : Bytes) × (db.get t (outpoint_to_key i.prev_output) ≡ some bytes)
        × (coin_from_bytes bytes ≡ ok c)
        × (is_mature c height ≡ true)
  unfolding find_coin
  find_coin_inv t height i c h =
      let (bytes, p, q) =
        >>=-eq-ok (ok_or (db.get t (outpoint_to_key i.prev_output)) missing_utxo) _ h in
      let (d, r, w) = >>=-eq-ok (stored db (coin_from_bytes bytes)) _ q in
      let (_, m, same) = >>=-eq-ok (ensure (is_mature d height) immature_coinbase) _ w in
      let e : d ≡ c = cc same in
      (bytes, ok_or-eq-ok _ _ p, rw (← e) (stored_inv _ r), rw (← e) (ensure-eq-ok _ _ m))

  pub spend_inv :
      (t : db.Table) (height : ℕ) (i : TxIn) (is : List TxIn) (sum : ℤ) (t' : db.Table) (total : ℤ)
      (spent : List Coin)
      → spend_inputs db t height (i ∷ is) sum ≡ ok (t', total, spent)
      → (c : Coin) × (cs : List Coin) × (sum' : ℤ) × (find_coin db t height i ≡ ok c)
        × (checked_add sum c.tx_out.value ≡ some sum')
        × (spend_inputs db (db.remove t (outpoint_to_key i.prev_output)) height is sum'
            ≡ ok (t', total, cs))
        × (spent ≡ c ∷ cs)
  unfolding spend_inputs
  spend_inv t height i is sum t' total spent h =
      let (c, p, q) = >>=-eq-ok (find_coin db t height i) _ h in
      let (sum', r, w) = >>=-eq-ok (ok_or (checked_add sum c.tx_out.value) input_overflow) _ q in
      let ((u, v, cs), m, same) =
        >>=-eq-ok (spend_inputs db (db.remove t (outpoint_to_key i.prev_output)) height is sum') _
          w in
      let e = ok-injective same in
      (
        c,
        cs,
        sum',
        p,
        ok_or-eq-ok _ _ r,
        m ∙ ap (λ (x : db.Table × ℤ × List Coin). ok (x.0, x.1, cs)) e,
        sym (ap (λ (x : db.Table × ℤ × List Coin). x.2) e),
      )

  -- The coins put back at the keys of the inputs, as `restore_inputs` does where it succeeds.
  pub put_back : db.Table → List TxIn → List Coin → db.Table
  put_back t [] cs = t
  put_back t (i ∷ is) [] = t
  put_back t (i ∷ is) (c ∷ cs) =
      put_back (db.insert t (outpoint_to_key i.prev_output) (coin_to_bytes c)) is cs

  pub restore_inputs-eq-put_back :
      (u t : db.Table) (height : ℕ) (is : List TxIn) (sum : ℤ) (t' : db.Table) (total : ℤ)
      (spent : List Coin)
      → spend_inputs db t height is sum ≡ ok (t', total, spent)
      → restore_inputs db u is spent ≡ ok (put_back u is spent)
  unfolding restore_inputs put_back
  restore_inputs-eq-put_back u t height [] sum t' total spent h = refl
  restore_inputs-eq-put_back u t height (i ∷ is) sum t' total spent h =
      let (c, cs, sum', _, _, rest, e) = spend_inv t height i is sum t' total spent h in
      rw (e) (
        restore_inputs-eq-put_back (db.insert u (outpoint_to_key i.prev_output) (coin_to_bytes c))
          (db.remove t (outpoint_to_key i.prev_output)) height is sum' t' total cs rest)

  pub IsTable-remove : (t : db.Table) (k : Bytes) → IsTable t → IsTable (db.remove t k)
  IsTable-remove t k h j bytes e = elim (Bool-cases (bytes_eq k j)) [
    | inl same ↦ absurd (none-ne-some (sym (get-remove_self t k j same) ∙ e))
    | inr other ↦ h j bytes (rw (get-remove_other t k j other) at e)
  ]

  -- A value read from a table of coins is the form of the coin that it parses to.
  pub coin_to_bytes-coin_from_bytes :
      (t : db.Table) (k bytes : Bytes) (c : Coin)
      → IsTable t
      → db.get t k ≡ some bytes
      → coin_from_bytes bytes ≡ ok c
      → coin_to_bytes c ≡ bytes
  coin_to_bytes-coin_from_bytes t k bytes c h e p =
      let (d, q, v) = h k bytes e in
      let same : d ≡ c = ok-injective (sym (coin_from_bytes-coin_to_bytes d v) ∙ rw q at p) in
      rw (← same, q)

  -- What spending leaves was there before, unchanged.
  pub spend_shrinks :
      (t : db.Table) (height : ℕ) (is : List TxIn) (sum : ℤ) (t' : db.Table) (total : ℤ)
      (spent : List Coin)
      → spend_inputs db t height is sum ≡ ok (t', total, spent)
      → (j : Bytes) → (db.get t' j ≡ none) ⊎ (db.get t' j ≡ db.get t j)
  spend_shrinks t height [] sum t' total spent h j = inr (
      unfold spend_inputs in
      ap (λ (x : db.Table × ℤ × List Coin). db.get x.0 j) (sym (ok-injective h)))
  spend_shrinks t height (i ∷ is) sum t' total spent h j =
      let (c, cs, sum', _, _, rest, e) = spend_inv t height i is sum t' total spent h in
      elim (spend_shrinks (db.remove t (outpoint_to_key i.prev_output)) height is sum' t' total cs
        rest j) [
          | inl gone ↦ inl gone
          | inr kept ↦ elim (Bool-cases (bytes_eq (outpoint_to_key i.prev_output) j)) [
            | inl same ↦ inl (kept ∙ get-remove_self t _ j same)
            | inr other ↦ inr (kept ∙ get-remove_other t _ j other)
          ]
        ]

  -- At one key: either the key was spent, and restoring writes what was there; or it was not, and
  -- neither spending nor restoring changes it.
  abbrev pub Spent : db.Table → List TxIn → List Coin → Bytes → Type 0
  Spent t is spent j =
      (b : Bytes) × (db.get t j ≡ some b)
      × ((u : db.Table) → db.get (put_back u is spent) j ≡ some b)

  abbrev pub Untouched : db.Table → db.Table → List TxIn → List Coin → Bytes → Type 0
  Untouched t t' is spent j =
      ((u : db.Table) → db.get (put_back u is spent) j ≡ db.get u j) × (db.get t' j ≡ db.get t j)

  pub spend_at :
      (t : db.Table) (height : ℕ) (is : List TxIn) (sum : ℤ) (t' : db.Table) (total : ℤ)
      (spent : List Coin)
      → IsTable t
      → spend_inputs db t height is sum ≡ ok (t', total, spent)
      → (j : Bytes) → Spent t is spent j ⊎ Untouched t t' is spent j
  unfolding put_back
  spend_at t height [] sum t' total spent v h j = inr (
    λ u. refl,
    unfold spend_inputs in
        ap (λ (x : db.Table × ℤ × List Coin). db.get x.0 j) (sym (ok-injective h)),
  )
  spend_at t height (i ∷ is) sum t' total spent v h j =
      let key = outpoint_to_key i.prev_output in
      let (c, cs, sum', found, _, rest, e) = spend_inv t height i is sum t' total spent h in
      let (bytes, here, parse, _) = find_coin_inv t height i c found in
      let form : coin_to_bytes c ≡ bytes =
        coin_to_bytes-coin_from_bytes t key bytes c v here parse in
      rw e
        (elim (spend_at (db.remove t key) height is sum' t' total cs (IsTable-remove t key v) rest
          j) [
            | inl (b, there, back) ↦ elim (Bool-cases (bytes_eq key j)) [
              | inl same ↦ absurd (none-ne-some (sym (get-remove_self t key j same) ∙ there))
              | inr other ↦ inl (b, sym (get-remove_other t key j other) ∙ there, λ u. back _)
            ]
            | inr (back, kept) ↦ elim (Bool-cases (bytes_eq key j)) [
              | inl same ↦ inl (
                bytes,
                sym (get_at_eq t key j same) ∙ here,
                λ u. back _ ∙ get-insert_self u key (coin_to_bytes c) j same ∙ ap some form,
              )
              | inr other ↦ inr (
                λ u. back _ ∙ get-insert_other u key (coin_to_bytes c) j other,
                kept ∙ get-remove_other t key j other,
              )
            ]
          ])
