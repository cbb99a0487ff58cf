-- ===== src/Chainstate/Restore/Outputs.antt =====
-- What inserting the outputs of a transaction does to the UTXO set, and what removing them does.
use ironcat.Base.{
  ℕ, suc, ◌%◌, ◌<◌, ◌≡◌, refl, sym, ◌∙◌, ap, List, [], ◌∷◌, Bool, none, ◌⊎◌, inl, inr, take,
  take-append, All, arith, Bool-cases,
}
use ironcat.Network.Cursor.{Bytes, to_le_bytes}
use ironcat.Types.Hash.{Hash256, IsHash, bytes_eq, bytes_eq→eq}
use ironcat.Types.Transaction.{TxOut}
use ironcat.Types.Transaction.RoundTrip.{IsTxOut}
use ironcat.Storage.Table.{TableOps}
use ironcat.Chainstate.Coin.{Coin, coin_to_bytes}
use ironcat.Chainstate.Coin.RoundTrip.{IsCoin}
use ironcat.Chainstate.State.{outpoint_to_key, insert_outputs, remove_outputs}
use ironcat.Chainstate.Restore.Spend.{
  IsTable, get-remove_self, get-remove_other, get-insert_self, get-insert_other,
}

-- The key of an output by its transaction and position.
abbrev pub output_key : Hash256 → ℕ → Bytes
output_key txid n = outpoint_to_key (record { txid = txid; index = n % 4294967296 })

-- Outputs of two transactions have different keys.
pub output_key-injective :
    (a b : Hash256) (m n : ℕ) → IsHash a → IsHash b → output_key a m ≡ output_key b n → a ≡ b
unfolding outpoint_to_key
output_key-injective a b m n ha hb e =
    let left : take 32 (output_key a m) ≡ a =
      rw ha at (take-append a (to_le_bytes 4 (m % 4294967296))) in
    let right : take 32 (output_key b n) ≡ b =
      rw hb at (take-append b (to_le_bytes 4 (n % 4294967296))) in
    sym left ∙ ap (take 32) e ∙ right

module _ (db : TableOps Bytes) where
  remove_outputs-none :
      (u : db.Table) (txid : Hash256) (os : List TxOut) (idx : ℕ) (j : Bytes)
      → db.get u j ≡ none
      → db.get (remove_outputs db u txid os idx) j ≡ none
  unfolding remove_outputs
  remove_outputs-none u txid [] idx j h = h
  remove_outputs-none u txid (o ∷ os) idx j h =
      remove_outputs-none (db.remove u (output_key txid idx)) txid os (suc idx) j
        (elim (Bool-cases (bytes_eq (output_key txid idx) j)) [
          | inl same ↦ get-remove_self db u _ j same
          | inr other ↦ get-remove_other db u _ j other ∙ h
        ])

  -- At one key: either it is that of an output, and removing the outputs clears it; or neither
  -- inserting nor removing them changes it.
  abbrev pub Owned : Hash256 → List TxOut → ℕ → Bytes → Type 0
  Owned txid os idx j =
      (n : ℕ) × (output_key txid n ≡ j)
      × ((u : db.Table) → db.get (remove_outputs db u txid os idx) j ≡ none)

  abbrev pub Foreign : Hash256 → List TxOut → ℕ → Bytes → Type 0
  Foreign txid os idx j =
      ((t : db.Table) (height : ℕ) (cb : Bool)
        → db.get (insert_outputs db t txid os idx height cb) j ≡ db.get t j)
      × ((u : db.Table) → db.get (remove_outputs db u txid os idx) j ≡ db.get u j)

  pub outputs_at :
      (txid : Hash256) (os : List TxOut) (idx : ℕ) (j : Bytes)
      → Owned txid os idx j ⊎ Foreign txid os idx j
  unfolding insert_outputs remove_outputs
  outputs_at txid [] idx j = inr (λ t height cb. refl, λ u. refl)
  outputs_at txid (o ∷ os) idx j = elim (Bool-cases (bytes_eq (output_key txid idx) j)) [
    | inl same ↦ inl (
      idx,
      bytes_eq→eq _ _ same,
      λ u. remove_outputs-none _ txid os (suc idx) j (get-remove_self db u _ j same),
    )
    | inr other ↦ elim (outputs_at txid os (suc idx) j) [
      | inl (n, e, cleared) ↦ inl (n, e, λ u. cleared _)
      | inr (kept, left) ↦ inr (
        λ t height cb. kept _ height cb ∙ get-insert_other db t _ _ j other,
        λ u. left _ ∙ get-remove_other db u _ j other,
      )
    ]
  ]

  pub IsTable-insert :
      (t : db.Table) (k : Bytes) (c : Coin)
      → IsTable db t
      → IsCoin c
      → IsTable db (db.insert t k (coin_to_bytes c))
  IsTable-insert t k c h v j bytes e = elim (Bool-cases (bytes_eq k j)) [
    | inl same ↦ (c, cc (e, get-insert_self db t k (coin_to_bytes c) j same), v)
    | inr other ↦ h j bytes (sym (get-insert_other db t k _ j other) ∙ e)
  ]

  pub IsTable-insert_outputs :
      (txid : Hash256) (os : List TxOut) (t : db.Table) (idx height : ℕ) (cb : Bool)
      → IsTable db t
      → All IsTxOut os
      → height < 4294967296
      → IsTable db (insert_outputs db t txid os idx height cb)
  unfolding insert_outputs
  IsTable-insert_outputs txid [] t idx height cb h v lt = h
  IsTable-insert_outputs txid (o ∷ os) t idx height cb h v lt =
      IsTable-insert_outputs txid os _ (suc idx) height cb
        (IsTable-insert t _ _ h (record {
          value = v.0.value;
          script_pubkey = omega (arith, v.0.script_pubkey);
          height = lt;
        }))
        v.1 lt
