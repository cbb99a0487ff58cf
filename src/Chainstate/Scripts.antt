-- ===== src/Chainstate/Scripts.antt =====
-- chainstate/mod.rs: `connect_block` with the scripts of its inputs run by `verify_script`.
use ironcat.Base.{
  ℕ, zero, suc, ◌+◌, ◌<◌, ◌≡◌, refl, sym, ap, ◌∙◌, List, [], ◌∷◌, Bool, true, false, ◌&&◌, Option,
  none, some, ltb, lt→ltb, get_elem?, length, some-injective, arith,
}
use ironcat.Base.Int.{ℤ, pos, leb_ℤ}
use ironcat.Base.Result.{Result, ok, err, ◌>>◌, ensure, ok_or, >>=-eq-ok, ensure_then, ok-injective}
use ironcat.Network.Cursor.{Bytes}
use ironcat.Types.Hash.{Sha256}
use ironcat.Types.Transaction.{TxIn, Transaction}
use ironcat.Storage.Table.{TableOps}
use ironcat.Chainstate.Coin.{Coin, coin_from_bytes}
use ironcat.Chainstate.Undo.{TxUndo}
use ironcat.Chainstate.State.{
  no_inputs, outputs_exceed_inputs, script_failed, output_overflow, Verifier, verify_inputs,
  spend_inputs, check_scripts, sum_outputs, connect_spend, outpoint_to_key,
}
use ironcat.Chainstate.Restore.Spend.{find_coin_inv, spend_inv}
use ironcat.Chainstate.Spent.{found_other}
use ironcat.Script.Error.{ScriptError}
use ironcat.Script.Engine.{Crypto}
use ironcat.Script.Verify.{verify_script}

abbrev pub is_accepted : Option (Result ScriptError (Unit {0})) → Bool
is_accepted (some (ok u)) = true
is_accepted (some (err e)) = false
is_accepted none = false

-- The verifier that the source passes: an error of `verify_script` rejects the block.
unfoldable pub script_verifier : Crypto → Verifier
script_verifier c script_sig script_pubkey tx i =
    is_accepted (verify_script c script_sig script_pubkey tx i)

accepted_ok : (r : Option (Result ScriptError (Unit {0}))) → is_accepted r ≡ true → r ≡ some (ok tt)
accepted_ok (some (ok u)) h = refl
accepted_ok (some (err e)) h = cc
accepted_ok none h = cc

and_true : (a b : Bool) → (a && b) ≡ true → (a ≡ true) × (b ≡ true)
and_true true b h = (refl, h)
and_true false b h = cc

verify_inputs-each :
    (verify : Verifier) (tx : Transaction) (is : List TxIn) (cs : List Coin) (idx n : ℕ) (i : TxIn)
    (coin : Coin)
    → verify_inputs verify tx is cs idx ≡ true
    → get_elem? is n ≡ some i
    → get_elem? cs n ≡ some coin
    → verify i.script_sig coin.tx_out.script_pubkey tx (idx + n) ≡ true
unfolding verify_inputs
verify_inputs-each verify tx [] cs idx n i coin h at_i at_c = cc
verify_inputs-each verify tx (x ∷ is) [] idx n i coin h at_i at_c = cc
verify_inputs-each verify tx (x ∷ is) (y ∷ cs) idx zero i coin h at_i at_c =
    let (first, _) = and_true (verify x.script_sig y.tx_out.script_pubkey tx idx) _ h in
    let here : idx + 0 ≡ idx = omega arith in
    rw (← some-injective at_i, ← some-injective at_c, here) first
verify_inputs-each verify tx (x ∷ is) (y ∷ cs) idx (suc n) i coin h at_i at_c =
    let (_, rest) = and_true (verify x.script_sig y.tx_out.script_pubkey tx idx) _ h in
    let shift : idx + suc n ≡ suc idx + n = omega arith in
    rw shift (verify_inputs-each verify tx is cs (suc idx) n i coin rest at_i at_c)

module _ (db : TableOps Bytes) where
  -- The coin that was stored under the outpoint of an input.
  abbrev pub StoredCoin : db.Table → TxIn → Coin → Type 0
  StoredCoin t i coin =
      (bytes : Bytes) × (db.get t (outpoint_to_key i.prev_output) ≡ some bytes)
      × (coin_from_bytes bytes ≡ ok coin)

  StoredCoin-before :
      (t : db.Table) (k : Bytes) (i : TxIn) (coin : Coin)
      → StoredCoin (db.remove t k) i coin
      → StoredCoin t i coin
  StoredCoin-before t k i coin (bytes, there, parse) =
      (bytes, (found_other db t k (outpoint_to_key i.prev_output) bytes there).1, parse)

  -- Every input that is spent has its coin in the record, at its own position.
  spend_inputs-StoredCoin :
      (t : db.Table) (height : ℕ) (is : List TxIn) (sum : ℤ) (t' : db.Table) (total : ℤ)
      (spent : List Coin) (n : ℕ) (i : TxIn)
      → spend_inputs db t height is sum ≡ ok (t', total, spent)
      → get_elem? is n ≡ some i
      → (coin : Coin) × StoredCoin t i coin × (get_elem? spent n ≡ some coin)
  spend_inputs-StoredCoin t height [] sum t' total spent n i h at_i = cc
  spend_inputs-StoredCoin t height (x ∷ is) sum t' total spent zero i h at_i =
      let (c, cs, sum', f, _, _, e) = spend_inv db t height x is sum t' total spent h in
      let (bytes, found, parse, _) = find_coin_inv db t height x c f in
      (c, (bytes, rw (← some-injective at_i) found, parse), ap (λ l. get_elem? l 0) e)
  spend_inputs-StoredCoin t height (x ∷ is) sum t' total spent (suc n) i h at_i =
      let (c, cs, sum', _, _, rest, e) = spend_inv db t height x is sum t' total spent h in
      let (coin, there, at_c) =
        spend_inputs-StoredCoin (db.remove t (outpoint_to_key x.prev_output)) height is sum' t'
          total cs n i rest at_i in
      (
        coin,
        StoredCoin-before t (outpoint_to_key x.prev_output) i coin there,
        ap (λ l. get_elem? l (suc n)) e ∙ at_c,
      )

module _ (db : TableOps Bytes) (sha : Sha256) (c : Crypto) (script_verify_height : ℕ) where
  -- A transaction that is connected above the height from which scripts are verified: each of its
  -- inputs has a coin, the one stored under its outpoint before. The coin stands in the undo data
  -- at the position of the input, and `verify_script` accepts the input with it.
  pub connect_spend-verified :
      (t t' : db.Table) (height : ℕ) (tx : Transaction) (fee : ℤ) (undo : TxUndo) (n : ℕ) (i : TxIn)
      → script_verify_height < height
      → connect_spend db sha (script_verifier c) script_verify_height t height tx
        ≡ ok (t', fee, undo)
      → get_elem? tx.vin n ≡ some i
      → (coin : Coin) × StoredCoin db t i coin
        × (get_elem? undo.spent_outputs n ≡ some coin)
        × (verify_script c i.script_sig coin.tx_out.script_pubkey tx n ≡ some (ok tt))
  unfolding connect_spend check_scripts script_verifier
  connect_spend-verified t t' height tx fee undo n i high h at_i =
      let (spent, h1, rest) =
        >>=-eq-ok
          (ensure (ltb 0 (length tx.vin)) no_inputs >> spend_inputs db t height tx.vin (pos 0)) _
          h in
      let (_, spends) = ensure_then (ltb 0 (length tx.vin)) no_inputs _ h1 in
      let (out, h2, last) =
        >>=-eq-ok
          (ensure (check_scripts db sha (script_verifier c) script_verify_height tx height spent.2)
              script_failed
            >> ok_or (sum_outputs tx.vout) output_overflow)
          _ rest in
      let (verified, _) =
        ensure_then
          (check_scripts db sha (script_verifier c) script_verify_height tx height spent.2)
          script_failed _ h2 in
      let (_, made) = ensure_then (leb_ℤ out spent.1) outputs_exceed_inputs _ last in
      let coins : spent.2 ≡ undo.spent_outputs = ap (λ r. r.2.spent_outputs) (ok-injective made) in
      let (coin, there, at_c) =
        spend_inputs-StoredCoin db t height tx.vin (pos 0) spent.0 spent.1 spent.2 n i spends
          at_i in
      let tested : script_verifier c i.script_sig coin.tx_out.script_pubkey tx (0 + n) ≡ true =
        verify_inputs-each (script_verifier c) tx tx.vin spent.2 0 n i coin
          (rw (lt→ltb _ _ high) at verified) at_i at_c in
      let shift : 0 + n ≡ n = omega arith in
      (
        coin,
        there,
        ap (λ l. get_elem? l n) (sym coins) ∙ at_c,
        accepted_ok _ (
            ap (λ k. script_verifier c i.script_sig coin.tx_out.script_pubkey tx k) (sym shift)
            ∙ tested),
      )
