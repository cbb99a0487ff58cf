-- ===== src/Script/Verify.antt =====
-- script/verify.rs: the scripts of an input against the output that it spends.
pub mod Accepted
pub mod Spends
use ironcat.Base.{
  ℕ, zero, suc, ◌+◌, ◌-◌, List, [], ◌∷◌, Bool, true, false, ◌&&◌, ◌||◌, Option, none, some, leb,
  ltb, ◌==◌, length, take, drop, get_or, if◌then◌else◌,
}
use ironcat.Base.Result.{Result, ok, err, ◌>>◌, ensure}
use ironcat.Network.Cursor.{Bytes, from_le_bytes}
use ironcat.Types.Transaction.{Transaction}
use ironcat.Script.Error.{ScriptError, false_returned, invalid_redeem_script}
use ironcat.Script.Number.{is_truthy}
use ironcat.Script.Stack.{Stack}
use ironcat.Script.Engine.{Crypto, SignatureContext, with_stack_and_sig_context}
use ironcat.Script.Engine.Run.{execute}

unfoldable pub require_truthy_top : Stack → Result ScriptError (Unit {0})
require_truthy_top [] = err false_returned
require_truthy_top (top ∷ s) = ensure (is_truthy top) false_returned

-- The bytes behind a push opcode that belong to it, or none where the opcode is no push or its
-- length is cut off. They may reach beyond the script.
unfoldable pub push_extent : ℕ → Bytes → Option ℕ
push_extent op rest =
    if op == 0 || op == 0x4f || (leb 0x51 op && leb op 0x60)
    then some 0
    else if leb op 0x4b
    then some op
    else if op == 0x4c
    then (if ltb (length rest) 1 then none else some (1 + from_le_bytes (take 1 rest)))
    else if op == 0x4d
    then (if ltb (length rest) 2 then none else some (2 + from_le_bytes (take 2 rest)))
    else if op == 0x4e
    then (if ltb (length rest) 4 then none else some (4 + from_le_bytes (take 4 rest)))
    else none

-- The first argument counts the bytes of a push that are still to skip.
unfoldable pub only_pushes : ℕ → Bytes → Bool
only_pushes skip [] = true
only_pushes (suc skip) (b ∷ rest) = only_pushes skip rest
only_pushes zero (op ∷ rest) = elim (push_extent op rest) [
  | none ↦ false
  | some n ↦ only_pushes n rest
]

unfoldable pub is_push_only : Bytes → Bool
is_push_only script = only_pushes 0 script

unfoldable pub is_p2sh : Bytes → Bool
is_p2sh script =
    length script == 23
    && (get_or script 0 0 == 0xa9 && (get_or script 1 0 == 0x14 && get_or script 22 0 == 0x87))

-- `?` on a result that may not be there.
abbrev pub then_run {ℓ κ} :
    {A : Type ℓ} {B : Type κ}
    → Option (Result ScriptError A)
    → (A → Option (Result ScriptError B))
    → Option (Result ScriptError B)
then_run none f = none
then_run (some (err e)) f = some (err e)
then_run (some (ok a)) f = f a

module _ (c : Crypto) where
  abbrev pub run_script : Bytes → Stack → SignatureContext → Option (Result ScriptError Stack)
  run_script script stack ctx = execute c (with_stack_and_sig_context script stack ctx)

  -- The redeem script, on what scriptSig left below it.
  unfoldable pub run_redeem : Stack → SignatureContext → Option (Result ScriptError (Unit {0}))
  run_redeem [] ctx = some (err invalid_redeem_script)
  run_redeem (redeem_script ∷ stack) ctx =
      then_run (run_script redeem_script stack ctx) (λ s. some (require_truthy_top s))

  abbrev pub check_p2sh :
      Bytes → Bytes → Stack → SignatureContext → Option (Result ScriptError (Unit {0}))
  check_p2sh script_sig script_pubkey p2sh_stack ctx =
      if is_p2sh script_pubkey
      then (if is_push_only script_sig
          then run_redeem p2sh_stack ctx
          else some (err invalid_redeem_script))
      else some (ok tt)

  unfoldable pub verify_script :
      Bytes → Bytes → Transaction → ℕ → Option (Result ScriptError (Unit {0}))
  verify_script script_sig script_pubkey t i =
      let ctx : SignatureContext = record { tx = t; input_idx = i } in
      then_run (run_script script_sig [] ctx) (λ sig_stack.
        then_run (run_script script_pubkey sig_stack ctx) (λ s.
          then_run (some (require_truthy_top s))
            (λ u. check_p2sh script_sig script_pubkey sig_stack ctx)))
