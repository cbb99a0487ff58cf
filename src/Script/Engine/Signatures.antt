-- ===== src/Script/Engine/Signatures.antt =====
-- script/engine.rs: `op_checksig` and `op_checkmultisig`.
use ironcat.Base.{
  ℕ, List, [], ◌∷◌, Bool, true, false, ◌&&◌, Option, none, some, leb, if◌then◌else◌, take, drop,
}
use ironcat.Base.Int.{ℤ, pos, leb_ℤ, to_ℕ}
use ironcat.Base.Result.{Result, ok, err, ◌>>=◌, ◌>>◌, ensure, ok_or}
use ironcat.Network.Cursor.{Bytes}
use ironcat.Script.Error.{
  ScriptError, check_sig_failed, check_multi_sig_failed, too_many_ops, multisig_key_count,
  multisig_sig_count,
}
use ironcat.Script.Stack.{Stack, pop, usize_add, require_stack}
use ironcat.Script.Stack.Op.{boolean}
use ironcat.Script.Stack.Arithmetic.{pop_number}
use ironcat.Script.Ecdsa.{verify_ecdsa, last_byte}
use ironcat.Script.SigHash.{find_and_delete, signature_hash}
use ironcat.Script.Engine.{Crypto, SignatureContext, Engine, max_ops}

abbrev pub max_multisig_keys : ℤ
max_multisig_keys = pos 20

abbrev pub is_empty {ℓ} : {A : Type ℓ} → List A → Bool
is_empty [] = true
is_empty (x ∷ xs) = false

-- How both end: the verify forms push nothing, and fail where the check does.
abbrev pub conclude : Bool → Bool → ScriptError → Stack → Result ScriptError Stack
conclude verify valid error s =
    if verify then (if valid then ok s else err error) else ok (boolean valid ∷ s)

module _ (c : Crypto) where
  -- The callers pass an input that the transaction has, of which there is always a hash; for any
  -- other, whose hash the source does not return, no signature is valid.
  unfoldable pub check_sig : SignatureContext → Bytes → Bytes → Bytes → Bool
  check_sig ctx script_code sig pubkey =
      elim (signature_hash c.sha ctx.tx ctx.input_idx script_code (last_byte sig)) [
        | none ↦ false
        | some hash ↦ verify_ecdsa c.k256 sig pubkey hash
      ]

  abbrev pub checksig_with :
      Option SignatureContext → Bytes → Bytes → Bytes → Result ScriptError Bool
  checksig_with sig_ctx script_code sig pubkey =
      if is_empty sig
      then ok false
      else (ok_or sig_ctx check_sig_failed >>= λ ctx.
          ok (check_sig ctx (find_and_delete script_code sig) sig pubkey))

  unfoldable pub op_checksig : Bool → Engine → Result ScriptError Engine
  op_checksig verify e = pop e.stack >>= λ pubkey. pop pubkey.1 >>= λ sig.
      checksig_with e.sig_ctx (drop e.codesep_pos e.script) sig.0 pubkey.0 >>= λ valid.
      conclude verify valid check_sig_failed sig.1 >>= λ t. ok (record e { stack = t })

-- The keys behind the first one that the signature is valid for.
unfoldable pub keys_after : (Bytes → Bytes → Bool) → Bytes → List Bytes → Option (List Bytes)
keys_after check sig [] = none
keys_after check sig (key ∷ keys) = if check sig key then some keys else keys_after check sig keys

-- Each signature takes the next key that it is valid for.
unfoldable pub match_sigs : (Bytes → Bytes → Bool) → List Bytes → List Bytes → Bool
match_sigs check [] keys = true
match_sigs check (sig ∷ sigs) keys =
    if is_empty sig
    then false
    else elim (keys_after check sig keys) [ none ↦ false | some rest ↦ match_sigs check sigs rest ]

unfoldable pub delete_all : Bytes → List Bytes → Bytes
delete_all script_code [] = script_code
delete_all script_code (sig ∷ sigs) = delete_all (find_and_delete script_code sig) sigs

-- A number between 0 and `most`, popped.
abbrev pub pop_count : Stack → ℤ → ScriptError → Result ScriptError (ℕ × Stack)
pop_count s most error =
    pop_number s >>= λ p. ensure (leb_ℤ (pos 0) p.0 && leb_ℤ p.0 most) error >> ok (to_ℕ p.0, p.1)

abbrev pub pop_many : Stack → ℕ → Result ScriptError (List Bytes × Stack)
pop_many s n = require_stack s n >> ok (take n s, drop n s)

module _ (c : Crypto) where
  unfoldable pub op_checkmultisig : Bool → Engine → Result ScriptError Engine
  op_checkmultisig verify e = pop_count e.stack max_multisig_keys multisig_key_count >>= λ n_keys.
      pop_many n_keys.1 n_keys.0 >>= λ keys. usize_add e.op_count n_keys.0 too_many_ops >>= λ count.
      ensure (leb count max_ops) too_many_ops
      >> pop_count keys.1 (pos n_keys.0) multisig_sig_count
      >>= λ n_sigs. pop_many n_sigs.1 n_sigs.0 >>= λ sigs. pop sigs.1 >>= λ dummy.
          ok_or e.sig_ctx check_multi_sig_failed >>= λ ctx.
          let code = delete_all (drop e.codesep_pos e.script) sigs.0 in
          let valid = match_sigs (check_sig c ctx code) sigs.0 keys.0 in
          conclude verify valid check_multi_sig_failed dummy.1 >>= λ t.
          ok (record e { stack = t; op_count = count })
