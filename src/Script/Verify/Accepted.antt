-- ===== src/Script/Verify/Accepted.antt =====
-- script/verify.rs: what an accepted input shows of the output that it spends.
use ironcat.Base.{
  ℕ, zero, suc, ◌≡◌, refl, sym, ap, ◌∙◌, List, [], ◌∷◌, ◌++◌, Bool, true, false, ◌==◌, ==_iff,
  length, length-append, arith, Bool-cases, some, inl, inr, get_elem?, get_or, some-injective,
}
use ironcat.Base.Result.{ok, ok-injective}
use ironcat.Network.Cursor.{Bytes}
use ironcat.Types.Hash.{bytes_eq→eq}
use ironcat.Types.Transaction.{Transaction}
use ironcat.Script.Number.{is_truthy}
use ironcat.Script.Stack.{Stack}
use ironcat.Script.Stack.Op
use ironcat.Script.SigHash.{find_and_delete}
use ironcat.Script.Engine.{Crypto, SignatureContext}
use ironcat.Script.Engine.Signatures.{check_sig, checksig_with, is_empty}
use ironcat.Script.Verify.{
  require_truthy_top, is_p2sh, is_push_only, run_script, run_redeem, check_p2sh, verify_script,
}
use ironcat.Script.Verify.Spends.{
  hash160, p2sh_script, p2pkh_script, p2sh_runs, p2pkh_runs, behind, then_run-eq-ok,
}

truthy_boolean :
    (b : Bool) (rest : Stack) → require_truthy_top (Op.boolean b ∷ rest) ≡ ok tt → b ≡ true
unfolding require_truthy_top is_truthy
truthy_boolean true rest h = refl
truthy_boolean false rest h = cc

get_or-get_elem? {ℓ} :
    {A : Type ℓ} (xs : List A) (i : ℕ) (d a : A) → get_elem? xs i ≡ some a → get_or xs i d ≡ a
get_or-get_elem? [] i d a h = cc
get_or-get_elem? (x ∷ xs) zero d a h = some-injective h
get_or-get_elem? (x ∷ xs) (suc i) d a h = get_or-get_elem? xs i d a h

checksig_with-true :
    (c : Crypto) (ctx : SignatureContext) (code sig pubkey : Bytes)
    → checksig_with c (some ctx) code sig pubkey ≡ ok true
    → check_sig c ctx (find_and_delete code sig) sig pubkey ≡ true
checksig_with-true c ctx code sig pubkey h = elim (Bool-cases (is_empty sig)) [
  | inl y ↦ cc (rw y at h)
  | inr n ↦ ok-injective (rw n at h)
]

check_p2sh-eq-ok :
    (c : Crypto) (script_sig script_pubkey : Bytes) (s : Stack) (ctx : SignatureContext)
    → is_p2sh script_pubkey ≡ true
    → check_p2sh c script_sig script_pubkey s ctx ≡ some (ok tt)
    → (is_push_only script_sig ≡ true) × (run_redeem c s ctx ≡ some (ok tt))
check_p2sh-eq-ok c script_sig script_pubkey s ctx matches h =
    elim (Bool-cases (is_push_only script_sig)) [
      | inl y ↦ (y, rw (matches, y) at h)
      | inr n ↦ cc (rw (matches, n) at h)
    ]

module _ (c : Crypto) (hash : Bytes) (twenty : length hash ≡ 20) (script_sig : Bytes)
    (t : Transaction) (i : ℕ) where
  ctx : SignatureContext
  ctx = record { tx = t; input_idx = i }

  p2sh_script-is_p2sh : is_p2sh (p2sh_script hash) ≡ true
  unfolding is_p2sh
  p2sh_script-is_p2sh =
      let size : (suc (suc (length (hash ++ (0x87 ∷ [])))) == 23) ≡ true =
        (==_iff _ _).1 (omega (arith, length-append hash (0x87 ∷ []), twenty)) in
      let last : get_or (hash ++ (0x87 ∷ [])) 20 0 ≡ 0x87 =
        get_or-get_elem? (hash ++ (0x87 ∷ [])) 20 0 0x87 (behind c hash twenty ctx (0x87 ∷ []) 0) in
      rw (size, last) refl

  -- Where an input that spends a P2SH output is accepted, its script only pushes, the element on top
  -- of what it pushed has the hash that the output names, and that element, run as a script on what
  -- was pushed below it, left a true element on top.
  pub verify_script-p2sh :
      verify_script c script_sig (p2sh_script hash) t i ≡ some (ok tt)
      → (redeem : Bytes) × (rest s : Stack) × (run_script c script_sig []
            (record { tx = t; input_idx = i })
          ≡ some (ok (redeem ∷ rest)))
        × (hash160 c redeem ≡ hash)
        × (is_push_only script_sig ≡ true)
        × (run_script c redeem rest (record { tx = t; input_idx = i }) ≡ some (ok s))
        × (require_truthy_top s ≡ ok tt)
  unfolding verify_script run_redeem
  verify_script-p2sh h =
      let ctx : SignatureContext = record { tx = t; input_idx = i } in
      let (sig_stack, first, h1) = then_run-eq-ok (run_script c script_sig [] ctx) _ h in
      let (s, second, h2) = then_run-eq-ok (run_script c (p2sh_script hash) sig_stack ctx) _ h1 in
      let (_, truthy, h3) = then_run-eq-ok (some (require_truthy_top s)) _ h2 in
      let (top, rest, split, left) = p2sh_runs c hash twenty ctx sig_stack s second in
      let same = truthy_boolean _ rest (ap require_truthy_top (sym left) ∙ some-injective truthy) in
      let (pushes, redeemed) =
        check_p2sh-eq-ok c script_sig (p2sh_script hash) sig_stack ctx p2sh_script-is_p2sh h3 in
      let (out, third, h4) =
        then_run-eq-ok (run_script c top rest ctx) _
          (ap (λ q. run_redeem c q ctx) (sym split) ∙ redeemed) in
      (
        top,
        rest,
        out,
        first ∙ ap (λ q. some (ok q)) split,
        bytes_eq→eq _ _ same,
        pushes,
        third,
        some-injective h4,
      )

  -- Where an input that spends a P2PKH output is accepted, its script left a public key of the hash
  -- that the output names on top of a signature, and the signature is valid for that key over the
  -- signature hash of the input, with the output's script, less the signature, as the script code.
  pub verify_script-p2pkh :
      verify_script c script_sig (p2pkh_script hash) t i ≡ some (ok tt)
      → (pubkey sig : Bytes) × (rest : Stack) × (run_script c script_sig []
            (record { tx = t; input_idx = i })
          ≡ some (ok (pubkey ∷ sig ∷ rest)))
        × (hash160 c pubkey ≡ hash)
        × (check_sig c
              (record { tx = t; input_idx = i })
              (find_and_delete (p2pkh_script hash) sig)
              sig
              pubkey
            ≡ true)
  unfolding verify_script
  verify_script-p2pkh h =
      let ctx : SignatureContext = record { tx = t; input_idx = i } in
      let (sig_stack, first, h1) = then_run-eq-ok (run_script c script_sig [] ctx) _ h in
      let (s, second, h2) = then_run-eq-ok (run_script c (p2pkh_script hash) sig_stack ctx) _ h1 in
      let (_, truthy, _) = then_run-eq-ok (some (require_truthy_top s)) _ h2 in
      let (pubkey, sig, rest, valid, split, key, checked, left) =
        p2pkh_runs c hash twenty ctx sig_stack s second in
      let passed =
        truthy_boolean valid rest (ap require_truthy_top (sym left) ∙ some-injective truthy) in
      (
        pubkey,
        sig,
        rest,
        first ∙ ap (λ q. some (ok q)) split,
        key,
        checksig_with-true c ctx _ sig pubkey (checked ∙ ap ok passed),
      )
