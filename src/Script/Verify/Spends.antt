-- ===== src/Script/Verify/Spends.antt =====
-- script/verify.rs: what it takes to spend the two common forms of an output.
use ironcat.Base.{
  ℕ, suc, ◌+◌, ◌≡◌, refl, sym, ap, ◌∙◌, List, [], ◌∷◌, ◌++◌, Bool, length, length-append, arith,
  Bool-cases, Option, none, some, inl, inr, get_elem?, take, take-append,
}
use ironcat.Base.Result.{Result, ok, err, ok-injective}
use ironcat.Network.Cursor.{Bytes}
use ironcat.Types.Hash.{bytes_eq→eq, bytes_eq}
use ironcat.Script.Error.{ScriptError}
use ironcat.Script.Opcode.{opcode_from}
use ironcat.Script.Stack.{Stack}
use ironcat.Script.Stack.Op
use ironcat.Script.Engine.{Crypto, SignatureContext, with_stack_and_sig_context}
use ironcat.Script.Engine.Signatures.{checksig_with}
use ironcat.Script.Engine.Execute.{execute_opcode}
use ironcat.Script.Engine.Run.{execute}
use ironcat.Script.Engine.Halts.{execute-eq-ok}
use ironcat.Script.Engine.Inversion.{stack_round, push_round, checksig_round, run-end}
use ironcat.Script.Verify.{then_run}

unfoldable pub hash160 : Crypto → Bytes → Bytes
hash160 c bytes = c.ripemd160 (c.sha.digest bytes)

-- OP_HASH160, a push of the hash, OP_EQUAL.
abbrev pub p2sh_script : Bytes → Bytes
p2sh_script hash = 0xa9 ∷ 0x14 ∷ (hash ++ (0x87 ∷ []))

-- OP_DUP, OP_HASH160, a push of the hash, OP_EQUALVERIFY, OP_CHECKSIG.
abbrev pub p2pkh_script : Bytes → Bytes
p2pkh_script hash = 0x76 ∷ 0xa9 ∷ 0x14 ∷ (hash ++ (0x88 ∷ 0xac ∷ []))

get_elem?-append {ℓ} :
    {A : Type ℓ} (xs ys : List A) (i : ℕ) → get_elem? (xs ++ ys) (length xs + i) ≡ get_elem? ys i
get_elem?-append [] ys i = ap (get_elem? ys) (omega arith)
get_elem?-append (x ∷ xs) ys i =
    let shift : suc (length xs) + i ≡ suc (length xs + i) = omega arith in
    ap (get_elem? (x ∷ (xs ++ ys))) shift ∙ get_elem?-append xs ys i

pub then_run-eq-ok {ℓ κ} :
    {A : Type ℓ} {B : Type κ} (m : Option (Result ScriptError A))
    (f : A → Option (Result ScriptError B)) {b : B}
    → then_run m f ≡ some (ok b)
    → (a : A) × (m ≡ some (ok a)) × (f a ≡ some (ok b))
then_run-eq-ok none f h = cc
then_run-eq-ok (some (err e)) f h = cc
then_run-eq-ok (some (ok a)) f h = (a, refl, h)

equal_verify-eq-ok :
    (a b : Bytes) (rest s : Stack) → Op.equal_verify (b ∷ a ∷ rest) ≡ ok s → (a ≡ b) × (rest ≡ s)
equal_verify-eq-ok a b rest s h = elim (Bool-cases (bytes_eq a b)) [
  | inl y ↦ (bytes_eq→eq a b y, ok-injective (rw y at h))
  | inr n ↦ cc (rw n at h)
]

module _ (c : Crypto) (hash : Bytes) (twenty : length hash ≡ 20) (ctx : SignatureContext) where
  pub behind : (ys : Bytes) (i : ℕ) → get_elem? (hash ++ ys) (20 + i) ≡ get_elem? ys i
  behind ys i = rw (← twenty) (get_elem?-append hash ys i)

  pushed : (ys : Bytes) → take 20 (hash ++ ys) ≡ hash
  pushed ys = rw (← twenty) (take-append hash ys)

  -- The script of a P2SH output leaves, in place of the top element, whether its hash is the one
  -- that the script names.
  pub p2sh_runs :
      (st s : Stack)
      → execute c (with_stack_and_sig_context (p2sh_script hash) st ctx) ≡ some (ok s)
      → (top : Bytes) × (rest : Stack) × (st ≡ top ∷ rest)
        × (s ≡ Op.boolean (bytes_eq (hash160 c top) hash) ∷ rest)
  unfolding opcode_from execute_opcode hash160
  p2sh_runs [] s h =
      let (n, runs, _, same) = execute-eq-ok c _ s h in
      let (f1, k1, s1, e1, r1) =
        stack_round c (p2sh_script hash) ctx (Op.on_top (hash160 c)) _ 0 0 [] 0xa9 n refl
          (λ e. refl) runs in
      cc
  p2sh_runs (top ∷ rest) s h =
      let (n, runs, _, same) = execute-eq-ok c _ s h in
      let (f1, k1, s1, e1, r1) =
        stack_round c (p2sh_script hash) ctx (Op.on_top (hash160 c)) _ 0 0 (top ∷ rest) 0xa9 n refl
          (λ e. refl) runs in
      let (f2, k2, r2) =
        push_round c (p2sh_script hash) ctx 20 f1 1 k1 s1 0x14 n refl (λ e. refl) r1 in
      let (f3, k3, s3, e3, r3) =
        stack_round c (p2sh_script hash) ctx Op.equal f2 22 k2 _ 0x87 n (behind _ 0) (λ e. refl)
          r2 in
      let last = run-end c f3 _ n (omega (arith, length-append hash (0x87 ∷ []), twenty)) r3 in
      let hashed : hash160 c top ∷ rest ≡ s1 = ok-injective e1 in
      let compared : Op.boolean (bytes_eq (hash160 c top) (take 20 (hash ++ (0x87 ∷ [])))) ∷ rest
          ≡ s3 =
        ok-injective (rw (← hashed) at e3) in
      (
        top,
        rest,
        refl,
        sym same
            ∙ sym (ap (λ q. q.stack) last)
            ∙ sym compared
            ∙ ap (λ q. Op.boolean (bytes_eq (hash160 c top) q) ∷ rest) (pushed _),
      )

  -- The script of a P2PKH output needs a key of the hash that the script names, and leaves whether
  -- the signature below it is valid for that key.
  pub p2pkh_runs :
      (st s : Stack)
      → execute c (with_stack_and_sig_context (p2pkh_script hash) st ctx) ≡ some (ok s)
      → (pubkey sig : Bytes) × (rest : Stack) × (valid : Bool) × (st ≡ pubkey ∷ sig ∷ rest)
        × (hash160 c pubkey ≡ hash)
        × (checksig_with c (some ctx) (p2pkh_script hash) sig pubkey ≡ ok valid)
        × (s ≡ Op.boolean valid ∷ rest)
  unfolding opcode_from execute_opcode hash160
  p2pkh_runs [] s h =
      let (n, runs, _, same) = execute-eq-ok c _ s h in
      let (f1, k1, s1, e1, r1) =
        stack_round c (p2pkh_script hash) ctx Op.dup _ 0 0 [] 0x76 n refl (λ e. refl) runs in
      cc
  p2pkh_runs (top ∷ below) s h =
      let script = p2pkh_script hash in
      let (n, runs, _, same) = execute-eq-ok c _ s h in
      let (f1, k1, s1, e1, r1) =
        stack_round c script ctx Op.dup _ 0 0 (top ∷ below) 0x76 n refl (λ e. refl) runs in
      let doubled : top ∷ top ∷ below ≡ s1 = ok-injective e1 in
      let (f2, k2, s2, e2, r2) =
        stack_round c script ctx (Op.on_top (hash160 c)) f1 1 k1 s1 0xa9 n refl (λ e. refl) r1 in
      let hashed : hash160 c top ∷ top ∷ below ≡ s2 = ok-injective (rw (← doubled) at e2) in
      let (f3, k3, r3) = push_round c script ctx 20 f2 2 k2 s2 0x14 n refl (λ e. refl) r2 in
      let (f4, k4, s4, e4, r4) =
        stack_round c script ctx Op.equal_verify f3 23 k3 _ 0x88 n (behind _ 0) (λ e. refl) r3 in
      let (equal, left) =
        equal_verify-eq-ok (hash160 c top) (take 20 (hash ++ (0x88 ∷ 0xac ∷ []))) (top ∷ below) s4
          (rw (← hashed) at e4) in
      let (f5, k5, pubkey, sig, rest, valid, split, checked, r5) =
        checksig_round c script ctx f4 24 k4 s4 0xac n (behind _ 1) (λ e. refl) r4 in
      let last =
        run-end c f5 _ n (omega (arith, length-append hash (0x88 ∷ 0xac ∷ []), twenty)) r5 in
      let stack_is : top ∷ below ≡ pubkey ∷ sig ∷ rest = left ∙ split in
      let key_is : top ≡ pubkey = cc in
      (
        pubkey,
        sig,
        rest,
        valid,
        stack_is,
        ap (hash160 c) (sym key_is) ∙ equal ∙ pushed _,
        checked,
        sym same ∙ sym (ap (λ q. q.stack) last),
      )
