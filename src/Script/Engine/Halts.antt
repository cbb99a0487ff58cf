-- ===== src/Script/Engine/Halts.antt =====
-- script/engine.rs and script/verify.rs: the loop ends, and what it ends with.
use ironcat.Base.{
  ℕ, zero, suc, ◌+◌, ◌≤◌, ◌<◌, ◌≡◌, refl, sym, ap, ◌∙◌, List, [], ◌∷◌, Bool, true, ltb, ltb→lt,
  lt→ltb, ltb_false→le, none-ne-some, some-injective, le→ltb_false, length, arith, Bool-cases,
  Option, none, some, inl, inr,
}
use ironcat.Base.Result.{Result, ok, err, ensure_then, ok-injective, Result-cases}
use ironcat.Network.Cursor.{Bytes}
use ironcat.Types.Transaction.{Transaction}
use ironcat.Script.Error.{ScriptError, script_too_large, unbalanced_conditional}
use ironcat.Script.Stack.{Stack}
use ironcat.Script.Engine.Signatures.{is_empty}
use ironcat.Script.Engine.{
  Crypto, Engine, SignatureContext, with_stack_and_sig_context, max_stack_size, max_script_size,
}
use ironcat.Script.Engine.Run.{step, run, execute, map_some, final_stack}
use ironcat.Script.Engine.Bounds.{
  step-bounds, stack_sizes, Reached, begin, after, Reached-IsBounded,
}
use ironcat.Script.Verify.{then_run, is_p2sh, is_push_only, run_redeem, check_p2sh, verify_script}

-- There is a result.
abbrev pub Ends {ℓ} : {A : Type ℓ} → Option A → Type ℓ
Ends {A = A} m = (r : A) × (m ≡ some r)

pub run-step :
    (c : Crypto) (fuel : ℕ) (e n : Engine)
    → e.pc < length e.script
    → step c e ≡ ok n
    → run c (suc fuel) e ≡ run c fuel n
unfolding run
run-step c fuel e n lt stepped = rw (lt→ltb _ _ lt, stepped) refl

pub run-stop :
    (c : Crypto) (fuel : ℕ) (e : Engine) → length e.script ≤ e.pc → run c fuel e ≡ some (ok e)
unfolding run
run-stop c zero e le = rw (le→ltb_false _ _ le) refl
run-stop c (suc fuel) e le = rw (le→ltb_false _ _ le) refl

pub run-fail :
    (c : Crypto) (fuel : ℕ) (e : Engine) (x : ScriptError)
    → e.pc < length e.script
    → step c e ≡ err x
    → run c (suc fuel) e ≡ some (err x)
unfolding run
run-fail c fuel e x lt failed = rw (lt→ltb _ _ lt, failed) refl

run-Ends :
    (c : Crypto) (fuel : ℕ) (e : Engine)
    → length e.script ≤ e.pc + fuel
    → stack_sizes e ≤ max_stack_size
    → Ends (run c fuel e)
run-Ends c zero e enough small = (ok e, run-stop c 0 e (omega (arith, enough)))
run-Ends c (suc fuel) e enough small = elim (Bool-cases (ltb e.pc (length e.script))) [
  | inr out ↦ (ok e, run-stop c (suc fuel) e (ltb_false→le _ _ out))
  | inl in_it ↦ elim (Result-cases (step c e)) [
    | inr (x, failed) ↦ (err x, run-fail c fuel e x (ltb→lt _ _ in_it) failed)
    | inl (n, stepped) ↦
        let (frame, further, lt, few) = step-bounds c e n stepped small in
        let same = ap length frame.script_eq in
        let rest : length n.script ≤ n.pc + fuel = omega (arith, enough, further, same) in
        let (r, runs) = run-Ends c fuel n rest few in (r, run-step c fuel e n lt stepped ∙ runs)
  ]
]

execute-Ends : (c : Crypto) (e : Engine) → stack_sizes e ≤ max_stack_size → Ends (execute c e)
unfolding execute
execute-Ends c e small = elim (Bool-cases (ltb max_script_size (length e.script))) [
  | inl large ↦ (err script_too_large, rw large refl)
  | inr fits ↦
      let (r, runs) = run-Ends c (length e.script) e (omega arith) small in
      (final_stack r, rw (fits, runs) refl)
]

-- What a finished loop reached.
run-Reached :
    (c : Crypto) (start : Engine) (fuel : ℕ) (e n : Engine)
    → Reached c start e
    → run c fuel e ≡ some (ok n)
    → Reached c start n
unfolding run
run-Reached c start zero e n r h = elim (Bool-cases (ltb e.pc (length e.script))) [
  | inl in_it ↦ absurd (none-ne-some (rw in_it at h))
  | inr out ↦ rw (← ok-injective (some-injective (rw out at h))) r
]
run-Reached c start (suc fuel) e n r h = elim (Bool-cases (ltb e.pc (length e.script))) [
  | inr out ↦ rw (← ok-injective (some-injective (rw out at h))) r
  | inl in_it ↦ elim (Result-cases (step c e)) [
    | inr (x, failed) ↦ cc (run-fail c fuel e x (ltb→lt _ _ in_it) failed, h)
    | inl (m, stepped) ↦
        run-Reached c start fuel m n (after e m r stepped)
          (sym (run-step c fuel e m (ltb→lt _ _ in_it) stepped) ∙ h)
  ]
]

-- The loop that a successful script ran.
pub execute-eq-ok :
    (c : Crypto) (e : Engine) (s : Stack)
    → execute c e ≡ some (ok s)
    → (n : Engine) × (run c (length e.script) e ≡ some (ok n)) × (n.conditions ≡ []) × (n.stack ≡ s)
unfolding execute
execute-eq-ok c e s h = elim (Bool-cases (ltb max_script_size (length e.script))) [
  | inl large ↦ cc (rw large at h)
  | inr fits ↦ finished (run c (length e.script) e) refl (rw fits at h)
]
  where
    closed : (cs : List Bool) → is_empty cs ≡ true → cs ≡ []
    closed [] i = refl
    closed (b ∷ cs) i = cc

    finished :
        (m : Option (Result ScriptError Engine))
        → run c (length e.script) e ≡ m
        → map_some final_stack m ≡ some (ok s)
        → (n : Engine) × (run c (length e.script) e ≡ some (ok n))
          × (n.conditions ≡ [])
          × (n.stack ≡ s)
    finished none r i = cc
    finished (some (err x)) r i = cc
    finished (some (ok n)) r i =
        let (empty, k) =
          ensure_then (is_empty n.conditions) unbalanced_conditional (ok n.stack)
            (some-injective i) in
        (n, r, closed n.conditions empty, ok-injective k)

module _ (c : Crypto) (script : Bytes) (stack : Stack) (ctx : SignatureContext)
    (small : length stack ≤ max_stack_size) where
  start_Ends : Ends (execute c (with_stack_and_sig_context script stack ctx))
  start_Ends = execute-Ends c (with_stack_and_sig_context script stack ctx) (omega (arith, small))

  -- A script that is started on a stack of at most 1000 elements leaves at most 1000.
  pub execute-small :
      (s : Stack)
      → execute c (with_stack_and_sig_context script stack ctx) ≡ some (ok s)
      → length s ≤ max_stack_size
  execute-small s h =
      let start = with_stack_and_sig_context script stack ctx in
      let (n, runs, _, same) = execute-eq-ok c start s h in
      let bounds =
        Reached-IsBounded c script stack ctx n small (run-Reached c start _ start n begin runs) in
      omega (arith, bounds.small_stacks, ap length same)

then_run-Ends {ℓ κ} :
    {A : Type ℓ} {B : Type κ} (m : Option (Result ScriptError A))
    (f : A → Option (Result ScriptError B))
    → Ends m
    → ((a : A) → m ≡ some (ok a) → Ends (f a))
    → Ends (then_run m f)
then_run-Ends m f (ok a, e) rest = rw e (rest a e)
then_run-Ends m f (err x, e) rest = rw e (err x, refl)

run_redeem-Ends :
    (c : Crypto) (s : Stack) (ctx : SignatureContext)
    → length s ≤ max_stack_size
    → Ends (run_redeem c s ctx)
unfolding run_redeem
run_redeem-Ends c [] ctx small = (_, refl)
run_redeem-Ends c (redeem ∷ s) ctx small =
    then_run-Ends _ _ (start_Ends c redeem s ctx (omega (arith, small))) (λ t e. (_, refl))

check_p2sh-Ends :
    (c : Crypto) (script_sig script_pubkey : Bytes) (s : Stack) (ctx : SignatureContext)
    → length s ≤ max_stack_size
    → Ends (check_p2sh c script_sig script_pubkey s ctx)
check_p2sh-Ends c script_sig script_pubkey s ctx small = elim (Bool-cases (is_p2sh script_pubkey)) [
  | inr n ↦ rw n (_, refl)
  | inl y ↦ elim (Bool-cases (is_push_only script_sig)) [
    | inr n ↦ rw (y, n) (_, refl)
    | inl p ↦ rw (y, p) (run_redeem-Ends c s ctx small)
  ]
]

-- For every pair of scripts, every transaction and every number of an input, the verification ends
-- with an answer: the length of a script is fuel enough for its loop.
pub verify_script_halts :
    (c : Crypto) (script_sig script_pubkey : Bytes) (t : Transaction) (i : ℕ)
    → (r : Result ScriptError (Unit {0})) × (verify_script c script_sig script_pubkey t i ≡ some r)
unfolding verify_script
verify_script_halts c script_sig script_pubkey t i =
    let ctx : SignatureContext = record { tx = t; input_idx = i } in
    then_run-Ends _ _ (start_Ends c script_sig [] ctx (omega arith)) (λ sig_stack first.
      let small = execute-small c script_sig [] ctx (omega arith) sig_stack first in
      then_run-Ends _ _ (start_Ends c script_pubkey sig_stack ctx small) (λ s second.
        then_run-Ends _ _ (_, refl)
          (λ u third. check_p2sh-Ends c script_sig script_pubkey sig_stack ctx small)))
