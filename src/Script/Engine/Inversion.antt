-- ===== src/Script/Engine/Inversion.antt =====
-- script/engine.rs: what a run that succeeded did at its next opcode.
use ironcat.Base.{
  ℕ, zero, suc, ◌+◌, ◌≤◌, ◌<◌, ◌≡◌, refl, sym, ap, ◌∙◌, [], ◌∷◌, Bool, false, not, leb, lt→ltb,
  length, Bool-cases, some, inl, inr, get_elem?, take, drop, some-injective, none-ne-some,
  le→ltb_false,
}
use ironcat.Base.Result.{
  Result, ok, ◌>>◌, ensure, >>=-eq-ok, ensure_then, ok-injective, Result-cases,
}
use ironcat.Network.Cursor.{Bytes}
use ironcat.Script.Error.{
  ScriptError, check_sig_failed, disabled_opcode, too_many_ops, invalid_push_size,
}
use ironcat.Script.Opcode.{opcode_from, is_disabled, Opcode}
use ironcat.Script.Stack.{Stack, pop, usize_add}
use ironcat.Script.Stack.Op.{boolean}
use ironcat.Script.Engine.Signatures.{op_checksig, checksig_with, conclude}
use ironcat.Script.Engine.{
  Crypto, Engine, SignatureContext, is_executing, read_byte, on_stack, push_data, max_ops,
  max_push_size,
}
use ironcat.Script.Engine.Execute.{execute_opcode}
use ironcat.Script.Engine.Run.{is_push, count_op, run_opcode, step, run}
use ironcat.Script.Engine.Frame.{read_byte-eq-ok, usize_add-eq-ok, get_elem?_lt}
use ironcat.Script.Engine.Bounds.{check_stack_size-eq-ok}
use ironcat.Script.Engine.Halts.{run-step, run-fail}

-- The states outside all branches, before any code separator, with an empty alternative stack.
abbrev pub plain : Bytes → SignatureContext → ℕ → ℕ → Stack → Engine
plain s ctx position ops st = record {
  stack = st;
  alt_stack = [];
  script = s;
  pc = position;
  op_count = ops;
  conditions = [];
  codesep_pos = 0;
  sig_ctx = some ctx;
}

run-inv :
    (c : Crypto) (fuel : ℕ) (e n : Engine)
    → e.pc < length e.script
    → run c fuel e ≡ some (ok n)
    → (rest : ℕ) × (m : Engine) × (step c e ≡ ok m) × (run c rest m ≡ some (ok n))
unfolding run
run-inv c zero e n lt h = absurd (none-ne-some (rw (lt→ltb _ _ lt) at h))
run-inv c (suc fuel) e n lt h = elim (Result-cases (step c e)) [
  | inr (x, failed) ↦ cc (run-fail c fuel e x lt failed, h)
  | inl (m, stepped) ↦ (fuel, m, stepped, sym (run-step c fuel e m lt stepped) ∙ h)
]

-- The position at the end: the state is the final one.
pub run-end :
    (c : Crypto) (fuel : ℕ) (e n : Engine)
    → length e.script ≤ e.pc
    → run c fuel e ≡ some (ok n)
    → e ≡ n
unfolding run
run-end c zero e n le h = ok-injective (some-injective (rw (le→ltb_false _ _ le) at h))
run-end c (suc fuel) e n le h = ok-injective (some-injective (rw (le→ltb_false _ _ le) at h))

count_op-eq-ok :
    (op : Opcode) (e n : Engine) → count_op op e ≡ ok n → (k : ℕ) × (n ≡ record e { op_count = k })
unfolding count_op
count_op-eq-ok op e n h = elim (Bool-cases (is_push op)) [
  | inl y ↦ (e.op_count, sym (ok-injective (rw y at h)))
  | inr y ↦
      let (count, _, k) = >>=-eq-ok (usize_add e.op_count 1 too_many_ops) _ (rw y at h) in
      let (_, k2) = ensure_then (leb count max_ops) too_many_ops _ k in
      (count, sym (ok-injective k2))
]

pub pop-eq-ok : (s : Stack) (p : Bytes × Stack) → pop s ≡ ok p → s ≡ p.0 ∷ p.1
pop-eq-ok [] p h = cc
pop-eq-ok (a ∷ s) p h = rw (← ok-injective h) refl

module _ (c : Crypto) (script : Bytes) (ctx : SignatureContext) where
  -- A round of a plain state executes the opcode under the position.
  step-inv :
      (position ops : ℕ) (st : Stack) (b : ℕ) (n : Engine)
      → get_elem? script position ≡ some b
      → step c (plain script ctx position ops st) ≡ ok n
      → (k : ℕ) × (execute_opcode c (opcode_from b) (plain script ctx (position + 1) k st) ≡ ok n)
  unfolding step run_opcode is_executing
  step-inv position ops st b n here h =
      let e = plain script ctx position ops st in
      let (p, read, h1) = >>=-eq-ok (read_byte e) _ h in
      let (m, counting, h2) =
        >>=-eq-ok
          (ensure (not (is_disabled (opcode_from p.0))) (disabled_opcode p.0)
            >> count_op (opcode_from p.0) p.1)
          _ h1 in
      let (_, count) =
        ensure_then (not (is_disabled (opcode_from p.0))) (disabled_opcode p.0) _ counting in
      let (_, moved, byte) = read_byte-eq-ok e p read in
      let (k, same) = count_op-eq-ok (opcode_from p.0) p.1 m count in
      let first : p.0 ≡ b = some-injective (sym byte ∙ here) in
      let state : m ≡ plain script ctx (position + 1) k st =
        same ∙ ap {A = Engine} (λ q. record q { op_count = k }) moved in
      let (x, done, k2) =
        >>=-eq-ok (execute_opcode c (opcode_from b) (plain script ctx (position + 1) k st)) _
          (rw (first, state) at h2) in
      (k, done ∙ ap ok (check_stack_size-eq-ok x n k2).0)

  round :
      (fuel position ops : ℕ) (st : Stack) (b : ℕ) (n : Engine)
      → get_elem? script position ≡ some b
      → run c fuel (plain script ctx position ops st) ≡ some (ok n)
      → (rest k : ℕ) × (m : Engine) × (execute_opcode c
            (opcode_from b)
            (plain script ctx (position + 1) k st)
          ≡ ok m)
        × (run c rest m ≡ some (ok n))
  round fuel position ops st b n here h =
      let (rest, m, stepped, runs) =
        run-inv c fuel (plain script ctx position ops st) n (get_elem?_lt _ _ _ here) h in
      let (k, done) = step-inv position ops st b m here stepped in (rest, k, m, done, runs)

  -- An opcode that only uses the main stack.
  pub stack_round :
      (f : Stack → Result ScriptError Stack) (fuel position ops : ℕ) (st : Stack) (b : ℕ)
      (n : Engine)
      → get_elem? script position ≡ some b
      → ((e : Engine) → execute_opcode c (opcode_from b) e ≡ on_stack f e)
      → run c fuel (plain script ctx position ops st) ≡ some (ok n)
      → (rest k : ℕ) × (s : Stack) × (f st ≡ ok s)
        × (run c rest (plain script ctx (position + 1) k s) ≡ some (ok n))
  unfolding on_stack
  stack_round f fuel position ops st b n here is_f h =
      let (rest, k, m, done, runs) = round fuel position ops st b n here h in
      let (s, made, same) = >>=-eq-ok (f st) _ (sym (is_f _) ∙ done) in
      (rest, k, s, made, rw (← ok-injective same) at runs)

  -- A push of the bytes behind the opcode.
  pub push_round :
      (len fuel position ops : ℕ) (st : Stack) (b : ℕ) (n : Engine)
      → get_elem? script position ≡ some b
      → ((e : Engine) → execute_opcode c (opcode_from b) e ≡ push_data len e)
      → run c fuel (plain script ctx position ops st) ≡ some (ok n)
      → (rest k : ℕ) × (run c rest
            (plain script ctx (position + 1 + len) k (take len (drop (position + 1) script) ∷ st))
          ≡ some (ok n))
  unfolding push_data
  push_round len fuel position ops st b n here is_push_data h =
      let (rest, k, m, done, runs) = round fuel position ops st b n here h in
      let (end, h1, k1) =
        >>=-eq-ok
          (ensure (leb len max_push_size) invalid_push_size
            >> usize_add (position + 1) len invalid_push_size)
          _ (sym (is_push_data _) ∙ done) in
      let (_, sum) = ensure_then (leb len max_push_size) invalid_push_size _ h1 in
      let (_, k2) = ensure_then (leb end (length script)) invalid_push_size _ k1 in
      let end_is = usize_add-eq-ok _ _ _ _ sum in (rest, k, rw (← ok-injective k2, end_is) at runs)

  -- The signature check.
  pub checksig_round :
      (fuel position ops : ℕ) (st : Stack) (b : ℕ) (n : Engine)
      → get_elem? script position ≡ some b
      → ((e : Engine) → execute_opcode c (opcode_from b) e ≡ op_checksig c false e)
      → run c fuel (plain script ctx position ops st) ≡ some (ok n)
      → (rest k : ℕ) × (pubkey sig : Bytes) × (s : Stack) × (valid : Bool) × (st ≡ pubkey ∷ sig ∷ s)
        × (checksig_with c (some ctx) script sig pubkey ≡ ok valid)
        × (run c rest (plain script ctx (position + 1) k (boolean valid ∷ s)) ≡ some (ok n))
  unfolding op_checksig
  checksig_round fuel position ops st b n here is_checksig h =
      let (rest, k, m, done, runs) = round fuel position ops st b n here h in
      let (pubkey, p1, h1) = >>=-eq-ok (pop st) _ (sym (is_checksig _) ∙ done) in
      let (sig, p2, h2) = >>=-eq-ok (pop pubkey.1) _ h1 in
      let (valid, checked, h3) =
        >>=-eq-ok (checksig_with c (some ctx) script sig.0 pubkey.0) _ h2 in
      let (t, made, same) =
        >>=-eq-ok {B = Engine} (conclude false valid check_sig_failed sig.1)
          (λ t. ok (record (plain script ctx (position + 1) k st) { stack = t })) h3 in
      let top : boolean valid ∷ sig.1 ≡ t = ok-injective made in
      let state : plain script ctx (position + 1) k t ≡ m = ok-injective same in
      (
        rest,
        k,
        pubkey.0,
        sig.0,
        sig.1,
        valid,
        pop-eq-ok st pubkey p1 ∙ ap (λ q. pubkey.0 ∷ q) (pop-eq-ok pubkey.1 sig p2),
        checked,
        rw (← state, ← top) at runs,
      )
