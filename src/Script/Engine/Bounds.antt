-- ===== src/Script/Engine/Bounds.antt =====
-- script/engine.rs: the limits that every state between two opcodes keeps.
use ironcat.Base.{
  ℕ, zero, suc, ◌+◌, ◌≤◌, ◌<◌, ◌≡◌, refl, ap, ◌∙◌, false, not, leb, leb→le, length, arith,
  Bool-cases, inl, inr,
}
use ironcat.Base.Result.{ok, ◌>>◌, ensure, >>=-eq-ok, ensure_then, ok-injective}
use ironcat.Network.Cursor.{Bytes}
use ironcat.Script.Error.{too_many_ops, stack_overflow, disabled_opcode, invalid_push_size}
use ironcat.Script.Opcode.{Opcode, opcode_from, is_disabled}
use ironcat.Script.Stack.{Stack, usize_add}
use ironcat.Script.Engine.{
  Crypto, Engine, SignatureContext, with_stack_and_sig_context, read_byte, read_bytes, skip_bytes,
  flip_last, drop_last, op_else, op_endif, max_ops, max_stack_size, is_executing,
}
use ironcat.Script.Engine.Execute.{execute_opcode}
use ironcat.Script.Engine.Run.{
  is_push, count_op, skip_prefixed, skip_opcode, check_stack_size, run_opcode, step,
}
use ironcat.Script.Engine.Frame.{
  Frame, Frame-refl, Frame-trans, usize_add-eq-ok, read_byte-eq-ok, read_byte-Frame,
  skip_bytes-Frame, prefixed-Frame, op_else-Frame, op_endif-Frame, push_condition-Frame,
}
use ironcat.Script.Engine.Frame.Opcodes.{execute_opcode-Frame, counted}

abbrev pub stack_sizes : Engine → ℕ
stack_sizes e = length e.stack + length e.alt_stack

pub record IsBounded (e : Engine) : Type 0 where
  pub pc_in_script : e.pc ≤ length e.script
  pub codesep_behind : e.codesep_pos ≤ e.pc
  pub few_ops : e.op_count ≤ max_ops
  pub small_stacks : stack_sizes e ≤ max_stack_size

read_byte-stacks :
    (e : Engine) (p : ℕ × Engine) → read_byte e ≡ ok p → stack_sizes p.1 ≡ stack_sizes e
read_byte-stacks e p h = ap stack_sizes (read_byte-eq-ok e p h).1

read_bytes-stacks :
    (n : ℕ) (e : Engine) (p : Bytes × Engine)
    → read_bytes n e ≡ ok p
    → stack_sizes p.1 ≡ stack_sizes e
unfolding read_bytes
read_bytes-stacks zero e p h = rw (← ok-injective h) refl
read_bytes-stacks (suc n) e p h =
    let (first, h1, k1) = >>=-eq-ok (read_byte e) _ h in
    let (rest, h2, k2) = >>=-eq-ok (read_bytes n first.1) _ k1 in
    rw (← ok-injective k2) (read_bytes-stacks n first.1 rest h2 ∙ read_byte-stacks e first h1)

skip_bytes-stacks :
    (len : ℕ) (e n : Engine) → skip_bytes len e ≡ ok n → stack_sizes n ≡ stack_sizes e
unfolding skip_bytes
skip_bytes-stacks len e n h =
    let (end, sum, k1) = >>=-eq-ok (usize_add e.pc len invalid_push_size) _ h in
    let (_, k2) = ensure_then (leb end (length e.script)) invalid_push_size _ k1 in
    rw (← ok-injective k2) refl

op_else-stacks : (e n : Engine) → op_else e ≡ ok n → stack_sizes n ≡ stack_sizes e
unfolding op_else
op_else-stacks e n h =
    let (cs, _, k) = >>=-eq-ok (flip_last e.conditions) _ h in rw (← ok-injective k) refl

op_endif-stacks : (e n : Engine) → op_endif e ≡ ok n → stack_sizes n ≡ stack_sizes e
unfolding op_endif
op_endif-stacks e n h =
    let (cs, _, k) = >>=-eq-ok (drop_last e.conditions) _ h in rw (← ok-injective k) refl

-- Neither the positions nor the stacks leave their bounds.
Steady : Engine → Engine → Type 0
Steady e n = Frame e n × (stack_sizes n ≡ stack_sizes e)

count_op-Steady : (op : Opcode) (e n : Engine) → count_op op e ≡ ok n → Steady e n
unfolding count_op Steady
count_op-Steady op e n h = elim (Bool-cases (is_push op)) [
  | inl y ↦ rw (← ok-injective (rw y at h)) (Frame-refl e, refl)
  | inr y ↦
      let (count, _, k) = >>=-eq-ok (usize_add e.op_count 1 too_many_ops) _ (rw y at h) in
      let (few, k2) = ensure_then (leb count max_ops) too_many_ops _ k in
      rw (← ok-injective k2) (counted e e.stack count (leb→le _ _ few), refl)
]

skip_prefixed-Steady : (k : ℕ) (e n : Engine) → skip_prefixed k e ≡ ok n → Steady e n
unfolding skip_prefixed Steady
skip_prefixed-Steady k e n h =
    let (len, h1, k1) = >>=-eq-ok (read_bytes k e) _ h in
    (
      prefixed-Frame skip_bytes k skip_bytes-Frame e n h,
      skip_bytes-stacks _ _ _ k1 ∙ read_bytes-stacks k e len h1,
    )

skip_opcode-Steady : (op : Opcode) (e n : Engine) → skip_opcode op e ≡ ok n → Steady e n
unfolding skip_opcode Steady
skip_opcode-Steady Opcode.op_if e n h = rw (← ok-injective h) (push_condition-Frame false e, refl)
skip_opcode-Steady Opcode.op_not_if e n h =
    rw (← ok-injective h) (push_condition-Frame false e, refl)
skip_opcode-Steady Opcode.op_else e n h = (op_else-Frame e n h, op_else-stacks e n h)
skip_opcode-Steady Opcode.op_end_if e n h = (op_endif-Frame e n h, op_endif-stacks e n h)
skip_opcode-Steady (Opcode.push_bytes k) e n h =
    (skip_bytes-Frame k e n h, skip_bytes-stacks k e n h)
skip_opcode-Steady Opcode.push_data1 e n h = skip_prefixed-Steady 1 e n h
skip_opcode-Steady Opcode.push_data2 e n h = skip_prefixed-Steady 2 e n h
skip_opcode-Steady Opcode.push_data4 e n h = skip_prefixed-Steady 4 e n h
skip_opcode-Steady _ e n h = rw (← ok-injective h) (Frame-refl e, refl)

pub check_stack_size-eq-ok :
    (e n : Engine) → check_stack_size e ≡ ok n → (e ≡ n) × (stack_sizes n ≤ max_stack_size)
unfolding check_stack_size
check_stack_size-eq-ok e n h =
    let (total, sum, k) =
      >>=-eq-ok (usize_add (length e.stack) (length e.alt_stack) stack_overflow) _ h in
    let (small, k2) = ensure_then (leb total max_stack_size) stack_overflow _ k in
    let total_is = usize_add-eq-ok _ _ _ _ sum in
    let same = ok-injective k2 in (same, rw (← same) (omega (arith, leb→le _ _ small, total_is)))

run_opcode-bounds :
    (c : Crypto) (op : Opcode) (e n : Engine)
    → run_opcode c op e ≡ ok n
    → stack_sizes e ≤ max_stack_size
    → Frame e n × (stack_sizes n ≤ max_stack_size)
unfolding run_opcode Steady
run_opcode-bounds c op e n h small = elim (Bool-cases (is_executing e)) [
  | inl y ↦
      let (m, h1, k1) = >>=-eq-ok (execute_opcode c op e) _ (rw y at h) in
      let (same, few) = check_stack_size-eq-ok m n k1 in
      (rw (← same) (execute_opcode-Frame c op e m h1), few)
  | inr y ↦ let (frame, same) = skip_opcode-Steady op e n (rw y at h) in (frame, rw same small)
]

-- A round moves the position forward in the same script, and keeps the stacks small.
pub step-bounds :
    (c : Crypto) (e n : Engine)
    → step c e ≡ ok n
    → stack_sizes e ≤ max_stack_size
    → Frame e n × (e.pc < n.pc) × (e.pc < length e.script) × (stack_sizes n ≤ max_stack_size)
unfolding step Steady
step-bounds c e n h small =
    let (p, read, h1) = >>=-eq-ok (read_byte e) _ h in
    let (m, counting, h2) =
      >>=-eq-ok
        (ensure (not (is_disabled (opcode_from p.0))) (disabled_opcode p.0)
          >> count_op (opcode_from p.0) p.1)
        _ h1 in
    let (_, count) =
      ensure_then (not (is_disabled (opcode_from p.0))) (disabled_opcode p.0) _ counting in
    let (lt, moved, _) = read_byte-eq-ok e p read in
    let (frame, same) = count_op-Steady (opcode_from p.0) p.1 m count in
    let still : stack_sizes m ≤ max_stack_size = rw (same ∙ read_byte-stacks e p read) small in
    let (last, few) = run_opcode-bounds c (opcode_from p.0) m n h2 still in
    let pc_is = ap (λ x. x.pc) moved in
    (
      Frame-trans _ _ _ (read_byte-Frame e p read) (Frame-trans _ _ _ frame last),
      omega (arith, pc_is, frame.pc_le, last.pc_le),
      lt,
      few,
    )

-- The states that the loop passes through, the first one included.
pub data Reached (c : Crypto) (start : Engine) : Engine → Type 1 where
  begin : Reached c start start
  after : (e n : Engine) → Reached c start e → step c e ≡ ok n → Reached c start n

IsBounded-begin :
    (script : Bytes) (stack : Stack) (ctx : SignatureContext)
    → length stack ≤ max_stack_size
    → IsBounded (with_stack_and_sig_context script stack ctx)
IsBounded-begin script stack ctx small = record {
  pc_in_script = omega arith;
  codesep_behind = omega arith;
  few_ops = omega arith;
  small_stacks = omega (arith, small);
}

step-IsBounded : (c : Crypto) (e n : Engine) → step c e ≡ ok n → IsBounded e → IsBounded n
step-IsBounded c e n h b =
    let (frame, _, _, few) = step-bounds c e n h b.small_stacks in
    record {
      pc_in_script = frame.in_script b.pc_in_script;
      codesep_behind = frame.codesep_le b.codesep_behind;
      few_ops = frame.ops_le b.few_ops;
      small_stacks = few;
    }

-- In every state that a script passes through, started on a stack of at most 1000 elements, the
-- position is inside the script, the last code separator is not behind it, so that the script code
-- of a signature is a slice of the script, at most 201 operations are counted, and the two stacks
-- have at most 1000 elements together.
pub Reached-IsBounded :
    (c : Crypto) (script : Bytes) (stack : Stack) (ctx : SignatureContext) (n : Engine)
    → length stack ≤ max_stack_size
    → Reached c (with_stack_and_sig_context script stack ctx) n
    → IsBounded n
Reached-IsBounded c script stack ctx n small begin = IsBounded-begin script stack ctx small
Reached-IsBounded c script stack ctx n small (after e next r h) =
    step-IsBounded c e next h (Reached-IsBounded c script stack ctx e small r)
