-- ===== src/Script/Engine/Frame/Opcodes.antt =====
-- script/engine.rs: the frame of each opcode.
use ironcat.Base.{ℕ, ◌≤◌, ◌≡◌, refl, Bool, leb, leb→le, arith}
use ironcat.Base.Int.{pos}
use ironcat.Base.Result.{ok, ◌>>◌, ensure, >>=-eq-ok, ensure_then, ok-injective, ok_or}
use ironcat.Script.Error.{
  too_many_ops, check_multi_sig_failed, check_sig_failed, multisig_key_count, multisig_sig_count,
}
use ironcat.Script.Opcode.{Opcode}
use ironcat.Script.Stack.{Stack, usize_add, pop}
use ironcat.Script.Engine.{Crypto, Engine, push_data, max_ops}
use ironcat.Script.Engine.Signatures.{
  op_checksig, op_checkmultisig, pop_count, pop_many, conclude, checksig_with, max_multisig_keys,
}
use ironcat.Script.Engine.Execute.{
  push_prefixed, to_alt_stack, from_alt_stack, begin_if, execute_opcode,
}
use ironcat.Script.Engine.Frame.{
  Frame, Frame-refl, restacked, prefixed-Frame, push_data-Frame, on_stack-Frame, op_else-Frame,
  op_endif-Frame,
}

push_prefixed-Frame : (k : ℕ) (e n : Engine) → push_prefixed k e ≡ ok n → Frame e n
unfolding push_prefixed
push_prefixed-Frame k e n h = prefixed-Frame push_data k push_data-Frame e n h

to_alt_stack-Frame : (e n : Engine) → to_alt_stack e ≡ ok n → Frame e n
unfolding to_alt_stack
to_alt_stack-Frame e n h =
    let (p, _, k) = >>=-eq-ok (pop e.stack) _ h in
    rw (← ok-injective k) (restacked e _ _ e.conditions)

from_alt_stack-Frame : (e n : Engine) → from_alt_stack e ≡ ok n → Frame e n
unfolding from_alt_stack
from_alt_stack-Frame e n h =
    let (p, _, k) = >>=-eq-ok (pop e.alt_stack) _ h in
    rw (← ok-injective k) (restacked e _ _ e.conditions)

begin_if-Frame : (b : Bool) (e n : Engine) → begin_if b e ≡ ok n → Frame e n
unfolding begin_if
begin_if-Frame b e n h =
    let (p, _, k) = >>=-eq-ok (pop e.stack) _ h in
    rw (← ok-injective k) (restacked e _ e.alt_stack _)

op_checksig-Frame : (c : Crypto) (v : Bool) (e n : Engine) → op_checksig c v e ≡ ok n → Frame e n
unfolding op_checksig
op_checksig-Frame c v e n h =
    let (pubkey, _, h1) = >>=-eq-ok (pop e.stack) _ h in
    let (sig, _, h2) = >>=-eq-ok (pop pubkey.1) _ h1 in
    let (valid, _, h3) = >>=-eq-ok (checksig_with c e.sig_ctx _ sig.0 pubkey.0) _ h2 in
    let (t, _, k) = >>=-eq-ok (conclude v valid check_sig_failed sig.1) _ h3 in
    rw (← ok-injective k) (restacked e t e.alt_stack e.conditions)

-- The frame of a state in which the stack and the count of operations changed.
pub counted :
    (e : Engine) (s : Stack) (n : ℕ) → n ≤ max_ops → Frame e (record e { stack = s; op_count = n })
counted e s n le = record {
  script_eq = refl;
  ctx_eq = refl;
  pc_le = omega arith;
  in_script = λ h. h;
  codesep_le = λ h. h;
  ops_le = λ h. le;
}

op_checkmultisig-Frame :
    (c : Crypto) (v : Bool) (e n : Engine) → op_checkmultisig c v e ≡ ok n → Frame e n
unfolding op_checkmultisig
op_checkmultisig-Frame c v e n h =
    let (n_keys, _, h1) = >>=-eq-ok (pop_count e.stack max_multisig_keys multisig_key_count) _ h in
    let (keys, _, h2) = >>=-eq-ok (pop_many n_keys.1 n_keys.0) _ h1 in
    let (count, _, h3) = >>=-eq-ok (usize_add e.op_count n_keys.0 too_many_ops) _ h2 in
    let (n_sigs, counts, h4) =
      >>=-eq-ok
        (ensure (leb count max_ops) too_many_ops
          >> pop_count keys.1 (pos n_keys.0) multisig_sig_count)
        _ h3 in
    let (few, _) = ensure_then (leb count max_ops) too_many_ops _ counts in
    let (sigs, _, h5) = >>=-eq-ok (pop_many n_sigs.1 n_sigs.0) _ h4 in
    let (dummy, _, h6) = >>=-eq-ok (pop sigs.1) _ h5 in
    let (ctx, _, h7) = >>=-eq-ok (ok_or e.sig_ctx check_multi_sig_failed) _ h6 in
    let (t, _, k) = >>=-eq-ok (conclude v _ check_multi_sig_failed dummy.1) _ h7 in
    rw (← ok-injective k) (counted e t count (leb→le _ _ few))

pub execute_opcode-Frame :
    (c : Crypto) (op : Opcode) (e n : Engine) → execute_opcode c op e ≡ ok n → Frame e n
unfolding execute_opcode
execute_opcode-Frame c Opcode.op_0 e n h = on_stack-Frame _ e n h
execute_opcode-Frame c (Opcode.push_bytes k) e n h = push_data-Frame k e n h
execute_opcode-Frame c Opcode.push_data1 e n h = push_prefixed-Frame 1 e n h
execute_opcode-Frame c Opcode.push_data2 e n h = push_prefixed-Frame 2 e n h
execute_opcode-Frame c Opcode.push_data4 e n h = push_prefixed-Frame 4 e n h
execute_opcode-Frame c Opcode.op_to_alt_stack e n h = to_alt_stack-Frame e n h
execute_opcode-Frame c Opcode.op_from_alt_stack e n h = from_alt_stack-Frame e n h
execute_opcode-Frame c Opcode.op_if e n h = begin_if-Frame _ e n h
execute_opcode-Frame c Opcode.op_not_if e n h = begin_if-Frame _ e n h
execute_opcode-Frame c Opcode.op_else e n h = op_else-Frame e n h
execute_opcode-Frame c Opcode.op_end_if e n h = op_endif-Frame e n h
execute_opcode-Frame c (Opcode.op_nop k) e n h = rw (← ok-injective h) (Frame-refl e)
execute_opcode-Frame c Opcode.op_check_lock_time_verify e n h = rw (← ok-injective h) (Frame-refl e)
execute_opcode-Frame c Opcode.op_check_sequence_verify e n h = rw (← ok-injective h) (Frame-refl e)
execute_opcode-Frame c Opcode.op_return e n h = cc
execute_opcode-Frame c Opcode.op_code_separator e n h = rw (← ok-injective h) (record {
  script_eq = refl;
  ctx_eq = refl;
  pc_le = omega arith;
  in_script = λ i. i;
  codesep_le = λ i. omega arith;
  ops_le = λ i. i;
})
execute_opcode-Frame c Opcode.op_check_sig e n h = op_checksig-Frame c _ e n h
execute_opcode-Frame c Opcode.op_check_sig_verify e n h = op_checksig-Frame c _ e n h
execute_opcode-Frame c Opcode.op_check_multi_sig e n h = op_checkmultisig-Frame c _ e n h
execute_opcode-Frame c Opcode.op_check_multi_sig_verify e n h = op_checkmultisig-Frame c _ e n h
execute_opcode-Frame c (Opcode.disabled b) e n h = cc
execute_opcode-Frame c (Opcode.invalid b) e n h = cc
execute_opcode-Frame c _ e n h = on_stack-Frame _ e n h
