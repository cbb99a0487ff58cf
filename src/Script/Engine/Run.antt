-- ===== src/Script/Engine/Run.antt =====
-- script/engine.rs: `execute`, the loop over the opcodes of a script. It takes fuel, and says `none`
-- where the fuel does not last.
use ironcat.Base.{
  ℕ, zero, suc, Bool, true, false, not, Option, none, some, leb, ltb, length, if◌then◌else◌,
}
use ironcat.Base.Result.{Result, ok, err, ◌>>=◌, ◌>>◌, ensure}
use ironcat.Network.Cursor.{from_le_bytes}
use ironcat.Script.Error.{
  ScriptError, stack_overflow, too_many_ops, script_too_large, unbalanced_conditional,
  disabled_opcode,
}
use ironcat.Script.Opcode.{Opcode, opcode_from, is_disabled}
use ironcat.Script.Stack.{Stack, usize_add}
use ironcat.Script.Engine.{
  Crypto, Engine, max_ops, max_stack_size, max_script_size, read_byte, read_bytes, skip_bytes,
  is_executing, op_else, op_endif, push_condition,
}
use ironcat.Script.Engine.Signatures.{is_empty}
use ironcat.Script.Engine.Execute.{execute_opcode}

abbrev pub is_push : Opcode → Bool
is_push Opcode.op_0 = true
is_push (Opcode.push_bytes n) = true
is_push Opcode.push_data1 = true
is_push Opcode.push_data2 = true
is_push Opcode.push_data4 = true
is_push Opcode.op_1negate = true
is_push (Opcode.op_n n) = true
is_push _ = false

-- Only pushes are not counted, whether the branch executes or not.
unfoldable pub count_op : Opcode → Engine → Result ScriptError Engine
count_op op e =
    if is_push op
    then ok e
    else (usize_add e.op_count 1 too_many_ops >>= λ n.
        ensure (leb n max_ops) too_many_ops >> ok (record e { op_count = n }))

unfoldable pub skip_prefixed : ℕ → Engine → Result ScriptError Engine
skip_prefixed n e = read_bytes n e >>= λ len. skip_bytes (from_le_bytes len.0) len.1

-- One opcode in a branch that does not execute.
unfoldable pub skip_opcode : Opcode → Engine → Result ScriptError Engine
skip_opcode Opcode.op_if e = ok (push_condition false e)
skip_opcode Opcode.op_not_if e = ok (push_condition false e)
skip_opcode Opcode.op_else e = op_else e
skip_opcode Opcode.op_end_if e = op_endif e
skip_opcode (Opcode.push_bytes n) e = skip_bytes n e
skip_opcode Opcode.push_data1 e = skip_prefixed 1 e
skip_opcode Opcode.push_data2 e = skip_prefixed 2 e
skip_opcode Opcode.push_data4 e = skip_prefixed 4 e
skip_opcode _ e = ok e

unfoldable pub check_stack_size : Engine → Result ScriptError Engine
check_stack_size e = usize_add (length e.stack) (length e.alt_stack) stack_overflow >>= λ total.
    ensure (leb total max_stack_size) stack_overflow >> ok e

unfoldable pub run_opcode : Crypto → Opcode → Engine → Result ScriptError Engine
run_opcode c op e =
    if is_executing e then (execute_opcode c op e >>= check_stack_size) else skip_opcode op e

-- One round of the loop.
unfoldable pub step : Crypto → Engine → Result ScriptError Engine
step c e = read_byte e >>= λ p.
    ensure (not (is_disabled (opcode_from p.0))) (disabled_opcode p.0)
    >> count_op (opcode_from p.0) p.1
    >>= λ counted. run_opcode c (opcode_from p.0) counted

abbrev pub proceed :
    Result ScriptError Engine
    → (Engine → Option (Result ScriptError Engine))
    → Option (Result ScriptError Engine)
proceed (ok e) next = next e
proceed (err x) next = some (err x)

unfoldable pub run : Crypto → ℕ → Engine → Option (Result ScriptError Engine)
run c zero e = if ltb e.pc (length e.script) then none else some (ok e)
run c (suc fuel) e =
    if ltb e.pc (length e.script) then proceed (step c e) (run c fuel) else some (ok e)

abbrev pub final_stack : Result ScriptError Engine → Result ScriptError Stack
final_stack r = r >>= λ e. ensure (is_empty e.conditions) unbalanced_conditional >> ok e.stack

abbrev pub map_some {ℓ κ} : {A : Type ℓ} {B : Type κ} → (A → B) → Option A → Option B
map_some f none = none
map_some f (some a) = some (f a)

-- An opcode takes a byte at least, so the length of the script is fuel enough.
unfoldable pub execute : Crypto → Engine → Option (Result ScriptError Stack)
execute c e =
    if ltb max_script_size (length e.script)
    then some (err script_too_large)
    else map_some final_stack (run c (length e.script) e)
