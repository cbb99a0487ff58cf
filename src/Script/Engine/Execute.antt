-- ===== src/Script/Engine/Execute.antt =====
-- script/engine.rs: `execute_opcode`, one opcode in a branch that executes.
use ironcat.Base.{ℕ, ◌∷◌, [], Bool, true, false, if◌then◌else◌, not, ◌&&◌, ◌||◌, some}
use ironcat.Base.Int.{pos, checked_add, checked_sub, eq_ℤ, ltb_ℤ, leb_ℤ}
use ironcat.Base.Result.{Result, ok, err, ◌>>=◌}
use ironcat.Network.Cursor.{from_le_bytes}
use ironcat.Types.Hash.{double_sha256}
use ironcat.Script.Error.{ScriptError, op_return_encountered, disabled_opcode, invalid_opcode}
use ironcat.Script.Number.{is_truthy}
use ironcat.Script.Opcode.{Opcode}
use ironcat.Script.Stack.{pop}
use ironcat.Script.Stack.Op
use ironcat.Script.Stack.Index
use ironcat.Script.Stack.Arithmetic
use ironcat.Script.Engine.{
  Crypto, Engine, read_bytes, push_data, op_else, op_endif, push_condition, on_stack,
}
use ironcat.Script.Engine.Signatures.{op_checksig, op_checkmultisig}

-- `OP_PUSHDATA1`, 2 and 4: a length of `n` bytes, and that many bytes.
unfoldable pub push_prefixed : ℕ → Engine → Result ScriptError Engine
push_prefixed n e = read_bytes n e >>= λ len. push_data (from_le_bytes len.0) len.1

unfoldable pub to_alt_stack : Engine → Result ScriptError Engine
to_alt_stack e = pop e.stack >>= λ p. ok (record e { stack = p.1; alt_stack = p.0 ∷ e.alt_stack })

unfoldable pub from_alt_stack : Engine → Result ScriptError Engine
from_alt_stack e = pop e.alt_stack >>= λ p. ok (record e { stack = p.0 ∷ e.stack; alt_stack = p.1 })

-- `OP_IF`, and `OP_NOTIF` where the condition is negated.
unfoldable pub begin_if : Bool → Engine → Result ScriptError Engine
begin_if negated e = pop e.stack >>= λ p. ok (
    push_condition (if negated then not (is_truthy p.0) else is_truthy p.0)
      (record e { stack = p.1 }))

unfoldable pub execute_opcode : Crypto → Opcode → Engine → Result ScriptError Engine
execute_opcode c Opcode.op_0 e = on_stack (Op.push []) e
execute_opcode c (Opcode.push_bytes n) e = push_data n e
execute_opcode c Opcode.push_data1 e = push_prefixed 1 e
execute_opcode c Opcode.push_data2 e = push_prefixed 2 e
execute_opcode c Opcode.push_data4 e = push_prefixed 4 e
execute_opcode c Opcode.op_1negate e = on_stack (Op.push (0x81 ∷ [])) e
execute_opcode c (Opcode.op_n n) e = on_stack (Op.push (n ∷ [])) e
execute_opcode c Opcode.op_dup e = on_stack Op.dup e
execute_opcode c Opcode.op_drop e = on_stack Op.drop_top e
execute_opcode c Opcode.op_swap e = on_stack Op.swap e
execute_opcode c Opcode.op_over e = on_stack Op.over e
execute_opcode c Opcode.op_rot e = on_stack Op.rot e
execute_opcode c Opcode.op_nip e = on_stack Op.nip e
execute_opcode c Opcode.op_tuck e = on_stack Op.tuck e
execute_opcode c Opcode.op_pick e = on_stack Index.pick e
execute_opcode c Opcode.op_roll e = on_stack Index.roll e
execute_opcode c Opcode.op_2dup e = on_stack Op.dup2 e
execute_opcode c Opcode.op_2drop e = on_stack Op.drop2 e
execute_opcode c Opcode.op_3dup e = on_stack Op.dup3 e
execute_opcode c Opcode.op_2over e = on_stack Op.over2 e
execute_opcode c Opcode.op_2rot e = on_stack Op.rot2 e
execute_opcode c Opcode.op_2swap e = on_stack Op.swap2 e
execute_opcode c Opcode.op_if_dup e = on_stack Op.if_dup e
execute_opcode c Opcode.op_depth e = on_stack Op.depth e
execute_opcode c Opcode.op_size e = on_stack Op.size e
execute_opcode c Opcode.op_to_alt_stack e = to_alt_stack e
execute_opcode c Opcode.op_from_alt_stack e = from_alt_stack e
execute_opcode c Opcode.op_equal e = on_stack Op.equal e
execute_opcode c Opcode.op_equal_verify e = on_stack Op.equal_verify e
execute_opcode c Opcode.op_if e = begin_if false e
execute_opcode c Opcode.op_not_if e = begin_if true e
execute_opcode c Opcode.op_else e = op_else e
execute_opcode c Opcode.op_end_if e = op_endif e
execute_opcode c (Opcode.op_nop n) e = ok e
execute_opcode c Opcode.op_check_lock_time_verify e = ok e
execute_opcode c Opcode.op_check_sequence_verify e = ok e
execute_opcode c Opcode.op_verify e = on_stack Op.verify e
execute_opcode c Opcode.op_return e = err op_return_encountered
execute_opcode c Opcode.op_1add e = on_stack (Arithmetic.unary (λ n. checked_add n (pos 1))) e
execute_opcode c Opcode.op_1sub e = on_stack (Arithmetic.unary (λ n. checked_sub n (pos 1))) e
execute_opcode c Opcode.op_negate e = on_stack (Arithmetic.unary Arithmetic.checked_neg) e
execute_opcode c Opcode.op_abs e = on_stack (Arithmetic.unary Arithmetic.checked_abs) e
execute_opcode c Opcode.op_not e =
    on_stack (Arithmetic.unary (λ n. some (Arithmetic.from_bool (Arithmetic.is_zero n)))) e
execute_opcode c Opcode.op_0not_equal e =
    on_stack (Arithmetic.unary (λ n. some (Arithmetic.from_bool (not (Arithmetic.is_zero n))))) e
execute_opcode c Opcode.op_add e = on_stack (Arithmetic.binary checked_add) e
execute_opcode c Opcode.op_sub e = on_stack (Arithmetic.binary checked_sub) e
execute_opcode c Opcode.op_bool_and e =
    on_stack (Arithmetic.test (λ a b. not (Arithmetic.is_zero a) && not (Arithmetic.is_zero b))) e
execute_opcode c Opcode.op_bool_or e =
    on_stack (Arithmetic.test (λ a b. not (Arithmetic.is_zero a) || not (Arithmetic.is_zero b))) e
execute_opcode c Opcode.op_num_equal e = on_stack (Arithmetic.test eq_ℤ) e
execute_opcode c Opcode.op_num_equal_verify e = on_stack Arithmetic.num_equal_verify e
execute_opcode c Opcode.op_num_not_equal e = on_stack (Arithmetic.test (λ a b. not (eq_ℤ a b))) e
execute_opcode c Opcode.op_less_than e = on_stack (Arithmetic.test ltb_ℤ) e
execute_opcode c Opcode.op_greater_than e = on_stack (Arithmetic.test (λ a b. ltb_ℤ b a)) e
execute_opcode c Opcode.op_less_than_or_equal e = on_stack (Arithmetic.test leb_ℤ) e
execute_opcode c Opcode.op_greater_than_or_equal e = on_stack (Arithmetic.test (λ a b. leb_ℤ b a)) e
execute_opcode c Opcode.op_min e =
    on_stack (Arithmetic.binary (λ a b. some (Arithmetic.min_ℤ a b))) e
execute_opcode c Opcode.op_max e =
    on_stack (Arithmetic.binary (λ a b. some (Arithmetic.max_ℤ a b))) e
execute_opcode c Opcode.op_within e = on_stack Arithmetic.within e
execute_opcode c Opcode.op_sha256 e = on_stack (Op.on_top c.sha.digest) e
execute_opcode c Opcode.op_hash256 e = on_stack (Op.on_top (double_sha256 c.sha)) e
execute_opcode c Opcode.op_hash160 e = on_stack (Op.on_top (λ d. c.ripemd160 (c.sha.digest d))) e
execute_opcode c Opcode.op_ripemd160 e = on_stack (Op.on_top c.ripemd160) e
execute_opcode c Opcode.op_sha1 e = on_stack (Op.on_top c.sha1) e
execute_opcode c Opcode.op_code_separator e = ok (record e { codesep_pos = e.pc })
execute_opcode c Opcode.op_check_sig e = op_checksig c false e
execute_opcode c Opcode.op_check_sig_verify e = op_checksig c true e
execute_opcode c Opcode.op_check_multi_sig e = op_checkmultisig c false e
execute_opcode c Opcode.op_check_multi_sig_verify e = op_checkmultisig c true e
execute_opcode c (Opcode.disabled b) e = err (disabled_opcode b)
execute_opcode c (Opcode.invalid b) e = err (invalid_opcode b)
