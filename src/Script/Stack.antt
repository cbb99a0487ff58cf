-- ===== src/Script/Stack.antt =====
-- script/engine.rs: the opcodes that only use the main stack. A stack is the list of its elements,
-- the top one first.
pub mod Op
pub mod Index
pub mod Arithmetic
use ironcat.Base.{ℕ, ◌+◌, ◌^◌, List, [], ◌∷◌, leb, ltb, if◌then◌else◌, length}
use ironcat.Base.Result.{Result, ok, err, ensure}
use ironcat.Network.Cursor.{Bytes}
use ironcat.Script.Error.{ScriptError, stack_underflow}

abbrev pub Stack : Type 0
Stack = List Bytes

-- `checked_add` on usize, of 64 bits.
unfoldable pub usize_add : ℕ → ℕ → ScriptError → Result ScriptError ℕ
usize_add a b e = if ltb (a + b) (2 ^ 64) then ok (a + b) else err e

abbrev pub require_stack : Stack → ℕ → Result ScriptError (Unit {0})
require_stack s n = ensure (leb n (length s)) stack_underflow

abbrev pub pop : Stack → Result ScriptError (Bytes × Stack)
pop [] = err stack_underflow
pop (a ∷ s) = ok (a, s)
