-- ===== src/Script/Stack/Op.antt =====
-- script/engine.rs: the opcodes that move, compare and test elements of the main stack.
use ironcat.Base.{[], ◌∷◌, Bool, if◌then◌else◌, length}
use ironcat.Base.Int.{pos}
use ironcat.Base.Result.{Result, ok, err}
use ironcat.Network.Cursor.{Bytes}
use ironcat.Types.Hash.{bytes_eq}
use ironcat.Script.Error.{ScriptError, stack_underflow, false_returned, equal_verify_failed}
use ironcat.Script.Number.{is_truthy, encode_script_number}
use ironcat.Script.Stack.{Stack}

abbrev pub dup : Stack → Result ScriptError Stack
dup [] = err stack_underflow
dup (a ∷ s) = ok (a ∷ a ∷ s)

abbrev pub drop_top : Stack → Result ScriptError Stack
drop_top [] = err stack_underflow
drop_top (a ∷ s) = ok s

abbrev pub swap : Stack → Result ScriptError Stack
swap (b ∷ a ∷ s) = ok (a ∷ b ∷ s)
swap _ = err stack_underflow

abbrev pub over : Stack → Result ScriptError Stack
over (b ∷ a ∷ s) = ok (a ∷ b ∷ a ∷ s)
over _ = err stack_underflow

abbrev pub rot : Stack → Result ScriptError Stack
rot (c ∷ b ∷ a ∷ s) = ok (a ∷ c ∷ b ∷ s)
rot _ = err stack_underflow

abbrev pub nip : Stack → Result ScriptError Stack
nip (b ∷ a ∷ s) = ok (b ∷ s)
nip _ = err stack_underflow

abbrev pub tuck : Stack → Result ScriptError Stack
tuck (b ∷ a ∷ s) = ok (b ∷ a ∷ b ∷ s)
tuck _ = err stack_underflow

abbrev pub dup2 : Stack → Result ScriptError Stack
dup2 (b ∷ a ∷ s) = ok (b ∷ a ∷ b ∷ a ∷ s)
dup2 _ = err stack_underflow

abbrev pub drop2 : Stack → Result ScriptError Stack
drop2 (b ∷ a ∷ s) = ok s
drop2 _ = err stack_underflow

abbrev pub dup3 : Stack → Result ScriptError Stack
dup3 (c ∷ b ∷ a ∷ s) = ok (c ∷ b ∷ a ∷ c ∷ b ∷ a ∷ s)
dup3 _ = err stack_underflow

abbrev pub over2 : Stack → Result ScriptError Stack
over2 (d ∷ c ∷ b ∷ a ∷ s) = ok (b ∷ a ∷ d ∷ c ∷ b ∷ a ∷ s)
over2 _ = err stack_underflow

abbrev pub rot2 : Stack → Result ScriptError Stack
rot2 (f ∷ e ∷ d ∷ c ∷ b ∷ a ∷ s) = ok (b ∷ a ∷ f ∷ e ∷ d ∷ c ∷ s)
rot2 _ = err stack_underflow

abbrev pub swap2 : Stack → Result ScriptError Stack
swap2 (d ∷ c ∷ b ∷ a ∷ s) = ok (b ∷ a ∷ d ∷ c ∷ s)
swap2 _ = err stack_underflow

abbrev pub if_dup : Stack → Result ScriptError Stack
if_dup [] = err stack_underflow
if_dup (a ∷ s) = ok (if is_truthy a then a ∷ a ∷ s else a ∷ s)

abbrev pub depth : Stack → Result ScriptError Stack
depth s = ok (encode_script_number (pos (length s)) ∷ s)

abbrev pub size : Stack → Result ScriptError Stack
size [] = err stack_underflow
size (a ∷ s) = ok (encode_script_number (pos (length a)) ∷ a ∷ s)

abbrev pub boolean : Bool → Bytes
boolean b = if b then 0x01 ∷ [] else []

abbrev pub equal : Stack → Result ScriptError Stack
equal (b ∷ a ∷ s) = ok (boolean (bytes_eq a b) ∷ s)
equal _ = err stack_underflow

abbrev pub equal_verify : Stack → Result ScriptError Stack
equal_verify (b ∷ a ∷ s) = if bytes_eq a b then ok s else err equal_verify_failed
equal_verify _ = err stack_underflow

abbrev pub verify : Stack → Result ScriptError Stack
verify [] = err stack_underflow
verify (a ∷ s) = if is_truthy a then ok s else err false_returned

-- Replaces the top element, as the hash opcodes do.
abbrev pub on_top : (Bytes → Bytes) → Stack → Result ScriptError Stack
on_top f [] = err stack_underflow
on_top f (a ∷ s) = ok (f a ∷ s)

abbrev pub push : Bytes → Stack → Result ScriptError Stack
push a s = ok (a ∷ s)
