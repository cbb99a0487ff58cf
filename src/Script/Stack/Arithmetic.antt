-- ===== src/Script/Stack/Arithmetic.antt =====
-- script/engine.rs: the opcodes on script numbers.
use ironcat.Base.{◌∷◌, Bool, ◌&&◌, Option, some, if◌then◌else◌}
use ironcat.Base.Int.{ℤ, pos, negsuc, checked_sub, eq_ℤ, ltb_ℤ, leb_ℤ}
use ironcat.Base.Result.{Result, ok, err, ◌>>=◌, ok_or}
use ironcat.Script.Error.{ScriptError, numeric_overflow, false_returned}
use ironcat.Script.Number.{encode_script_number, decode_script_number}
use ironcat.Script.Stack.{Stack, pop}

abbrev pub pop_number : Stack → Result ScriptError (ℤ × Stack)
pop_number s = pop s >>= λ v. decode_script_number v.0 >>= λ n. ok (n, v.1)

abbrev pub pop_two_numbers : Stack → Result ScriptError (ℤ × ℤ × Stack)
pop_two_numbers s = pop_number s >>= λ b. pop_number b.1 >>= λ a. ok (a.0, b.0, a.1)

abbrev pub push_number : ℤ → Stack → Stack
push_number n s = encode_script_number n ∷ s

abbrev pub from_bool : Bool → ℤ
from_bool b = if b then pos 1 else pos 0

abbrev pub is_zero : ℤ → Bool
is_zero n = eq_ℤ n (pos 0)

-- The arms that pop one number, or two, and push one.
abbrev pub unary : (ℤ → Option ℤ) → Stack → Result ScriptError Stack
unary f s = pop_number s >>= λ p. ok_or (f p.0) numeric_overflow >>= λ n. ok (push_number n p.1)

abbrev pub binary : (ℤ → ℤ → Option ℤ) → Stack → Result ScriptError Stack
binary f s =
    pop_two_numbers s >>= λ p. ok_or (f p.0 p.1) numeric_overflow >>= λ n. ok (push_number n p.2)

abbrev pub test : (ℤ → ℤ → Bool) → Stack → Result ScriptError Stack
test f = binary (λ a b. some (from_bool (f a b)))

abbrev pub checked_neg : ℤ → Option ℤ
checked_neg n = checked_sub (pos 0) n

abbrev pub checked_abs : ℤ → Option ℤ
checked_abs (pos n) = some (pos n)
checked_abs (negsuc n) = checked_neg (negsuc n)

abbrev pub min_ℤ : ℤ → ℤ → ℤ
min_ℤ a b = if leb_ℤ a b then a else b

abbrev pub max_ℤ : ℤ → ℤ → ℤ
max_ℤ a b = if leb_ℤ a b then b else a

abbrev pub num_equal_verify : Stack → Result ScriptError Stack
num_equal_verify s = pop_two_numbers s >>= λ p. if eq_ℤ p.0 p.1 then ok p.2 else err false_returned

abbrev pub within : Stack → Result ScriptError Stack
within s = pop_number s >>= λ high. pop_number high.1 >>= λ low.
    pop_number low.1 >>= λ x. ok (push_number (from_bool (leb_ℤ low.0 x.0 && ltb_ℤ x.0 high.0)) x.1)
