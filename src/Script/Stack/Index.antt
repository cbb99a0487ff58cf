-- ===== src/Script/Stack/Index.antt =====
-- script/engine.rs: `pop_index`, and the opcodes that take an index from the stack.
use ironcat.Base.{ℕ, ◌+◌, [], ◌∷◌, ◌++◌, take, drop, get_or}
use ironcat.Base.Int.{ℤ, pos, negsuc}
use ironcat.Base.Result.{Result, ok, err, ◌>>=◌, ◌>>◌}
use ironcat.Script.Error.{ScriptError, invalid_stack_index}
use ironcat.Script.Number.{decode_script_number}
use ironcat.Script.Stack.{Stack, pop, usize_add, require_stack}

abbrev pub to_index : Result ScriptError ℤ → Result ScriptError ℕ
to_index (ok (pos n)) = ok n
to_index (ok (negsuc n)) = err invalid_stack_index
to_index (err e) = err invalid_stack_index

abbrev pub pop_index : Stack → Result ScriptError (ℕ × Stack)
pop_index s = pop s >>= λ v. to_index (decode_script_number v.0) >>= λ n. ok (n, v.1)

-- The index with the stack below it, which is deep enough.
abbrev pub pop_in_range : Stack → Result ScriptError (ℕ × Stack)
pop_in_range s = pop_index s >>= λ p.
    usize_add p.0 1 invalid_stack_index >>= λ needed. require_stack p.1 needed >> ok p

abbrev pub pick : Stack → Result ScriptError Stack
pick s = pop_in_range s >>= λ p. ok (get_or p.1 p.0 [] ∷ p.1)

abbrev pub roll : Stack → Result ScriptError Stack
roll s = pop_in_range s >>= λ p. ok (get_or p.1 p.0 [] ∷ (take p.0 p.1 ++ drop (p.0 + 1) p.1))
