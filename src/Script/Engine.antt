-- ===== src/Script/Engine.antt =====
-- script/engine.rs: the state of the interpreter, and the helpers that its opcodes share. An error
-- ends the run, so an operation that fails returns no state.
pub mod Signatures
pub mod Multisig
pub mod Execute
pub mod Run
pub mod Frame
pub mod Bounds
pub mod Halts
pub mod Inversion
use ironcat.Base.{
  ℕ, zero, suc, ◌+◌, List, [], ◌∷◌, Bool, true, false, not, ◌&&◌, none, some, leb, length, take,
  drop, get_elem?, Option, if◌then◌else◌,
}
use ironcat.Base.Result.{Result, ok, err, ◌>>=◌, ◌>>◌, ensure, ok_or}
use ironcat.Network.Cursor.{Bytes, from_le_bytes}
use ironcat.Types.Hash.{Sha256}
use ironcat.Types.Transaction.{Transaction}
use ironcat.Script.Error.{ScriptError, invalid_push_size, script_too_large, unbalanced_conditional}
use ironcat.Script.Stack.{Stack, usize_add}
use ironcat.Script.Ecdsa.{K256}

abbrev pub max_script_size : ℕ
max_script_size = 10000

abbrev pub max_ops : ℕ
max_ops = 201

abbrev pub max_stack_size : ℕ
max_stack_size = 1000

abbrev pub max_push_size : ℕ
max_push_size = 520

-- The crates that the opcodes call.
pub record Crypto : Type 1 where
  pub sha : Sha256
  pub ripemd160 : Bytes → Bytes
  pub sha1 : Bytes → Bytes
  pub k256 : K256

pub record SignatureContext : Type 0 where
  pub tx : Transaction
  pub input_idx : ℕ

-- The last entries of the two stacks and of the conditions stand first.
pub record Engine : Type 0 where
  pub stack : Stack
  pub alt_stack : Stack
  pub script : Bytes
  pub pc : ℕ
  pub op_count : ℕ
  pub conditions : List Bool
  pub codesep_pos : ℕ
  pub sig_ctx : Option SignatureContext

-- `Engine::with_stack_and_sig_context`; `with_sig_context` is this at the empty stack.
abbrev pub with_stack_and_sig_context : Bytes → Stack → SignatureContext → Engine
with_stack_and_sig_context s initial ctx = record {
  stack = initial;
  alt_stack = [];
  script = s;
  pc = 0;
  op_count = 0;
  conditions = [];
  codesep_pos = 0;
  sig_ctx = some ctx;
}

unfoldable pub read_byte : Engine → Result ScriptError (ℕ × Engine)
read_byte e = ok_or (get_elem? e.script e.pc) invalid_push_size >>= λ b.
    usize_add e.pc 1 script_too_large >>= λ next. ok (b, record e { pc = next })

-- The bytes of a length, the least significant first.
unfoldable pub read_bytes : ℕ → Engine → Result ScriptError (Bytes × Engine)
read_bytes zero e = ok ([], e)
read_bytes (suc n) e =
    read_byte e >>= λ first. read_bytes n first.1 >>= λ rest. ok (first.0 ∷ rest.0, rest.1)

unfoldable pub push_data : ℕ → Engine → Result ScriptError Engine
push_data len e =
    ensure (leb len max_push_size) invalid_push_size
    >> usize_add e.pc len invalid_push_size
    >>= λ end.
        ensure (leb end (length e.script)) invalid_push_size
        >> ok (record e { pc = end; stack = take len (drop e.pc e.script) ∷ e.stack })

unfoldable pub skip_bytes : ℕ → Engine → Result ScriptError Engine
skip_bytes n e = usize_add e.pc n invalid_push_size >>= λ next.
    ensure (leb next (length e.script)) invalid_push_size >> ok (record e { pc = next })

abbrev pub all_true : List Bool → Bool
all_true [] = true
all_true (c ∷ cs) = c && all_true cs

unfoldable pub is_executing : Engine → Bool
is_executing e = all_true e.conditions

abbrev pub flip_last : List Bool → Result ScriptError (List Bool)
flip_last [] = err unbalanced_conditional
flip_last (c ∷ cs) = ok (not c ∷ cs)

abbrev pub drop_last : List Bool → Result ScriptError (List Bool)
drop_last [] = err unbalanced_conditional
drop_last (c ∷ cs) = ok cs

unfoldable pub op_else : Engine → Result ScriptError Engine
op_else e = flip_last e.conditions >>= λ cs. ok (record e { conditions = cs })

unfoldable pub op_endif : Engine → Result ScriptError Engine
op_endif e = drop_last e.conditions >>= λ cs. ok (record e { conditions = cs })

abbrev pub push_condition : Bool → Engine → Engine
push_condition c e = record e { conditions = c ∷ e.conditions }

-- An opcode that only uses the main stack.
unfoldable pub on_stack : (Stack → Result ScriptError Stack) → Engine → Result ScriptError Engine
on_stack f e = f e.stack >>= λ s. ok (record e { stack = s })
