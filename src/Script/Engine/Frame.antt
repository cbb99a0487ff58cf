-- ===== src/Script/Engine/Frame.antt =====
-- script/engine.rs: what every opcode keeps of the state.
pub mod Opcodes
use ironcat.Base.{
  ℕ, zero, suc, ◌+◌, ◌≤◌, ◌<◌, ◌≡◌, refl, sym, ap, ◌∙◌, List, [], ◌∷◌, Bool, true, false, Option,
  none, some, leb, ltb, leb→le, length, arith, tests, get_elem?, take, drop,
}
use ironcat.Base.Result.{
  Result, ok, err, ◌>>=◌, ◌>>◌, ensure, >>=-eq-ok, ensure_then, ok-injective, ok_or-eq-ok, ok_or,
}
use ironcat.Network.Cursor.{Bytes, from_le_bytes}
use ironcat.Script.Error.{ScriptError, invalid_push_size, script_too_large}
use ironcat.Script.Opcode
use ironcat.Script.Opcode.{Opcode}
use ironcat.Script.Stack.{Stack, usize_add}
use ironcat.Script.Engine.{
  Crypto, Engine, SignatureContext, read_byte, read_bytes, push_data, skip_bytes, flip_last,
  drop_last, op_else, op_endif, push_condition, on_stack, max_ops, max_push_size,
}
use ironcat.Script.Engine.Signatures.{op_checksig, op_checkmultisig}
use ironcat.Script.Engine.Execute.{
  push_prefixed, to_alt_stack, from_alt_stack, begin_if, execute_opcode,
}

-- The script and the signature context stay, and the three positions keep their bounds.
pub record Frame (e n : Engine) : Type 0 where
  pub script_eq : n.script ≡ e.script
  pub ctx_eq : n.sig_ctx ≡ e.sig_ctx
  pub pc_le : e.pc ≤ n.pc
  pub in_script : e.pc ≤ length e.script → n.pc ≤ length n.script
  pub codesep_le : e.codesep_pos ≤ e.pc → n.codesep_pos ≤ n.pc
  pub ops_le : e.op_count ≤ max_ops → n.op_count ≤ max_ops

pub Frame-refl : (e : Engine) → Frame e e
Frame-refl e = record {
  script_eq = refl;
  ctx_eq = refl;
  pc_le = omega arith;
  in_script = λ h. h;
  codesep_le = λ h. h;
  ops_le = λ h. h;
}

pub Frame-trans : (a b c : Engine) → Frame a b → Frame b c → Frame a c
Frame-trans a b c p q = record {
  script_eq = q.script_eq ∙ p.script_eq;
  ctx_eq = q.ctx_eq ∙ p.ctx_eq;
  pc_le = omega (arith, p.pc_le, q.pc_le);
  in_script = λ h. q.in_script (p.in_script h);
  codesep_le = λ h. q.codesep_le (p.codesep_le h);
  ops_le = λ h. q.ops_le (p.ops_le h);
}

pub usize_add-eq-ok : (a b : ℕ) (x : ScriptError) (n : ℕ) → usize_add a b x ≡ ok n → n ≡ a + b
unfolding usize_add
usize_add-eq-ok a b x n h = ground arith

pub get_elem?_lt {ℓ} :
    {A : Type ℓ} (xs : List A) (i : ℕ) (a : A) → get_elem? xs i ≡ some a → i < length xs
get_elem?_lt [] i a h = cc
get_elem?_lt (x ∷ xs) zero a h = omega arith
get_elem?_lt (x ∷ xs) (suc i) a h = omega (arith, get_elem?_lt xs i a h)

-- A byte is read inside the script, and the position is one further.
pub read_byte-eq-ok :
    (e : Engine) (p : ℕ × Engine)
    → read_byte e ≡ ok p
    → (e.pc < length e.script)
      × (p.1 ≡ record e { pc = e.pc + 1 })
      × (get_elem? e.script e.pc ≡ some p.0)
unfolding read_byte
read_byte-eq-ok e p h =
    let (b, found, h1) = >>=-eq-ok (ok_or _ invalid_push_size) _ h in
    let found = ok_or-eq-ok _ _ found in
    let (next, sum, h2) = >>=-eq-ok (usize_add e.pc 1 script_too_large) _ h1 in
    (
      get_elem?_lt _ _ _ (found ∙ ap (λ q. some q.0) (ok-injective h2)),
      sym (ap (λ q. q.1) (ok-injective h2))
          ∙ ap (λ m. record e { pc = m }) (usize_add-eq-ok _ _ _ _ sum),
      found ∙ ap (λ q. some q.0) (ok-injective h2),
    )

-- The frame of a state in which only the position moved, forward and not beyond the end.
pub moved :
    (e : Engine) (p : ℕ) (s : Stack)
    → e.pc ≤ p
    → p ≤ length e.script
    → Frame e (record e { pc = p; stack = s })
moved e p s le inside = record {
  script_eq = refl;
  ctx_eq = refl;
  pc_le = le;
  in_script = λ h. inside;
  codesep_le = λ h. omega (arith, h, le);
  ops_le = λ h. h;
}

pub read_byte-Frame : (e : Engine) (p : ℕ × Engine) → read_byte e ≡ ok p → Frame e p.1
read_byte-Frame e p h =
    let (lt, same, _) = read_byte-eq-ok e p h in
    rw same (moved e (e.pc + 1) e.stack (omega arith) (omega (arith, lt)))

pub read_bytes-Frame :
    (n : ℕ) (e : Engine) (p : Bytes × Engine) → read_bytes n e ≡ ok p → Frame e p.1
unfolding read_bytes
read_bytes-Frame zero e p h = rw (← ok-injective h) (Frame-refl e)
read_bytes-Frame (suc n) e p h =
    let (first, h1, k1) = >>=-eq-ok (read_byte e) _ h in
    let (rest, h2, k2) = >>=-eq-ok (read_bytes n first.1) _ k1 in
    rw (← ok-injective k2)
      (Frame-trans _ _ _ (read_byte-Frame e first h1) (read_bytes-Frame n first.1 rest h2))

pub push_data-Frame : (len : ℕ) (e n : Engine) → push_data len e ≡ ok n → Frame e n
unfolding push_data
push_data-Frame len e n h =
    let (end, h1, k1) =
      >>=-eq-ok
        (ensure (leb len max_push_size) invalid_push_size >> usize_add e.pc len invalid_push_size) _
        h in
    let (_, sum) = ensure_then (leb len max_push_size) invalid_push_size _ h1 in
    let (inside, k2) = ensure_then (leb end (length e.script)) invalid_push_size _ k1 in
    let end_is = usize_add-eq-ok _ _ _ _ sum in
    rw (← ok-injective k2) (moved e end _ (omega (arith, end_is)) (leb→le _ _ inside))

pub skip_bytes-Frame : (len : ℕ) (e n : Engine) → skip_bytes len e ≡ ok n → Frame e n
unfolding skip_bytes
skip_bytes-Frame len e n h =
    let (end, sum, k1) = >>=-eq-ok (usize_add e.pc len invalid_push_size) _ h in
    let (inside, k2) = ensure_then (leb end (length e.script)) invalid_push_size _ k1 in
    let end_is = usize_add-eq-ok _ _ _ _ sum in
    rw (← ok-injective k2) (moved e end e.stack (omega (arith, end_is)) (leb→le _ _ inside))

-- A length, and a use of that length.
pub prefixed-Frame :
    (use_length : ℕ → Engine → Result ScriptError Engine) (k : ℕ)
    → ((len : ℕ) (e n : Engine) → use_length len e ≡ ok n → Frame e n)
    → (e n : Engine) → (read_bytes k e >>= λ len. use_length (from_le_bytes len.0) len.1) ≡ ok n
    → Frame e n
prefixed-Frame use_length k frame e n h =
    let (len, h1, k1) = >>=-eq-ok (read_bytes k e) _ h in
    Frame-trans _ _ _ (read_bytes-Frame k e len h1) (frame _ _ _ k1)

-- The frame of a state in which only the stacks and the conditions changed.
pub restacked :
    (e : Engine) (s t : Stack) (cs : List Bool)
    → Frame e (record e { stack = s; alt_stack = t; conditions = cs })
restacked e s t cs = record {
  script_eq = refl;
  ctx_eq = refl;
  pc_le = omega arith;
  in_script = λ h. h;
  codesep_le = λ h. h;
  ops_le = λ h. h;
}

pub on_stack-Frame :
    (f : Stack → Result ScriptError Stack) (e n : Engine) → on_stack f e ≡ ok n → Frame e n
unfolding on_stack
on_stack-Frame f e n h =
    let (s, _, k) = >>=-eq-ok (f e.stack) _ h in
    rw (← ok-injective k) (restacked e s e.alt_stack e.conditions)

pub op_else-Frame : (e n : Engine) → op_else e ≡ ok n → Frame e n
unfolding op_else
op_else-Frame e n h =
    let (cs, _, k) = >>=-eq-ok (flip_last e.conditions) _ h in
    rw (← ok-injective k) (restacked e e.stack e.alt_stack cs)

pub op_endif-Frame : (e n : Engine) → op_endif e ≡ ok n → Frame e n
unfolding op_endif
op_endif-Frame e n h =
    let (cs, _, k) = >>=-eq-ok (drop_last e.conditions) _ h in
    rw (← ok-injective k) (restacked e e.stack e.alt_stack cs)

pub push_condition-Frame : (c : Bool) (e : Engine) → Frame e (push_condition c e)
push_condition-Frame c e = restacked e e.stack e.alt_stack (c ∷ e.conditions)
