-- ===== src/Examples/Script.antt =====
-- Scripts run on concrete inputs.
use ironcat.Base.{◌≡◌, ◌↔◌, refl, [], ◌∷◌, ◌++◌, true, none, some, replicate, arith}
use ironcat.Base.Int.{negsuc}
use ironcat.Base.Result.{Result, ok}
use ironcat.Network.Cursor.{Bytes}
use ironcat.Types.Hash.{bytes_eq}
use ironcat.Script.Number.{is_truthy, encode_script_number, decode_script_number}
use ironcat.Script.Number.RoundTrip.{decode-encode}
use ironcat.Script.Opcode.{opcode_from, is_disabled}
use ironcat.Script.Error.{ScriptError}
use ironcat.Script.Stack.{usize_add, Stack}
use ironcat.Script.Ecdsa.{
  K256, verify_ecdsa, parse_der_lenient, der_scalars, read_der_len, read_der_integer,
  scalar_from_bytes, strip_zeros,
}
use ironcat.Script.SigHash.{find_and_delete, signature_hash, signature_message}
use ironcat.Script.Engine.{
  Crypto, SignatureContext, Engine, with_stack_and_sig_context, read_byte, push_data, on_stack,
  is_executing,
}
use ironcat.Script.Engine.Signatures.{op_checksig, check_sig, match_sigs}
use ironcat.Script.Engine.Execute.{execute_opcode}
use ironcat.Script.Engine.Run.{count_op, check_stack_size, run_opcode, step, run, execute}
use ironcat.Script.Engine.Multisig.{match_sigs_iff, InOrder}
use ironcat.Script.Engine.Bounds.{begin, after, Reached-IsBounded, IsBounded}
use ironcat.Script.Engine.Halts.{verify_script_halts}
use ironcat.Script.Verify.{
  require_truthy_top, is_p2sh, is_push_only, only_pushes, push_extent, run_redeem, verify_script,
  run_script,
}
use ironcat.Script.Verify.Spends.{hash160, p2sh_script, p2pkh_script}
use ironcat.Script.Verify.Accepted.{verify_script-p2sh, verify_script-p2pkh}
use ironcat.Examples.Data.{prefix_sha, spend}

-- Keys and signatures are all valid.
abbrev lenient : K256
lenient = record {
  Signature = Bytes;
  VerifyingKey = Bytes;
  from_scalars = λ r s. some (r ++ s);
  normalize_s = λ s. none;
  from_sec1_bytes = λ k. some k;
  verify_prehash = λ k h s. true;
}

abbrev pub crypto : Crypto
crypto = record {
  sha = prefix_sha;
  ripemd160 = λ b. replicate 20 7;
  sha1 = λ b. replicate 20 8;
  k256 = lenient;
}

abbrev context : SignatureContext
context = record { tx = spend; input_idx = 0 }

abbrev script_hash : Bytes
script_hash = replicate 20 7

-- A push of a redeem script that is a push itself.
abbrev redeem_sig : Bytes
redeem_sig = 0x01 ∷ 0x51 ∷ []

p2sh_accepted : verify_script crypto redeem_sig (p2sh_script script_hash) spend 0 ≡ some (ok tt)
unfolding verify_script execute run step read_byte usize_add opcode_from is_disabled count_op
    run_opcode is_executing execute_opcode push_data on_stack check_stack_size require_truthy_top
    is_truthy is_p2sh is_push_only only_pushes push_extent run_redeem
p2sh_accepted = refl

decode-encode_example : decode_script_number (encode_script_number (negsuc 254)) ≡ ok (negsuc 254)
decode-encode_example = decode-encode (negsuc 254) (omega arith)

abbrev first_state : Engine
first_state = with_stack_and_sig_context (0x51 ∷ []) [] context

abbrev last_state : Engine
last_state = record first_state { pc = 1; stack = (1 ∷ []) ∷ [] }

one_step : step crypto first_state ≡ ok last_state
unfolding step read_byte usize_add opcode_from is_disabled count_op run_opcode is_executing
    execute_opcode on_stack check_stack_size
one_step = refl

Reached-IsBounded_example : IsBounded last_state
Reached-IsBounded_example =
    Reached-IsBounded crypto (0x51 ∷ []) [] context last_state (omega arith)
      (after first_state last_state begin one_step)

verify_script_halts_example :
    (r : Result ScriptError (Unit {0})) × (verify_script crypto redeem_sig
        (p2sh_script script_hash)
        spend
        0
      ≡ some r)
verify_script_halts_example =
    verify_script_halts crypto redeem_sig (p2sh_script script_hash) spend 0

verify_script-p2sh_example :
    (redeem : Bytes) × (rest s : Stack) × (run_script crypto redeem_sig [] context
      ≡ some (ok (redeem ∷ rest)))
    × (hash160 crypto redeem ≡ script_hash)
    × (is_push_only redeem_sig ≡ true)
    × (run_script crypto redeem rest context ≡ some (ok s))
    × (require_truthy_top s ≡ ok tt)
verify_script-p2sh_example =
    verify_script-p2sh crypto script_hash refl redeem_sig spend 0 p2sh_accepted

-- R and S are 1, and the byte behind them says that everything is signed.
abbrev signature : Bytes
signature = 0x30 ∷ 0x06 ∷ 0x02 ∷ 0x01 ∷ 0x01 ∷ 0x02 ∷ 0x01 ∷ 0x01 ∷ 0x01 ∷ []

abbrev key_sig : Bytes
key_sig = 0x09 ∷ (signature ++ (0x01 ∷ 0x02 ∷ []))

p2pkh_accepted : verify_script crypto key_sig (p2pkh_script script_hash) spend 0 ≡ some (ok tt)
unfolding verify_script execute run step read_byte usize_add opcode_from is_disabled count_op
    run_opcode is_executing execute_opcode push_data on_stack check_stack_size require_truthy_top
    is_truthy is_p2sh op_checksig check_sig verify_ecdsa parse_der_lenient der_scalars read_der_len
    read_der_integer scalar_from_bytes strip_zeros signature_hash signature_message
p2pkh_accepted = refl

verify_script-p2pkh_example :
    (pubkey sig : Bytes) × (rest : Stack) × (run_script crypto key_sig [] context
      ≡ some (ok (pubkey ∷ sig ∷ rest)))
    × (hash160 crypto pubkey ≡ script_hash)
    × (check_sig crypto context (find_and_delete (p2pkh_script script_hash) sig) sig pubkey ≡ true)
verify_script-p2pkh_example =
    verify_script-p2pkh crypto script_hash refl key_sig spend 0 p2pkh_accepted

match_sigs_iff_example :
    (match_sigs bytes_eq ((1 ∷ []) ∷ (3 ∷ []) ∷ []) ((1 ∷ []) ∷ (2 ∷ []) ∷ (3 ∷ []) ∷ []) ≡ true)
    ↔ InOrder bytes_eq ((1 ∷ []) ∷ (3 ∷ []) ∷ []) ((1 ∷ []) ∷ (2 ∷ []) ∷ (3 ∷ []) ∷ [])
match_sigs_iff_example =
    match_sigs_iff bytes_eq ((1 ∷ []) ∷ (3 ∷ []) ∷ []) ((1 ∷ []) ∷ (2 ∷ []) ∷ (3 ∷ []) ∷ [])
