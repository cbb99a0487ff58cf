-- ===== src/Script/Error.antt =====
-- script/mod.rs: how a script fails.
use ironcat.Base.{ℕ}

pub data ScriptError : Type 0 where
  invalid_opcode disabled_opcode : ℕ → ScriptError
  stack_underflow stack_overflow script_too_large too_many_ops : ScriptError
  invalid_push_size equal_verify_failed check_sig_failed check_multi_sig_failed : ScriptError
  invalid_signature_encoding invalid_pub_key negative_locktime unsatisfied_locktime : ScriptError
  unbalanced_conditional false_returned op_return_encountered invalid_redeem_script : ScriptError
  numeric_overflow multisig_key_count multisig_sig_count invalid_stack_index : ScriptError
