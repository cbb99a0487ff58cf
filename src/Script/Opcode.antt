-- ===== src/Script/Opcode.antt =====
-- script/opcodes.rs: the opcodes and the bytes that stand for them.
use ironcat.Base.{ℕ, ◌-◌, List, [], ◌∷◌, Bool, true, false, leb, if◌then◌else◌, get_or}

pub data Opcode : Type 0 where
  op_0 push_data1 push_data2 push_data4 op_1negate op_if op_not_if op_else op_end_if : Opcode
  op_verify op_return op_to_alt_stack op_from_alt_stack op_2drop op_2dup op_3dup : Opcode
  op_2over op_2rot op_2swap op_if_dup op_depth op_drop op_dup op_nip op_over op_pick : Opcode
  op_roll op_rot op_swap op_tuck op_size op_equal op_equal_verify op_1add op_1sub : Opcode
  op_negate op_abs op_not op_0not_equal op_add op_sub op_bool_and op_bool_or : Opcode
  op_num_equal op_num_equal_verify op_num_not_equal op_less_than op_greater_than : Opcode
  op_less_than_or_equal op_greater_than_or_equal op_min op_max op_within op_ripemd160 : Opcode
  op_sha1 op_sha256 op_hash160 op_hash256 op_code_separator op_check_sig : Opcode
  op_check_sig_verify op_check_multi_sig op_check_multi_sig_verify : Opcode
  op_check_lock_time_verify op_check_sequence_verify : Opcode
  push_bytes op_n op_nop disabled invalid : ℕ → Opcode

-- The opcodes of the bytes 0x61 to 0xb9.
abbrev pub operators : List Opcode
operators =
    op_nop 0
    ∷ invalid 0x62
    ∷ op_if
    ∷ op_not_if
    ∷ invalid 0x65
    ∷ invalid 0x66
    ∷ op_else
    ∷ op_end_if
    ∷ op_verify
    ∷ op_return
    ∷ op_to_alt_stack
    ∷ op_from_alt_stack
    ∷ op_2drop
    ∷ op_2dup
    ∷ op_3dup
    ∷ op_2over
    ∷ op_2rot
    ∷ op_2swap
    ∷ op_if_dup
    ∷ op_depth
    ∷ op_drop
    ∷ op_dup
    ∷ op_nip
    ∷ op_over
    ∷ op_pick
    ∷ op_roll
    ∷ op_rot
    ∷ op_swap
    ∷ op_tuck
    ∷ disabled 0x7e
    ∷ disabled 0x7f
    ∷ disabled 0x80
    ∷ disabled 0x81
    ∷ op_size
    ∷ disabled 0x83
    ∷ disabled 0x84
    ∷ disabled 0x85
    ∷ disabled 0x86
    ∷ op_equal
    ∷ op_equal_verify
    ∷ invalid 0x89
    ∷ invalid 0x8a
    ∷ op_1add
    ∷ op_1sub
    ∷ disabled 0x8d
    ∷ disabled 0x8e
    ∷ op_negate
    ∷ op_abs
    ∷ op_not
    ∷ op_0not_equal
    ∷ op_add
    ∷ op_sub
    ∷ disabled 0x95
    ∷ disabled 0x96
    ∷ disabled 0x97
    ∷ disabled 0x98
    ∷ disabled 0x99
    ∷ op_bool_and
    ∷ op_bool_or
    ∷ op_num_equal
    ∷ op_num_equal_verify
    ∷ op_num_not_equal
    ∷ op_less_than
    ∷ op_greater_than
    ∷ op_less_than_or_equal
    ∷ op_greater_than_or_equal
    ∷ op_min
    ∷ op_max
    ∷ op_within
    ∷ op_ripemd160
    ∷ op_sha1
    ∷ op_sha256
    ∷ op_hash160
    ∷ op_hash256
    ∷ op_code_separator
    ∷ op_check_sig
    ∷ op_check_sig_verify
    ∷ op_check_multi_sig
    ∷ op_check_multi_sig_verify
    ∷ op_nop 1
    ∷ op_check_lock_time_verify
    ∷ op_check_sequence_verify
    ∷ op_nop 4
    ∷ op_nop 5
    ∷ op_nop 6
    ∷ op_nop 7
    ∷ op_nop 8
    ∷ op_nop 9
    ∷ op_nop 10
    ∷ []

-- `Opcode::from`.
unfoldable pub opcode_from : ℕ → Opcode
opcode_from b =
    if leb b 0
    then op_0
    else if leb b 0x4b
    then push_bytes b
    else if leb b 0x60
    then get_or (push_data1 ∷ push_data2 ∷ push_data4 ∷ op_1negate ∷ invalid 0x50 ∷ []) (b - 0x4c)
        (op_n (b - 0x50))
    else get_or operators (b - 0x61) (invalid b)

unfoldable pub is_disabled : Opcode → Bool
is_disabled (disabled b) = true
is_disabled _ = false
