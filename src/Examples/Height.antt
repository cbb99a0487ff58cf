-- ===== src/Examples/Height.antt =====
-- A block whose coinbase begins with height 111.
use ironcat.Base.{ℕ, ◌≡◌, refl, [], ◌∷◌, arith}
use ironcat.Base.Int.{◌+ℤ◌, checked_add}
use ironcat.Base.Result.{ok}
use ironcat.Types.Block.{Block}
use ironcat.Validation.Subsidy.{halved, get_block_subsidy}
use ironcat.Validation.Context.{
  minimal_bytes, with_sign, encode_script_height, check_bip34_height, check_coinbase_cap,
  check_block_context,
}
use ironcat.Validation.Context.Height.{check_block_context-one_height}
use ironcat.Chainstate.State.{sum_from, sum_outputs}
use ironcat.Types.Transaction.{coinbase_outpoint}
use ironcat.Examples.Data.{coinbase, header}

abbrev at_111 : Block
at_111 = record {
  header = header;
  transactions =
      record coinbase {
        vin =
            record { prev_output = coinbase_outpoint; script_sig = 1 ∷ 111 ∷ 9 ∷ []; sequence = 0 }
            ∷ [];
      }
      ∷ [];
}

accepted : check_block_context at_111 111 1399999999 1400000000 ≡ ok tt
unfolding check_block_context check_bip34_height encode_script_height with_sign minimal_bytes
    check_coinbase_cap sum_outputs sum_from checked_add ◌+ℤ◌ get_block_subsidy halved
accepted = refl

check_block_context-one_height_example : ◌≡◌ {A = ℕ} 111 111
check_block_context-one_height_example =
    check_block_context-one_height at_111 111 111 1399999999 1399999999 1400000000 1400000000
      (omega arith) (omega arith) (omega arith) (omega arith) accepted accepted
