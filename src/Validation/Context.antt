-- ===== src/Validation/Context.antt =====
-- validation/mod.rs: the rules for a block that depend on its height and on time.
pub mod Height
use ironcat.Base.{
  ℕ, zero, suc, ◌+◌, ◌/◌, ◌%◌, ◌^◌, List, [], ◌∷◌, Bool, true, false, ◌&&◌, ◌==◌, Option, none,
  some, leb, ltb, if◌then◌else◌, length, take,
}
use ironcat.Base.Int.{ℤ, pos, leb_ℤ, ltb_ℤ, ◌+ℤ◌, is_i64, i64_max}
use ironcat.Base.Result.{Result, ok, err, ◌>>=◌, ◌>>◌, ensure}
use ironcat.Network.Cursor.{Bytes}
use ironcat.Types.Hash.{bytes_eq}
use ironcat.Types.Transaction.{TxIn, Transaction}
use ironcat.Types.Block.{Block}
use ironcat.Validation.Subsidy.{max_money, get_block_subsidy}
use ironcat.Chainstate.State.{sum_outputs}

abbrev pub bip34_height : ℕ
bip34_height = 111

abbrev pub max_future_block_time : ℕ
max_future_block_time = 150

-- `out_of_range` is an index that panics.
pub data ContextError : Type 0 where
  too_old too_new version_too_low script_too_short height_mismatch : ContextError
  coinbase_value_too_large out_of_range : ContextError

-- The bytes of a value, lowest first, without zeros on top. A u32 has at most four.
unfoldable pub minimal_bytes : ℕ → ℕ → Bytes
minimal_bytes zero val = []
minimal_bytes (suc n) val =
    let rest = minimal_bytes n (val / 256) in if val == 0 then [] else val % 256 ∷ rest

-- A zero behind a last byte that has the sign bit.
unfoldable pub with_sign : Bytes → Bytes
with_sign [] = []
with_sign (b ∷ []) = if leb 0x80 b then b ∷ 0 ∷ [] else b ∷ []
with_sign (b ∷ c ∷ rest) = b ∷ with_sign (c ∷ rest)

unfoldable pub encode_script_height : ℕ → Bytes
encode_script_height height =
    let number = with_sign (minimal_bytes 4 height) in
    if height == 0
    then 0 ∷ []
    else (if leb height 16 then (0x50 + height) ∷ [] else length number ∷ number)

-- The comparison of the script with the encoding of the height.
abbrev pub check_script : Bytes → Bytes → Result ContextError (Unit {0})
check_script script expected =
    ensure (leb (length expected) (length script)) script_too_short
    >> ensure (bytes_eq (take (length expected) script) expected) height_mismatch

unfoldable pub check_bip34_height : List TxIn → ℕ → Result ContextError (Unit {0})
check_bip34_height [] height = err out_of_range
check_bip34_height (i ∷ is) height = check_script i.script_sig (encode_script_height height)

abbrev pub check_first : List Transaction → ℕ → Result ContextError (Unit {0})
check_first [] height = err out_of_range
check_first (tx ∷ txs) height = check_bip34_height tx.vin height

-- `unwrap_or(i64::MAX)` and `saturating_add`.
abbrev pub or_max : Option ℤ → ℤ
or_max none = i64_max
or_max (some n) = n

unfoldable pub check_coinbase_cap : List Transaction → ℕ → Result ContextError (Unit {0})
check_coinbase_cap [] height = err out_of_range
check_coinbase_cap (tx ∷ txs) height =
    let sum = get_block_subsidy height +ℤ pos max_money in
    ensure (leb_ℤ (or_max (sum_outputs tx.vout)) (if is_i64 sum then sum else i64_max))
      coinbase_value_too_large

unfoldable pub check_block_context : Block → ℕ → ℕ → ℕ → Result ContextError (Unit {0})
check_block_context b height median_time_past adjusted_time =
    ensure (ltb median_time_past b.header.timestamp) too_old
    >> (ensure (leb b.header.timestamp ((adjusted_time + max_future_block_time) % 2 ^ 32)) too_new
        >> (if leb bip34_height height
            then (ensure (leb_ℤ (pos 2) b.header.version) version_too_low
                >> (check_first b.transactions height >> check_coinbase_cap b.transactions height))
            else check_coinbase_cap b.transactions height))
