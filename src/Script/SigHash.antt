-- ===== src/Script/SigHash.antt =====
-- script/signature.rs: what a signature signs, the legacy signature hash.
use mathlib.Core.Option
use ironcat.Base.{
  ℕ, zero, suc, ◌+◌, ◌%◌, List, [], ◌∷◌, ◌++◌, Bool, true, false, not, ◌&&◌, ◌||◌, leb, ltb, ◌==◌,
  if◌then◌else◌, length, take, get_elem?, replicate, Option, some, none, ◌<◌, ◌≡◌, refl, arith,
}
use ironcat.Base.Int.{negsuc}
use ironcat.Network.Cursor.{Bytes, to_le_bytes, from_le_bytes, i32_to_le_bytes, write_all}
use ironcat.Network.Varint.{write_varint}
use ironcat.Types.Hash.{Hash256, Sha256, double_sha256}
use ironcat.Types.Transaction.{TxIn, TxOut, Transaction, outpoint_to_bytes, tx_out_to_bytes}

abbrev pub pushed_with : Bool → Bytes → Bytes → List Bytes
pushed_with fits prefix data_bytes = if fits then (prefix ++ data_bytes) ∷ [] else []

-- Every way to push the bytes.
unfoldable pub build_push_patterns : Bytes → List Bytes
build_push_patterns d =
    pushed_with (leb (length d) 75) (length d ∷ []) d
    ++ (pushed_with (leb (length d) 255) (0x4c ∷ length d ∷ []) d
        ++ (pushed_with (leb (length d) 65535) (0x4d ∷ to_le_bytes 2 (length d)) d
            ++ ((0x4e ∷ (to_le_bytes 4 (length d % 4294967296) ++ d)) ∷ [])))

abbrev pub starts_with : Bytes → Bytes → Bool
starts_with script [] = true
starts_with [] (p ∷ pattern') = false
starts_with (b ∷ script) (p ∷ pattern') = b == p && starts_with script pattern'

-- The length of the first pattern that the script starts with, or 0.
unfoldable pub matching : List Bytes → Bytes → ℕ
matching [] script = 0
matching (p ∷ patterns) script = if starts_with script p then length p else matching patterns script

-- The first argument counts the bytes of a match that are still to skip.
unfoldable pub delete_matches : ℕ → List Bytes → Bytes → Bytes
delete_matches skip patterns [] = []
delete_matches (suc skip) patterns (b ∷ script) = delete_matches skip patterns script
delete_matches zero patterns (b ∷ script) = elim (matching patterns (b ∷ script)) [
  | zero ↦ b ∷ delete_matches 0 patterns script
  | suc n ↦ delete_matches n patterns script
]

unfoldable pub find_and_delete : Bytes → Bytes → Bytes
find_and_delete script [] = script
find_and_delete script (d ∷ data_bytes) =
    delete_matches 0 (build_push_patterns (d ∷ data_bytes)) script

-- How many bytes behind its own the opcode takes along: its push data, or all that is left where
-- the length itself is cut off.
unfoldable pub payload : ℕ → Bytes → ℕ
payload op rest =
    if leb op 0x4b
    then op
    else if op == 0x4c
    then 1 + from_le_bytes (take 1 rest)
    else if op == 0x4d
    then (if ltb (length rest) 2 then length rest else 2 + from_le_bytes (take 2 rest))
    else if op == 0x4e
    then (if ltb (length rest) 4 then length rest else 4 + from_le_bytes (take 4 rest))
    else 0

-- The first argument counts the bytes of a push that are still to copy.
unfoldable pub strip_separators : ℕ → Bytes → Bytes
strip_separators copy [] = []
strip_separators (suc copy) (b ∷ script) = b ∷ strip_separators copy script
strip_separators zero (op ∷ rest) =
    if op == 0xab then strip_separators 0 rest else op ∷ strip_separators (payload op rest) rest

unfoldable pub remove_codeseparators : Bytes → Bytes
remove_codeseparators script = strip_separators 0 script

abbrev pub script_bytes : Bytes → Bytes
script_bytes script = write_varint (length script) ++ script

abbrev pub blanks_sequences : ℕ → Bool
blanks_sequences base = base == 2 || base == 3

-- The inputs from number `i` on: the signing one carries the script code.
unfoldable pub signed_inputs : ℕ → ℕ → ℕ → Bytes → List TxIn → Bytes
signed_inputs base input_idx i script_code [] = []
signed_inputs base input_idx i script_code (input ∷ rest) =
    let signing = i == input_idx in
    outpoint_to_bytes input.prev_output
    ++ ((if signing then script_bytes script_code else write_varint 0)
        ++ (to_le_bytes 4 (if blanks_sequences base && not signing then 0 else input.sequence)
            ++ signed_inputs base input_idx (suc i) script_code rest))

-- The signing input alone; the index panics where the transaction has no such input.
unfoldable pub only_input : ℕ → Bytes → List TxIn → Option Bytes
only_input input_idx script_code vin =
    Option.map
      (λ input.
        write_varint 1
        ++ (outpoint_to_bytes input.prev_output
            ++ (script_bytes script_code ++ to_le_bytes 4 input.sequence)))
      (get_elem? vin input_idx)

abbrev pub blank_output : TxOut
blank_output = record { value = negsuc 0; script_pubkey = [] }

-- The outputs up to the one of the signing input, the ones before it blanked.
unfoldable pub single_outputs : ℕ → List TxOut → Bytes
single_outputs input_idx [] = []
single_outputs zero (o ∷ rest) = tx_out_to_bytes o
single_outputs (suc input_idx) (o ∷ rest) =
    tx_out_to_bytes blank_output ++ single_outputs input_idx rest

unfoldable pub signed_outputs : ℕ → ℕ → List TxOut → Bytes
signed_outputs base input_idx vout =
    if base == 2
    then write_varint 0
    else if base == 3
    then write_varint (input_idx + 1) ++ single_outputs input_idx vout
    else write_varint (length vout) ++ write_all tx_out_to_bytes vout

-- The bytes that are hashed.
unfoldable pub signature_message : Transaction → ℕ → Bytes → ℕ → Option Bytes
signature_message tx input_idx script_code hash_type =
    let base = hash_type % 32 in
    let code = remove_codeseparators script_code in
    let inputs =
      if leb 0x80 hash_type
      then only_input input_idx code tx.vin
      else some (write_varint (length tx.vin) ++ signed_inputs base input_idx 0 code tx.vin) in
    Option.map
      (λ signed.
        i32_to_le_bytes tx.version
        ++ (signed
            ++ (signed_outputs base input_idx tx.vout
                ++ (to_le_bytes 4 tx.locktime ++ to_le_bytes 4 hash_type))))
      inputs

abbrev pub one_hash : Hash256
one_hash = 1 ∷ replicate 31 0

-- `none` is the panic on an input that the transaction does not have.
unfoldable pub signature_hash : Sha256 → Transaction → ℕ → Bytes → ℕ → Option Hash256
signature_hash sha tx input_idx script_code hash_type =
    if hash_type % 32 == 3 && leb (length tx.vout) input_idx
    then some one_hash
    else Option.map (double_sha256 sha) (signature_message tx input_idx script_code hash_type)

abbrev IsSome {ℓ} : {A : Type ℓ} → Option A → Type ℓ
IsSome {A = A} o = (a : A) × (o ≡ some a)

get_elem-IsSome {ℓ} : {A : Type ℓ} (l : List A) (n : ℕ) → n < length l → IsSome (get_elem? l n)
get_elem-IsSome [] n h = absurd (omega arith)
get_elem-IsSome (a ∷ l) zero h = (a, refl)
get_elem-IsSome (a ∷ l) (suc n) h = get_elem-IsSome l n (omega arith)

map-IsSome {ℓ κ} :
    {A : Type ℓ} {B : Type κ} (f : A → B) (o : Option A) → IsSome o → IsSome (Option.map f o)
map-IsSome f (some a) h = (f a, refl)
map-IsSome f none h = cc

if-IsSome {ℓ} :
    {A : Type ℓ} (b : Bool) (o p : Option A) → IsSome o → IsSome p → IsSome (if b then o else p)
if-IsSome true o p h k = h
if-IsSome false o p h k = k

-- Of an input that the transaction has there is always a hash.
signature_hash-IsSome :
    (sha : Sha256) (tx : Transaction) (input_idx : ℕ) (script_code : Bytes) (hash_type : ℕ)
    → input_idx < length tx.vin
    → (h : Hash256) × (signature_hash sha tx input_idx script_code hash_type ≡ some h)
unfolding signature_hash signature_message only_input
signature_hash-IsSome sha tx input_idx script_code hash_type inside =
    if-IsSome (hash_type % 32 == 3 && leb (length tx.vout) input_idx) _ _ (one_hash, refl)
      (map-IsSome _ _ (
        map-IsSome _ _ (
          if-IsSome (leb 0x80 hash_type) _ _
            (map-IsSome _ _ (get_elem-IsSome tx.vin input_idx inside)) (_, refl))))
