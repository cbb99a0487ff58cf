-- ===== src/Script/Ecdsa.antt =====
-- script/signature.rs: the encodings of signatures and keys, and the check of a signature. The
-- `k256` crate is a parameter.
use ironcat.Base.{
  ℕ, zero, suc, ◌+◌, ◌-◌, ◌*◌, [], ◌∷◌, ◌++◌, Bool, false, not, ◌&&◌, ◌||◌, Option, none, some, leb,
  ltb, ◌==◌, if◌then◌else◌, length, take, drop, get_or, replicate,
}
use ironcat.Base.Result.{Result, ok, ◌>>◌, ensure, and_then}
use ironcat.Network.Cursor.{Bytes}
use ironcat.Types.Hash.{Hash256}
use ironcat.Script.Error.{ScriptError, invalid_signature_encoding, invalid_pub_key}

-- What the source calls of k256.
pub record K256 : Type 1 where
  pub Signature : Type 0
  pub VerifyingKey : Type 0
  pub from_scalars : Bytes → Bytes → Option Signature
  pub normalize_s : Signature → Option Signature
  pub from_sec1_bytes : Bytes → Option VerifyingKey
  pub verify_prehash : VerifyingKey → Bytes → Signature → Bool

-- A reader of the DER structure returns its value and the bytes behind it.
abbrev pub DerReader : Type 0 → Type 0
DerReader A = Bytes → Option (A × Bytes)

-- The long form: `n` bytes, the most significant first.
unfoldable pub read_long_len : ℕ → ℕ → DerReader ℕ
read_long_len zero len bytes = some (len, bytes)
read_long_len (suc n) len [] = none
read_long_len (suc n) len (b ∷ rest) = read_long_len n (len * 256 + b) rest

unfoldable pub read_der_len : DerReader ℕ
read_der_len [] = none
read_der_len (b ∷ rest) =
    if ltb b 0x80
    then some (b, rest)
    else if b == 0x80 || ltb 0x84 b
    then none
    else read_long_len (b - 0x80) 0 rest

abbrev pub take_value : ℕ × Bytes → Option (Bytes × Bytes)
take_value (len, rest) =
    if len == 0 || ltb (length rest) len then none else some (take len rest, drop len rest)

unfoldable pub read_der_integer : DerReader Bytes
read_der_integer [] = none
read_der_integer (tag ∷ rest) =
    if tag == 0x02 then and_then (read_der_len rest) take_value else none

unfoldable pub strip_zeros : Bytes → Bytes
strip_zeros [] = []
strip_zeros (b ∷ []) = b ∷ []
strip_zeros (b ∷ c ∷ rest) = if b == 0 then strip_zeros (c ∷ rest) else b ∷ c ∷ rest

unfoldable pub scalar_from_bytes : Bytes → Option Bytes
scalar_from_bytes bytes =
    let significant = strip_zeros bytes in
    if ltb 32 (length significant)
    then none
    else some (replicate (32 - length significant) 0 ++ significant)

-- R and S as 32-byte scalars. Neither the total length nor what follows S is looked at.
unfoldable pub der_scalars : Bytes → Option (Bytes × Bytes)
der_scalars [] = none
der_scalars (tag ∷ rest) =
    if tag == 0x30
    then and_then (read_der_len rest) (λ total. and_then (read_der_integer total.1) (λ r.
      and_then (read_der_integer r.1) (λ s.
        and_then (scalar_from_bytes r.0)
          (λ r_scalar. and_then (scalar_from_bytes s.0) (λ s_scalar. some (r_scalar, s_scalar))))))
    else none

abbrev pub or_else {ℓ} : {A : Type ℓ} → Option A → A → A
or_else none d = d
or_else (some a) d = a

abbrev pub last_byte : Bytes → ℕ
last_byte bytes = get_or bytes (length bytes - 1) 0

module _ (k256 : K256) where
  unfoldable pub parse_der_lenient : Bytes → Option k256.Signature
  parse_der_lenient der = and_then (der_scalars der) (λ p. k256.from_scalars p.0 p.1)

  abbrev pub check_prehash : Option k256.VerifyingKey → Bytes → k256.Signature → Bool
  check_prehash none hash signature = false
  check_prehash (some key) hash signature = k256.verify_prehash key hash signature

  abbrev pub check_parsed : Option k256.Signature → Bytes → Hash256 → Bool
  check_parsed none pubkey hash = false
  check_parsed (some signature) pubkey hash =
      check_prehash (k256.from_sec1_bytes pubkey) hash
        (or_else (k256.normalize_s signature) signature)

  unfoldable pub verify_ecdsa : Bytes → Bytes → Hash256 → Bool
  verify_ecdsa [] pubkey hash = false
  verify_ecdsa (b ∷ sig) pubkey hash =
      check_parsed (parse_der_lenient (take (length sig) (b ∷ sig))) pubkey hash

-- `SigHashType::from_byte` knows the byte.
abbrev pub is_hash_type : ℕ → Bool
is_hash_type b = (leb 0x01 b && leb b 0x03) || (leb 0x81 b && leb b 0x83)

abbrev pub refuse_if : Bool → Result ScriptError (Unit {0})
refuse_if b = ensure (not b) invalid_signature_encoding

abbrev pub check_r : Bytes → Result ScriptError (Unit {0})
check_r sig =
    refuse_if (not (get_or sig 2 0 == 0x02))
    >> refuse_if (get_or sig 3 0 == 0)
    >> refuse_if (leb 0x80 (get_or sig 4 0))
    >> refuse_if (ltb 1 (get_or sig 3 0) && (get_or sig 4 0 == 0 && ltb (get_or sig 5 0) 0x80))

abbrev pub check_s : Bytes → ℕ → Result ScriptError (Unit {0})
check_s sig marker =
    refuse_if (leb (length sig) marker || not (get_or sig marker 0 == 0x02))
    >> refuse_if (leb (length sig) (marker + 1))
    >> refuse_if (get_or sig (marker + 1) 0 == 0)
    >> refuse_if (leb (length sig) (marker + 2))
    >> refuse_if (leb 0x80 (get_or sig (marker + 2) 0))
    >> refuse_if (
        ltb 1 (get_or sig (marker + 1) 0)
        && (get_or sig (marker + 2) 0 == 0
            && (ltb (marker + 3) (length sig) && ltb (get_or sig (marker + 3) 0) 0x80)))

unfoldable pub check_signature_encoding : Bytes → Result ScriptError (Unit {0})
check_signature_encoding sig =
    if length sig == 0
    then ok tt
    else (refuse_if (ltb (length sig) 9 || ltb 73 (length sig))
        >> refuse_if (not (get_or sig 0 0 == 0x30))
        >> refuse_if (not (get_or sig 1 0 == length sig - 3))
        >> check_r sig
        >> check_s sig (4 + get_or sig 3 0)
        >> refuse_if (not (get_or sig 3 0 + get_or sig (5 + get_or sig 3 0) 0 + 7 == length sig))
        >> refuse_if (not (is_hash_type (last_byte sig))))

unfoldable pub check_pubkey_encoding : Bytes → Result ScriptError (Unit {0})
check_pubkey_encoding pubkey =
    ensure
      ((length pubkey == 33 && (get_or pubkey 0 0 == 0x02 || get_or pubkey 0 0 == 0x03))
        || (length pubkey == 65 && get_or pubkey 0 0 == 0x04))
      invalid_pub_key
