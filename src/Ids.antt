-- ===== src/Ids.antt =====
-- massa-indexer/src/ids.rs: the identifiers of blocks, operations and endorsements, and addresses.
-- A text is the list of its code points. base58-check (the crate bs58) is the parameter `Base58`.
-- `BlockId`, `OperationId` and `EndorsementId` have one shape and one set of functions in the
-- source, a type each; here they are one record for each `Family`. `parse` returns the `IdError`
-- itself, where the source formats it into a message.
pub mod RoundTrip
pub mod Equality
mod Tests
use massa_history.Base.{
  ℕ, Bool, true, false, Option, none, some, List, [], ◌∷◌, ◌≡◌, length, get_or, drop, ◌==◌, ◌&&◌,
  if◌then◌else◌,
}
use massa_history.Base.Result.{Result, ok, err, ok_or, ◌>>=◌}
use massa_history.Bytes.{Bytes, IsBytes}
use massa_history.Keys.Index.{id_key_len, addr_key_len}

abbrev pub Text : Type 0
Text = List ℕ

-- base58 with a checksum: what was encoded is decoded again.
pub record Base58 : Type 0 where
  pub encode : Bytes → Text
  pub decode : Text → Option Bytes
  pub decode-encode : (bs : Bytes) → IsBytes bs → decode (encode bs) ≡ some bs

abbrev pub addr_category_user : ℕ
addr_category_user = 0

abbrev pub addr_category_sc : ℕ
addr_category_sc = 1

pub data IdError : Type 0 where
  bad_prefix : IdError
  bad_base58 : IdError
  bad_length : ℕ → IdError
  bad_version : ℕ → IdError
  bad_category : ℕ → IdError

pub data Family : Type 0 where
  block operation endorsement : Family

-- The letter that `parse` and the constructors of each type pass on.
abbrev pub letter : Family → ℕ
letter block = b'B'
letter operation = b'O'
letter endorsement = b'E'

pub record FamilyId (f : Family) : Type 0 where
  pub key : Bytes
  pub text : Text

abbrev pub BlockId : Type 0
BlockId = FamilyId block

abbrev pub OperationId : Type 0
OperationId = FamilyId operation

abbrev pub EndorsementId : Type 0
EndorsementId = FamilyId endorsement

pub record Address : Type 0 where
  pub key : Bytes
  pub text : Text

-- `==` on byte arrays and on strings.
unfoldable pub bytes_eq : List ℕ → List ℕ → Bool
bytes_eq [] [] = true
bytes_eq [] (b ∷ bs) = false
bytes_eq (a ∷ as') [] = false
bytes_eq (a ∷ as') (b ∷ bs) = a == b && bytes_eq as' bs

-- The derived `==`.
unfoldable pub id_eq : {f : Family} → FamilyId f → FamilyId f → Bool
id_eq x y = bytes_eq x.key y.key && bytes_eq x.text y.text

unfoldable pub as_bytes : {f : Family} → FamilyId f → Bytes
as_bytes x = x.key

abbrev of_length : ℕ → Bytes → Result IdError Bytes
of_length n raw = if length raw == n then ok raw else err (bad_length (length raw))

category_of : ℕ → Result IdError ℕ
category_of c =
    if c == b'U'
    then ok addr_category_user
    else if c == b'S'
    then ok addr_category_sc
    else err (bad_category c)

module _ (b58 : Base58) where
  open b58 use {encode, decode}

  unfoldable pub decode_single_family : ℕ → Text → Result IdError Bytes
  decode_single_family prefix [] = err bad_prefix
  decode_single_family prefix (c ∷ payload) =
      if c == prefix
      then (do raw ← ok_or (decode payload) bad_base58; of_length id_key_len raw)
      else err bad_prefix

  unfoldable pub encode_single_family : ℕ → Bytes → Text
  encode_single_family prefix bytes = prefix ∷ encode bytes

  unfoldable pub decode_address : Text → Result IdError Bytes
  unfolding category_of
  decode_address [] = err bad_prefix
  decode_address (a ∷ []) = err bad_prefix
  decode_address (a ∷ (c ∷ payload)) =
      if a == b'A'
      then (do
        category ← category_of c
        raw ← ok_or (decode payload) bad_base58
        body ← of_length 33 raw
        ok (category ∷ body))
      else err bad_prefix

  -- Any category but the contracts' is shown as a user's.
  unfoldable pub encode_address : Bytes → Text
  encode_address bytes =
      let cat_char = if get_or bytes 0 0 == addr_category_sc then b'S' else b'U' in
      b'A' ∷ cat_char ∷ encode (drop 1 bytes)

  unfoldable pub parse : (f : Family) → Text → Result IdError (FamilyId f)
  parse f text = do
    key ← decode_single_family (letter f) text
    ok (record { key = key; text = text })

  unfoldable pub from_hash_bytes : (f : Family) → ℕ → Bytes → FamilyId f
  from_hash_bytes f version hash =
      let key = version ∷ hash in record { key = key; text = encode_single_family (letter f) key }

  unfoldable pub from_key_bytes : (f : Family) → Bytes → Option (FamilyId f)
  from_key_bytes f bytes =
      if length bytes == id_key_len
      then some (record { key = bytes; text = encode_single_family (letter f) bytes })
      else none

  unfoldable pub parse_address : Text → Result IdError Address
  parse_address text = do key ← decode_address text; ok (record { key = key; text = text })

  unfoldable pub address_from_key_bytes : Bytes → Option Address
  address_from_key_bytes bytes =
      if length bytes == addr_key_len
      then some (record { key = bytes; text = encode_address bytes })
      else none

  unfoldable pub user_from_hash_bytes : ℕ → Bytes → Address
  user_from_hash_bytes version hash =
      let key = addr_category_user ∷ version ∷ hash in
      record { key = key; text = encode_address key }

  unfoldable pub sc_from_hash_bytes : ℕ → Bytes → Address
  sc_from_hash_bytes version hash =
      let key = addr_category_sc ∷ version ∷ hash in record { key = key; text = encode_address key }

unfoldable pub is_user : Address → Bool
is_user a = get_or a.key 0 0 == addr_category_user

unfoldable pub is_sc : Address → Bool
is_sc a = get_or a.key 0 0 == addr_category_sc
