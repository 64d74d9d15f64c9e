-- ===== src/Ids/Tests.antt =====
-- Identifiers at concrete inputs. The stand-in for base58-check is the identity on byte strings.
use massa_history.Base.{ℕ, ◌≡◌, refl, zero, suc, [], ◌∷◌, some, arith}
use massa_history.Base.Result.{ok, err}
use massa_history.Bytes.{Bytes}
use massa_history.Ids.{
  Text, Base58, block, operation, BlockId, Address, parse, from_key_bytes, parse_address,
  address_from_key_bytes, decode_single_family, encode_single_family, decode_address,
  encode_address, bad_prefix, bad_length, bad_category,
}
use massa_history.Ids.RoundTrip.{parse-from_key_bytes}

abbrev plain : Base58
plain = record { encode = λ bs. bs; decode = λ s. some s; decode-encode = λ bs _. refl }

abbrev repeat : ℕ → ℕ → Bytes
repeat zero b = []
repeat (suc n) b = b ∷ repeat n b

abbrev key : Bytes
key = 0 ∷ repeat 32 7

abbrev shown : Text
shown = b'B' ∷ key

abbrev the_block : BlockId
the_block = record { key = key; text = shown }

abbrev the_address : Address
the_address = record { key = 1 ∷ key; text = b'A' ∷ b'S' ∷ key }

parses : parse plain block shown ≡ ok the_block
unfolding parse decode_single_family
parses = refl

rebuilt : from_key_bytes plain block key ≡ some the_block
unfolding from_key_bytes encode_single_family
rebuilt = refl

other_family : parse plain operation shown ≡ err bad_prefix
unfolding parse decode_single_family
other_family = refl

too_short : parse plain block (b'B' ∷ 1 ∷ []) ≡ err (bad_length 1)
unfolding parse decode_single_family
too_short = refl

odd_category : parse_address plain (b'A' ∷ b'X' ∷ key) ≡ err (bad_category b'X')
unfolding parse_address decode_address
odd_category = refl

address_parses : parse_address plain (b'A' ∷ b'S' ∷ key) ≡ ok the_address
unfolding parse_address decode_address
address_parses = refl

address_rebuilt : address_from_key_bytes plain (1 ∷ key) ≡ some the_address
unfolding address_from_key_bytes encode_address
address_rebuilt = refl

parse-from_key_bytes_example : (key ≡ key) × (parse plain block shown ≡ ok the_block)
parse-from_key_bytes_example = parse-from_key_bytes plain block key the_block (omega arith) rebuilt
