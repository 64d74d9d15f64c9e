-- ===== src/Keys/Tests.antt =====
-- The keys at concrete inputs.
use massa_history.Base.{ℕ, ◌≡◌, refl, some, none, [], ◌∷◌, zero, suc}
use massa_history.Bytes.{Bytes, to_be_bytes, from_be_bytes, not_u8}
use massa_history.Keys.Slot.{slot_key, decode_slot_key, rslot_key, decode_rslot_key}

abbrev repeat : ℕ → ℕ → Bytes
repeat zero b = []
repeat (suc n) b = b ∷ repeat n b

abbrev addr : Bytes
addr = 0 ∷ 0 ∷ repeat 32 7

abbrev other_addr : Bytes
other_addr = 1 ∷ 0 ∷ repeat 32 9

abbrev block_id : Bytes
block_id = 0 ∷ repeat 32 5

abbrev hash : Bytes
hash = repeat 32 3

slot_key_bytes : slot_key 258 31 ≡ 0 ∷ 0 ∷ 0 ∷ 0 ∷ 0 ∷ 0 ∷ 1 ∷ 2 ∷ 31 ∷ []
unfolding slot_key to_be_bytes
slot_key_bytes = refl

rslot_key_bytes : rslot_key 258 31 ≡ 255 ∷ 255 ∷ 255 ∷ 255 ∷ 255 ∷ 255 ∷ 254 ∷ 253 ∷ 224 ∷ []
unfolding rslot_key slot_key to_be_bytes not_u8
rslot_key_bytes = refl

decode_short : decode_slot_key (1 ∷ 2 ∷ []) ≡ none
unfolding decode_slot_key
decode_short = refl

slot_key_parses : decode_slot_key (0 ∷ 0 ∷ 0 ∷ 0 ∷ 0 ∷ 0 ∷ 1 ∷ 2 ∷ 31 ∷ []) ≡ some (258, 31)
unfolding decode_slot_key from_be_bytes
slot_key_parses = refl

rslot_key_parses :
    decode_rslot_key (255 ∷ 255 ∷ 255 ∷ 255 ∷ 255 ∷ 255 ∷ 254 ∷ 253 ∷ 224 ∷ []) ≡ some (258, 31)
unfolding decode_rslot_key from_be_bytes not_u8
rslot_key_parses = refl
