-- ===== src/Keys/Slot.antt =====
-- massa-indexer/src/keys.rs, slot keys and the per-slot primary keys. A fixed-size array is a list
-- of that length; `period` is a u64, `thread` a u8, `index_in_slot` a u32.
use massa_history.Base.{
  ℕ, ◌+◌, ◌^◌, ◌<◌, Option, none, some, [], ◌∷◌, ◌++◌, map, length, get_or, take, drop, ◌==◌,
  if◌then◌else◌,
}
use massa_history.Bytes.{Bytes, to_be_bytes, from_be_bytes, not_u8}

abbrev pub slot_key_len : ℕ
slot_key_len = 9

abbrev pub denunciation_hash_len : ℕ
denunciation_hash_len = 32

abbrev pub index_in_slot_len : ℕ
index_in_slot_len = 4

abbrev pub slot_indexed_key_len : ℕ
slot_indexed_key_len = slot_key_len + index_in_slot_len

abbrev pub IsU64 : ℕ → Type 0
IsU64 n = n < 256 ^ 8

abbrev pub IsU32 : ℕ → Type 0
IsU32 n = n < 256 ^ 4

abbrev pub IsU8 : ℕ → Type 0
IsU8 n = n < 256

unfoldable pub slot_key : ℕ → ℕ → Bytes
slot_key period thread = to_be_bytes 8 period ++ thread ∷ []

unfoldable pub decode_slot_key : Bytes → Option (ℕ × ℕ)
decode_slot_key bytes =
    if length bytes == slot_key_len
    then some (from_be_bytes (take 8 bytes), get_or bytes 8 0)
    else none

unfoldable pub rslot_key : ℕ → ℕ → Bytes
rslot_key period thread = map not_u8 (slot_key period thread)

unfoldable pub decode_rslot_key : Bytes → Option (ℕ × ℕ)
decode_rslot_key bytes =
    if length bytes == slot_key_len
    then (let buf = map not_u8 bytes in some (from_be_bytes (take 8 buf), get_or buf 8 0))
    else none

unfoldable pub sc_event_key : ℕ → ℕ → ℕ → Bytes
sc_event_key period thread index_in_slot =
    slot_key period thread ++ to_be_bytes index_in_slot_len index_in_slot

unfoldable pub transfer_key : ℕ → ℕ → ℕ → Bytes
unfolding sc_event_key
transfer_key period thread index_in_slot = sc_event_key period thread index_in_slot

infixl 5 ◌>>=◌
-- `?` on an `Option`.
abbrev pub ◌>>=◌ {ℓ κ} : {A : Type ℓ} {B : Type κ} → Option A → (A → Option B) → Option B
none >>= f = none
some a >>= f = f a

unfoldable pub decode_slot_indexed_key : Bytes → Option (ℕ × ℕ × ℕ)
decode_slot_indexed_key bytes =
    if length bytes == slot_indexed_key_len
    then (do
      (p, t) ← decode_slot_key (take slot_key_len bytes)
      some (p, t, from_be_bytes (drop slot_key_len bytes)))
    else none
