-- ===== src/Keys/Index.antt =====
-- massa-indexer/src/keys.rs, the builders of the composite keys. The `debug_assert`s on the length
-- of an address or an id are hypotheses of the theorems: a release build does not check them.
use massa_history.Base.{ℕ, ◌+◌, [], ◌∷◌, ◌++◌}
use massa_history.Bytes.{Bytes, to_be_bytes}
use massa_history.Keys.Slot.{slot_key_len, index_in_slot_len, denunciation_hash_len, rslot_key}

-- ids.rs has these two.
abbrev pub id_key_len : ℕ
id_key_len = 33

abbrev pub addr_key_len : ℕ
addr_key_len = 34

abbrev pub idx_addr_slot_id_len : ℕ
idx_addr_slot_id_len = addr_key_len + slot_key_len + id_key_len

unfoldable pub idx_addr_slot_id : Bytes → ℕ → ℕ → Bytes → Bytes
idx_addr_slot_id addr period thread id = addr ++ (rslot_key period thread ++ id)

unfoldable pub idx_block_by_creator : Bytes → ℕ → ℕ → Bytes → Bytes
idx_block_by_creator creator period thread block_id =
    idx_addr_slot_id creator period thread block_id

unfoldable pub idx_op_by_creator : Bytes → ℕ → ℕ → Bytes → Bytes
idx_op_by_creator creator period thread op_id = idx_addr_slot_id creator period thread op_id

unfoldable pub idx_op_by_target : Bytes → ℕ → ℕ → Bytes → Bytes
idx_op_by_target target period thread op_id = idx_addr_slot_id target period thread op_id

unfoldable pub idx_endorsement_by_creator : Bytes → ℕ → ℕ → Bytes → Bytes
idx_endorsement_by_creator creator period thread endorsement_id =
    idx_addr_slot_id creator period thread endorsement_id

unfoldable pub idx_block_by_creator_prefix : Bytes → Bytes
idx_block_by_creator_prefix addr = addr

unfoldable pub idx_op_by_creator_prefix : Bytes → Bytes
idx_op_by_creator_prefix addr = addr

unfoldable pub idx_op_by_target_prefix : Bytes → Bytes
idx_op_by_target_prefix addr = addr

unfoldable pub idx_endorsement_by_creator_prefix : Bytes → Bytes
idx_endorsement_by_creator_prefix addr = addr

-- The role of the address in a transfer.
abbrev pub transfer_tag_from : ℕ
transfer_tag_from = 1

abbrev pub transfer_tag_to : ℕ
transfer_tag_to = 2

abbrev pub idx_transfer_by_addr_len : ℕ
idx_transfer_by_addr_len = addr_key_len + slot_key_len + index_in_slot_len + 1

unfoldable pub idx_transfer_by_addr : Bytes → ℕ → ℕ → ℕ → ℕ → Bytes
idx_transfer_by_addr addr period thread index_in_slot tag =
    addr ++ (rslot_key period thread ++ (to_be_bytes 4 index_in_slot ++ tag ∷ []))

unfoldable pub idx_transfer_by_addr_prefix : Bytes → Bytes
idx_transfer_by_addr_prefix addr = addr

abbrev pub idx_id_slot_index_len : ℕ
idx_id_slot_index_len = id_key_len + slot_key_len + index_in_slot_len

unfoldable pub idx_id_slot_index : Bytes → ℕ → ℕ → ℕ → Bytes
idx_id_slot_index id period thread index = id ++ (rslot_key period thread ++ to_be_bytes 4 index)

unfoldable pub idx_transfer_by_op : Bytes → ℕ → ℕ → ℕ → Bytes
idx_transfer_by_op op_id period thread index_in_slot =
    idx_id_slot_index op_id period thread index_in_slot

unfoldable pub idx_transfer_by_block : Bytes → ℕ → ℕ → ℕ → Bytes
idx_transfer_by_block block_id period thread index_in_slot =
    idx_id_slot_index block_id period thread index_in_slot

unfoldable pub idx_transfer_by_op_prefix : Bytes → Bytes
idx_transfer_by_op_prefix op_id = op_id

unfoldable pub idx_transfer_by_block_prefix : Bytes → Bytes
idx_transfer_by_block_prefix block_id = block_id

unfoldable pub idx_event_by_addr : Bytes → ℕ → ℕ → ℕ → Bytes
idx_event_by_addr addr period thread index =
    addr ++ (rslot_key period thread ++ to_be_bytes 4 index)

unfoldable pub idx_event_by_op : Bytes → ℕ → ℕ → ℕ → Bytes
idx_event_by_op op_id period thread index = idx_id_slot_index op_id period thread index

unfoldable pub idx_event_by_addr_prefix : Bytes → Bytes
idx_event_by_addr_prefix addr = addr

unfoldable pub idx_event_by_op_prefix : Bytes → Bytes
idx_event_by_op_prefix op_id = op_id

abbrev pub idx_denunciation_by_addr_len : ℕ
idx_denunciation_by_addr_len = addr_key_len + slot_key_len + denunciation_hash_len

unfoldable pub idx_denunciation_by_addr : Bytes → ℕ → ℕ → Bytes → Bytes
idx_denunciation_by_addr addr period thread hash = addr ++ (rslot_key period thread ++ hash)

unfoldable pub idx_denunciation_by_addr_prefix : Bytes → Bytes
idx_denunciation_by_addr_prefix addr = addr

abbrev pub idx_denunciation_recent_len : ℕ
idx_denunciation_recent_len = slot_key_len + denunciation_hash_len

unfoldable pub idx_denunciation_recent : ℕ → ℕ → Bytes → Bytes
idx_denunciation_recent period thread hash = rslot_key period thread ++ hash

-- The id is of any length and stands last, behind a zero byte.
unfoldable pub idx_async_by_addr : Bytes → Bytes → Bytes
idx_async_by_addr addr msg_id = addr ++ 0 ∷ msg_id

unfoldable pub idx_async_by_addr_prefix : Bytes → Bytes
idx_async_by_addr_prefix addr = addr

unfoldable pub idx_by_rslot_id : ℕ → ℕ → Bytes → Bytes
idx_by_rslot_id period thread id_bytes = rslot_key period thread ++ id_bytes

unfoldable pub idx_by_rslot_prefix : ℕ → ℕ → Bytes
idx_by_rslot_prefix period thread = rslot_key period thread
