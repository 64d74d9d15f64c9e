-- ===== src/Keys/Parse.antt =====
-- massa-indexer/src/keys.rs, the functions that take the composite keys apart. Each tests the
-- length before it slices, so no slice is out of bounds.
use massa_history.Base.{
  ℕ, ◌+◌, ◌-◌, Option, none, some, length, get_or, take, drop, slice, ltb, ◌==◌, if◌then◌else◌,
}
use massa_history.Bytes.{Bytes, from_be_bytes}
use massa_history.Keys.Slot.{slot_key_len, index_in_slot_len, decode_rslot_key, ◌>>=◌}
use massa_history.Keys.Index.{
  id_key_len, addr_key_len, idx_addr_slot_id_len, idx_transfer_by_addr_len, idx_id_slot_index_len,
  idx_denunciation_by_addr_len, idx_denunciation_recent_len,
}

unfoldable pub parse_idx_addr_slot_id : Bytes → Option (ℕ × ℕ × Bytes)
parse_idx_addr_slot_id key =
    if length key == idx_addr_slot_id_len
    then (do
      (p, t) ← decode_rslot_key (slice addr_key_len (addr_key_len + slot_key_len) key)
      some (p, t, drop (addr_key_len + slot_key_len) key))
    else none

unfoldable pub parse_idx_block_by_creator : Bytes → Option (ℕ × ℕ × Bytes)
parse_idx_block_by_creator key = parse_idx_addr_slot_id key

unfoldable pub parse_idx_op_by : Bytes → Option (ℕ × ℕ × Bytes)
parse_idx_op_by key = parse_idx_addr_slot_id key

unfoldable pub parse_idx_transfer_by_addr : Bytes → Option (ℕ × ℕ × ℕ × ℕ)
parse_idx_transfer_by_addr key =
    if length key == idx_transfer_by_addr_len
    then (do
      (p, t) ← decode_rslot_key (slice addr_key_len (addr_key_len + slot_key_len) key)
      let idx =
          slice (addr_key_len + slot_key_len) (addr_key_len + slot_key_len + index_in_slot_len) key
      some (p, t, from_be_bytes idx, get_or key (idx_transfer_by_addr_len - 1) 0))
    else none

unfoldable pub parse_idx_id_slot_index : Bytes → Option (ℕ × ℕ × ℕ)
parse_idx_id_slot_index key =
    if length key == idx_id_slot_index_len
    then (do
      (p, t) ← decode_rslot_key (slice id_key_len (id_key_len + slot_key_len) key)
      some (p, t, from_be_bytes (drop (id_key_len + slot_key_len) key)))
    else none

unfoldable pub parse_idx_transfer_by_op : Bytes → Option (ℕ × ℕ × ℕ)
parse_idx_transfer_by_op key = parse_idx_id_slot_index key

unfoldable pub parse_idx_transfer_by_block : Bytes → Option (ℕ × ℕ × ℕ)
parse_idx_transfer_by_block key = parse_idx_id_slot_index key

-- Reads the last 13 bytes, whatever stands before them.
unfoldable pub parse_idx_event : Bytes → Option (ℕ × ℕ × ℕ)
parse_idx_event key = if ltb (length key) (slot_key_len + index_in_slot_len) then none else (do
  let n = length key
  (p, t) ←
      decode_rslot_key (slice (n - slot_key_len - index_in_slot_len) (n - index_in_slot_len) key)
  some (p, t, from_be_bytes (drop (n - index_in_slot_len) key)))

unfoldable pub parse_idx_denunciation_by_addr : Bytes → Option (ℕ × ℕ × Bytes)
parse_idx_denunciation_by_addr key =
    if length key == idx_denunciation_by_addr_len
    then (do
      (p, t) ← decode_rslot_key (slice addr_key_len (addr_key_len + slot_key_len) key)
      some (p, t, drop (addr_key_len + slot_key_len) key))
    else none

unfoldable pub parse_idx_denunciation_recent : Bytes → Option (ℕ × ℕ × Bytes)
parse_idx_denunciation_recent key =
    if length key == idx_denunciation_recent_len
    then (do (p, t) ← decode_rslot_key (take slot_key_len key); some (p, t, drop slot_key_len key))
    else none

unfoldable pub parse_idx_by_rslot_id : Bytes → Option (ℕ × ℕ × Bytes)
parse_idx_by_rslot_id key =
    if ltb (length key) slot_key_len
    then none
    else (do (p, t) ← decode_rslot_key (take slot_key_len key); some (p, t, drop slot_key_len key))
