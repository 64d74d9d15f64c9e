-- ===== src/Ingest/Transfers.antt =====
-- massa-indexer/src/ingest.rs: `handle_transfers`.
use massa_history.Base.{
  ℕ, ◌+◌, ◌%◌, ◌^◌, Bool, true, false, ◌||◌, Option, none, some, List, [], ◌∷◌, if◌then◌else◌,
}
use massa_history.Ids.{Text}
use massa_history.Model.{Slot, SlotState, fresh}
use massa_history.Model.Transfers.{StoredTransfer}
use massa_history.Reconcile.{reconcile_async_from_transfers, reconcile_deferred_from_transfers}
use massa_history.Db.{Libs, Done, pure, ◌>>=◌, ◌>>◌, read_slot, write_slot, broadcast, slot_updated}
use massa_history.Db.Events.{clear_transfers_for_slot}
use massa_history.Patch.Parts.{write_transfers, is_some}
use massa_history.Ingest.Messages.{ExecTransferInfo, NewTransfersInfoServerResponse}
use massa_history.Ingest.Decode.{
  slot_from_pb, map_option, transfer_value, is_zero_value, coin_origin_from_i32, is_reward_origin,
  is_op_child_origin, format_denunciation_index,
}
use massa_history.Ingest.Blocks.{required}

unfoldable pub transfer_row :
    NewTransfersInfoServerResponse → Slot → ℕ → ℕ → ExecTransferInfo → StoredTransfer
transfer_row resp slot now_ms i t = record {
  slot = slot;
  index_in_slot = i;
  id = t.id;
  block_id = resp.block_id;
  block_timestamp_ms = resp.timestamp;
  from = t.from_address;
  to = t.to_address;
  value = transfer_value t.value;
  origin = coin_origin_from_i32 t.origin;
  operation_id = t.operation_id;
  async_msg_id = t.async_msg_id;
  deferred_call_id = t.deferred_call_id;
  denunciation_index = map_option format_denunciation_index t.denunciation_index;
  is_final = true;
  first_seen_ts_ms = now_ms;
}

-- Pass 1, from the index `next_idx` on: a transfer of nothing is dropped and takes no index.
unfoldable pub decode_transfers :
    NewTransfersInfoServerResponse → Slot → ℕ → ℕ → List ExecTransferInfo → List StoredTransfer
decode_transfers resp slot now_ms next_idx [] = []
decode_transfers resp slot now_ms next_idx (t ∷ rest) =
    let same = decode_transfers resp slot now_ms next_idx rest in
    let later = decode_transfers resp slot now_ms ((next_idx + 1) % 2 ^ 32) rest in
    if is_zero_value (transfer_value t.value)
    then same
    else transfer_row resp slot now_ms next_idx t ∷ later

-- Owned by an asynchronous message, a deferred call or a denunciation, or a reward.
unfoldable pub is_boundary : StoredTransfer → Bool
is_boundary r =
    (is_some r.async_msg_id || (is_some r.deferred_call_id || is_some r.denunciation_index))
    || is_reward_origin r.origin

-- The operation in force behind a transfer.
unfoldable pub next_op : Option Text → StoredTransfer → Option Text
next_op current r = elim r.operation_id [
  | some op ↦ some op
  | none ↦ if is_boundary r then none else current
]

abbrev pub or_current : Bool → Option Text → Option Text
or_current true current = current
or_current false current = none

-- The row with the operation in force, if it is a child without one.
unfoldable pub attributed : Option Text → StoredTransfer → StoredTransfer
attributed current r = record r {
  operation_id = elim r.operation_id [
    | some op ↦ some op
    | none ↦ if is_boundary r then none else or_current (is_op_child_origin r.origin) current
  ];
}

-- Pass 2.
unfoldable pub infer_operations : Option Text → List StoredTransfer → List StoredTransfer
infer_operations current [] = []
infer_operations current (r ∷ rest) =
    attributed current r ∷ infer_operations (next_op current r) rest

unfoldable pub transfer_rows : NewTransfersInfoServerResponse → Slot → ℕ → List StoredTransfer
transfer_rows resp slot now_ms =
    infer_operations none (decode_transfers resp slot now_ms 0 resp.transfers_info)

unfoldable pub with_transfers_stored : ℕ → SlotState → SlotState
with_transfers_stored now_ms row = record row {
  completeness = record row.completeness { transfers_stored = true };
  last_updated_ts_ms = now_ms;
}

unfoldable pub store_row : SlotState → Done
store_row row = do write_slot row; broadcast (slot_updated row)

unfoldable pub note_transfers : ℕ → Slot → Option SlotState → Done
note_transfers now_ms slot none = store_row (with_transfers_stored now_ms (fresh slot now_ms))
note_transfers now_ms slot (some row) =
    if row.completeness.transfers_stored
    then pure tt
    else store_row (with_transfers_stored now_ms row)

unfoldable pub store_transfers : Libs → ℕ → Slot → List StoredTransfer → Done
store_transfers libs now_ms slot rows = do
  clear_transfers_for_slot libs.b58 slot.period slot.thread
  write_transfers libs rows
  reconcile_async_from_transfers libs slot rows now_ms
  reconcile_deferred_from_transfers libs slot rows now_ms
  found ← read_slot slot.period slot.thread
  note_transfers now_ms slot found

unfoldable pub handle_transfers : Libs → ℕ → NewTransfersInfoServerResponse → Done
handle_transfers libs now_ms resp = do
  s ← required resp.slot
  store_transfers libs now_ms (slot_from_pb s) (transfer_rows resp (slot_from_pb s) now_ms)
