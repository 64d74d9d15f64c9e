-- ===== src/Codec/Rows.antt =====
-- massa-indexer/src/codec.rs: `encode_slot_state`, `decode_slot_state`, `encode_meta_row` and
-- `decode_meta_row`.
use massa_history.Base.{
  Bool, true, false, Option, none, some, List, [], ◌∷◌, map, ltb, if◌then◌else◌, ℕ,
}
use massa_history.Base.Result.{Result, ok, err, ◌>>=◌, ok_or}
use massa_history.Bytes.{Bytes}
use massa_history.Ids.{
  Text, Base58, Family, block, operation, FamilyId, BlockId, as_bytes, from_key_bytes,
}
use massa_history.Model.{Slot, SlotCompleteness, SlotState, no_parts}
use massa_history.Model.Rows.{MetaRow}
use massa_history.Codec.{
  Message, SlotPb, SlotStatePb, SlotCompletenessPb, MetaRowPb, SlotStateFits, MetaRowFits,
  CodecError, Complaint, custom, invalid_block_id_key, invalid_operation_id_key,
  thread_count_above_255, decoded, slot_to_pb, slot_from_opt, slot_status_to_pb,
  slot_status_from_pb,
}

unfoldable pub completeness_to_pb : SlotCompleteness → SlotCompletenessPb
completeness_to_pb c = record {
  block_body_stored = c.block_body_stored;
  exec_output_final = c.exec_output_final;
  exec_output_candidate = c.exec_output_candidate;
  transfers_stored = c.transfers_stored;
}

unfoldable pub completeness_from_pb : Option SlotCompletenessPb → SlotCompleteness
completeness_from_pb none = no_parts
completeness_from_pb (some p) = record {
  block_body_stored = p.block_body_stored;
  exec_output_final = p.exec_output_final;
  exec_output_candidate = p.exec_output_candidate;
  transfers_stored = p.transfers_stored;
}

-- `.as_ref().map(block_id_to_key).unwrap_or_default()`
unfoldable pub final_key : Option BlockId → Bytes
final_key none = []
final_key (some bid) = as_bytes bid

-- `.clone().unwrap_or_default()`
unfoldable pub text_or_empty : Option Text → Text
text_or_empty none = []
text_or_empty (some t) = t

-- `if text.is_empty() { None } else { Some(text) }`
unfoldable pub non_empty : Text → Option Text
non_empty [] = none
non_empty (c ∷ cs) = some (c ∷ cs)

-- `m.last_final_slot.map(slot_to_pb)`, and whether there is one.
unfoldable pub slot_opt_to_pb : Option Slot → Option SlotPb
slot_opt_to_pb none = none
slot_opt_to_pb (some s) = some (slot_to_pb s)

abbrev pub is_some {ℓ} : {A : Type ℓ} → Option A → Bool
is_some none = false
is_some (some x) = true

unfoldable pub flagged_slot : Bool → Option SlotPb → Result CodecError (Option Slot)
flagged_slot false p = ok none
flagged_slot true p = do s ← slot_from_opt p; ok (some s)

abbrev complaint_of : Family → Complaint
complaint_of operation = invalid_operation_id_key
complaint_of _ = invalid_block_id_key

module _ (b58 : Base58) where
  -- `block_id_from_key` and `op_id_from_key`
  unfoldable pub id_from_key : (f : Family) → Bytes → Result CodecError (FamilyId f)
  id_from_key f bytes = ok_or (from_key_bytes b58 f bytes) (custom (complaint_of f))

  -- `.iter().map(..).collect::<Result<_, _>>()`
  unfoldable pub ids_from_keys : (f : Family) → List Bytes → Result CodecError (List (FamilyId f))
  ids_from_keys f [] = ok []
  ids_from_keys f (b ∷ bs) = do x ← id_from_key f b; xs ← ids_from_keys f bs; ok (x ∷ xs)

  unfoldable pub final_from_key : Bytes → Result CodecError (Option BlockId)
  final_from_key [] = ok none
  final_from_key (b ∷ bs) = do bid ← id_from_key block (b ∷ bs); ok (some bid)

unfoldable pub slot_state_to_pb : SlotState → SlotStatePb
slot_state_to_pb s = record {
  slot = some (slot_to_pb s.slot);
  status = slot_status_to_pb s.status;
  is_miss = s.is_miss;
  final_block_id_key = final_key s.final_block_id;
  candidate_block_id_keys = map as_bytes s.candidate_block_ids;
  execution_trail_hash = text_or_empty s.execution_trail_hash;
  executed_op_id_keys = map as_bytes s.executed_op_ids;
  sc_event_count = s.sc_event_count;
  completeness = some (completeness_to_pb s.completeness);
  first_seen_ts_ms = s.first_seen_ts_ms;
  last_updated_ts_ms = s.last_updated_ts_ms;
}

unfoldable pub slot_state_from_pb : Base58 → SlotStatePb → Result CodecError SlotState
slot_state_from_pb b58 p = do
  slot ← slot_from_opt p.slot
  final_block_id ← final_from_key b58 p.final_block_id_key
  candidate_block_ids ← ids_from_keys b58 block p.candidate_block_id_keys
  executed_op_ids ← ids_from_keys b58 operation p.executed_op_id_keys
  ok (record {
    slot = slot;
    status = slot_status_from_pb p.status;
    is_miss = p.is_miss;
    final_block_id = final_block_id;
    candidate_block_ids = candidate_block_ids;
    execution_trail_hash = non_empty p.execution_trail_hash;
    executed_op_ids = executed_op_ids;
    sc_event_count = p.sc_event_count;
    completeness = completeness_from_pb p.completeness;
    first_seen_ts_ms = p.first_seen_ts_ms;
    last_updated_ts_ms = p.last_updated_ts_ms;
  })

unfoldable pub meta_row_to_pb : MetaRow → MetaRowPb
meta_row_to_pb m = record {
  network = m.network;
  genesis_timestamp_ms = m.genesis_timestamp_ms;
  t0_ms = m.t0_ms;
  thread_count = m.thread_count;
  last_final_slot = slot_opt_to_pb m.last_final_slot;
  has_last_final_slot = is_some m.last_final_slot;
  last_candidate_slot = slot_opt_to_pb m.last_candidate_slot;
  has_last_candidate_slot = is_some m.last_candidate_slot;
  build_version = m.build_version;
  created_at_ms = m.created_at_ms;
  updated_at_ms = m.updated_at_ms;
}

unfoldable pub thread_count_from : ℕ → Result CodecError ℕ
thread_count_from n = if ltb n 256 then ok n else err (custom thread_count_above_255)

unfoldable pub meta_row_from_pb : MetaRowPb → Result CodecError MetaRow
meta_row_from_pb p = do
  thread_count ← thread_count_from p.thread_count
  last_final_slot ← flagged_slot p.has_last_final_slot p.last_final_slot
  last_candidate_slot ← flagged_slot p.has_last_candidate_slot p.last_candidate_slot
  ok (record {
    network = p.network;
    genesis_timestamp_ms = p.genesis_timestamp_ms;
    t0_ms = p.t0_ms;
    thread_count = thread_count;
    last_final_slot = last_final_slot;
    last_candidate_slot = last_candidate_slot;
    build_version = p.build_version;
    created_at_ms = p.created_at_ms;
    updated_at_ms = p.updated_at_ms;
  })

module _ {Wire : Type 0} where
  unfoldable pub encode_slot_state : Message SlotStatePb Wire SlotStateFits → SlotState → Wire
  encode_slot_state prost s = prost.encode_to_vec (slot_state_to_pb s)

  unfoldable pub decode_slot_state :
      Message SlotStatePb Wire SlotStateFits → Base58 → Wire → Result CodecError SlotState
  decode_slot_state prost b58 bytes = do p ← decoded (prost.decode bytes); slot_state_from_pb b58 p

  unfoldable pub encode_meta_row : Message MetaRowPb Wire MetaRowFits → MetaRow → Wire
  encode_meta_row prost m = prost.encode_to_vec (meta_row_to_pb m)

  unfoldable pub decode_meta_row :
      Message MetaRowPb Wire MetaRowFits → Wire → Result CodecError MetaRow
  decode_meta_row prost bytes = do p ← decoded (prost.decode bytes); meta_row_from_pb p
