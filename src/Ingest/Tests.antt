-- ===== src/Ingest/Tests.antt =====
-- Runs of the writer of massa-indexer/src/ingest.rs on one block, its FINAL output and its transfers.
use massa_history.Base.{
  ℕ, true, false, ◌≡◌, ◌↔◌, refl, Option, none, some, List, [], ◌∷◌, get_elem?, ◌++◌, arith, Bool,
  ◌==◌, ◌&&◌, if◌then◌else◌, sym, ap, ◌∙◌, some_injective,
}
use massa_history.Base.Result.{ok}
use massa_history.Ids.{
  Text, parse, decode_single_family, parse_address, decode_address, id_eq, bytes_eq, as_bytes,
}
use massa_history.Model.{SlotState}
use massa_history.Model.Transfers.{StoredTransfer, CoinOrigin, TransferValue}
use massa_history.Db.{
  Db, read_slot, read_block, write_block, broadcast, write_slot, update_last_final_slot,
}
use massa_history.Patch.Placed.{WellPlaced}
use massa_history.Patch.Samples.{libs, ours, empty_db, answer, final_row}
use massa_history.Ingest.Messages.{
  PbSlot, SignedBlockHeader, FilledBlock, ExecutionOutput, ExecTransferInfo,
  NewTransfersInfoServerResponse, PbValue, Wire,
}
use massa_history.Ingest.Decode.{
  slot_from_pb, is_zero_value, decode_endorsements, transfer_value, native_amount_to_nmas,
  coin_origin_from_i32, is_reward_origin, is_op_child_origin,
}
use massa_history.Ingest.Exec.{
  handle_exec, exec_slot, exec_on_open, replace_events, write_exec_events, exec_heads, verdict_row,
  exec_row, node_block, exec_tail, exec_ops, exec_pool, with_ops, trail_of,
}
use massa_history.Ingest.Blocks.{
  handle_block, open_header, ingest_body, write_endorsements, block_body, write_denunciations,
  ingest_ops, entry_ops, store_block, store_seen, with_seen, block_row, initial_block_status,
}
use massa_history.Ingest.Transfers.{
  infer_operations, transfer_rows, decode_transfers, attributed, transfer_row, is_boundary, next_op,
}
use massa_history.Ingest.Worker.{Event, block, exec, transfers, tick, peer_patch, run, stopped}
use massa_history.Ingest.Moves.{view, settled, Moves, view_as}
use massa_history.Ingest.Live.{handle_all, live_events_refine}
use massa_history.Ingest.Settles.{
  final_output, SettledAs, final_exec_settles, repeated_final_exec_is_ignored,
}
use massa_history.Ingest.Attribution.{onto, Owned, attribution_iff, transfer_indices_dense}
use massa_history.Ingest.Lanes.{lane, handled_from, closed_lanes_drain}
use massa_history.Patch.{or_fresh, with_candidate, holds}
use massa_history.Patch.Parts.{
  ensure_parent_stub, apply_finality_to_blocks, mark_candidates, mark, set_status, mark_uncounted,
}
use massa_history.Db.Events.{clear_sc_events_for_slot}
use massa_history.Arbiter.{option_eq}

abbrev wire : Wire
wire = record {
  libs = libs;
  header_b64 = λ h. [];
  op_b64 = λ s. [];
  from_utf8 = λ bs. some bs;
  from_utf8_lossy = λ bs. bs;
}

abbrev ten : PbSlot
ten = record { period = 10; thread = 0 }

abbrev header : SignedBlockHeader
header = record {
  content = some (record {
    current_version = 1;
    announced_version = none;
    slot = some ten;
    parents = [];
    operations_hash = [];
    endorsements = [];
    denunciations = [];
  });
  signature = [];
  content_creator_pub_key = [];
  content_creator_address = b'A' ∷ b'U' ∷ ours.key;
  secure_hash = ours.text;
  serialized_size = 0;
}

abbrev filled : FilledBlock
filled = record { header = some header; operations = [] }

abbrev output : ExecutionOutput
output = record { slot = some ten; block_id = some ours.text; events = []; state_changes = none }

abbrev paid : ℕ → Option Text → ExecTransferInfo
paid origin op = record {
  id = [];
  from_address = none;
  to_address = none;
  value = some (some (PbValue.coins (record { mantissa = 5 })));
  origin = origin;
  operation_id = op;
  async_msg_id = none;
  deferred_call_id = none;
  denunciation_index = none;
}

abbrev paid_list : NewTransfersInfoServerResponse
paid_list = record {
  slot = some ten;
  timestamp = 0;
  block_id = none;
  transfers_info =
      paid 25 (some (b'o' ∷ []))
      ∷ record (paid 18 none) { value = some (some (PbValue.rolls 0)) }
      ∷ paid 18 none
      ∷ [];
}

abbrev day : List (ℕ × Event)
day =
    (1, block filled)
    ∷ (2, exec (final_output output ten))
    ∷ (3, transfers paid_list)
    ∷ (4, tick)
    ∷ []

empty_placed : WellPlaced empty_db
empty_placed p t row e = cc e

abbrev trail_row : SlotState
trail_row = record (final_row 10 ours) { execution_trail_hash = some (b'h' ∷ []) }

abbrev trail_db : Db
trail_db = record empty_db { slots = λ p t. if p == 10 && t == 0 then some trail_row else none }

trail_here :
    (p t : ℕ) (c : Bool) (row : SlotState)
    → (p == 10 && t == 0) ≡ c
    → (if c then some trail_row else none) ≡ some row
    → (row.slot.period ≡ p) × (row.slot.thread ≡ t)
trail_here p t true row at e =
    let same = some_injective e in
    let (ep, et) : (p ≡ 10) × (t ≡ 0) = ground arith in
    (ap (λ r. r.slot.period) (sym same) ∙ sym ep, ap (λ r. r.slot.thread) (sym same) ∙ sym et)
trail_here p t false row at e = cc e

trail_placed : WellPlaced trail_db
trail_placed p t row e = trail_here p t (p == 10 && t == 0) row refl e

-- The block is seen and then settled.
day_settles :
    view (
      (handle_exec wire 2 (final_output output ten) (handle_block wire 1 filled empty_db).1).1.slots
        10 0)
    ≡ settled false (some ours) none
unfolding view handle_exec exec_slot read_slot or_fresh handle_block open_header parse
    decode_single_family parse_address decode_address ingest_body write_endorsements block_body
    decode_endorsements write_denunciations ingest_ops entry_ops store_block read_block store_seen
    write_block broadcast write_slot ensure_parent_stub slot_from_pb with_seen exec_on_open
    replace_events clear_sc_events_for_slot write_exec_events exec_heads update_last_final_slot
    apply_finality_to_blocks mark_candidates mark set_status mark_uncounted view_as with_candidate
    holds id_eq verdict_row exec_row bytes_eq as_bytes block_row initial_block_status option_eq
    node_block exec_tail exec_ops exec_pool with_ops trail_of
day_settles = refl

live_events_refine_example :
    Moves (view (empty_db.slots 10 0)) (view ((handle_all wire day empty_db).slots 10 0))
live_events_refine_example =
    live_events_refine wire day empty_db empty_placed (refl, (refl, (refl, (refl, tt)))) 10 0

final_exec_settles_example :
    (row : SlotState) × ((handle_exec wire 2 (final_output output ten) empty_db).1.slots 10 0
      ≡ some row)
    × SettledAs (record output { slot = some ten }) row
unfolding slot_from_pb or_fresh
final_exec_settles_example = final_exec_settles wire output ten 2 empty_db empty_placed refl

repeated_final_exec_is_ignored_example :
    handle_exec wire 3
      (final_output output ten)
      (handle_exec wire 2 (final_output output ten) empty_db).1
    ≡ (ok tt, (handle_exec wire 2 (final_output output ten) empty_db).1)
unfolding slot_from_pb or_fresh
repeated_final_exec_is_ignored_example =
    repeated_final_exec_is_ignored wire output ten 2 empty_db 3 empty_placed refl

abbrev root : StoredTransfer
root = record {
  slot = record { period = 10; thread = 0 };
  index_in_slot = 0;
  id = [];
  block_id = none;
  block_timestamp_ms = 0;
  from = none;
  to = none;
  value = TransferValue.coins 5;
  origin = CoinOrigin.op_transaction_fees;
  operation_id = some (b'o' ∷ []);
  async_msg_id = none;
  deferred_call_id = none;
  denunciation_index = none;
  is_final = true;
  first_seen_ts_ms = 0;
}

abbrev child : StoredTransfer
child = record root {
  index_in_slot = 1;
  origin = CoinOrigin.abi_transfer_coins;
  operation_id = none;
}

attribution_iff_example :
    (out : StoredTransfer) × (get_elem?
        (infer_operations none (onto (root ∷ []) (child ∷ root ∷ [])))
        1
      ≡ some out)
    × ((out.operation_id ≡ some (b'o' ∷ [])) ↔ Owned (root ∷ []) child (b'o' ∷ []))
attribution_iff_example = attribution_iff (root ∷ []) child (root ∷ []) (b'o' ∷ [])

abbrev second_row : StoredTransfer
second_row = record child { operation_id = some (b'o' ∷ []); first_seen_ts_ms = 3 }

second_row_is : get_elem? (transfer_rows paid_list (slot_from_pb ten) 3) 1 ≡ some second_row
unfolding transfer_rows infer_operations decode_transfers is_zero_value transfer_value
    native_amount_to_nmas attributed transfer_row slot_from_pb coin_origin_from_i32 is_boundary
    is_reward_origin is_op_child_origin next_op
second_row_is = refl

transfer_indices_dense_example :
    (second_row.index_in_slot ≡ 1) × (is_zero_value second_row.value ≡ false)
transfer_indices_dense_example =
    transfer_indices_dense paid_list (slot_from_pb ten) 3 1 second_row (omega arith) second_row_is

abbrev clock : ℕ → ℕ
clock turn = turn

closed_lanes_drain_example :
    (last : ℕ) × (run wire clock 6 (record {
      db = empty_db;
      live_rx = lane (block filled ∷ tick ∷ []) true;
      bulk_rx = lane (peer_patch (answer ours) ∷ []) true;
      turn = 0;
    })
      ≡ stopped (record {
        db =
            handled_from wire clock 0
              ((block filled ∷ tick ∷ []) ++ peer_patch (answer ours) ∷ [])
              empty_db;
        live_rx = none;
        bulk_rx = none;
        turn = last;
      }))
closed_lanes_drain_example =
    closed_lanes_drain wire clock (block filled ∷ tick ∷ []) (peer_patch (answer ours) ∷ []) 6
      empty_db 0 (omega arith)
