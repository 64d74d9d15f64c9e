-- ===== src/Ingest/Exec.antt =====
-- massa-indexer/src/ingest.rs: `handle_exec` and `complete_final_exec_from_node`.
use massa_history.Base.{
  ℕ, ◌+◌, ◌%◌, ◌^◌, Bool, true, false, not, ◌&&◌, Option, none, some, List, [], ◌∷◌, ◌++◌,
  if◌then◌else◌,
}
use massa_history.Base.Result.{Result, ok, err}
use massa_history.Ids.{Text, Base58, BlockId, OperationId, IdError, block, operation, parse}
use massa_history.Model.{Slot, SlotState, SlotStatus, ExecStatus}
use massa_history.Model.Operations.{StoredOperation, StoredScEvent}
use massa_history.Arbiter.{option_eq}
use massa_history.Backfill.{is_empty}
use massa_history.Reconcile.{ok_of}
use massa_history.Db.{
  Libs, Action, Done, pure, ◌>>=◌, ◌>>◌, read_slot, write_slot, read_op, write_op, broadcast,
  slot_updated, slot_final, event_seen, update_last_final_slot, update_last_candidate_slot,
}
use massa_history.Db.Events.{write_sc_event, clear_sc_events_for_slot}
use massa_history.Patch.{or_fresh, touched}
use massa_history.Patch.Parts.{apply_finality_to_blocks, ensure_parent_stub, is_some}
use massa_history.Patch.Apply.{is_final, or_old, trails_differ}
use massa_history.Ingest.Messages.{
  ExecutedOpsChangeEntry, OperationExecutionStatus, ScExecutionEvent, StateChanges, ExecutionOutput,
  ExecutionOutputStatus, SlotExecutionOutput, PbSlot, Wire,
}
use massa_history.Ingest.Decode.{slot_from_pb, extract_event_context, stringify_bytes}
use massa_history.Ingest.Blocks.{required}
use massa_history.Ingest.Pool.{changed, apply_async_pool_changes}

unfoldable pub trail_of : Option StateChanges → Option Text
trail_of none = none
trail_of (some sc) = changed some sc.execution_trail_hash_change none

unfoldable pub exec_event : Wire → Slot → SlotStatus → ℕ → ScExecutionEvent → StoredScEvent
exec_event wire slot status i ev =
    let c = extract_event_context wire.libs.b58 ev in
    record {
      slot = slot;
      index_in_slot = i % 2 ^ 32;
      text = stringify_bytes wire ev.payload;
      emitter_addrs = c.emitters;
      caller_addrs = c.callers;
      status = status;
      op_id = c.op_id;
    }

-- The events from the index `i` on. The count wraps as a u32 does.
unfoldable pub write_exec_events : Wire → Slot → SlotStatus → ℕ → List ScExecutionEvent → Action ℕ
write_exec_events wire slot status i [] = pure (i % 2 ^ 32)
write_exec_events wire slot status i (ev ∷ rest) = do
  write_sc_event (exec_event wire slot status i ev)
  broadcast (event_seen (exec_event wire slot status i ev))
  write_exec_events wire slot status (i + 1) rest

unfoldable pub replace_events : Wire → Slot → SlotStatus → List ScExecutionEvent → Action ℕ
replace_events wire slot status events = do
  clear_sc_events_for_slot slot.period slot.thread
  write_exec_events wire slot status 0 events

abbrev pub exec_status : Option (Option OperationExecutionStatus) → Option ExecStatus
exec_status (some (some OperationExecutionStatus.success)) = some ExecStatus.ok
exec_status (some (some OperationExecutionStatus.failed)) = some ExecStatus.failed
exec_status _ = none

abbrev exec_status_eq : ExecStatus → ExecStatus → Bool
exec_status_eq ExecStatus.ok ExecStatus.ok = true
exec_status_eq ExecStatus.failed ExecStatus.failed = true
exec_status_eq _ _ = false

-- `candidate_exec_status != Some(new)`
abbrev pub differs_from : ExecStatus → Option ExecStatus → Bool
differs_from new none = true
differs_from new (some old) = not (exec_status_eq old new)

-- The first FINAL status stays; a candidate status is the latest.
unfoldable pub status_write : Bool → ExecStatus → StoredOperation → Done
status_write true new op =
    if is_some op.final_exec_status
    then pure tt
    else write_op (record op { final_exec_status = some new; candidate_exec_status = some new })
status_write false new op =
    if differs_from new op.candidate_exec_status
    then write_op (record op { candidate_exec_status = some new })
    else pure tt

unfoldable pub status_if_known : Bool → ExecStatus → Option StoredOperation → Done
status_if_known is_final new none = pure tt
status_if_known is_final new (some op) = status_write is_final new op

unfoldable pub executed_op : Bool → Option ExecStatus → OperationId → Done
unfolding status_if_known
executed_op is_final none op_id = pure tt
executed_op is_final (some new) op_id = do found ← read_op op_id; status_if_known is_final new found

-- An entry whose operation does not parse is passed over.
unfoldable pub executed_entry :
    Bool → ExecutedOpsChangeEntry → Result IdError OperationId → Action (List OperationId)
executed_entry is_final entry (err why) = pure []
executed_entry is_final entry (ok op_id) = do
  executed_op is_final (exec_status entry.value) op_id
  pure (op_id ∷ [])

unfoldable pub apply_executed_ops_changes :
    Base58 → List ExecutedOpsChangeEntry → Bool → Action (List OperationId)
apply_executed_ops_changes b58 [] is_final = pure []
apply_executed_ops_changes b58 (entry ∷ rest) is_final = do
  seen ← executed_entry is_final entry (parse b58 operation entry.operation_id)
  later ← apply_executed_ops_changes b58 rest is_final
  pure (seen ++ later)

unfoldable pub exec_ops : Base58 → Option StateChanges → Bool → Action (List OperationId)
exec_ops b58 none is_final = pure []
exec_ops b58 (some sc) is_final = apply_executed_ops_changes b58 sc.executed_ops_changes is_final

unfoldable pub exec_pool : Libs → Slot → Option StateChanges → ℕ → Done
exec_pool libs slot none now_ms = pure tt
exec_pool libs slot (some sc) now_ms =
    apply_async_pool_changes libs slot sc.async_pool_changes now_ms

-- `if !ids.is_empty() && state.executed_op_ids.is_empty() { .. }`
unfoldable pub with_ops : List OperationId → SlotState → SlotState
with_ops ids row = record row {
  executed_op_ids = if is_empty row.executed_op_ids then ids else row.executed_op_ids;
}

abbrev pub with_count : ℕ → SlotState → SlotState
with_count n row = record row { sc_event_count = n }

-- The FINAL row with what its verdict lacked.
unfoldable pub completed_row : ExecutionOutput → ℕ → ℕ → List OperationId → SlotState → SlotState
completed_row exec now_ms count ids row = touched now_ms (
    with_ops ids (record row {
      execution_trail_hash = or_old row.execution_trail_hash (trail_of exec.state_changes);
      sc_event_count = count;
      completeness = record row.completeness { exec_output_final = true };
    }))

unfoldable pub complete_final_exec_from_node : Wire → SlotState → ExecutionOutput → ℕ → Done
complete_final_exec_from_node wire state exec now_ms = do
  count ← replace_events wire state.slot SlotStatus.final exec.events
  ids ← exec_ops wire.libs.b58 exec.state_changes true
  exec_pool wire.libs state.slot exec.state_changes now_ms
  apply_finality_to_blocks state.final_block_id state.candidate_block_ids
  write_slot (completed_row exec now_ms count ids state)
  broadcast (slot_updated (completed_row exec now_ms count ids state))

unfoldable pub node_block : Base58 → ExecutionOutput → Option BlockId
node_block b58 exec = elim exec.block_id [ none ↦ none | some s ↦ ok_of (parse b58 block s) ]

abbrev blocks_agree : Option BlockId → Option BlockId → Bool
blocks_agree a b = option_eq a b

-- `state.is_miss == exec.block_id.is_none() && (state.is_miss || node_block == final_block_id)`
unfoldable pub node_agrees : Base58 → ExecutionOutput → SlotState → Bool
node_agrees b58 exec state =
    if state.is_miss
    then not (is_some exec.block_id)
    else is_some exec.block_id && blocks_agree (node_block b58 exec) state.final_block_id

-- `if c { act }`
abbrev pub when : Bool → Done → Done
when true act = act
when false act = pure tt

-- None of the early returns is taken.
unfoldable pub completes : Base58 → Bool → SlotState → ExecutionOutput → Bool
completes b58 final state exec =
    final
    && (not (trails_differ state.execution_trail_hash (trail_of exec.state_changes))
        && (node_agrees b58 exec state && not state.completeness.exec_output_final))

-- A slot that is FINAL already takes only what its verdict lacks.
unfoldable pub exec_on_final : Wire → Bool → SlotState → ExecutionOutput → ℕ → Done
exec_on_final wire final state exec now_ms =
    when (completes wire.libs.b58 final state exec)
      (complete_final_exec_from_node wire state exec now_ms)

-- The row with its status and trail.
unfoldable pub exec_row : Bool → ExecutionOutput → SlotState → SlotState
exec_row final exec state = record state {
  status = if final then SlotStatus.final else SlotStatus.candidate;
  execution_trail_hash = or_old (trail_of exec.state_changes) state.execution_trail_hash;
}

-- The row with the node's verdict, or as a candidate.
unfoldable pub verdict_row : Base58 → Bool → ExecutionOutput → SlotState → SlotState
verdict_row b58 true exec state = record state {
  completeness = record state.completeness { exec_output_final = true };
  is_miss = not (is_some exec.block_id);
  final_block_id = or_old (node_block b58 exec) state.final_block_id;
}
verdict_row b58 false exec state = record state {
  completeness = record state.completeness { exec_output_candidate = true };
}

unfoldable pub exec_heads : Bool → Slot → SlotState → Done
exec_heads true slot state = do
  update_last_final_slot slot
  apply_finality_to_blocks state.final_block_id state.candidate_block_ids
exec_heads false slot state = update_last_candidate_slot slot

unfoldable pub exec_tail : Wire → Bool → Slot → ExecutionOutput → ℕ → SlotState → Done
exec_tail wire final slot exec now_ms row = do
  ids ← exec_ops wire.libs.b58 exec.state_changes final
  when final (exec_pool wire.libs slot exec.state_changes now_ms)
  write_slot (touched now_ms (with_ops ids row))
  when final (ensure_parent_stub slot now_ms)
  when final (broadcast (slot_final (touched now_ms (with_ops ids row))))
  broadcast (slot_updated (touched now_ms (with_ops ids row)))

unfoldable pub exec_on_open : Wire → Bool → Slot → SlotState → ExecutionOutput → ℕ → Done
exec_on_open wire final slot state exec now_ms = do
  count ← replace_events wire slot (exec_row final exec state).status exec.events
  let row : SlotState =
      verdict_row wire.libs.b58 final exec (with_count count (exec_row final exec state))
  exec_heads final slot row
  exec_tail wire final slot exec now_ms row

unfoldable pub exec_slot : Wire → Bool → Slot → ExecutionOutput → ℕ → Done
exec_slot wire final slot exec now_ms = do
  found ← read_slot slot.period slot.thread
  let state = or_fresh slot now_ms found
  (if is_final state.status
      then exec_on_final wire final state exec now_ms
      else exec_on_open wire final slot state exec now_ms)

-- `Some(true)` for FINAL, `Some(false)` for CANDIDATE; the rest is ignored.
abbrev pub finality : ExecutionOutputStatus → Option Bool
finality ExecutionOutputStatus.final = some true
finality ExecutionOutputStatus.candidate = some false
finality _ = none

unfoldable pub exec_as : Wire → ℕ → ExecutionOutput → PbSlot → Option Bool → Done
exec_as wire now_ms exec s none = pure tt
exec_as wire now_ms exec s (some final) = exec_slot wire final (slot_from_pb s) exec now_ms

unfoldable pub handle_exec : Wire → ℕ → SlotExecutionOutput → Done
unfolding exec_as
handle_exec wire now_ms outer = do
  exec ← required outer.execution_output
  slot ← required exec.slot
  exec_as wire now_ms exec slot (finality outer.status)
