-- ===== src/Ingest/Total.antt =====
-- massa-indexer/src/ingest.rs: the handling of an execution output cannot fail once its slot is known.
use massa_history.Base.{
  ℕ, ◌+◌, ◌%◌, ◌^◌, ◌++◌, Bool, true, false, refl, Option, none, some, List, [], ◌∷◌,
}
use massa_history.Base.Result.{Result, ok, err}
use massa_history.Ids.{Text, IdError, Base58, OperationId, operation, parse, as_bytes}
use massa_history.Model.{Slot, SlotState, SlotStatus, ExecStatus}
use massa_history.Model.Operations.{StoredOperation, StoredScEvent}
use massa_history.Backfill.{is_empty}
use massa_history.Db.{
  Libs, Done, SlotSseEvent, pure, ◌>>=◌, broadcast, event_seen, read_op, write_op,
  update_last_final_slot, update_last_candidate_slot,
}
use massa_history.Db.Events.{write_sc_event, clear_sc_events_for_slot}
use massa_history.Db.Calls.{read_async_msg, write_async_msg}
use massa_history.Db.Total.{Total, >>=-Total, if-Total}
use massa_history.Patch.Parts.{apply_finality_to_blocks, is_some}
use massa_history.Patch.Writes.{finality-Total}
use massa_history.Ingest.Messages.{
  ScExecutionEvent, ExecutedOpsChangeEntry, StateChanges, AsyncPoolChangeEntry, AsyncPoolChangeType,
  AsyncPoolChangeValue, PoolMessage, created_message, updated_message, Wire,
}
use massa_history.Ingest.Pool.{
  pool_kind, pool_set, pool_update, pool_delete, pool_value, pool_change, apply_async_pool_changes,
}
use massa_history.Ingest.Exec.{
  exec_event, write_exec_events, replace_events, status_write, status_if_known, executed_op,
  executed_entry, exec_status, apply_executed_ops_changes, exec_ops, exec_pool, exec_heads, when,
}

pub when-Total : (c : Bool) (act : Done) → Total act → Total (when c act)
when-Total true act h = h
when-Total false act h = λ db. (tt, refl)

event-Total : (ev : StoredScEvent) → Total (write_sc_event ev)
unfolding write_sc_event
event-Total ev db = (tt, refl)

pub told-Total : (e : SlotSseEvent) → Total (broadcast e)
unfolding broadcast
told-Total e db = (tt, refl)

events-Total :
    (wire : Wire) (slot : Slot) (status : SlotStatus) (i : ℕ) (evs : List ScExecutionEvent)
    → Total (write_exec_events wire slot status i evs)
unfolding write_exec_events
events-Total wire slot status i [] = λ db. (i % 2 ^ 32, refl)
events-Total wire slot status i (ev ∷ rest) =
    >>=-Total (write_sc_event (exec_event wire slot status i ev)) _ (event-Total _) λ _.
      >>=-Total (broadcast (event_seen (exec_event wire slot status i ev))) _ (told-Total _)
        λ _. events-Total wire slot status (i + 1) rest

pub replace_events-Total :
    (wire : Wire) (slot : Slot) (status : SlotStatus) (evs : List ScExecutionEvent)
    → Total (replace_events wire slot status evs)
unfolding replace_events clear_sc_events_for_slot
replace_events-Total wire slot status evs =
    >>=-Total (clear_sc_events_for_slot slot.period slot.thread)
      (λ _. write_exec_events wire slot status 0 evs) (λ db. (tt, refl))
      λ _. events-Total wire slot status 0 evs

status-Total :
    (final : Bool) (new : ExecStatus) (found : Option StoredOperation)
    → Total (status_if_known final new found)
unfolding status_if_known status_write write_op
status-Total final new none = λ db. (tt, refl)
status-Total true new (some op) =
    if-Total (is_some op.final_exec_status) (pure tt) (write_op _) (λ db. (tt, refl))
      λ db. (tt, refl)
status-Total false new (some op) =
    if-Total _ (write_op _) (pure tt) (λ db. (tt, refl)) λ db. (tt, refl)

entry-Total :
    (final : Bool) (entry : ExecutedOpsChangeEntry) (r : Result IdError OperationId)
    → Total (executed_entry final entry r)
unfolding executed_entry executed_op read_op
entry-Total final entry (err why) = λ db. ([], refl)
entry-Total final entry (ok op_id) =
    >>=-Total (executed_op final (exec_status entry.value) op_id) (λ _. pure (op_id ∷ []))
      (known final (exec_status entry.value) op_id) λ _ db. (op_id ∷ [], refl)
  where
    known : (f : Bool) (new : Option ExecStatus) (id : OperationId) → Total (executed_op f new id)
    known f none id = λ db. (tt, refl)
    known f (some new) id = λ db. status-Total f new (db.ops (as_bytes id)) db

ops-Total :
    (b58 : Base58) (entries : List ExecutedOpsChangeEntry) (final : Bool)
    → Total (apply_executed_ops_changes b58 entries final)
unfolding apply_executed_ops_changes
ops-Total b58 [] final = λ db. ([], refl)
ops-Total b58 (entry ∷ rest) final =
    >>=-Total (executed_entry final entry (parse b58 operation entry.operation_id))
      (λ seen. apply_executed_ops_changes b58 rest final >>= λ later. pure (seen ++ later))
      (entry-Total final entry (parse b58 operation entry.operation_id))
      λ seen.
        >>=-Total (apply_executed_ops_changes b58 rest final) (λ later. pure (seen ++ later))
          (ops-Total b58 rest final) λ later db. (seen ++ later, refl)

pub exec_ops-Total :
    (b58 : Base58) (changes : Option StateChanges) (final : Bool)
    → Total (exec_ops b58 changes final)
unfolding exec_ops
exec_ops-Total b58 none final = λ db. ([], refl)
exec_ops-Total b58 (some sc) final = ops-Total b58 sc.executed_ops_changes final

module _ (libs : Libs) (slot : Slot) (now_ms : ℕ) where
  kind-Total :
      (id : Text) (kind : Option AsyncPoolChangeType) (message : Option PoolMessage)
      → Total (pool_kind libs slot now_ms id kind message)
  unfolding pool_kind pool_set pool_update pool_delete write_async_msg read_async_msg
  kind-Total id none message = λ db. (tt, refl)
  kind-Total id (some AsyncPoolChangeType.unspecified) message = λ db. (tt, refl)
  kind-Total id (some AsyncPoolChangeType.set_type) none = λ db. (tt, refl)
  kind-Total id (some AsyncPoolChangeType.set_type) (some (updated_message upd)) = λ db. (tt, refl)
  kind-Total id (some AsyncPoolChangeType.set_type) (some (created_message msg)) = λ db. (tt, refl)
  kind-Total id (some AsyncPoolChangeType.update_type) none = λ db. (tt, refl)
  kind-Total id (some AsyncPoolChangeType.update_type) (some (created_message msg)) =
      λ db. (tt, refl)
  kind-Total id (some AsyncPoolChangeType.update_type) (some (updated_message upd)) =
      λ db. (tt, refl)
  kind-Total id (some AsyncPoolChangeType.delete_type) message = λ db. (tt, refl)

  change-Total : (e : AsyncPoolChangeEntry) → Total (pool_change libs slot now_ms e)
  unfolding pool_change pool_value
  change-Total e = by_value e.async_message_id e.value
    where
      by_value :
          (id : Text) (value : Option AsyncPoolChangeValue)
          → Total (pool_value libs slot now_ms id value)
      by_value id none = λ db. (tt, refl)
      by_value id (some val) =
          if-Total (is_empty id) (pure tt) (pool_kind libs slot now_ms id val.kind val.message)
            (λ db. (tt, refl)) (kind-Total id val.kind val.message)

  changes-Total :
      (es : List AsyncPoolChangeEntry) → Total (apply_async_pool_changes libs slot es now_ms)
  unfolding apply_async_pool_changes
  changes-Total [] = λ db. (tt, refl)
  changes-Total (e ∷ rest) =
      >>=-Total (pool_change libs slot now_ms e) _ (change-Total e) λ _. changes-Total rest

  pub exec_pool-Total : (changes : Option StateChanges) → Total (exec_pool libs slot changes now_ms)
  unfolding exec_pool
  exec_pool-Total none = λ db. (tt, refl)
  exec_pool-Total (some sc) = changes-Total sc.async_pool_changes

pub exec_heads-Total :
    (final : Bool) (slot : Slot) (row : SlotState) → Total (exec_heads final slot row)
unfolding exec_heads update_last_final_slot update_last_candidate_slot
exec_heads-Total true slot row =
    >>=-Total (update_last_final_slot slot)
      (λ _. apply_finality_to_blocks row.final_block_id row.candidate_block_ids) (λ db. (tt, refl))
      λ _. finality-Total row.final_block_id row.candidate_block_ids
exec_heads-Total false slot row = λ db. (tt, refl)
