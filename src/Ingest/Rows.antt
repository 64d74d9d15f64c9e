-- ===== src/Ingest/Rows.antt =====
-- massa-indexer/src/ingest.rs: every write of a handler but that of a slot row leaves the slot rows
-- as they are.
use massa_history.Base.{ℕ, Bool, true, false, ◌≡◌, refl, ap, ◌∙◌, Option, none, some}
use massa_history.Base.Result.{Result, ok, err}
use massa_history.Ids.{Text, IdError, OperationId}
use massa_history.Model.{Slot, ExecStatus}
use massa_history.Model.Operations.{StoredOperation}
use massa_history.Model.Transfers.{StoredTransfer}
use massa_history.Backfill.{is_empty}
use massa_history.Patch.Frame.{reconcile_async-Keeps, reconcile_deferred-Keeps}
use massa_history.Patch.Parts.{is_some}
use massa_history.Db.{
  Db, Libs, pure, SlotSseEvent, broadcast, op_seen, read_op, write_op, update_last_final_slot,
  update_last_candidate_slot,
}
use massa_history.Db.Events.{clear_transfers_for_slot, write_transfer}
use massa_history.Db.Calls.{read_async_msg}
use massa_history.Db.Frame.{
  Keeps, >>=-Keeps, if-Keeps, write_op-Keeps, write_block-Keeps, write_endorsement-Keeps,
  write_denunciation-Keeps, write_sc_event-Keeps, clear_sc_events-Keeps, write_async_msg-Keeps,
}
use massa_history.Ingest.Messages.{
  AsyncPoolChangeEntry, AsyncPoolChangeType, AsyncPoolChangeValue, PoolMessage, created_message,
  updated_message, SignedOperation, Wire,
}
use massa_history.Ingest.Pool.{
  pool_kind, pool_set, pool_update, pool_delete, pool_value, pool_change,
}
use massa_history.Ingest.Blocks.{Opened, required, checked, known_op, with_inclusion, ingest_op}
use massa_history.Ingest.Exec.{status_write, status_if_known, executed_op, differs_from}
use massa_history.Ingest.Frame.{Along, Passes}

abbrev pub SameRows : Db → Db → Type 0
SameRows a b = b.slots ≡ a.slots

broadcast-Keeps : (e : SlotSseEvent) → Keeps (broadcast e)
unfolding broadcast
broadcast-Keeps e db = refl

read_op-Keeps : (id : OperationId) → Keeps (read_op id)
unfolding read_op
read_op-Keeps id db = refl

read_async_msg-Keeps : (id : Text) → Keeps (read_async_msg id)
unfolding read_async_msg
read_async_msg-Keeps id db = refl

required-Keeps : {A : Type 0} (o : Option A) → Keeps (required o)
required-Keeps none db = refl
required-Keeps (some a) db = refl

checked-Keeps : {A : Type 0} (r : Result IdError A) → Keeps (checked r)
checked-Keeps (ok a) db = refl
checked-Keeps (err why) db = refl

known_op-Keeps :
    (wire : Wire) (now_ms : ℕ) (slot : Slot) (id : OperationId) (signed : SignedOperation)
    (found : Option StoredOperation)
    → Keeps (known_op wire now_ms slot id signed found)
unfolding known_op
known_op-Keeps wire now_ms slot id signed (some op) = λ db. refl
known_op-Keeps wire now_ms slot id signed none =
    >>=-Keeps (required signed.content) _ (required-Keeps signed.content)
      λ content. >>=-Keeps (checked _) _ (checked-Keeps _) λ creator db. refl

ingest_op-Keeps :
    (wire : Wire) (now_ms : ℕ) (o : Opened) (signed : SignedOperation) (id : OperationId)
    → Keeps (ingest_op wire now_ms o signed id)
unfolding ingest_op
ingest_op-Keeps wire now_ms o signed id = >>=-Keeps (read_op id) _ (read_op-Keeps id) λ found.
    >>=-Keeps (known_op wire now_ms o.slot id signed found) _
      (known_op-Keeps wire now_ms o.slot id signed found)
      λ known.
        >>=-Keeps (write_op (with_inclusion o.block_id o.slot known)) _ (write_op-Keeps _)
          λ _. broadcast-Keeps (op_seen (with_inclusion o.block_id o.slot known))

status_write-Keeps :
    (final : Bool) (new : ExecStatus) (op : StoredOperation) → Keeps (status_write final new op)
unfolding status_write
status_write-Keeps true new op =
    if-Keeps (is_some op.final_exec_status) (pure tt) (write_op _) (λ db. refl) (write_op-Keeps _)
status_write-Keeps false new op =
    if-Keeps (differs_from new op.candidate_exec_status) (write_op _) (pure tt) (write_op-Keeps _)
      λ db. refl

known_status-Keeps :
    (final : Bool) (new : ExecStatus) (found : Option StoredOperation)
    → Keeps (status_if_known final new found)
unfolding status_if_known
known_status-Keeps final new none = λ db. refl
known_status-Keeps final new (some op) = status_write-Keeps final new op

executed_op-Keeps :
    (final : Bool) (new : Option ExecStatus) (id : OperationId) → Keeps (executed_op final new id)
unfolding executed_op
executed_op-Keeps final none id = λ db. refl
executed_op-Keeps final (some new) id =
    >>=-Keeps (read_op id) _ (read_op-Keeps id) (known_status-Keeps final new)

module _ (libs : Libs) (slot : Slot) (now_ms : ℕ) (id : Text) where
  pool_kind-Keeps :
      (kind : Option AsyncPoolChangeType) (message : Option PoolMessage)
      → Keeps (pool_kind libs slot now_ms id kind message)
  unfolding pool_kind pool_set pool_update pool_delete
  pool_kind-Keeps none message = λ db. refl
  pool_kind-Keeps (some AsyncPoolChangeType.unspecified) message = λ db. refl
  pool_kind-Keeps (some AsyncPoolChangeType.set_type) none = λ db. refl
  pool_kind-Keeps (some AsyncPoolChangeType.set_type) (some (updated_message upd)) = λ db. refl
  pool_kind-Keeps (some AsyncPoolChangeType.set_type) (some (created_message msg)) =
      write_async_msg-Keeps libs _
  pool_kind-Keeps (some AsyncPoolChangeType.update_type) none = λ db. refl
  pool_kind-Keeps (some AsyncPoolChangeType.update_type) (some (created_message msg)) = λ db. refl
  pool_kind-Keeps (some AsyncPoolChangeType.update_type) (some (updated_message upd)) =
      >>=-Keeps (read_async_msg id) _ (read_async_msg-Keeps id)
        λ found. write_async_msg-Keeps libs _
  pool_kind-Keeps (some AsyncPoolChangeType.delete_type) message =
      >>=-Keeps (read_async_msg id) _ (read_async_msg-Keeps id)
        λ found. write_async_msg-Keeps libs _

  pool_value-Keeps :
      (value : Option AsyncPoolChangeValue) → Keeps (pool_value libs slot now_ms id value)
  unfolding pool_value
  pool_value-Keeps none = λ db. refl
  pool_value-Keeps (some val) =
      if-Keeps (is_empty id) (pure tt) (pool_kind libs slot now_ms id val.kind val.message)
        (λ db. refl) (pool_kind-Keeps val.kind val.message)

transfer_written : (b58 : _) (t : StoredTransfer) → Along SameRows (write_transfer b58 t)
unfolding write_transfer
transfer_written b58 t db = refl

cleared : (b58 : _) (p t : ℕ) → Along SameRows (clear_transfers_for_slot b58 p t)
unfolding clear_transfers_for_slot
cleared b58 p t db = refl

heads_written : (s : Slot) → Along SameRows (update_last_final_slot s)
unfolding update_last_final_slot
heads_written s db = refl

candidate_written : (s : Slot) → Along SameRows (update_last_candidate_slot s)
unfolding update_last_candidate_slot
candidate_written s db = refl

pool_change-Keeps :
    (libs : Libs) (slot : Slot) (now_ms : ℕ) (e : AsyncPoolChangeEntry)
    → Keeps (pool_change libs slot now_ms e)
unfolding pool_change
pool_change-Keeps libs slot now_ms e = pool_value-Keeps libs slot now_ms e.async_message_id e.value

pub rows_pass : Passes SameRows
rows_pass = record {
  same = λ db. refl;
  joined = λ a b c e f. f ∙ e;
  endorsement = λ libs e db. ap (λ h. h.0) (write_endorsement-Keeps libs e db);
  denunciation = λ libs d db. ap (λ h. h.0) (write_denunciation-Keeps libs d db);
  event = λ ev db. ap (λ h. h.0) (write_sc_event-Keeps ev db);
  events_cleared = λ p t db. ap (λ h. h.0) (clear_sc_events-Keeps p t db);
  transfer = transfer_written;
  transfers_cleared = cleared;
  told = λ e db. ap (λ h. h.0) (broadcast-Keeps e db);
  stored_block = λ b db. ap (λ h. h.0) (write_block-Keeps b db);
  final_head = heads_written;
  candidate_head = candidate_written;
  op_seen =
      λ wire now_ms o signed id db. ap (λ h. h.0) (ingest_op-Keeps wire now_ms o signed id db);
  op_executed = λ final new id db. ap (λ h. h.0) (executed_op-Keeps final new id db);
  pool = λ libs slot now_ms e db. ap (λ h. h.0) (pool_change-Keeps libs slot now_ms e db);
  message = λ libs slot now_ms t db. ap (λ h. h.0) (reconcile_async-Keeps libs slot now_ms t db);
  call = λ libs slot now_ms t db. ap (λ h. h.0) (reconcile_deferred-Keeps libs slot now_ms t db);
}

-- A relation that follows from the slot rows being the same passes too.
pub passes_by_rows :
    (R : Db → Db → Type 0)
    → ((a b : Db) → SameRows a b → R a b)
    → ((a b c : Db) → R a b → R b c → R a c)
    → Passes R
passes_by_rows R from joined = record {
  same = λ db. from db db refl;
  joined = joined;
  endorsement = λ libs e db. from db _ (rows_pass.endorsement libs e db);
  denunciation = λ libs d db. from db _ (rows_pass.denunciation libs d db);
  event = λ ev db. from db _ (rows_pass.event ev db);
  events_cleared = λ p t db. from db _ (rows_pass.events_cleared p t db);
  transfer = λ b58 t db. from db _ (rows_pass.transfer b58 t db);
  transfers_cleared = λ b58 p t db. from db _ (rows_pass.transfers_cleared b58 p t db);
  told = λ e db. from db _ (rows_pass.told e db);
  stored_block = λ b db. from db _ (rows_pass.stored_block b db);
  final_head = λ s db. from db _ (rows_pass.final_head s db);
  candidate_head = λ s db. from db _ (rows_pass.candidate_head s db);
  op_seen = λ wire now_ms o signed id db. from db _ (rows_pass.op_seen wire now_ms o signed id db);
  op_executed = λ final new id db. from db _ (rows_pass.op_executed final new id db);
  pool = λ libs slot now_ms e db. from db _ (rows_pass.pool libs slot now_ms e db);
  message = λ libs slot now_ms t db. from db _ (rows_pass.message libs slot now_ms t db);
  call = λ libs slot now_ms t db. from db _ (rows_pass.call libs slot now_ms t db);
}
