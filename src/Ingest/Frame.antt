-- ===== src/Ingest/Frame.antt =====
-- massa-indexer/src/ingest.rs: a relation between stores that holds across every write of a handler but
-- the one of the slot row holds across its parts.
use massa_history.Base.{
  ℕ, ◌+◌, ◌%◌, ◌^◌, ◌++◌, Bool, true, false, Option, none, some, List, [], ◌∷◌, if◌then◌else◌,
}
use massa_history.Base.Result.{Result, ok, err}
use massa_history.Error.{Error}
use massa_history.Ids.{IdError, Base58, BlockId, OperationId, operation, block, parse, as_bytes}
use massa_history.Model.{Slot, SlotStatus, BlockStatus, ExecStatus, SlotState}
use massa_history.Model.Rows.{StoredBlock, StoredEndorsement, StoredDenunciation}
use massa_history.Model.Operations.{StoredScEvent}
use massa_history.Model.Transfers.{StoredTransfer}
use massa_history.Db.{
  Db, Libs, Action, Done, pure, continue, ◌>>=◌, SlotSseEvent, broadcast, read_block, write_block,
  write_endorsement, write_denunciation, update_last_final_slot, update_last_candidate_slot,
  event_seen,
}
use massa_history.Db.Events.{
  write_sc_event, clear_sc_events_for_slot, write_transfer, clear_transfers_for_slot,
}
use massa_history.Patch.Parts.{
  set_status, mark, mark_candidates, mark_uncounted, apply_finality_to_blocks, verdict_on, forgiven,
  denunciation_entry, write_transfers,
}
use massa_history.Reconcile.{
  reconcile_async, reconcile_async_from_transfers, reconcile_deferred,
  reconcile_deferred_from_transfers,
}
use massa_history.Ingest.Messages.{
  ScExecutionEvent, ExecutedOpsChangeEntry, StateChanges, AsyncPoolChangeEntry, SignedOperation,
  FilledBlock, Wire,
}
use massa_history.Ingest.Pool.{pool_change, apply_async_pool_changes}
use massa_history.Ingest.Blocks.{
  Opened, required, checked, open_header, write_endorsements, write_denunciations, ingest_op,
  ingest_ops,
}
use massa_history.Ingest.Exec.{
  exec_event, write_exec_events, replace_events, executed_op, exec_status, executed_entry, when,
  apply_executed_ops_changes, exec_ops, exec_pool, exec_heads,
}

abbrev pub Along : {A : Type 0} → (Db → Db → Type 0) → Action A → Type 0
Along R act = (db : Db) → R db (act db).1

-- The writes that a relation holds across, and that it can be put together.
pub record Passes (R : Db → Db → Type 0) : Type 0 where
  pub same : (db : Db) → R db db
  pub joined : (a b c : Db) → R a b → R b c → R a c
  pub endorsement : (libs : Libs) (e : StoredEndorsement) → Along R (write_endorsement libs e)
  pub denunciation : (libs : Libs) (d : _) → Along R (write_denunciation libs d)
  pub event : (ev : StoredScEvent) → Along R (write_sc_event ev)
  pub events_cleared : (p t : ℕ) → Along R (clear_sc_events_for_slot p t)
  pub transfer : (b58 : Base58) (t : StoredTransfer) → Along R (write_transfer b58 t)
  pub transfers_cleared : (b58 : Base58) (p t : ℕ) → Along R (clear_transfers_for_slot b58 p t)
  pub told : (e : SlotSseEvent) → Along R (broadcast e)
  pub stored_block : (b : StoredBlock) → Along R (write_block b)
  pub final_head : (s : Slot) → Along R (update_last_final_slot s)
  pub candidate_head : (s : Slot) → Along R (update_last_candidate_slot s)
  pub op_seen :
      (wire : Wire) (now_ms : ℕ) (o : Opened) (signed : SignedOperation) (id : OperationId)
      → Along R (ingest_op wire now_ms o signed id)
  pub op_executed :
      (final : Bool) (new : Option ExecStatus) (id : OperationId)
      → Along R (executed_op final new id)
  pub pool :
      (libs : Libs) (slot : Slot) (now_ms : ℕ) (e : AsyncPoolChangeEntry)
      → Along R (pool_change libs slot now_ms e)
  pub message :
      (libs : Libs) (slot : Slot) (now_ms : ℕ) (t : StoredTransfer)
      → Along R (reconcile_async libs slot now_ms t)
  pub call :
      (libs : Libs) (slot : Slot) (now_ms : ℕ) (t : StoredTransfer)
      → Along R (reconcile_deferred libs slot now_ms t)

module _ {R : Db → Db → Type 0} (p : Passes R) where
  continue-Along :
      {A B : Type 0} (before : Db) (r : Result Error A) (now : Db) (next : A → Action B)
      → R before now
      → ((a : A) → Along R (next a))
      → R before (continue r next now).1
  continue-Along before (ok a) now next h k = p.joined before now (next a now).1 h (k a now)
  continue-Along before (err why) now next h k = h

  pub >>=-Along :
      {A B : Type 0} (act : Action A) (next : A → Action B)
      → Along R act
      → ((a : A) → Along R (next a))
      → Along R (act >>= next)
  >>=-Along act next h k db = continue-Along db (act db).0 (act db).1 next (h db) k

  pub if-Along :
      {A : Type 0} (c : Bool) (x y : Action A)
      → Along R x
      → Along R y
      → Along R (λ db. (if c then x else y) db)
  if-Along true x y h k = h
  if-Along false x y h k = k

  pub pure-Along : {A : Type 0} (a : A) → Along R (pure a)
  pure-Along a db = p.same db

  pub when-Along : (c : Bool) (act : Done) → Along R act → Along R (when c act)
  when-Along true act h = h
  when-Along false act h = p.same

  pub required-Along : {A : Type 0} (o : Option A) → Along R (required o)
  required-Along none db = p.same db
  required-Along (some a) db = p.same db

  pub checked-Along : {A : Type 0} (r : Result IdError A) → Along R (checked r)
  checked-Along (ok a) db = p.same db
  checked-Along (err why) db = p.same db

  pub open_header-Along : (b58 : Base58) (fb : FilledBlock) → Along R (open_header b58 fb)
  unfolding open_header
  open_header-Along b58 fb = >>=-Along (required fb.header) _ (required-Along fb.header) λ header.
      >>=-Along (required header.content) _ (required-Along header.content) λ content.
        >>=-Along _ _
          (if-Along _ _ (checked (parse b58 block header.secure_hash)) p.same
            (checked-Along (parse b58 block header.secure_hash)))
          λ block_id.
            >>=-Along (required content.slot) _ (required-Along content.slot)
              λ slot. >>=-Along (checked _) _ (checked-Along _) λ creator db. p.same db

  pub endorsements-Along :
      (libs : Libs) (es : List StoredEndorsement) → Along R (write_endorsements libs es)
  unfolding write_endorsements
  endorsements-Along libs [] = pure-Along tt
  endorsements-Along libs (e ∷ rest) =
      >>=-Along (write_endorsement libs e) _ (p.endorsement libs e)
        λ _. endorsements-Along libs rest

  pub denunciations-Along :
      (libs : Libs) (now_ms : ℕ) (o : Opened) (ds : List StoredDenunciation)
      → Along R (write_denunciations libs now_ms o ds)
  unfolding write_denunciations
  denunciations-Along libs now_ms o [] = pure-Along tt
  denunciations-Along libs now_ms o (d ∷ rest) =
      >>=-Along
        (forgiven (
          write_denunciation libs
            (record (denunciation_entry libs now_ms o.block_id d) { included_slot = some o.slot })))
        (λ _. write_denunciations libs now_ms o rest) (λ db. p.denunciation libs _ db)
        λ _. denunciations-Along libs now_ms o rest

  pub ingest_ops-Along :
      (wire : Wire) (now_ms : ℕ) (o : Opened) (ops : List (SignedOperation × OperationId))
      → Along R (ingest_ops wire now_ms o ops)
  unfolding ingest_ops
  ingest_ops-Along wire now_ms o [] = pure-Along tt
  ingest_ops-Along wire now_ms o ((signed, id) ∷ rest) =
      >>=-Along (ingest_op wire now_ms o signed id) _ (p.op_seen wire now_ms o signed id)
        λ _. ingest_ops-Along wire now_ms o rest

  exec_events-Along :
      (wire : Wire) (slot : Slot) (status : SlotStatus) (i : ℕ) (evs : List ScExecutionEvent)
      → Along R (write_exec_events wire slot status i evs)
  unfolding write_exec_events
  exec_events-Along wire slot status i [] = pure-Along (i % 2 ^ 32)
  exec_events-Along wire slot status i (ev ∷ rest) =
      >>=-Along (write_sc_event (exec_event wire slot status i ev)) _ (p.event _) λ _.
        >>=-Along (broadcast (event_seen (exec_event wire slot status i ev))) _ (p.told _)
          λ _. exec_events-Along wire slot status (i + 1) rest

  pub replace_events-Along :
      (wire : Wire) (slot : Slot) (status : SlotStatus) (evs : List ScExecutionEvent)
      → Along R (replace_events wire slot status evs)
  unfolding replace_events
  replace_events-Along wire slot status evs =
      >>=-Along (clear_sc_events_for_slot slot.period slot.thread) _
        (p.events_cleared slot.period slot.thread) λ _. exec_events-Along wire slot status 0 evs

  executed_entry-Along :
      (final : Bool) (entry : ExecutedOpsChangeEntry) (r : Result IdError OperationId)
      → Along R (executed_entry final entry r)
  unfolding executed_entry
  executed_entry-Along final entry (err why) = pure-Along {A = List OperationId} []
  executed_entry-Along final entry (ok op_id) =
      >>=-Along (executed_op final (exec_status entry.value) op_id) (λ _. pure (op_id ∷ []))
        (p.op_executed final (exec_status entry.value) op_id) λ _. pure-Along (op_id ∷ [])

  executed_ops-Along :
      (b58 : Base58) (entries : List ExecutedOpsChangeEntry) (final : Bool)
      → Along R (apply_executed_ops_changes b58 entries final)
  unfolding apply_executed_ops_changes
  executed_ops-Along b58 [] final = pure-Along {A = List OperationId} []
  executed_ops-Along b58 (entry ∷ rest) final =
      >>=-Along (executed_entry final entry (parse b58 operation entry.operation_id))
        (λ seen. apply_executed_ops_changes b58 rest final >>= λ later. pure (seen ++ later))
        (executed_entry-Along final entry (parse b58 operation entry.operation_id))
        λ seen.
          >>=-Along (apply_executed_ops_changes b58 rest final) (λ later. pure (seen ++ later))
            (executed_ops-Along b58 rest final) λ later. pure-Along (seen ++ later)

  pub exec_ops-Along :
      (b58 : Base58) (changes : Option StateChanges) (final : Bool)
      → Along R (exec_ops b58 changes final)
  unfolding exec_ops
  exec_ops-Along b58 none final = pure-Along {A = List OperationId} []
  exec_ops-Along b58 (some sc) final = executed_ops-Along b58 sc.executed_ops_changes final

  pool_changes-Along :
      (libs : Libs) (slot : Slot) (es : List AsyncPoolChangeEntry) (now_ms : ℕ)
      → Along R (apply_async_pool_changes libs slot es now_ms)
  unfolding apply_async_pool_changes
  pool_changes-Along libs slot [] now_ms = pure-Along tt
  pool_changes-Along libs slot (e ∷ rest) now_ms =
      >>=-Along (pool_change libs slot now_ms e) _ (p.pool libs slot now_ms e)
        λ _. pool_changes-Along libs slot rest now_ms

  pub exec_pool-Along :
      (libs : Libs) (slot : Slot) (changes : Option StateChanges) (now_ms : ℕ)
      → Along R (exec_pool libs slot changes now_ms)
  unfolding exec_pool
  exec_pool-Along libs slot none now_ms = pure-Along tt
  exec_pool-Along libs slot (some sc) now_ms =
      pool_changes-Along libs slot sc.async_pool_changes now_ms

  set_status-Along :
      (status : BlockStatus) (found : Option StoredBlock) → Along R (set_status status found)
  unfolding set_status
  set_status-Along status none = pure-Along tt
  set_status-Along status (some b) =
      if-Along _ (pure tt) (write_block (record b { status = status })) (pure-Along tt)
        (p.stored_block (record b { status = status }))

  mark-Along : (status : BlockStatus) (bid : BlockId) → Along R (mark status bid)
  unfolding mark read_block
  mark-Along status bid db = set_status-Along status (db.blocks (as_bytes bid)) db

  candidates-Along :
      (winner : Option BlockId) (bids : List BlockId) → Along R (mark_candidates winner bids)
  unfolding mark_candidates
  candidates-Along winner [] = pure-Along tt
  candidates-Along winner (bid ∷ rest) =
      >>=-Along (mark (verdict_on winner bid) bid) _ (mark-Along (verdict_on winner bid) bid)
        λ _. candidates-Along winner rest

  uncounted-Along :
      (winner : Option BlockId) (bids : List BlockId) → Along R (mark_uncounted winner bids)
  unfolding mark_uncounted
  uncounted-Along none bids = pure-Along tt
  uncounted-Along (some bid) bids =
      if-Along _ (pure tt) (mark BlockStatus.final bid) (pure-Along tt)
        (mark-Along BlockStatus.final bid)

  pub finality-Along :
      (winner : Option BlockId) (bids : List BlockId)
      → Along R (apply_finality_to_blocks winner bids)
  unfolding apply_finality_to_blocks
  finality-Along winner bids =
      >>=-Along (mark_candidates winner bids) _ (candidates-Along winner bids)
        λ _. uncounted-Along winner bids

  pub exec_heads-Along :
      (final : Bool) (slot : Slot) (row : SlotState) → Along R (exec_heads final slot row)
  unfolding exec_heads
  exec_heads-Along true slot row =
      >>=-Along (update_last_final_slot slot) _ (p.final_head slot)
        λ _. finality-Along row.final_block_id row.candidate_block_ids
  exec_heads-Along false slot row = p.candidate_head slot

  pub write_transfers-Along :
      (libs : Libs) (rows : List StoredTransfer) → Along R (write_transfers libs rows)
  unfolding write_transfers
  write_transfers-Along libs [] = pure-Along tt
  write_transfers-Along libs (t ∷ rest) =
      >>=-Along (write_transfer libs.b58 t) _ (p.transfer libs.b58 t)
        λ _. write_transfers-Along libs rest

  pub messages-Along :
      (libs : Libs) (slot : Slot) (rows : List StoredTransfer) (now_ms : ℕ)
      → Along R (reconcile_async_from_transfers libs slot rows now_ms)
  unfolding reconcile_async_from_transfers
  messages-Along libs slot [] now_ms = pure-Along tt
  messages-Along libs slot (t ∷ rest) now_ms =
      >>=-Along (reconcile_async libs slot now_ms t) _ (p.message libs slot now_ms t)
        λ _. messages-Along libs slot rest now_ms

  pub calls-Along :
      (libs : Libs) (slot : Slot) (rows : List StoredTransfer) (now_ms : ℕ)
      → Along R (reconcile_deferred_from_transfers libs slot rows now_ms)
  unfolding reconcile_deferred_from_transfers
  calls-Along libs slot [] now_ms = pure-Along tt
  calls-Along libs slot (t ∷ rest) now_ms =
      >>=-Along (reconcile_deferred libs slot now_ms t) _ (p.call libs slot now_ms t)
        λ _. calls-Along libs slot rest now_ms
