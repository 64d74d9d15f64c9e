-- ===== src/Ingest/Handlers.antt =====
-- massa-indexer/src/ingest.rs: a relation between stores that holds across every write, those of slot
-- rows included, holds across the handlers, however they end.
use massa_history.Base.{ℕ, ◌-◌, ◌==◌, Bool, true, Option, none, some, List}
use massa_history.Model.{Slot, SlotState, SlotStatus, fresh}
use massa_history.Model.Rows.{StoredBlock}
use massa_history.Model.Transfers.{StoredTransfer}
use massa_history.Patch.{or_fresh, touched}
use massa_history.Patch.Parts.{
  stub_if_absent, ensure_parent_stub, apply_finality_to_blocks, write_transfers,
}
use massa_history.Patch.Apply.{is_final}
use massa_history.Reconcile.{reconcile_async_from_transfers, reconcile_deferred_from_transfers}
use massa_history.Db.{
  Db, Libs, pure, ◌>>◌, broadcast, slot_updated, slot_final, block_seen, read_slot, write_slot,
  read_block, write_block,
}
use massa_history.Db.Events.{clear_transfers_for_slot}
use massa_history.Ingest.Messages.{
  FilledBlock, ExecutionOutput, SlotExecutionOutput, NewTransfersInfoServerResponse, PbSlot, Wire,
}
use massa_history.Ingest.Decode.{slot_from_pb}
use massa_history.Ingest.Blocks.{
  Opened, BlockBody, required, open_header, write_endorsements, write_denunciations, ingest_ops,
  entry_ops, block_body, block_row, initial_block_status, with_seen, store_seen, store_block,
  ingest_body, handle_block,
}
use massa_history.Ingest.Exec.{
  exec_row, with_count, with_ops, verdict_row, replace_events, exec_ops, exec_pool, exec_heads,
  exec_tail, exec_on_open, complete_final_exec_from_node, exec_on_final, when, completes, exec_slot,
  exec_as, finality, handle_exec,
}
use massa_history.Ingest.Transfers.{store_row, note_transfers, store_transfers, handle_transfers}
use massa_history.Ingest.Frame.{Along, Passes}
use massa_history.Ingest.Frame

module _ {R : Db → Db → Type 0} (p : Passes R)
    (slot_row : (row : SlotState) → Along R (write_slot row)) where
  stub-Along :
      (slot : Slot) (now_ms : ℕ) (found : Option SlotState)
      → Along R (stub_if_absent slot now_ms found)
  unfolding stub_if_absent
  stub-Along slot now_ms none = slot_row (fresh slot now_ms)
  stub-Along slot now_ms (some row) = Frame.pure-Along p tt

  parent-Along : (slot : Slot) (now_ms : ℕ) → Along R (ensure_parent_stub slot now_ms)
  unfolding ensure_parent_stub read_slot
  parent-Along slot now_ms =
      Frame.if-Along p (slot.period == 0) (pure tt) _ (Frame.pure-Along p tt)
        λ db. stub-Along (record { period = slot.period - 1; thread = slot.thread }) now_ms _ db

  seen-Along :
      (wire : Wire) (now_ms : ℕ) (o : Opened) (body : BlockBody) (row : SlotState)
      (prior : Option StoredBlock)
      → Along R (store_seen wire now_ms o body row prior)
  unfolding store_seen
  seen-Along wire now_ms o body row prior =
      let b = block_row wire now_ms o body (initial_block_status row o.block_id) prior in
      Frame.>>=-Along p (write_block b) _ (p.stored_block b) λ _.
        Frame.>>=-Along p (broadcast (block_seen b)) _ (p.told (block_seen b)) λ _.
          Frame.>>=-Along p (write_slot (with_seen now_ms o.block_id row)) _ (slot_row _) λ _.
            Frame.>>=-Along p (ensure_parent_stub o.slot now_ms) _ (parent-Along o.slot now_ms)
              λ _. p.told _

  stored-Along :
      (wire : Wire) (now_ms : ℕ) (o : Opened) (body : BlockBody)
      → Along R (store_block wire now_ms o body)
  unfolding store_block read_slot read_block
  stored-Along wire now_ms o body db = seen-Along wire now_ms o body _ _ db

  body-Along :
      (wire : Wire) (now_ms : ℕ) (fb : FilledBlock) (o : Opened)
      → Along R (ingest_body wire now_ms fb o)
  unfolding ingest_body
  body-Along wire now_ms fb o =
      let body = block_body wire now_ms fb o in
      let ops = entry_ops wire.libs.b58 fb.operations in
      Frame.>>=-Along p (write_endorsements wire.libs body.endorsements) _
        (Frame.endorsements-Along p wire.libs body.endorsements)
        λ _.
          Frame.>>=-Along p (write_denunciations wire.libs now_ms o body.denunciations) _
            (Frame.denunciations-Along p wire.libs now_ms o body.denunciations)
            λ _.
              Frame.>>=-Along p (ingest_ops wire now_ms o ops) _
                (Frame.ingest_ops-Along p wire now_ms o ops) λ _. stored-Along wire now_ms o body

  pub handle_block-Along :
      (wire : Wire) (now_ms : ℕ) (fb : FilledBlock) → Along R (handle_block wire now_ms fb)
  unfolding handle_block
  handle_block-Along wire now_ms fb =
      Frame.>>=-Along p (open_header wire.libs.b58 fb) _
        (Frame.open_header-Along p wire.libs.b58 fb) λ o. body-Along wire now_ms fb o

  told_row : (row : SlotState) → Along R (do write_slot row; broadcast (slot_updated row))
  told_row row = Frame.>>=-Along p (write_slot row) _ (slot_row row) λ _. p.told (slot_updated row)

  module _ (wire : Wire) (exec : ExecutionOutput) (now_ms : ℕ) where
    complete-Along :
        (state : SlotState) → Along R (complete_final_exec_from_node wire state exec now_ms)
    unfolding complete_final_exec_from_node
    complete-Along state =
        Frame.>>=-Along p (replace_events wire state.slot SlotStatus.final exec.events) _
          (Frame.replace_events-Along p wire state.slot SlotStatus.final exec.events)
          λ count.
            Frame.>>=-Along p (exec_ops wire.libs.b58 exec.state_changes true) _
              (Frame.exec_ops-Along p wire.libs.b58 exec.state_changes true)
              λ ids.
                Frame.>>=-Along p (exec_pool wire.libs state.slot exec.state_changes now_ms) _
                  (Frame.exec_pool-Along p wire.libs state.slot exec.state_changes now_ms)
                  λ _.
                    Frame.>>=-Along p
                      (apply_finality_to_blocks state.final_block_id state.candidate_block_ids) _
                      (Frame.finality-Along p state.final_block_id state.candidate_block_ids)
                      λ _. told_row _

    on_final-Along :
        (final : Bool) (state : SlotState) → Along R (exec_on_final wire final state exec now_ms)
    unfolding exec_on_final
    on_final-Along final state =
        Frame.when-Along p (completes wire.libs.b58 final state exec)
          (complete_final_exec_from_node wire state exec now_ms) (complete-Along state)

    tail-Along :
        (final : Bool) (slot : Slot) (row : SlotState)
        → Along R (exec_tail wire final slot exec now_ms row)
    unfolding exec_tail
    tail-Along final slot row =
        Frame.>>=-Along p (exec_ops wire.libs.b58 exec.state_changes final) _
          (Frame.exec_ops-Along p wire.libs.b58 exec.state_changes final)
          λ ids.
            let last = touched now_ms (with_ops ids row) in
            Frame.>>=-Along p (when final (exec_pool wire.libs slot exec.state_changes now_ms)) _
              (Frame.when-Along p final (exec_pool wire.libs slot exec.state_changes now_ms)
                (Frame.exec_pool-Along p wire.libs slot exec.state_changes now_ms))
              λ _. Frame.>>=-Along p (write_slot last) _ (slot_row last) λ _.
                Frame.>>=-Along p (when final (ensure_parent_stub slot now_ms)) _
                  (Frame.when-Along p final (ensure_parent_stub slot now_ms)
                    (parent-Along slot now_ms))
                  λ _.
                    Frame.>>=-Along p (when final (broadcast (slot_final last))) _
                      (Frame.when-Along p final (broadcast (slot_final last))
                        (p.told (slot_final last)))
                      λ _. p.told (slot_updated last)

    on_open-Along :
        (final : Bool) (slot : Slot) (state : SlotState)
        → Along R (exec_on_open wire final slot state exec now_ms)
    unfolding exec_on_open
    on_open-Along final slot state =
        let status = (exec_row final exec state).status in
        Frame.>>=-Along p (replace_events wire slot status exec.events) _
          (Frame.replace_events-Along p wire slot status exec.events)
          λ count.
            let row =
              verdict_row wire.libs.b58 final exec (with_count count (exec_row final exec state)) in
            Frame.>>=-Along p (exec_heads final slot row) _
              (Frame.exec_heads-Along p final slot row) λ _. tail-Along final slot row

    slot-Along : (final : Bool) (slot : Slot) → Along R (exec_slot wire final slot exec now_ms)
    unfolding exec_slot read_slot
    slot-Along final slot db =
        let state = or_fresh slot now_ms (db.slots slot.period slot.thread) in
        Frame.if-Along p (is_final state.status) (exec_on_final wire final state exec now_ms) _
          (on_final-Along final state) (on_open-Along final slot state) db

    as-Along : (s : PbSlot) (o : Option Bool) → Along R (exec_as wire now_ms exec s o)
    unfolding exec_as
    as-Along s none = Frame.pure-Along p tt
    as-Along s (some final) = slot-Along final (slot_from_pb s)

  pub handle_exec-Along :
      (wire : Wire) (now_ms : ℕ) (out : SlotExecutionOutput) → Along R (handle_exec wire now_ms out)
  unfolding handle_exec
  handle_exec-Along wire now_ms out =
      Frame.>>=-Along p (required out.execution_output) _
        (Frame.required-Along p out.execution_output)
        λ exec.
          Frame.>>=-Along p (required exec.slot) _ (Frame.required-Along p exec.slot)
            λ s. as-Along wire exec now_ms s (finality out.status)

  note-Along :
      (now_ms : ℕ) (slot : Slot) (found : Option SlotState)
      → Along R (note_transfers now_ms slot found)
  unfolding note_transfers store_row
  note-Along now_ms slot none = told_row _
  note-Along now_ms slot (some row) =
      Frame.if-Along p _ (pure tt) _ (Frame.pure-Along p tt) (told_row _)

  rows-Along :
      (libs : Libs) (now_ms : ℕ) (slot : Slot) (rows : List StoredTransfer)
      → Along R (store_transfers libs now_ms slot rows)
  unfolding store_transfers read_slot
  rows-Along libs now_ms slot rows =
      Frame.>>=-Along p (clear_transfers_for_slot libs.b58 slot.period slot.thread) _
        (p.transfers_cleared libs.b58 slot.period slot.thread)
        λ _.
          Frame.>>=-Along p (write_transfers libs rows) _ (Frame.write_transfers-Along p libs rows)
            λ _.
              Frame.>>=-Along p (reconcile_async_from_transfers libs slot rows now_ms) _
                (Frame.messages-Along p libs slot rows now_ms)
                λ _.
                  Frame.>>=-Along p (reconcile_deferred_from_transfers libs slot rows now_ms) _
                    (Frame.calls-Along p libs slot rows now_ms)
                    λ _ db. note-Along now_ms slot (db.slots slot.period slot.thread) db

  pub handle_transfers-Along :
      (libs : Libs) (now_ms : ℕ) (resp : NewTransfersInfoServerResponse)
      → Along R (handle_transfers libs now_ms resp)
  unfolding handle_transfers
  handle_transfers-Along libs now_ms resp =
      Frame.>>=-Along p (required resp.slot) _ (Frame.required-Along p resp.slot)
        λ s. rows-Along libs now_ms (slot_from_pb s) _
