-- ===== src/Ingest/VerdictExec.antt =====
-- massa-indexer/src/ingest.rs: what an execution output does to a slot, as a reader sees it.
use massa_history.Base.{
  ℕ, Bool, true, false, ◌≡◌, refl, ap, sym, Option, none, some, List, if◌then◌else◌,
}
use massa_history.Ids.{OperationId}
use massa_history.Model.{Slot, SlotState, SlotStatus}
use massa_history.Db.{Done, pure, write_slot, read_slot, broadcast, slot_updated, slot_final}
use massa_history.Patch.{or_fresh, touched}
use massa_history.Patch.Apply.{is_final}
use massa_history.Patch.Parts.{ensure_parent_stub, apply_finality_to_blocks}
use massa_history.Ingest.Messages.{ExecutionOutput, SlotExecutionOutput, PbSlot, Wire}
use massa_history.Ingest.Decode.{slot_from_pb}
use massa_history.Ingest.Blocks.{required}
use massa_history.Ingest.Exec.{
  trail_of, completed_row, exec_row, with_count, with_ops, verdict_row, replace_events, exec_ops,
  exec_pool, exec_heads, exec_tail, exec_on_open, complete_final_exec_from_node, exec_on_final,
  when, completes, exec_slot, exec_as, finality, handle_exec,
}
use massa_history.Ingest.Frame
use massa_history.Ingest.Rows.{rows_pass}
use massa_history.Ingest.Moves.{view, Moves}
use massa_history.Ingest.Refines.{
  Rows, Placed, From, Allowed, pure-From, keeps-then, then-Allowed, >>=-Allowed, keeps-Allowed,
  parent_stub-Allowed,
}
use massa_history.Ingest.Verdict.{
  AtOwn, rewritten, told_row-From, loaded, told-Moves, open-Moves, final-Moves,
}

module _ (rows : Rows) (placed : Placed rows) where
  when-From : (c : Bool) (act : Done) → From rows act → From rows (when c act)
  when-From true act h = h
  when-From false act h = pure-From rows tt

  when-Allowed : (c : Bool) (act : Done) → Allowed act → Allowed (when c act)
  when-Allowed true act h = h
  when-Allowed false act h = keeps-Allowed (pure tt) (Frame.pure-Along rows_pass tt)

  module _ (wire : Wire) (exec : ExecutionOutput) (now_ms : ℕ) where
    complete-From :
        (row : SlotState)
        → AtOwn rows placed row
        → is_final row.status ≡ true
        → From rows (complete_final_exec_from_node wire row exec now_ms)
    unfolding complete_final_exec_from_node completed_row view with_ops
    complete-From row l fin =
        keeps-then rows (replace_events wire row.slot SlotStatus.final exec.events) _
          (Frame.replace_events-Along rows_pass wire row.slot SlotStatus.final exec.events)
          λ count.
            keeps-then rows (exec_ops wire.libs.b58 exec.state_changes true) _
              (Frame.exec_ops-Along rows_pass wire.libs.b58 exec.state_changes true)
              λ ids.
                keeps-then rows (exec_pool wire.libs row.slot exec.state_changes now_ms) _
                  (Frame.exec_pool-Along rows_pass wire.libs row.slot exec.state_changes now_ms)
                  λ _.
                    keeps-then rows
                      (apply_finality_to_blocks row.final_block_id row.candidate_block_ids) _
                      (Frame.finality-Along rows_pass row.final_block_id row.candidate_block_ids)
                      λ _.
                        told_row-From rows placed row (completed_row exec now_ms count ids row) l
                          refl
                          (final-Moves row (completed_row exec now_ms count ids row) row.status fin
                            (told-Moves row.is_miss row.final_block_id row.execution_trail_hash
                              (trail_of exec.state_changes)))

    on_final-From :
        (final : Bool) (row : SlotState)
        → AtOwn rows placed row
        → is_final row.status ≡ true
        → From rows (exec_on_final wire final row exec now_ms)
    unfolding exec_on_final
    on_final-From final row l fin =
        when-From (completes wire.libs.b58 final row exec)
          (complete_final_exec_from_node wire row exec now_ms) (complete-From row l fin)

    tail-From :
        (final : Bool) (slot : Slot) (row now : SlotState)
        → AtOwn rows placed row
        → now.slot ≡ row.slot
        → ((ids : List OperationId)
            → Moves (view (some row)) (view (some (touched now_ms (with_ops ids now)))))
        → From rows (exec_tail wire final slot exec now_ms now)
    unfolding exec_tail with_ops
    tail-From final slot row now l same m =
        keeps-then rows (exec_ops wire.libs.b58 exec.state_changes final) _
          (Frame.exec_ops-Along rows_pass wire.libs.b58 exec.state_changes final)
          λ ids.
            let last = touched now_ms (with_ops ids now) in
            let final_told = broadcast (slot_final last) in
            keeps-then rows (when final (exec_pool wire.libs slot exec.state_changes now_ms)) _
              (Frame.when-Along rows_pass final (exec_pool wire.libs slot exec.state_changes now_ms)
                (Frame.exec_pool-Along rows_pass wire.libs slot exec.state_changes now_ms))
              λ _.
                then-Allowed rows (write_slot last) _
                  (rewritten rows placed row last l same (m ids))
                  λ _.
                    >>=-Allowed (when final (ensure_parent_stub slot now_ms)) _
                      (when-Allowed final (ensure_parent_stub slot now_ms)
                        (parent_stub-Allowed slot now_ms))
                      λ _.
                        >>=-Allowed (when final final_told) _
                          (when-Allowed final final_told
                            (keeps-Allowed final_told (rows_pass.told (slot_final last))))
                          λ _.
                            keeps-Allowed (broadcast (slot_updated last))
                              (rows_pass.told (slot_updated last))

    on_open-From :
        (final : Bool) (slot : Slot) (row : SlotState)
        → AtOwn rows placed row
        → is_final row.status ≡ false
        → From rows (exec_on_open wire final slot row exec now_ms)
    unfolding exec_on_open verdict_row exec_row with_ops view
    on_open-From final slot row l e =
        let status = (exec_row final exec row).status in
        keeps-then rows (replace_events wire slot status exec.events) _
          (Frame.replace_events-Along rows_pass wire slot status exec.events)
          λ count.
            let now =
              verdict_row wire.libs.b58 final exec (with_count count (exec_row final exec row)) in
            keeps-then rows (exec_heads final slot now) _
              (Frame.exec_heads-Along rows_pass final slot now)
              λ _. tail-From final slot row now l (same final count) (moved final count)
      where
        same :
            (f : Bool) (count : ℕ)
            → (verdict_row wire.libs.b58 f exec (with_count count (exec_row f exec row))).slot
              ≡ row.slot
        same true count = refl
        same false count = refl

        last : Bool → ℕ → List OperationId → SlotState
        last f count ids = touched now_ms (
            with_ops ids
              (verdict_row wire.libs.b58 f exec (with_count count (exec_row f exec row))))

        moved :
            (f : Bool) (count : ℕ) (ids : List OperationId)
            → Moves (view (some row)) (
                view (
                  some (
                    touched now_ms (
                      with_ops ids (
                        verdict_row wire.libs.b58 f exec
                          (with_count count (exec_row f exec row)))))))
        moved true count ids = open-Moves row (last true count ids) row.status true e
        moved false count ids = open-Moves row (last false count ids) row.status false e

    slot-From : (final : Bool) (slot : Slot) → From rows (exec_slot wire final slot exec now_ms)
    unfolding exec_slot read_slot AtOwn
    slot-From final slot db e =
        let found = db.slots slot.period slot.thread in
        let row = or_fresh slot now_ms found in
        let l =
          loaded rows placed slot now_ms found (ap (λ m. m slot.period slot.thread) (sym e)) in
        chosen row l (is_final row.status) refl db e
      where
        chosen :
            (row : SlotState)
            → AtOwn rows placed row
            → (c : Bool) → is_final row.status ≡ c
            → From rows (λ db.
              (if c
                  then exec_on_final wire final row exec now_ms
                  else exec_on_open wire final slot row exec now_ms)
                db)
        chosen row l true fin = on_final-From final row l fin
        chosen row l false fin = on_open-From final slot row l fin

    as-From : (s : PbSlot) (o : Option Bool) → From rows (exec_as wire now_ms exec s o)
    unfolding exec_as
    as-From s none = pure-From rows tt
    as-From s (some final) = slot-From final (slot_from_pb s)

  pub handle_exec-From :
      (wire : Wire) (now_ms : ℕ) (out : SlotExecutionOutput)
      → From rows (handle_exec wire now_ms out)
  unfolding handle_exec
  handle_exec-From wire now_ms out =
      keeps-then rows (required out.execution_output) _
        (Frame.required-Along rows_pass out.execution_output)
        λ exec.
          keeps-then rows (required exec.slot) _ (Frame.required-Along rows_pass exec.slot)
            λ s. as-From wire exec now_ms s (finality out.status)
