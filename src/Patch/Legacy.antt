-- ===== src/Patch/Legacy.antt =====
-- massa-indexer/src/peer/patch.rs: `apply_legacy_patch`, for rows of the former history service,
-- which knows no trail hashes, no events and no precise origins.
use massa_history.Base.{ℕ, Bool, true, not, ◌&&◌, ◌||◌, none, ltb, if◌then◌else◌}
use massa_history.Model.{SlotState}
use massa_history.Backfill.{is_empty}
use massa_history.Db.{
  Libs, Action, Done, pure, ◌>>=◌, ◌>>◌, read_slot, write_slot, broadcast, slot_updated,
}
use massa_history.Patch.{
  FinalSlotResponse, PatchOutcome, no_outcome, slot_of, or_fresh, named_block, parsed_ops, touched,
}
use massa_history.Patch.Parts.{
  apply_finality_to_blocks, ensure_parent_stub, apply_block_part, write_transfers, decoded_rows,
  is_some,
}
use massa_history.Patch.Apply.{Progress, is_final, promoted, note_last_final, with_body}

unfoldable pub legacy_verdict : Libs → FinalSlotResponse → Progress → Progress
legacy_verdict libs resp p = if is_final p.row.status then p else record {
  row = promoted resp.is_miss (named_block libs.b58 resp) none p.row;
  out = record p.out { became_final = true };
}

unfoldable pub legacy_block : Libs → FinalSlotResponse → ℕ → Progress → Action Progress
legacy_block libs resp now_ms p =
    if is_some resp.block && (not p.row.completeness.block_body_stored && not resp.is_miss)
    then (do body ← apply_block_part libs resp now_ms; pure (with_body body p))
    else pure p

-- Only a slot that is a miss for us too has no body to wait for.
unfoldable pub legacy_miss : Bool → Progress → Progress
legacy_miss is_miss p =
    if is_miss && p.row.is_miss
    then record p {
      row = record p.row { completeness = record p.row.completeness { block_body_stored = true } };
    }
    else p

unfoldable pub legacy_ops : Libs → FinalSlotResponse → Progress → Progress
legacy_ops libs resp p =
    if is_empty p.row.executed_op_ids && not (is_empty resp.executed_op_ids)
    then record {
      row = record p.row { executed_op_ids = parsed_ops libs.b58 resp.executed_op_ids };
      out = record p.out { exec_applied = true };
    }
    else p

unfoldable pub legacy_transfers : Libs → FinalSlotResponse → Progress → Action Progress
legacy_transfers libs resp p = do
  write_transfers libs (decoded_rows resp.transfers)
  pure (record p {
    out = record p.out {
      transfers_applied = not (is_empty (decoded_rows resp.transfers)) || p.out.transfers_applied;
    };
  })

unfoldable pub legacy_finality : SlotState → Done
legacy_finality row =
    if row.completeness.exec_output_final && row.completeness.block_body_stored
    then apply_finality_to_blocks row.final_block_id row.candidate_block_ids
    else pure tt

unfoldable pub legacy_slot : Libs → FinalSlotResponse → ℕ → SlotState → Action PatchOutcome
unfolding legacy_finality
legacy_slot libs resp now_ms row = do
  let p : Progress = legacy_verdict libs resp (record { row = row; out = no_outcome })
  note_last_final (slot_of resp) p.out.became_final
  p1 ← legacy_block libs resp now_ms p
  p2 ← legacy_transfers libs resp (legacy_ops libs resp (legacy_miss resp.is_miss p1))
  legacy_finality p2.row
  write_slot (touched now_ms p2.row)
  ensure_parent_stub (slot_of resp) now_ms
  broadcast (slot_updated (touched now_ms p2.row))
  pure p2.out

unfoldable pub apply_legacy_patch : Libs → FinalSlotResponse → ℕ → Action PatchOutcome
apply_legacy_patch libs resp now_ms =
    if not (ltb resp.thread 256)
    then pure no_outcome
    else if not resp.final_known
    then pure (record no_outcome { empty = true })
    else (do
      found ← read_slot resp.period resp.thread
      legacy_slot libs resp now_ms (or_fresh (slot_of resp) now_ms found))
