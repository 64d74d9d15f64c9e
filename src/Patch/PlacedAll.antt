-- ===== src/Patch/PlacedAll.antt =====
-- massa-indexer/src/peer/patch.rs: the three ways a slot row is patched keep each row under its own slot.
use massa_history.Base.{ℕ, true, false, not, ◌&&◌, refl, Option, none, some, ltb}
use massa_history.Model.{SlotState, SlotStatus}
use massa_history.Arbiter.{Verdict, of_peer}
use massa_history.Db.{
  Db, Libs, pure, ◌>>◌, read_slot, write_slot, broadcast, slot_updated, slot_final,
}
use massa_history.Db.Frame.{Keeps, >>=-Keeps, if-Keeps}
use massa_history.Patch.{FinalSlotResponse, no_outcome, slot_of, named_block, peer_trail, touched}
use massa_history.Patch.Parts.{
  ensure_parent_stub, apply_finality_to_blocks, adopt_peer_verdict, apply_block_part,
  write_transfers, decoded_rows, is_some,
}
use massa_history.Patch.Frame.{
  apply_finality-Keeps, adopt-Keeps, apply_block_part-Keeps, write_transfers-Keeps,
}
use massa_history.Patch.Apply.{Progress, note_last_final, apply_peer_patch}
use massa_history.Patch.Forced.{already, force, force_to, apply_forced_verdict}
use massa_history.Patch.Legacy.{
  legacy_verdict, legacy_block, legacy_miss, legacy_ops, legacy_transfers, legacy_finality,
  legacy_slot, apply_legacy_patch,
}
use massa_history.Patch.Placed.{
  WellPlaced, Preserves, >>=-Preserves, keeps-then, if-Preserves, write_slot-Preserves,
  ensure_parent_stub-Preserves, broadcast-Preserves, note_last_final-Preserves,
  apply_peer_patch-WellPlaced,
}

told :
    (row : SlotState)
    → Preserves
        (do write_slot row; broadcast (slot_final row); broadcast (slot_updated row); pure true)
told row = >>=-Preserves (write_slot row) _ (write_slot-Preserves row) λ _.
    >>=-Preserves (broadcast (slot_final row)) _ (broadcast-Preserves (slot_final row)) λ _.
      >>=-Preserves (broadcast (slot_updated row)) _ (broadcast-Preserves (slot_updated row))
        λ _ db w. w

module _ (libs : Libs) (resp : FinalSlotResponse) (now_ms : ℕ) where
  force-Preserves : (row : SlotState) → Preserves (force libs resp now_ms row)
  unfolding force
  force-Preserves row =
      keeps-then (adopt_peer_verdict libs row resp (named_block libs.b58 resp) (peer_trail resp)) _
        (adopt-Keeps libs row resp (named_block libs.b58 resp) (peer_trail resp))
        λ adopted.
          keeps-then (apply_finality_to_blocks adopted.final_block_id adopted.candidate_block_ids) _
            (apply_finality-Keeps adopted.final_block_id adopted.candidate_block_ids)
            (λ _. told (touched now_ms (record adopted { status = SlotStatus.final })))

  force_to-Preserves :
      (row : SlotState) (target : Option Verdict) → Preserves (force_to libs resp now_ms row target)
  unfolding force_to
  force_to-Preserves row none = λ db w. w
  force_to-Preserves row (some v) =
      if-Preserves (already row v) (pure false) (force libs resp now_ms row) (λ db w. w)
        (force-Preserves row)

  apply_forced_verdict-Preserves : Preserves (apply_forced_verdict libs resp now_ms)
  unfolding apply_forced_verdict read_slot
  apply_forced_verdict-Preserves =
      if-Preserves (ltb resp.thread 256) _ (pure false)
        (λ db w. force_to-Preserves _ (of_peer resp.is_miss (named_block libs.b58 resp)) db w)
        (λ db w. w)

  legacy_block-Keeps : (p : Progress) → Keeps (legacy_block libs resp now_ms p)
  unfolding legacy_block
  legacy_block-Keeps p =
      if-Keeps
        (is_some resp.block && (not p.row.completeness.block_body_stored && not resp.is_miss)) _
        (pure p)
        (>>=-Keeps (apply_block_part libs resp now_ms) _ (apply_block_part-Keeps libs resp now_ms)
          λ _ db. refl)
        (λ db. refl)

  legacy_transfers-Keeps : (p : Progress) → Keeps (legacy_transfers libs resp p)
  unfolding legacy_transfers
  legacy_transfers-Keeps p =
      >>=-Keeps (write_transfers libs (decoded_rows resp.transfers)) _
        (write_transfers-Keeps libs (decoded_rows resp.transfers)) λ _ db. refl

  legacy_finality-Keeps : (row : SlotState) → Keeps (legacy_finality row)
  unfolding legacy_finality
  legacy_finality-Keeps row =
      if-Keeps (row.completeness.exec_output_final && row.completeness.block_body_stored) _
        (pure tt) (apply_finality-Keeps row.final_block_id row.candidate_block_ids) (λ db. refl)

  legacy_slot-Preserves : (row : SlotState) → Preserves (legacy_slot libs resp now_ms row)
  unfolding legacy_slot
  legacy_slot-Preserves row =
      let p : Progress = legacy_verdict libs resp (record { row = row; out = no_outcome }) in
      >>=-Preserves (note_last_final (slot_of resp) p.out.became_final) _
        (note_last_final-Preserves (slot_of resp) p.out.became_final)
        λ _. keeps-then (legacy_block libs resp now_ms p) _ (legacy_block-Keeps p) λ p1.
          keeps-then
            (legacy_transfers libs resp (legacy_ops libs resp (legacy_miss resp.is_miss p1))) _
            (legacy_transfers-Keeps (legacy_ops libs resp (legacy_miss resp.is_miss p1)))
            λ p2. keeps-then (legacy_finality p2.row) _ (legacy_finality-Keeps p2.row) λ _.
              >>=-Preserves (write_slot (touched now_ms p2.row)) _
                (write_slot-Preserves (touched now_ms p2.row))
                λ _.
                  >>=-Preserves (ensure_parent_stub (slot_of resp) now_ms) _
                    (ensure_parent_stub-Preserves (slot_of resp) now_ms)
                    λ _.
                      >>=-Preserves (broadcast (slot_updated (touched now_ms p2.row))) _
                        (broadcast-Preserves (slot_updated (touched now_ms p2.row))) λ _ db w. w

  apply_legacy_patch-Preserves : Preserves (apply_legacy_patch libs resp now_ms)
  unfolding apply_legacy_patch read_slot
  apply_legacy_patch-Preserves =
      if-Preserves (not (ltb resp.thread 256)) (pure no_outcome) _ (λ db w. w)
        (if-Preserves (not resp.final_known) (pure (record no_outcome { empty = true })) _
          (λ db w. w) (λ db w. legacy_slot-Preserves _ db w))

  -- A store in which each slot row stands under its own slot is such a store after a peer's patch,
  -- a legacy patch or an operator's verdict, also where they fail.
  pub patches_keep_rows_placed :
      (db : Db)
      → WellPlaced db
      → WellPlaced (apply_peer_patch libs resp now_ms db).1
        × WellPlaced (apply_legacy_patch libs resp now_ms db).1
        × WellPlaced (apply_forced_verdict libs resp now_ms db).1
  patches_keep_rows_placed db w = (
    apply_peer_patch-WellPlaced libs resp now_ms db w,
    apply_legacy_patch-Preserves db w,
    apply_forced_verdict-Preserves db w,
  )
