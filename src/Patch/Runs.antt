-- ===== src/Patch/Runs.antt =====
-- massa-indexer/src/peer/patch.rs: a patch runs to its end, where the store does not fail and each shipped
-- endorsement has an id that parses.
use massa_history.Base.{ℕ, Bool, true, not, ◌&&◌, ◌≡◌, refl, Option, none, some, ltb}
use massa_history.Base.Result.{ok}
use massa_history.Model.{Slot}
use massa_history.Model.Rows.{StoredBlock}
use massa_history.Db.{
  Db, Libs, pure, read_slot, write_slot, read_last_final_slot, update_last_final_slot,
}
use massa_history.Db.Total.{Total, >>=-Total, if-Total, write_slot-Total}
use massa_history.Arbiter.{
  Verdict, of_local, of_peer, verdict_eq, Arbitration, adopt_peer, keep_local, inconclusive,
}
use massa_history.Patch.{
  FinalSlotResponse, PatchOutcome, no_outcome, slot_of, touched, named_block, peer_trail,
}
use massa_history.Patch.Parts.{
  apply_finality_to_blocks, is_some, adopt_peer_verdict, apply_block_part, apply_exec_part,
  apply_transfers_part,
}
use massa_history.Patch.Arbitrates.{arbitrate_verdicts-Answers}
use massa_history.Patch.Apply.{
  Progress, Stage, stop, go, is_final, note_last_final, raise_last_final, after, block_stage,
  exec_stage, transfers_stage, settle, apply_parts, after_verdict, patch_slot, reconcile_verdict,
  apply_peer_patch, both_final, by_arbitration, arbitrate, shipped_block, ships_exec,
  ships_transfers,
}
use massa_history.Patch.Writes.{
  all_named, finality-Total, told-Total, adopt-Total, block_part-Total, exec_part-Total,
  transfers_part-Total,
}

module _ (libs : Libs) where
  module _ (resp : FinalSlotResponse) where
    by_arbitration-Total : (p : Progress) (a : Arbitration) → Total (by_arbitration libs resp p a)
    unfolding by_arbitration
    by_arbitration-Total p adopt_peer =
        >>=-Total (adopt_peer_verdict libs p.row resp (named_block libs.b58 resp) (peer_trail resp))
          _ (adopt-Total libs p.row resp (named_block libs.b58 resp) (peer_trail resp))
          λ row db. (_, refl)
    by_arbitration-Total p keep_local = λ db. (_, refl)
    by_arbitration-Total p inconclusive = λ db. (_, refl)

    arbitrate-Total :
        (slot : Slot) (lv pv : Verdict) (body : Option StoredBlock)
        → Total (arbitrate slot lv pv body)
    unfolding arbitrate
    arbitrate-Total slot lv pv body db = arbitrate_verdicts-Answers db slot lv pv body

    both_final-Total :
        (p : Progress) (lv pv : Option Verdict) → Total (both_final libs resp p lv pv)
    unfolding both_final
    both_final-Total p (some lv) (some pv) =
        if-Total (verdict_eq lv pv) (pure _) _ (λ db. (_, refl))
          (>>=-Total (arbitrate (slot_of resp) lv pv (shipped_block resp)) _
            (arbitrate-Total (slot_of resp) lv pv (shipped_block resp))
            λ a. by_arbitration-Total p a)
    both_final-Total p none pv = λ db. (_, refl)
    both_final-Total p (some lv) none = λ db. (_, refl)

    reconcile-Total : (p : Progress) → Total (reconcile_verdict libs resp p)
    unfolding reconcile_verdict
    reconcile-Total p =
        if-Total (is_final p.row.status) _ (pure _)
          (both_final-Total p (of_local p.row) (of_peer resp.is_miss (named_block libs.b58 resp)))
          λ db. (_, refl)

    last_final-Total : (became : Bool) → Total (note_last_final (slot_of resp) became)
    unfolding note_last_final raise_last_final read_last_final_slot update_last_final_slot
    last_final-Total became =
        if-Total became _ (pure tt) (λ db. raised db.last_final_slot db) λ db. (tt, refl)
      where
        raised : (prev : Option Slot) → Total (raise_last_final (slot_of resp) prev)
        raised none = λ db. (tt, refl)
        raised (some prev) =
            if-Total (after (slot_of resp) prev) _ (pure tt) (λ db. (tt, refl)) λ db. (tt, refl)

    module _ (now_ms : ℕ) (named : all_named libs resp.endorsements ≡ true) where
      block_stage-Total : (p : Progress) → Total (block_stage libs resp now_ms p)
      unfolding block_stage
      block_stage-Total p =
          if-Total (is_some resp.block && not resp.is_miss) _ (pure _)
            (>>=-Total (apply_block_part libs resp now_ms) _
              (block_part-Total libs resp now_ms named) λ body db. (_, refl))
            λ db. (_, refl)

      exec_stage-Total : (p : Progress) → Total (exec_stage libs resp p)
      unfolding exec_stage
      exec_stage-Total p =
          if-Total (ships_exec resp && not p.row.completeness.exec_output_final) _ (pure p)
            (>>=-Total (apply_exec_part libs resp) _ (exec_part-Total libs resp) λ _ db. (_, refl))
            λ db. (p, refl)

      transfers_stage-Total : (p : Progress) → Total (transfers_stage libs resp now_ms p)
      unfolding transfers_stage
      transfers_stage-Total p =
          if-Total (ships_transfers resp && not p.row.completeness.transfers_stored) _ (pure p)
            (>>=-Total (apply_transfers_part libs resp now_ms) _
              (transfers_part-Total libs resp now_ms) λ _ db. (_, refl))
            λ db. (p, refl)

      settle-Total : (p : Progress) → Total (settle libs resp now_ms p)
      unfolding settle
      settle-Total p =
          >>=-Total (apply_finality_to_blocks p.row.final_block_id p.row.candidate_block_ids) _
            (finality-Total p.row.final_block_id p.row.candidate_block_ids)
            λ _. told-Total libs resp now_ms p

      parts-Total : (p : Progress) → Total (apply_parts libs resp now_ms p)
      unfolding apply_parts
      parts-Total p =
          >>=-Total (note_last_final (slot_of resp) p.out.became_final) _
            (last_final-Total p.out.became_final)
            λ _. >>=-Total (block_stage libs resp now_ms p) _ (block_stage-Total p) λ p1.
              >>=-Total (exec_stage libs resp p1) _ (exec_stage-Total p1) λ p2.
                >>=-Total (transfers_stage libs resp now_ms p2) _ (transfers_stage-Total p2)
                  settle-Total

      after_verdict-Total : (s : Stage) → Total (after_verdict libs resp now_ms s)
      unfolding after_verdict
      after_verdict-Total (stop p) =
          >>=-Total (write_slot (touched now_ms p.row)) _ (write_slot-Total (touched now_ms p.row))
            λ _ db. (p.out, refl)
      after_verdict-Total (go p) = parts-Total p

      read_slot-Total : (p t : ℕ) → Total (read_slot p t)
      unfolding read_slot
      read_slot-Total p t db = (db.slots p t, refl)

      patch_slot-Total : Total (patch_slot libs resp now_ms)
      unfolding patch_slot
      patch_slot-Total =
          >>=-Total (read_slot resp.period resp.thread) _ (read_slot-Total resp.period resp.thread)
            λ found.
              >>=-Total (reconcile_verdict libs resp _) _ (reconcile-Total _) after_verdict-Total

      -- Where the store's own reads and writes do not fail, a patch whose shipped endorsements have ids
      -- that parse runs to its end, whatever the store holds.
      pub patch_runs :
          (db : Db) → (out : PatchOutcome) × ((apply_peer_patch libs resp now_ms db).0 ≡ ok out)
      unfolding apply_peer_patch
      patch_runs =
          if-Total (not (ltb resp.thread 256)) (pure no_outcome) _ (λ db. (no_outcome, refl))
            (if-Total (not resp.final_known) (pure (record no_outcome { empty = true })) _
              (λ db. (record no_outcome { empty = true }, refl)) patch_slot-Total)
