-- ===== src/Patch/Forced.antt =====
-- massa-indexer/src/peer/patch.rs: `apply_forced_verdict`, an operator's verdict that no arbiter
-- looks at.
use massa_history.Base.{Bool, true, false, ◌&&◌, ℕ, Option, none, some, [], ltb, if◌then◌else◌}
use massa_history.Model.{SlotState, SlotStatus}
use massa_history.Arbiter.{Verdict, of_local, of_peer, verdict_eq}
use massa_history.Db.{
  Libs, Action, pure, fail, ◌>>=◌, ◌>>◌, read_slot, write_slot, broadcast, slot_updated, slot_final,
}
use massa_history.Patch.{FinalSlotResponse, slot_of, or_fresh, peer_trail, named_block, touched}
use massa_history.Patch.Parts.{apply_finality_to_blocks, adopt_peer_verdict}
use massa_history.Patch.Apply.{is_final}

abbrev pub verdict_is : Option Verdict → Verdict → Bool
verdict_is none target = false
verdict_is (some v) target = verdict_eq v target

-- The row is FINAL with that verdict.
unfoldable pub already : SlotState → Verdict → Bool
already row target = is_final row.status && verdict_is (of_local row) target

unfoldable pub force : Libs → FinalSlotResponse → ℕ → SlotState → Action Bool
force libs resp now_ms row = do
  adopted ← adopt_peer_verdict libs row resp (named_block libs.b58 resp) (peer_trail resp)
  let final_row : SlotState = record adopted { status = SlotStatus.final }
  apply_finality_to_blocks final_row.final_block_id final_row.candidate_block_ids
  write_slot (touched now_ms final_row)
  broadcast (slot_final (touched now_ms final_row))
  broadcast (slot_updated (touched now_ms final_row))
  pure true

unfoldable pub force_to : Libs → FinalSlotResponse → ℕ → SlotState → Option Verdict → Action Bool
force_to libs resp now_ms row none = fail []
force_to libs resp now_ms row (some target) =
    if already row target then pure false else force libs resp now_ms row

unfoldable pub apply_forced_verdict : Libs → FinalSlotResponse → ℕ → Action Bool
apply_forced_verdict libs resp now_ms =
    if ltb resp.thread 256
    then (do
      found ← read_slot resp.period resp.thread
      force_to libs resp now_ms (or_fresh (slot_of resp) now_ms found)
          (of_peer resp.is_miss (named_block libs.b58 resp)))
    else pure false
