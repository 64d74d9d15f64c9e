-- ===== src/Backfill/Converged.antt =====
-- When the walker of massa-indexer/src/peer/backfill.rs leaves a FINAL slot alone.
use massa_history.Base.{◌-◌, ◌≤◌, true, false, not, ◌&&◌, ◌||◌, ◌≡◌, none, some, arith}
use massa_history.Model.{SlotState, SlotStatus, is_complete}
use massa_history.Backfill.{
  BackfillConfig, SweepCtx, all_parts, in_recheck, all_enabled, missing_parts, no_candidates,
  final_needs, needs_fetch,
}

module _ (s : SlotState) (cfg : BackfillConfig) (sweep : SweepCtx) where
  needs_fetch-final :
      s.status ≡ SlotStatus.final
      → needs_fetch (some s) cfg sweep ≡ final_needs s cfg sweep (sweep.head - s.slot.period)
  unfolding needs_fetch
  needs_fetch-final fin = rw fin

-- With every part available from peers, a FINAL slot near the head that is left alone is complete:
-- it has every part of every enabled stream.
pub skipped-is_complete :
    (s : SlotState) (cfg : BackfillConfig) (sweep : SweepCtx)
    → cfg.parts ≡ all_parts
    → s.status ≡ SlotStatus.final
    → sweep.head - s.slot.period ≤ cfg.recent_incomplete_periods
    → needs_fetch (some s) cfg sweep ≡ none
    → is_complete s.completeness s.is_miss cfg.expected_streams ≡ true
unfolding final_needs missing_parts all_enabled is_complete
skipped-is_complete s cfg sweep every fin near e = ground (arith, needs_fetch-final s cfg sweep fin)

-- A complete FINAL slot outside the ranges to recheck that is a miss or has its body, whether or not
-- bodies are expected, is left alone at any distance from the head, unless it is a miss for which a
-- block was seen.
pub complete_is_skipped :
    (s : SlotState) (cfg : BackfillConfig) (sweep : SweepCtx)
    → s.status ≡ SlotStatus.final
    → in_recheck sweep s.slot.period ≡ false
    → (s.is_miss && not (no_candidates s)) ≡ false
    → (s.is_miss || s.completeness.block_body_stored) ≡ true
    → is_complete s.completeness s.is_miss cfg.expected_streams ≡ true
    → needs_fetch (some s) cfg sweep ≡ none
unfolding final_needs missing_parts is_complete
complete_is_skipped s cfg sweep fin free settled held done =
    ground (arith, needs_fetch-final s cfg sweep fin)
