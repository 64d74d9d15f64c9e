-- ===== src/Backfill/Tests.antt =====
-- The walker's decision at concrete rows.
use massa_history.Base.{◌≡◌, refl, true, false, none, some, [], ◌∷◌, not, ◌&&◌, arith}
use massa_history.Model.{SlotState, SlotStatus, fresh, is_complete}
use massa_history.Backfill.{
  SweepCtx, BackfillConfig, gap, stale_candidate, recent_incomplete, default_config, all_parts,
  needs_fetch, all_enabled, final_needs, missing_parts, no_candidates, in_recheck, in_ranges,
}
use massa_history.Backfill.Request.{Asks, Why, needs_fetch_sound}
use massa_history.Backfill.Converged.{skipped-is_complete, complete_is_skipped}

abbrev sweep : SweepCtx
sweep = record { head = 1000; recheck_ranges = (5, 7) ∷ [] }

abbrev candidate : SlotState
candidate =
    let s : SlotState = fresh (record { period = 900; thread = 3 }) 0 in
    record s { status = SlotStatus.candidate }

abbrev no_transfers : SlotState
no_transfers =
    let s : SlotState = fresh (record { period = 990; thread = 3 }) 0 in
    record s {
      status = SlotStatus.final;
      completeness = record {
        block_body_stored = true;
        exec_output_final = true;
        exec_output_candidate = false;
        transfers_stored = false;
      };
    }

abbrev whole : SlotState
whole = record no_transfers {
  completeness = record {
    block_body_stored = true;
    exec_output_final = true;
    exec_output_candidate = false;
    transfers_stored = true;
  };
}

asks_stale : needs_fetch (some candidate) default_config sweep ≡ some (all_parts, stale_candidate)
unfolding needs_fetch all_enabled
asks_stale = refl

asks_transfers :
    needs_fetch (some no_transfers) default_config sweep
    ≡ some (record { block = false; exec_output = false; transfers = true }, recent_incomplete)
unfolding needs_fetch final_needs missing_parts no_candidates in_recheck in_ranges
asks_transfers = refl

leaves_whole : needs_fetch (some whole) default_config sweep ≡ none
unfolding needs_fetch final_needs missing_parts no_candidates in_recheck in_ranges
leaves_whole = refl

whole_is_complete :
    is_complete whole.completeness whole.is_miss default_config.expected_streams ≡ true
unfolding is_complete
whole_is_complete = refl

outside_ranges : in_recheck sweep 990 ≡ false
unfolding in_recheck in_ranges
outside_ranges = refl

uncontested : (whole.is_miss && not (no_candidates whole)) ≡ false
uncontested = refl

needs_fetch_sound_example :
    Asks default_config all_parts
    × Why default_config sweep all_parts (some candidate) stale_candidate
needs_fetch_sound_example =
    needs_fetch_sound (some candidate) default_config sweep all_parts stale_candidate asks_stale

skipped-is_complete_example :
    is_complete whole.completeness whole.is_miss default_config.expected_streams ≡ true
skipped-is_complete_example =
    skipped-is_complete whole default_config sweep refl refl (omega arith) leaves_whole

complete_is_skipped_example : needs_fetch (some whole) default_config sweep ≡ none
complete_is_skipped_example =
    complete_is_skipped whole default_config sweep refl outside_ranges uncontested refl
      whole_is_complete

-- Bodies are not expected, so that the slot is complete, and it is asked for all the same.
abbrev bodiless : SlotState
bodiless = record whole { completeness = record whole.completeness { block_body_stored = false } }

abbrev no_bodies : BackfillConfig
no_bodies = record default_config {
  expected_streams = record default_config.expected_streams { filled_blocks = false };
}

bodiless_is_complete :
    is_complete bodiless.completeness bodiless.is_miss no_bodies.expected_streams ≡ true
unfolding is_complete
bodiless_is_complete = refl

asks_bodiless :
    needs_fetch (some bodiless) no_bodies sweep
    ≡ some (record { block = false; exec_output = true; transfers = true }, gap)
unfolding needs_fetch final_needs missing_parts no_candidates in_recheck in_ranges all_enabled
asks_bodiless = refl
