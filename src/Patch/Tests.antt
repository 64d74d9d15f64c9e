-- ===== src/Patch/Tests.antt =====
-- Patches on the small stores of Samples.
use massa_history.Base.{
  ℕ, true, false, ◌≡◌, ◌≢◌, refl, none, some, [], ◌∷◌, arith, ◌==◌, if◌then◌else◌,
}
use massa_history.Base.Result.{ok}
use massa_history.Ids.{parse, decode_single_family, id_eq, bytes_eq, as_bytes}
use massa_history.Model.{Slot, SlotState, SlotStatus, no_parts}
use massa_history.Arbiter.{
  Verdict, of_local, of_peer, verdict_eq, arbitrate_verdicts, peer_block_dead, local_block_dead,
  by_linkage, next_parent_link, link_loop, link_at, final_of, parent_in, immediate, conclude,
  option_eq,
}
use massa_history.Backfill.{SweepCtx, in_recheck, in_ranges, needs_fetch, default_config}
use massa_history.Arbiter.Evidence.{ForPeer}
use massa_history.Db.{
  Db, read_slot, write_slot, read_block, read_last_final_slot, update_last_final_slot, broadcast,
  write_block,
}
use massa_history.Db.Events.{clear_sc_events_for_slot, clear_transfers_for_slot}
use massa_history.Reconcile.{reconcile_async_from_transfers, reconcile_deferred_from_transfers}
use massa_history.Patch.{
  FinalSlotResponse, PatchOutcome, no_outcome, slot_of, or_fresh, peer_trail, named_block, holds,
  with_candidate,
}
use massa_history.Patch.Parts.{
  set_status, mark, mark_candidates, mark_uncounted, apply_finality_to_blocks, stub_if_absent,
  ensure_parent_stub, discard_old, adopt_peer_verdict, adopted_row, apply_block_part, shipped_part,
  block_part, write_if_absent, apply_ops, apply_endorsements, apply_denunciations, apply_exec_part,
  write_events, write_async, apply_transfers_part, write_transfers, decoded_rows, write_deferred,
}
use massa_history.Patch.Apply.{
  apply_peer_patch, patch_slot, reconcile_verdict, both_final, by_arbitration, same_verdict,
  trails_differ, arbitrate, promoted, after, raise_last_final, note_last_final, block_stage,
  exec_stage, transfers_stage, ships_exec, ships_transfers, honoured, with_miss, settle,
  apply_parts, after_verdict, announce, reader, is_final, with_body, with_exec, with_transfers,
}
use massa_history.Patch.Forced.{already, force, force_to, apply_forced_verdict}
use massa_history.Patch.Legacy.{
  apply_legacy_patch, legacy_slot, legacy_verdict, legacy_block, legacy_miss, legacy_ops,
  legacy_transfers, legacy_finality,
}
use massa_history.Patch.Archive.{legacy_keeps_final, verdict_of}
use massa_history.Patch.Stored.{is_at}
use massa_history.Patch.Outcome.{start}
use massa_history.Patch.Settle.{raised}
use massa_history.Patch.Promotion.{slot_is_final, first_verdict_adopted, last_final_forward}
use massa_history.Patch.Settled.{full_patch_is_settled}
use massa_history.Patch.Runs.{patch_runs}
use massa_history.Patch.Operator.{HasVerdict, forced_verdict_stands, forced_twice}
use massa_history.Patch.Placed.{WellPlaced}
use massa_history.Patch.Priority.{Honours, final_verdict_kept, repaired_by_evidence}
use massa_history.Patch.Samples.{
  plain, libs, ours, theirs, body_of, no_id, final_row, empty_db, disputed_db, answer,
}

ran_same : (apply_peer_patch libs (answer ours) 7 disputed_db).0 ≡ ok no_outcome
unfolding apply_peer_patch patch_slot reconcile_verdict both_final same_verdict trails_differ
    of_local of_peer verdict_eq id_eq bytes_eq named_block parse decode_single_family peer_trail
    read_slot or_fresh after_verdict apply_parts note_last_final block_stage with_miss exec_stage
    ships_exec honoured transfers_stage ships_transfers settle apply_finality_to_blocks
    mark_candidates mark_uncounted mark set_status read_block write_slot ensure_parent_stub
    stub_if_absent announce broadcast holds as_bytes
ran_same = refl

final_verdict_kept_example :
    (row' : SlotState) × ((apply_peer_patch libs (answer ours) 7 disputed_db).1.slots 10 0
      ≡ some row')
    × Honours (final_row 10 ours) row'
final_verdict_kept_example =
    final_verdict_kept libs (answer ours) 7 disputed_db (final_row 10 ours) no_outcome refl refl
      refl ran_same refl

abbrev repaired : PatchOutcome
repaired = record no_outcome { divergence_repaired = true }

ran_repair : (apply_peer_patch libs (answer theirs) 7 disputed_db).0 ≡ ok repaired
unfolding apply_peer_patch patch_slot reconcile_verdict both_final same_verdict trails_differ
    of_local of_peer verdict_eq id_eq bytes_eq named_block parse decode_single_family peer_trail
    read_slot or_fresh after_verdict apply_parts note_last_final block_stage with_miss exec_stage
    ships_exec honoured transfers_stage ships_transfers settle apply_finality_to_blocks
    mark_candidates mark_uncounted mark set_status read_block write_slot ensure_parent_stub
    stub_if_absent announce broadcast holds as_bytes by_arbitration arbitrate arbitrate_verdicts
    peer_block_dead local_block_dead by_linkage next_parent_link link_loop link_at final_of
    parent_in immediate conclude option_eq adopt_peer_verdict adopted_row discard_old
    clear_sc_events_for_slot clear_transfers_for_slot with_candidate
ran_repair = refl

repaired_by_evidence_example :
    (local peer : Verdict) × (is_final (start libs (answer theirs) 7 disputed_db).row.status ≡ true)
    × (of_local (start libs (answer theirs) 7 disputed_db).row ≡ some local)
    × (of_peer false (named_block plain (answer theirs)) ≡ some peer)
    × (local ≢ peer)
    × ForPeer (reader disputed_db) (record { period = 10; thread = 0 }) local peer
repaired_by_evidence_example =
    repaired_by_evidence libs (answer theirs) 7 disputed_db repaired (omega arith) ran_repair refl

abbrev first : PatchOutcome
first = record no_outcome { became_final = true }

ran_first : (apply_peer_patch libs (answer ours) 7 empty_db).0 ≡ ok first
unfolding apply_peer_patch patch_slot reconcile_verdict both_final same_verdict trails_differ
    of_local of_peer verdict_eq id_eq bytes_eq named_block parse decode_single_family peer_trail
    read_slot or_fresh after_verdict apply_parts note_last_final block_stage with_miss exec_stage
    ships_exec honoured transfers_stage ships_transfers settle apply_finality_to_blocks
    mark_candidates mark_uncounted mark set_status read_block write_slot ensure_parent_stub
    stub_if_absent announce broadcast holds as_bytes promoted with_candidate read_last_final_slot
    after update_last_final_slot
ran_first = refl

placed_first : (start libs (answer ours) 7 empty_db).row.slot ≡ slot_of (answer ours)
unfolding or_fresh
placed_first = refl

unknown_first : is_final (start libs (answer ours) 7 empty_db).row.status ≡ false
unfolding or_fresh
unknown_first = refl

said_first : of_peer false (named_block plain (answer ours)) ≡ some (Verdict.block ours)
unfolding of_peer named_block parse decode_single_family
said_first = refl

slot_is_final_example :
    (row : SlotState) × ((apply_peer_patch libs (answer ours) 7 empty_db).1.slots 10 0 ≡ some row)
    × (row.status ≡ SlotStatus.final)
    × ((p t : ℕ) (s : SlotState)
        → empty_db.slots p t ≡ some s
        → is_at (record { period = 10; thread = 0 }) p t ≡ false
        → (apply_peer_patch libs (answer ours) 7 empty_db).1.slots p t ≡ some s)
slot_is_final_example =
    slot_is_final libs (answer ours) 7 empty_db first refl refl placed_first ran_first

first_verdict_adopted_example :
    (row : SlotState) × ((apply_peer_patch libs (answer ours) 7 empty_db).1.slots 10 0 ≡ some row)
    × (of_local row ≡ some (Verdict.block ours))
    × (first.became_final ≡ true)
    × ((apply_peer_patch libs (answer ours) 7 empty_db).1.last_final_slot
        ≡ raised (record { period = 10; thread = 0 }) (some (record { period = 5; thread = 0 })))
first_verdict_adopted_example =
    first_verdict_adopted libs (answer ours) 7 empty_db first refl refl placed_first ran_first
      (Verdict.block ours) unknown_first said_first

last_final_forward_example :
    (next : Slot) × ((apply_peer_patch libs (answer ours) 7 empty_db).1.last_final_slot ≡ some next)
    × (after (record { period = 5; thread = 0 }) next ≡ false)
last_final_forward_example =
    last_final_forward libs (answer ours) 7 empty_db first (record { period = 5; thread = 0 })
      ran_first refl

-- A response with a block, an event count and the claim that there are no transfers.
abbrev full : FinalSlotResponse
full = record (answer ours) {
  block = some (some (body_of ours 10 []));
  sc_event_count = 1;
  completeness_known = true;
  has_transfers = true;
  parts = some (record { block = true; exec_output = true; transfers = true });
}

abbrev all_applied : PatchOutcome
all_applied = record first { block_applied = true; exec_applied = true; transfers_applied = true }

ran_full : (apply_peer_patch libs full 7 empty_db).0 ≡ ok all_applied
unfolding apply_peer_patch patch_slot reconcile_verdict both_final same_verdict trails_differ
    of_local of_peer verdict_eq id_eq bytes_eq named_block parse decode_single_family peer_trail
    read_slot or_fresh after_verdict apply_parts note_last_final block_stage with_miss exec_stage
    ships_exec honoured transfers_stage ships_transfers settle apply_finality_to_blocks
    mark_candidates mark_uncounted mark set_status read_block write_slot ensure_parent_stub
    stub_if_absent announce broadcast holds as_bytes promoted with_candidate read_last_final_slot
    after update_last_final_slot raise_last_final apply_block_part shipped_part block_part
    write_if_absent write_block apply_ops apply_endorsements apply_denunciations with_body
    apply_exec_part write_events write_async with_exec apply_transfers_part clear_sc_events_for_slot
    clear_transfers_for_slot write_transfers decoded_rows write_deferred
    reconcile_async_from_transfers reconcile_deferred_from_transfers with_transfers option_eq
ran_full = refl

placed_full : (start libs full 7 empty_db).row.slot ≡ slot_of full
unfolding or_fresh
placed_full = refl

unknown_full : is_final (start libs full 7 empty_db).row.status ≡ false
unfolding or_fresh
unknown_full = refl

said_full : of_peer false (named_block plain full) ≡ some (Verdict.block ours)
unfolding of_peer named_block parse decode_single_family
said_full = refl

exec_is_shipped : ships_exec full ≡ true
unfolding ships_exec honoured
exec_is_shipped = refl

transfers_are_shipped : ships_transfers full ≡ true
unfolding ships_transfers honoured
transfers_are_shipped = refl

abbrev no_recheck : SweepCtx
no_recheck = record { head = 1000; recheck_ranges = [] }

free_full : in_recheck no_recheck 10 ≡ false
unfolding in_recheck in_ranges
free_full = refl

full_patch_is_settled_example :
    needs_fetch ((apply_peer_patch libs full 7 empty_db).1.slots 10 0) default_config no_recheck
    ≡ none
full_patch_is_settled_example =
    full_patch_is_settled libs full 7 empty_db all_applied (body_of ours 10 []) (Verdict.block ours)
      default_config no_recheck refl refl placed_full unknown_full refl said_full refl
      exec_is_shipped transfers_are_shipped free_full ran_full

-- An endorsement whose identifier does not parse fails the patch.
abbrev bad : FinalSlotResponse
bad = record full { endorsements = some no_id ∷ [] }

patch_runs_example :
    (out : PatchOutcome) × ((apply_peer_patch libs (answer theirs) 7 disputed_db).0 ≡ ok out)
patch_runs_example = patch_runs libs (answer theirs) 7 refl disputed_db

ran_forced : (apply_forced_verdict libs (answer theirs) 7 disputed_db).0 ≡ ok true
unfolding apply_peer_patch patch_slot reconcile_verdict both_final same_verdict trails_differ
    of_local of_peer verdict_eq id_eq bytes_eq named_block parse decode_single_family peer_trail
    read_slot or_fresh after_verdict apply_parts note_last_final block_stage with_miss exec_stage
    ships_exec honoured transfers_stage ships_transfers settle apply_finality_to_blocks
    mark_candidates mark_uncounted mark set_status read_block write_slot ensure_parent_stub
    stub_if_absent announce broadcast holds as_bytes apply_forced_verdict force_to already force
    adopt_peer_verdict adopted_row discard_old clear_sc_events_for_slot clear_transfers_for_slot
    with_candidate
ran_forced = refl

placed_forced : (start libs (answer theirs) 7 disputed_db).row.slot ≡ slot_of (answer theirs)
unfolding or_fresh
placed_forced = refl

forced_verdict_stands_example :
    (v : Verdict) × (of_peer false (named_block plain (answer theirs)) ≡ some v)
    × HasVerdict (answer theirs) v (apply_forced_verdict libs (answer theirs) 7 disputed_db).1
forced_verdict_stands_example =
    forced_verdict_stands libs (answer theirs) 7 disputed_db true refl placed_forced ran_forced

forced_twice_example :
    apply_forced_verdict libs
      (answer theirs)
      9
      (apply_forced_verdict libs (answer theirs) 7 disputed_db).1
    ≡ (ok false, (apply_forced_verdict libs (answer theirs) 7 disputed_db).1)
forced_twice_example =
    forced_twice libs (answer theirs) 7 9 disputed_db true refl placed_forced ran_forced

placed_empty : WellPlaced empty_db
placed_empty p t row e = cc e

ran_legacy :
    (apply_legacy_patch libs full 7 empty_db).0 ≡ ok (record first { block_applied = true })
unfolding apply_legacy_patch legacy_slot read_slot note_last_final legacy_verdict or_fresh
    read_last_final_slot after update_last_final_slot raise_last_final legacy_block promoted
    apply_block_part shipped_part block_part write_if_absent read_block write_block apply_ops
    apply_endorsements apply_denunciations with_body legacy_transfers write_transfers decoded_rows
    legacy_miss legacy_ops legacy_finality write_slot ensure_parent_stub stub_if_absent broadcast
    as_bytes named_block parse decode_single_family holds with_candidate id_eq bytes_eq
ran_legacy = refl

-- A row that is FINAL with neither a miss nor a block.
abbrev unnamed_row : SlotState
unnamed_row = record (final_row 10 ours) { final_block_id = none }

abbrev unnamed_db : Db
unnamed_db = record empty_db { slots = λ p t. if p == 10 then some unnamed_row else none }

abbrev miss_answer : FinalSlotResponse
miss_answer = record (answer ours) { is_miss = true; final_block_id = [] }

-- A peer's miss marks its body as stored, although the row itself is no miss.
miss_marks_body :
    (apply_peer_patch libs miss_answer 7 unnamed_db).1.slots 10 0
    ≡ some (record unnamed_row {
      execution_trail_hash = some (b'h' ∷ []);
      completeness = record no_parts { block_body_stored = true };
      last_updated_ts_ms = 7;
    })
unfolding apply_peer_patch patch_slot reconcile_verdict both_final same_verdict trails_differ
    of_local of_peer verdict_eq id_eq bytes_eq named_block parse decode_single_family peer_trail
    read_slot or_fresh after_verdict apply_parts note_last_final block_stage with_miss exec_stage
    ships_exec honoured transfers_stage ships_transfers settle apply_finality_to_blocks
    mark_candidates mark_uncounted mark set_status read_block write_slot ensure_parent_stub
    stub_if_absent announce broadcast holds as_bytes
miss_marks_body = refl

ran_legacy_final : (apply_legacy_patch libs (answer theirs) 7 disputed_db).0 ≡ ok no_outcome
unfolding apply_legacy_patch legacy_slot read_slot note_last_final legacy_verdict or_fresh
    read_last_final_slot after update_last_final_slot raise_last_final legacy_block promoted
    apply_block_part shipped_part block_part write_if_absent read_block write_block apply_ops
    apply_endorsements apply_denunciations with_body legacy_transfers write_transfers decoded_rows
    legacy_miss legacy_ops legacy_finality write_slot ensure_parent_stub stub_if_absent broadcast
    as_bytes named_block parse decode_single_family holds with_candidate id_eq bytes_eq
ran_legacy_final = refl

final_before : is_final (start libs (answer theirs) 7 disputed_db).row.status ≡ true
unfolding or_fresh
final_before = refl

legacy_keeps_final_example :
    (row' : SlotState) × ((apply_legacy_patch libs (answer theirs) 7 disputed_db).1.slots 10 0
      ≡ some row')
    × (verdict_of row' ≡ verdict_of (final_row 10 ours))
unfolding or_fresh
legacy_keeps_final_example =
    legacy_keeps_final libs (answer theirs) 7 disputed_db no_outcome refl refl final_before
      ran_legacy_final
