-- ===== src/Patch/Settled.antt =====
-- massa-indexer/src/peer/patch.rs and massa-indexer/src/peer/backfill.rs: a response with every part
-- leaves nothing for the walker to fetch.
use massa_history.Base.{Bool, true, false, ◌||◌, ◌≡◌, ap, ◌∙◌, subst, none, some, ltb, arith, ℕ}
use massa_history.Base.Result.{ok}
use massa_history.Model.{SlotState, SlotStatus, SlotCompleteness, StreamsExpected, is_complete}
use massa_history.Model.Rows.{StoredBlock}
use massa_history.Backfill.{BackfillConfig, SweepCtx, in_recheck, needs_fetch}
use massa_history.Backfill.Converged.{complete_is_skipped}
use massa_history.Arbiter.{Verdict, of_peer}
use massa_history.Db.{Db, Libs}
use massa_history.Patch.{FinalSlotResponse, PatchOutcome, slot_of, named_block}
use massa_history.Patch.Stored.{stored-here}
use massa_history.Patch.Shipped.{Takes, takes}
use massa_history.Patch.Outcome.{start, apply_peer_patch-known}
use massa_history.Patch.Promotion.{promoted_row_stored}
use massa_history.Patch.Apply.{is_final, ships_exec, ships_transfers, apply_peer_patch}

every_part :
    (c : SlotCompleteness) (is_miss : Bool) (streams : StreamsExpected)
    → c.block_body_stored ≡ true
    → c.exec_output_final ≡ true
    → c.transfers_stored ≡ true
    → is_complete c is_miss streams ≡ true
unfolding is_complete
every_part c is_miss streams b x t = ground arith

either : (a : Bool) {b : Bool} → b ≡ true → (a || b) ≡ true
either a e = ground arith

-- A row that took what was shipped, and that is FINAL with a block, has nothing to fetch.
taken_is_settled :
    (resp : FinalSlotResponse) (row : SlotState) (out : PatchOutcome) (b : StoredBlock)
    (cfg : BackfillConfig) (sweep : SweepCtx)
    → row.status ≡ SlotStatus.final
    → row.is_miss ≡ false
    → in_recheck sweep row.slot.period ≡ false
    → resp.is_miss ≡ false
    → resp.block ≡ some (some b)
    → ships_exec resp ≡ true
    → ships_transfers resp ≡ true
    → Takes resp (record { row = row; out = out })
    → needs_fetch (some row) cfg sweep ≡ none
taken_is_settled resp row out b cfg sweep fin body free held ships_b ships_x ships_t
      (takes has_b has_x has_t) =
    let body_there = has_b b ships_b held in
    complete_is_skipped row cfg sweep fin free (rw body) (either row.is_miss body_there) (
      every_part row.completeness row.is_miss cfg.expected_streams body_there (has_x ships_x)
        (has_t ships_t))

-- A slot that was not FINAL, for which a peer names a final block and ships a body that decodes,
-- execution output and transfers, is left alone by the walker after the patch, if it ends well: the
-- thread fits a byte, the slot's row stands under its own slot, and the period lies outside the ranges
-- to recheck; the walker's configuration is any.
pub full_patch_is_settled :
    (libs : Libs) (resp : FinalSlotResponse) (now_ms : ℕ) (db : Db) (out : PatchOutcome)
    (b : StoredBlock) (v : Verdict) (cfg : BackfillConfig) (sweep : SweepCtx)
    → ltb resp.thread 256 ≡ true
    → resp.final_known ≡ true
    → (start libs resp now_ms db).row.slot ≡ slot_of resp
    → is_final (start libs resp now_ms db).row.status ≡ false
    → resp.is_miss ≡ false
    → of_peer resp.is_miss (named_block libs.b58 resp) ≡ some v
    → resp.block ≡ some (some b)
    → ships_exec resp ≡ true
    → ships_transfers resp ≡ true
    → in_recheck sweep resp.period ≡ false
    → (apply_peer_patch libs resp now_ms db).0 ≡ ok out
    → needs_fetch ((apply_peer_patch libs resp now_ms db).1.slots resp.period resp.thread) cfg sweep
      ≡ none
full_patch_is_settled libs resp now_ms db out b v cfg sweep fits known placed other held said
      ships_b ships_x ships_t free ran =
    let (s, verdict, ends) = apply_peer_patch-known libs resp now_ms db fits known ran in
    let now : Db = (apply_peer_patch libs resp now_ms db).1 in
    let (row, at, is, put, miss_is, fin, took, _, _) =
      promoted_row_stored libs resp now_ms db now _ s out v other said verdict ends in
    let place = at ∙ placed in
    let found : now.slots resp.period resp.thread ≡ some row =
      subst (λ x. now.slots x.period x.thread ≡ some row) place (stored-here row db now put) in
    rw found (
      taken_is_settled resp row out b cfg sweep fin (miss_is ∙ held)
        (ap (λ x. in_recheck sweep x.period) place ∙ free) held ships_b ships_x ships_t took)
