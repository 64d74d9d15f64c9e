-- ===== src/Patch/Apply.antt =====
-- massa-indexer/src/peer/patch.rs: `apply_peer_patch`, in the stages that the source goes through.
use massa_history.Base.{
  ℕ, Bool, true, false, not, ◌&&◌, ◌||◌, Option, none, some, List, ◌==◌, ltb, if◌then◌else◌,
}
use massa_history.Base.Result.{ok}
use massa_history.Ids.{Text, BlockId, bytes_eq, as_bytes}
use massa_history.Model.{Slot, SlotState, SlotStatus}
use massa_history.Model.Rows.{StoredBlock}
use massa_history.Backfill.{FinalSlotParts, is_empty}
use massa_history.Arbiter.{
  Reader, Verdict, of_local, of_peer, verdict_eq, Arbitration, adopt_peer, keep_local, inconclusive,
  arbitrate_verdicts,
}
use massa_history.Db.{
  Db, Libs, Action, Done, pure, ◌>>=◌, ◌>>◌, read_slot, write_slot, read_last_final_slot,
  update_last_final_slot, broadcast, slot_updated, slot_final,
}
use massa_history.Patch.{
  FinalSlotResponse, PatchOutcome, no_outcome, with_candidate, slot_of, or_fresh, peer_trail,
  named_block, parsed_ops, touched,
}
use massa_history.Patch.Parts.{
  apply_finality_to_blocks, ensure_parent_stub, adopt_peer_verdict, apply_block_part,
  apply_exec_part, apply_transfers_part, is_some,
}

-- The row and the outcome so far.
pub record Progress : Type 0 where
  pub row : SlotState
  pub out : PatchOutcome

-- Whether the patch goes on after the verdict.
pub data Stage : Type 0 where
  stop go : Progress → Stage

abbrev pub is_final : SlotStatus → Bool
is_final SlotStatus.final = true
is_final SlotStatus.candidate = false
is_final SlotStatus.unknown = false

-- What the arbiter reads.
abbrev pub reader : Db → Reader
reader db = record {
  read_slot = λ period thread. ok (db.slots period thread);
  read_block = λ id. ok (db.blocks (as_bytes id));
}

abbrev pub named_candidates : Option BlockId → List BlockId → List BlockId
named_candidates none candidates = candidates
named_candidates (some bid) candidates = with_candidate bid candidates

abbrev pub or_old : {A : Type 0} → Option A → Option A → Option A
or_old (some new) old = some new
or_old none old = old

-- A row that was not FINAL takes the peer's verdict.
unfoldable pub promoted : Bool → Option BlockId → Option Text → SlotState → SlotState
promoted is_miss bid trail row = record row {
  status = SlotStatus.final;
  is_miss = is_miss;
  execution_trail_hash = or_old trail row.execution_trail_hash;
  final_block_id = if is_miss then row.final_block_id else or_old bid row.final_block_id;
  candidate_block_ids =
      if is_miss then row.candidate_block_ids else named_candidates bid row.candidate_block_ids;
}

-- `existing != incoming`, where both are known.
unfoldable pub trails_differ : Option Text → Option Text → Bool
trails_differ (some old) (some new) = not (bytes_eq old new)
trails_differ _ _ = false

-- Both sides are FINAL with the same verdict, or with none to compare.
unfoldable pub same_verdict : Option Text → Progress → Stage
same_verdict trail p =
    if trails_differ p.row.execution_trail_hash trail
    then stop (record p { out = record p.out { trail_mismatch = true } })
    else go (record p {
      row = record p.row { execution_trail_hash = or_old p.row.execution_trail_hash trail };
    })

-- The peer's block enters the arbiter, if it decodes.
abbrev pub shipped_block : FinalSlotResponse → Option StoredBlock
shipped_block resp = elim resp.block [ none ↦ none | some shipped ↦ shipped ]

unfoldable pub arbitrate : Slot → Verdict → Verdict → Option StoredBlock → Action Arbitration
arbitrate slot lv pv body db = (arbitrate_verdicts (reader db) slot lv pv body, db)

abbrev pub kept_local : Option Text → Progress → Stage
kept_local trail p = stop (record p {
  out = record p.out {
    divergence_kept_local = true;
    trail_mismatch = trails_differ p.row.execution_trail_hash trail;
  };
})

unfoldable pub by_arbitration : Libs → FinalSlotResponse → Progress → Arbitration → Action Stage
by_arbitration libs resp p adopt_peer = do
  row ← adopt_peer_verdict libs p.row resp (named_block libs.b58 resp) (peer_trail resp)
  pure (go (record { row = row; out = record p.out { divergence_repaired = true } }))
by_arbitration libs resp p keep_local = pure (kept_local (peer_trail resp) p)
by_arbitration libs resp p inconclusive = pure (kept_local (peer_trail resp) p)

unfoldable pub both_final :
    Libs → FinalSlotResponse → Progress → Option Verdict → Option Verdict → Action Stage
both_final libs resp p (some lv) (some pv) =
    if verdict_eq lv pv then pure (same_verdict (peer_trail resp) p) else (do
      arbitration ← arbitrate (slot_of resp) lv pv (shipped_block resp)
      by_arbitration libs resp p arbitration)
both_final libs resp p none pv = pure (same_verdict (peer_trail resp) p)
both_final libs resp p (some lv) none = pure (same_verdict (peer_trail resp) p)

unfoldable pub reconcile_verdict : Libs → FinalSlotResponse → Progress → Action Stage
unfolding by_arbitration both_final
reconcile_verdict libs resp p =
    let bid = named_block libs.b58 resp in
    if is_final p.row.status
    then both_final libs resp p (of_local p.row) (of_peer resp.is_miss bid)
    else pure (
        go (record {
          row = promoted resp.is_miss bid (peer_trail resp) p.row;
          out = record p.out { became_final = true };
        }))

-- `(a.period, a.thread) > (b.period, b.thread)`
unfoldable pub after : Slot → Slot → Bool
after a b = ltb b.period a.period || (b.period == a.period && ltb b.thread a.thread)

unfoldable pub raise_last_final : Slot → Option Slot → Done
raise_last_final slot none = update_last_final_slot slot
raise_last_final slot (some prev) = if after slot prev then update_last_final_slot slot else pure tt

unfoldable pub note_last_final : Slot → Bool → Done
unfolding raise_last_final
note_last_final slot became_final =
    if became_final then (do prev ← read_last_final_slot; raise_last_final slot prev) else pure tt

-- What a stored body does to the row.
unfoldable pub with_body : Option StoredBlock → Progress → Progress
with_body none p = p
with_body (some body) p = record {
  row = record p.row {
    candidate_block_ids = with_candidate body.id p.row.candidate_block_ids;
    completeness = record p.row.completeness { block_body_stored = true };
  };
  out = record p.out {
    block_applied = not p.row.completeness.block_body_stored || p.out.block_applied;
  };
}

unfoldable pub with_miss : Bool → Progress → Progress
with_miss is_miss p =
    if is_miss
    then record p {
      row = record p.row { completeness = record p.row.completeness { block_body_stored = true } };
    }
    else p

unfoldable pub block_stage : Libs → FinalSlotResponse → ℕ → Progress → Action Progress
block_stage libs resp now_ms p =
    if is_some resp.block && not resp.is_miss
    then (do
      body ← apply_block_part libs resp now_ms
      pure (with_miss resp.is_miss (with_body body p)))
    else pure (with_miss resp.is_miss p)

-- `resp.parts.unwrap_or_default()`
unfoldable pub honoured : FinalSlotResponse → FinalSlotParts
honoured resp = elim resp.parts [
  | none ↦ record { block = false; exec_output = false; transfers = false }
  | some parts ↦ parts
]

unfoldable pub ships_exec : FinalSlotResponse → Bool
ships_exec resp =
    (not (is_empty resp.executed_op_ids)
      || (ltb 0 resp.sc_event_count
          || (not (is_empty resp.sc_events) || not (is_empty resp.async_msgs))))
    || (resp.completeness_known && ((honoured resp).exec_output && resp.has_exec_output))

unfoldable pub with_exec : Libs → FinalSlotResponse → Progress → Progress
with_exec libs resp p = record {
  row = record p.row {
    executed_op_ids =
        if is_empty p.row.executed_op_ids
        then parsed_ops libs.b58 resp.executed_op_ids
        else p.row.executed_op_ids;
    sc_event_count = resp.sc_event_count;
    completeness = record p.row.completeness { exec_output_final = true };
  };
  out = record p.out { exec_applied = true };
}

unfoldable pub exec_stage : Libs → FinalSlotResponse → Progress → Action Progress
exec_stage libs resp p =
    if ships_exec resp && not p.row.completeness.exec_output_final
    then (do apply_exec_part libs resp; pure (with_exec libs resp p))
    else pure p

unfoldable pub ships_transfers : FinalSlotResponse → Bool
ships_transfers resp =
    (not (is_empty resp.transfers) || not (is_empty resp.deferred_calls))
    || (resp.completeness_known && ((honoured resp).transfers && resp.has_transfers))

unfoldable pub with_transfers : Progress → Progress
with_transfers p = record {
  row = record p.row { completeness = record p.row.completeness { transfers_stored = true } };
  out = record p.out { transfers_applied = true };
}

unfoldable pub transfers_stage : Libs → FinalSlotResponse → ℕ → Progress → Action Progress
transfers_stage libs resp now_ms p =
    if ships_transfers resp && not p.row.completeness.transfers_stored
    then (do apply_transfers_part libs resp now_ms; pure (with_transfers p))
    else pure p

unfoldable pub announce : Progress → Done
announce p = do
  if p.out.became_final || p.out.divergence_repaired then broadcast (slot_final p.row) else pure tt
  broadcast (slot_updated p.row)

unfoldable pub settle : Libs → FinalSlotResponse → ℕ → Progress → Action PatchOutcome
unfolding announce
settle libs resp now_ms p = do
  apply_finality_to_blocks p.row.final_block_id p.row.candidate_block_ids
  let last : Progress = record p { row = touched now_ms p.row }
  write_slot last.row
  ensure_parent_stub (slot_of resp) now_ms
  announce last
  pure p.out

unfoldable pub apply_parts : Libs → FinalSlotResponse → ℕ → Progress → Action PatchOutcome
apply_parts libs resp now_ms p = do
  note_last_final (slot_of resp) p.out.became_final
  p1 ← block_stage libs resp now_ms p
  p2 ← exec_stage libs resp p1
  p3 ← transfers_stage libs resp now_ms p2
  settle libs resp now_ms p3

unfoldable pub after_verdict : Libs → FinalSlotResponse → ℕ → Stage → Action PatchOutcome
after_verdict libs resp now_ms (stop p) = do write_slot (touched now_ms p.row); pure p.out
after_verdict libs resp now_ms (go p) = apply_parts libs resp now_ms p

unfoldable pub patch_slot : Libs → FinalSlotResponse → ℕ → Action PatchOutcome
patch_slot libs resp now_ms = do
  found ← read_slot resp.period resp.thread
  stage ←
      reconcile_verdict libs resp
        (record { row = or_fresh (slot_of resp) now_ms found; out = no_outcome })
  after_verdict libs resp now_ms stage

unfoldable pub apply_peer_patch : Libs → FinalSlotResponse → ℕ → Action PatchOutcome
apply_peer_patch libs resp now_ms =
    if not (ltb resp.thread 256)
    then pure no_outcome
    else if not resp.final_known
    then pure (record no_outcome { empty = true })
    else patch_slot libs resp now_ms
