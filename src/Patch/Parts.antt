-- ===== src/Patch/Parts.antt =====
-- massa-indexer/src/peer/patch.rs: the parts of a patch, each applied to the store, and what
-- follows a verdict. With the helpers of massa-indexer/src/ingest.rs on denunciations.
use massa_history.Base.{
  ℕ, ◌-◌, ◌+◌, ◌/◌, ◌%◌, Bool, true, false, not, ◌&&◌, ◌||◌, Option, none, some, List, [], ◌∷◌,
  ◌==◌, ltb, if◌then◌else◌,
}
use massa_history.Base.Result.{ok}
use massa_history.Bytes.{Bytes}
use massa_history.Ids.{Text, Base58, Address, BlockId, parse_address}
use massa_history.Model.{Slot, SlotState, BlockStatus, no_parts, fresh}
use massa_history.Model.Rows.{
  StoredBlock, StoredEndorsement, StoredDenunciation, StoredDenunciationEntry,
}
use massa_history.Model.Operations.{StoredOperation, StoredScEvent}
use massa_history.Model.Transfers.{StoredTransfer, StoredAsyncMsg, StoredDeferredCall}
use massa_history.Backfill.{is_empty}
use massa_history.Reconcile.{
  ok_of, reconcile_async_from_transfers, reconcile_deferred_from_transfers,
}
use massa_history.Arbiter.{option_eq}
use massa_history.Db.{
  Libs, Action, Done, pure, ◌>>=◌, ◌>>◌, read_slot, write_slot, read_block, write_block, read_op,
  write_op, write_endorsement, write_denunciation,
}
use massa_history.Db.Events.{
  write_sc_event, clear_sc_events_for_slot, write_transfer, clear_transfers_for_slot,
}
use massa_history.Db.Calls.{write_async_msg, write_deferred_call}
use massa_history.Patch.{FinalSlotResponse, slot_of, with_candidate, holds}

abbrev block_status_eq : BlockStatus → BlockStatus → Bool
block_status_eq BlockStatus.seen_candidate BlockStatus.seen_candidate = true
block_status_eq BlockStatus.final BlockStatus.final = true
block_status_eq BlockStatus.discarded BlockStatus.discarded = true
block_status_eq _ _ = false

-- `if b.status != status { b.status = status; write }`
unfoldable pub set_status : BlockStatus → Option StoredBlock → Done
set_status status none = pure tt
set_status status (some b) =
    if block_status_eq b.status status then pure tt else write_block (record b { status = status })

unfoldable pub mark : BlockStatus → BlockId → Done
mark status bid = do found ← read_block bid; set_status status found

abbrev pub verdict_on : Option BlockId → BlockId → BlockStatus
verdict_on final_block_id bid =
    if option_eq (some bid) final_block_id then BlockStatus.final else BlockStatus.discarded

unfoldable pub mark_candidates : Option BlockId → List BlockId → Done
mark_candidates final_block_id [] = pure tt
mark_candidates final_block_id (bid ∷ rest) = do
  mark (verdict_on final_block_id bid) bid
  mark_candidates final_block_id rest

unfoldable pub mark_uncounted : Option BlockId → List BlockId → Done
mark_uncounted none candidates = pure tt
mark_uncounted (some bid) candidates =
    if holds bid candidates then pure tt else mark BlockStatus.final bid

unfoldable pub apply_finality_to_blocks : Option BlockId → List BlockId → Done
apply_finality_to_blocks final_block_id candidates = do
  mark_candidates final_block_id candidates
  mark_uncounted final_block_id candidates

unfoldable pub stub_if_absent : Slot → ℕ → Option SlotState → Done
stub_if_absent slot now_ms (some row) = pure tt
stub_if_absent slot now_ms none = write_slot (fresh slot now_ms)

unfoldable pub ensure_parent_stub : Slot → ℕ → Done
unfolding stub_if_absent
ensure_parent_stub slot now_ms = if slot.period == 0 then pure tt else (do
  let prev : Slot = record { period = slot.period - 1; thread = slot.thread }
  found ← read_slot prev.period prev.thread
  stub_if_absent prev now_ms found)

unfoldable pub discard_old : Option BlockId → Done
discard_old none = pure tt
discard_old (some old) = mark BlockStatus.discarded old

abbrev adopted_candidates : Option BlockId → List BlockId → List BlockId
adopted_candidates none candidates = candidates
adopted_candidates (some bid) candidates = with_candidate bid candidates

-- The row with the peer's verdict, and nothing that was derived from the old one.
unfoldable pub adopted_row : Bool → Option BlockId → Option Text → SlotState → SlotState
adopted_row is_miss peer_block peer_trail row =
    let winner = if is_miss then none else peer_block in
    record row {
      is_miss = is_miss;
      final_block_id = winner;
      candidate_block_ids = adopted_candidates winner row.candidate_block_ids;
      execution_trail_hash = peer_trail;
      executed_op_ids = [];
      sc_event_count = 0;
      completeness = record no_parts { block_body_stored = is_miss };
    }

unfoldable pub adopt_peer_verdict :
    Libs → SlotState → FinalSlotResponse → Option BlockId → Option Text → Action SlotState
unfolding discard_old
adopt_peer_verdict libs row resp peer_block peer_trail = do
  discard_old row.final_block_id
  clear_sc_events_for_slot row.slot.period row.slot.thread
  clear_transfers_for_slot libs.b58 row.slot.period row.slot.thread
  pure (adopted_row resp.is_miss peer_block peer_trail row)

-- A local row gets what it lacks: the final status and the inclusions.
abbrev lacking_status : StoredOperation → StoredOperation → StoredOperation
lacking_status op local = elim local.final_exec_status [
  | some s ↦ local
  | none ↦ elim op.final_exec_status [
    | none ↦ local
    | some s ↦ record local { final_exec_status = some s; candidate_exec_status = some s }
  ]
]

abbrev lacking_inclusions : StoredOperation → StoredOperation → StoredOperation
lacking_inclusions op local =
    if is_empty local.inclusions && not (is_empty op.inclusions)
    then record local { inclusions = op.inclusions }
    else local

abbrev pub is_some : {A : Type 0} → Option A → Bool
is_some none = false
is_some (some a) = true

abbrev op_changed : StoredOperation → StoredOperation → Bool
op_changed op local =
    (not (is_some local.final_exec_status) && is_some op.final_exec_status)
    || (is_empty local.inclusions && not (is_empty op.inclusions))

unfoldable pub merge_op : StoredOperation → Option StoredOperation → Done
merge_op op none = write_op op
merge_op op (some local) =
    if op_changed op local
    then write_op (lacking_inclusions op (lacking_status op local))
    else pure tt

unfoldable pub apply_ops : List (Option StoredOperation) → Done
apply_ops [] = pure tt
apply_ops (none ∷ rest) = apply_ops rest
apply_ops (some op ∷ rest) = do found ← read_op op.id; merge_op op found; apply_ops rest

unfoldable pub apply_endorsements : Libs → List (Option StoredEndorsement) → Done
apply_endorsements libs [] = pure tt
apply_endorsements libs (none ∷ rest) = apply_endorsements libs rest
apply_endorsements libs (some e ∷ rest) = do write_endorsement libs e; apply_endorsements libs rest

hex_digit : ℕ → ℕ
hex_digit d = if ltb d 10 then b'0' + d else (b'a' + d) - 10

unfoldable pub hex_encode : Bytes → Text
unfolding hex_digit
hex_encode [] = []
hex_encode (b ∷ bs) = hex_digit (b / 16) ∷ hex_digit (b % 16) ∷ hex_encode bs

unfoldable pub denunciation_hash : Libs → StoredDenunciation → Text
denunciation_hash libs d = hex_encode (libs.sha256_json d)

unfoldable pub denunciation_slot : StoredDenunciation → Slot
denunciation_slot (StoredDenunciation.block_header _ slot _ _ _ _) = slot
denunciation_slot (StoredDenunciation.endorsement _ slot _ _ _ _ _) = slot
denunciation_slot (StoredDenunciation.address _ slot _) = slot
denunciation_slot StoredDenunciation.unknown = record { period = 0; thread = 0 }

unfoldable pub denunciation_target_address : Base58 → StoredDenunciation → Option Address
denunciation_target_address b58 (StoredDenunciation.address a _ _) = ok_of (parse_address b58 a)
denunciation_target_address b58 _ = none

unfoldable pub denunciation_kind_label : StoredDenunciation → Text
denunciation_kind_label (StoredDenunciation.block_header _ _ _ _ _ _) =
    b'b' ∷ b'l' ∷ b'o' ∷ b'c' ∷ b'k' ∷ b'_' ∷ b'h' ∷ b'e' ∷ b'a' ∷ b'd' ∷ b'e' ∷ b'r' ∷ []
denunciation_kind_label (StoredDenunciation.endorsement _ _ _ _ _ _ _) =
    b'e' ∷ b'n' ∷ b'd' ∷ b'o' ∷ b'r' ∷ b's' ∷ b'e' ∷ b'm' ∷ b'e' ∷ b'n' ∷ b't' ∷ []
denunciation_kind_label (StoredDenunciation.address _ _ _) =
    b'a' ∷ b'd' ∷ b'd' ∷ b'r' ∷ b'e' ∷ b's' ∷ b's' ∷ []
denunciation_kind_label StoredDenunciation.unknown =
    b'u' ∷ b'n' ∷ b'k' ∷ b'n' ∷ b'o' ∷ b'w' ∷ b'n' ∷ []

unfoldable pub denunciation_entry :
    Libs → ℕ → BlockId → StoredDenunciation → StoredDenunciationEntry
denunciation_entry libs now_ms bid d = record {
  hash = denunciation_hash libs d;
  slot = denunciation_slot d;
  kind = denunciation_kind_label d;
  denounced_addr = denunciation_target_address libs.b58 d;
  denunciation = d;
  included_block_id = some bid;
  included_slot = some (denunciation_slot d);
  first_seen_ts_ms = now_ms;
}

-- An error is logged and forgotten.
abbrev pub forgiven : Done → Done
forgiven act db = (ok tt, (act db).1)

unfoldable pub apply_denunciations : Libs → ℕ → BlockId → List StoredDenunciation → Done
apply_denunciations libs now_ms bid [] = pure tt
apply_denunciations libs now_ms bid (d ∷ rest) = do
  forgiven (write_denunciation libs (denunciation_entry libs now_ms bid d))
  apply_denunciations libs now_ms bid rest

unfoldable pub write_if_absent : StoredBlock → Option StoredBlock → Done
write_if_absent b none = write_block b
write_if_absent b (some old) = pure tt

unfoldable pub block_part : Libs → FinalSlotResponse → ℕ → StoredBlock → Action (Option StoredBlock)
block_part libs resp now_ms b = do
  found ← read_block b.id
  write_if_absent b found
  apply_ops resp.operations
  apply_endorsements libs resp.endorsements
  apply_denunciations libs now_ms b.id b.denunciations
  pure (some b)

unfoldable pub shipped_part :
    Libs → FinalSlotResponse → ℕ → Option (Option StoredBlock) → Action (Option StoredBlock)
unfolding block_part write_if_absent
shipped_part libs resp now_ms none db = pure none db
shipped_part libs resp now_ms (some none) db = pure none db
shipped_part libs resp now_ms (some (some b)) db = block_part libs resp now_ms b db

unfoldable pub apply_block_part : Libs → FinalSlotResponse → ℕ → Action (Option StoredBlock)
unfolding shipped_part
apply_block_part libs resp now_ms = shipped_part libs resp now_ms resp.block

unfoldable pub write_events : List (Option StoredScEvent) → Done
write_events [] = pure tt
write_events (none ∷ rest) = write_events rest
write_events (some ev ∷ rest) = do write_sc_event ev; write_events rest

unfoldable pub write_async : Libs → List (Option StoredAsyncMsg) → Done
write_async libs [] = pure tt
write_async libs (none ∷ rest) = write_async libs rest
write_async libs (some m ∷ rest) = do write_async_msg libs m; write_async libs rest

unfoldable pub apply_exec_part : Libs → FinalSlotResponse → Done
apply_exec_part libs resp = do
  clear_sc_events_for_slot resp.period resp.thread
  write_events resp.sc_events
  write_async libs resp.async_msgs

-- The rows that decode.
unfoldable pub decoded_rows : {A : Type 0} → List (Option A) → List A
decoded_rows [] = []
decoded_rows (none ∷ rest) = decoded_rows rest
decoded_rows (some a ∷ rest) = a ∷ decoded_rows rest

unfoldable pub write_transfers : Libs → List StoredTransfer → Done
write_transfers libs [] = pure tt
write_transfers libs (t ∷ rest) = do write_transfer libs.b58 t; write_transfers libs rest

unfoldable pub write_deferred : Libs → List StoredDeferredCall → Done
write_deferred libs [] = pure tt
write_deferred libs (d ∷ rest) = do write_deferred_call libs d; write_deferred libs rest

unfoldable pub apply_transfers_part : Libs → FinalSlotResponse → ℕ → Done
apply_transfers_part libs resp now_ms = do
  clear_transfers_for_slot libs.b58 resp.period resp.thread
  write_transfers libs (decoded_rows resp.transfers)
  write_deferred libs (decoded_rows resp.deferred_calls)
  reconcile_async_from_transfers libs (slot_of resp) (decoded_rows resp.transfers) now_ms
  reconcile_deferred_from_transfers libs (slot_of resp) (decoded_rows resp.transfers) now_ms
