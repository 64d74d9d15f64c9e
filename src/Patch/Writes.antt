-- ===== src/Patch/Writes.antt =====
-- massa-indexer/src/peer/patch.rs: the writes of a patch end well, where the store does not fail and each
-- shipped endorsement has an id that parses.
use massa_history.Base.{
  ℕ, Bool, true, false, ◌&&◌, ◌||◌, ◌≡◌, refl, Option, none, some, List, [], ◌∷◌, ◌==◌, ◌-◌,
  if◌then◌else◌,
}
use massa_history.Base.Result.{Result, ok, err}
use massa_history.Ids.{
  Text, IdError, EndorsementId, BlockId, OperationId, endorsement, parse, as_bytes,
}
use massa_history.Model.{Slot, SlotState, BlockStatus, fresh}
use massa_history.Model.Rows.{StoredBlock, StoredEndorsement, StoredDenunciation}
use massa_history.Model.Operations.{StoredOperation, StoredScEvent}
use massa_history.Model.Transfers.{
  StoredTransfer, StoredAsyncMsg, StoredDeferredCall, AsyncMsgState, DeferredCallState,
}
use massa_history.Db.{
  Libs, Action, Done, pure, ◌>>=◌, ◌>>◌, read_slot, write_slot, broadcast, read_op, write_op,
  read_block, write_block, write_endorsement, write_denunciation,
}
use massa_history.Db.Events.{
  write_sc_event, clear_sc_events_for_slot, write_transfer, clear_transfers_for_slot,
}
use massa_history.Db.Calls.{
  read_async_msg, write_async_msg, read_deferred_call, write_deferred_call,
}
use massa_history.Db.Total.{Total, >>=-Total, if-Total, write_slot-Total, write_endorsement-Total}
use massa_history.Reconcile.{
  async_transfer, async_round, reconcile_async, reconcile_async_from_transfers, async_outcome,
  deferred_write, deferred_round, reconcile_deferred, reconcile_deferred_from_transfers,
}
use massa_history.Patch.{FinalSlotResponse, PatchOutcome, slot_of, touched}
use massa_history.Patch.Parts.{
  set_status, mark, mark_candidates, mark_uncounted, apply_finality_to_blocks, verdict_on,
  stub_if_absent, ensure_parent_stub, discard_old, adopt_peer_verdict, adopted_row, merge_op,
  apply_ops, apply_endorsements, forgiven, apply_denunciations, denunciation_entry, write_if_absent,
  block_part, shipped_part, apply_block_part, write_events, write_async, apply_exec_part,
  decoded_rows, write_transfers, write_deferred, apply_transfers_part,
}
use massa_history.Patch.Apply.{Progress, announce}

-- Each endorsement that decodes has an id that parses.
abbrev is_ok : {E A : Type 0} → Result E A → Bool
is_ok (ok a) = true
is_ok (err why) = false

abbrev pub all_named : Libs → List (Option StoredEndorsement) → Bool
all_named libs [] = true
all_named libs (none ∷ rest) = all_named libs rest
all_named libs (some e ∷ rest) = is_ok (parse libs.b58 endorsement e.id) && all_named libs rest

mark-Total : (status : BlockStatus) (bid : BlockId) → Total (mark status bid)
unfolding mark read_block set_status write_block
mark-Total status bid db = marked (db.blocks (as_bytes bid)) db
  where
    marked : (found : Option StoredBlock) → Total (set_status status found)
    marked none = λ db. (tt, refl)
    marked (some b) = if-Total _ (pure tt) (write_block _) (λ db. (tt, refl)) λ db. (tt, refl)

candidates-Total :
    (winner : Option BlockId) (bids : List BlockId) → Total (mark_candidates winner bids)
unfolding mark_candidates
candidates-Total winner [] = λ db. (tt, refl)
candidates-Total winner (bid ∷ rest) =
    >>=-Total (mark (verdict_on winner bid) bid) _ (mark-Total (verdict_on winner bid) bid)
      λ _. candidates-Total winner rest

pub finality-Total :
    (winner : Option BlockId) (bids : List BlockId) → Total (apply_finality_to_blocks winner bids)
unfolding apply_finality_to_blocks mark_uncounted
finality-Total winner bids =
    >>=-Total (mark_candidates winner bids) _ (candidates-Total winner bids) λ _. uncounted winner
  where
    uncounted : (w : Option BlockId) → Total (mark_uncounted w bids)
    uncounted none = λ db. (tt, refl)
    uncounted (some bid) =
        if-Total _ (pure tt) (mark BlockStatus.final bid) (λ db. (tt, refl))
          (mark-Total BlockStatus.final bid)

stub-Total :
    (slot : Slot) (now_ms : ℕ) (found : Option SlotState) → Total (stub_if_absent slot now_ms found)
unfolding stub_if_absent
stub-Total slot now_ms none = write_slot-Total (fresh slot now_ms)
stub-Total slot now_ms (some row) = λ db. (tt, refl)

ensure_parent_stub-Total : (slot : Slot) (now_ms : ℕ) → Total (ensure_parent_stub slot now_ms)
unfolding ensure_parent_stub read_slot
ensure_parent_stub-Total slot now_ms =
    if-Total (slot.period == 0) (pure tt) _ (λ db. (tt, refl))
      λ db. stub-Total (record { period = slot.period - 1; thread = slot.thread }) now_ms _ db

announce-Total : (p : Progress) → Total (announce p)
unfolding announce broadcast
announce-Total p =
    >>=-Total (if p.out.became_final || p.out.divergence_repaired then _ else pure tt) _
      (if-Total (p.out.became_final || p.out.divergence_repaired) _ (pure tt) (λ db. (tt, refl))
        (λ db. (tt, refl)))
      (λ _ db. (tt, refl))

module _ (libs : Libs) (resp : FinalSlotResponse) (now_ms : ℕ) where
  abbrev pub stored_and_told : Progress → Action PatchOutcome
  stored_and_told p = do
    write_slot (touched now_ms p.row)
    ensure_parent_stub (slot_of resp) now_ms
    announce (record p { row = touched now_ms p.row })
    pure p.out

  pub told-Total : (p : Progress) → Total (stored_and_told p)
  told-Total p =
      >>=-Total (write_slot (touched now_ms p.row)) _ (write_slot-Total (touched now_ms p.row)) λ _.
        >>=-Total (ensure_parent_stub (slot_of resp) now_ms) _
          (ensure_parent_stub-Total (slot_of resp) now_ms)
          λ _.
            >>=-Total (announce (record p { row = touched now_ms p.row })) _
              (announce-Total (record p { row = touched now_ms p.row })) λ _ db. (p.out, refl)

endorsements-Total :
    (libs : Libs) (es : List (Option StoredEndorsement))
    → all_named libs es ≡ true
    → Total (apply_endorsements libs es)
unfolding apply_endorsements
endorsements-Total libs [] h = λ db. (tt, refl)
endorsements-Total libs (none ∷ rest) h = endorsements-Total libs rest h
endorsements-Total libs (some e ∷ rest) h =
    by_id (parse libs.b58 endorsement e.id) refl (endorsements-Total libs rest) h
  where
    by_id :
        (r : Result IdError EndorsementId)
        → parse libs.b58 endorsement e.id ≡ r
        → (all_named libs rest ≡ true → Total (apply_endorsements libs rest))
        → (is_ok r && all_named libs rest) ≡ true
        → Total (write_endorsement libs e >>= λ _. apply_endorsements libs rest)
    by_id (err why) named more k = cc k
    by_id (ok id) named more k =
        >>=-Total (write_endorsement libs e) _ (write_endorsement-Total libs e id named) λ _. more k

merged-Total : (op : StoredOperation) (found : Option StoredOperation) → Total (merge_op op found)
unfolding merge_op write_op
merged-Total op none = λ db. (tt, refl)
merged-Total op (some local) = if-Total _ (write_op _) (pure tt) (λ db. (tt, refl)) λ db. (tt, refl)

read_op-Total : (id : OperationId) → Total (read_op id)
unfolding read_op
read_op-Total id db = (db.ops (as_bytes id), refl)

read_block-Total : (id : BlockId) → Total (read_block id)
unfolding read_block
read_block-Total id db = (db.blocks (as_bytes id), refl)

absent-Total : (b : StoredBlock) (found : Option StoredBlock) → Total (write_if_absent b found)
unfolding write_if_absent write_block
absent-Total b none = λ db. (tt, refl)
absent-Total b (some old) = λ db. (tt, refl)

forgiven-Total : (act : Done) → Total (forgiven act)
forgiven-Total act db = (tt, refl)

event-Total : (ev : StoredScEvent) → Total (write_sc_event ev)
unfolding write_sc_event
event-Total ev db = (tt, refl)

message-Total : (libs : Libs) (m : StoredAsyncMsg) → Total (write_async_msg libs m)
unfolding write_async_msg
message-Total libs m db = (tt, refl)

transfer-Total : (libs : Libs) (t : StoredTransfer) → Total (write_transfer libs.b58 t)
unfolding write_transfer
transfer-Total libs t db = (tt, refl)

call-Total : (libs : Libs) (d : StoredDeferredCall) → Total (write_deferred_call libs d)
unfolding write_deferred_call
call-Total libs d db = (tt, refl)

clear_sc_events-Total : (p t : ℕ) → Total (clear_sc_events_for_slot p t)
unfolding clear_sc_events_for_slot
clear_sc_events-Total p t db = (tt, refl)

clear_transfers-Total : (libs : Libs) (p t : ℕ) → Total (clear_transfers_for_slot libs.b58 p t)
unfolding clear_transfers_for_slot
clear_transfers-Total libs p t db = (tt, refl)

ops-Total : (ops : List (Option StoredOperation)) → Total (apply_ops ops)
unfolding apply_ops
ops-Total [] = λ db. (tt, refl)
ops-Total (none ∷ rest) = ops-Total rest
ops-Total (some op ∷ rest) =
    >>=-Total (read_op op.id) _ (read_op-Total op.id)
      λ found. >>=-Total (merge_op op found) _ (merged-Total op found) λ _. ops-Total rest

module _ (libs : Libs) where
  denunciations-Total :
      (now_ms : ℕ) (bid : BlockId) (ds : List StoredDenunciation)
      → Total (apply_denunciations libs now_ms bid ds)
  unfolding apply_denunciations
  denunciations-Total now_ms bid [] = λ db. (tt, refl)
  denunciations-Total now_ms bid (d ∷ rest) =
      let act = write_denunciation libs (denunciation_entry libs now_ms bid d) in
      >>=-Total (forgiven act) (λ _. apply_denunciations libs now_ms bid rest) (forgiven-Total act)
        λ _. denunciations-Total now_ms bid rest

  pub block_part-Total :
      (resp : FinalSlotResponse) (now_ms : ℕ)
      → all_named libs resp.endorsements ≡ true
      → Total (apply_block_part libs resp now_ms)
  unfolding apply_block_part shipped_part block_part
  block_part-Total resp now_ms named = by_block resp.block
    where
      by_block : (b : Option (Option StoredBlock)) → Total (shipped_part libs resp now_ms b)
      by_block none = λ db. (none, refl)
      by_block (some none) = λ db. (none, refl)
      by_block (some (some b)) = >>=-Total (read_block b.id) _ (read_block-Total b.id) λ found.
          >>=-Total (write_if_absent b found) _ (absent-Total b found) λ _.
            >>=-Total (apply_ops resp.operations) _ (ops-Total resp.operations) λ _.
              >>=-Total (apply_endorsements libs resp.endorsements) _
                (endorsements-Total libs resp.endorsements named)
                λ _.
                  >>=-Total (apply_denunciations libs now_ms b.id b.denunciations) _
                    (denunciations-Total now_ms b.id b.denunciations) λ _ db. (some b, refl)

  events-Total : (evs : List (Option StoredScEvent)) → Total (write_events evs)
  unfolding write_events
  events-Total [] = λ db. (tt, refl)
  events-Total (none ∷ rest) = events-Total rest
  events-Total (some ev ∷ rest) =
      >>=-Total (write_sc_event ev) _ (event-Total ev) λ _. events-Total rest

  async-Total : (ms : List (Option StoredAsyncMsg)) → Total (write_async libs ms)
  unfolding write_async
  async-Total [] = λ db. (tt, refl)
  async-Total (none ∷ rest) = async-Total rest
  async-Total (some m ∷ rest) =
      >>=-Total (write_async_msg libs m) _ (message-Total libs m) λ _. async-Total rest

  pub exec_part-Total : (resp : FinalSlotResponse) → Total (apply_exec_part libs resp)
  unfolding apply_exec_part
  exec_part-Total resp =
      >>=-Total (clear_sc_events_for_slot resp.period resp.thread) _
        (clear_sc_events-Total resp.period resp.thread)
        λ _.
          >>=-Total (write_events resp.sc_events) _ (events-Total resp.sc_events)
            λ _. async-Total resp.async_msgs

  transfers-Total : (ts : List StoredTransfer) → Total (write_transfers libs ts)
  unfolding write_transfers
  transfers-Total [] = λ db. (tt, refl)
  transfers-Total (t ∷ rest) =
      >>=-Total (write_transfer libs.b58 t) _ (transfer-Total libs t) λ _. transfers-Total rest

  deferred-Total : (ds : List StoredDeferredCall) → Total (write_deferred libs ds)
  unfolding write_deferred
  deferred-Total [] = λ db. (tt, refl)
  deferred-Total (d ∷ rest) =
      >>=-Total (write_deferred_call libs d) _ (call-Total libs d) λ _. deferred-Total rest

  messages-Total :
      (slot : Slot) (rows : List StoredTransfer) (now_ms : ℕ)
      → Total (reconcile_async_from_transfers libs slot rows now_ms)
  unfolding reconcile_async_from_transfers reconcile_async async_round async_transfer
      write_async_msg read_async_msg
  messages-Total slot [] now_ms = λ db. (tt, refl)
  messages-Total slot (r ∷ rows) now_ms =
      >>=-Total (reconcile_async libs slot now_ms r) _
        (round r.async_msg_id (async_outcome r.origin)) λ _. messages-Total slot rows now_ms
    where
      round :
          (id : Option Text) (outcome : Option AsyncMsgState)
          → Total (async_round libs slot now_ms r id outcome)
      round none outcome = λ db. (tt, refl)
      round (some id) none = λ db. (tt, refl)
      round (some id) (some new_state) = λ db. (tt, refl)

  calls-Total :
      (slot : Slot) (rows : List StoredTransfer) (now_ms : ℕ)
      → Total (reconcile_deferred_from_transfers libs slot rows now_ms)
  unfolding reconcile_deferred_from_transfers reconcile_deferred deferred_round deferred_write
      write_deferred_call read_deferred_call
  calls-Total slot [] now_ms = λ db. (tt, refl)
  calls-Total slot (r ∷ rows) now_ms =
      >>=-Total (reconcile_deferred libs slot now_ms r) _ (round r.deferred_call_id)
        λ _. calls-Total slot rows now_ms
    where
      written :
          (next : Option (StoredDeferredCall × DeferredCallState))
          → Total (deferred_write libs slot now_ms r next)
      written none = λ db. (tt, refl)
      written (some (existing, new_state)) = λ db. (tt, refl)

      round : (id : Option Text) → Total (deferred_round libs slot now_ms r id)
      round none = λ db. (tt, refl)
      round (some id) = λ db. written _ db

  pub transfers_part-Total :
      (resp : FinalSlotResponse) (now_ms : ℕ) → Total (apply_transfers_part libs resp now_ms)
  unfolding apply_transfers_part
  transfers_part-Total resp now_ms =
      >>=-Total (clear_transfers_for_slot libs.b58 resp.period resp.thread) _
        (clear_transfers-Total libs resp.period resp.thread)
        λ _.
          >>=-Total (write_transfers libs (decoded_rows resp.transfers)) _
            (transfers-Total (decoded_rows resp.transfers))
            λ _.
              >>=-Total (write_deferred libs (decoded_rows resp.deferred_calls)) _
                (deferred-Total (decoded_rows resp.deferred_calls))
                λ _.
                  >>=-Total
                    (reconcile_async_from_transfers libs (slot_of resp)
                      (decoded_rows resp.transfers) now_ms)
                    _ (messages-Total (slot_of resp) (decoded_rows resp.transfers) now_ms)
                    λ _. calls-Total (slot_of resp) (decoded_rows resp.transfers) now_ms

  pub adopt-Total :
      (row : SlotState) (resp : FinalSlotResponse) (b : Option BlockId) (trail : Option Text)
      → Total (adopt_peer_verdict libs row resp b trail)
  unfolding adopt_peer_verdict discard_old
  adopt-Total row resp b trail =
      >>=-Total (discard_old row.final_block_id) _ (discarded row.final_block_id) λ _.
        >>=-Total (clear_sc_events_for_slot row.slot.period row.slot.thread) _
          (clear_sc_events-Total row.slot.period row.slot.thread)
          λ _.
            >>=-Total (clear_transfers_for_slot libs.b58 row.slot.period row.slot.thread) _
              (clear_transfers-Total libs row.slot.period row.slot.thread)
              λ _ db. (adopted_row resp.is_miss b trail row, refl)
    where
      discarded : (old : Option BlockId) → Total (discard_old old)
      discarded none = λ db. (tt, refl)
      discarded (some old) = mark-Total BlockStatus.discarded old
