-- ===== src/Patch/Frame.antt =====
-- The parts of a patch write their own rows: the slot rows and the last final slot stay.
use massa_history.Base.{ℕ, refl, ◌∙◌, Option, none, some, List, [], ◌∷◌}
use massa_history.Ids.{Text, BlockId, OperationId}
use massa_history.Model.{Slot, SlotState, BlockStatus}
use massa_history.Model.Rows.{StoredBlock, StoredEndorsement, StoredDenunciation}
use massa_history.Model.Operations.{StoredOperation, StoredScEvent}
use massa_history.Model.Transfers.{
  StoredTransfer, StoredAsyncMsg, StoredDeferredCall, AsyncMsgState, DeferredCallState,
}
use massa_history.Reconcile.{
  async_outcome, async_transfer, async_round, deferred_write, deferred_round, reconcile_async,
  reconcile_async_from_transfers, reconcile_deferred, reconcile_deferred_from_transfers,
}
use massa_history.Db.{Libs, pure, read_block, read_op, write_endorsement}
use massa_history.Db.Events.{
  write_sc_event, clear_sc_events_for_slot, write_transfer, clear_transfers_for_slot,
}
use massa_history.Db.Calls.{
  write_async_msg, write_deferred_call, read_async_msg, read_deferred_call,
}
use massa_history.Db.Frame.{
  Keeps, >>=-Keeps, if-Keeps, write_block-Keeps, write_op-Keeps, write_endorsement-Keeps,
  write_denunciation-Keeps, write_sc_event-Keeps, clear_sc_events-Keeps, write_transfer-Keeps,
  clear_transfers-Keeps, write_async_msg-Keeps, write_deferred_call-Keeps,
}
use massa_history.Patch.{FinalSlotResponse, slot_of}
use massa_history.Patch.Parts.{
  set_status, mark, verdict_on, mark_candidates, mark_uncounted, apply_finality_to_blocks,
  adopt_peer_verdict, discard_old, merge_op, apply_ops, apply_endorsements, apply_denunciations,
  write_if_absent, block_part, shipped_part, apply_block_part, write_events, write_async,
  apply_exec_part, decoded_rows, write_transfers, write_deferred, apply_transfers_part,
}

read_block-Keeps : (id : BlockId) → Keeps (read_block id)
unfolding read_block
read_block-Keeps id db = refl

read_op-Keeps : (id : OperationId) → Keeps (read_op id)
unfolding read_op
read_op-Keeps id db = refl

set_status-Keeps : (s : BlockStatus) (found : Option StoredBlock) → Keeps (set_status s found)
unfolding set_status
set_status-Keeps s none = λ db. refl
set_status-Keeps s (some b) = if-Keeps _ (pure tt) _ (λ db'. refl) (write_block-Keeps _)

mark-Keeps : (s : BlockStatus) (bid : BlockId) → Keeps (mark s bid)
unfolding mark
mark-Keeps s bid = >>=-Keeps (read_block bid) _ (read_block-Keeps bid) (set_status-Keeps s)

mark_candidates-Keeps : (f : Option BlockId) (bs : List BlockId) → Keeps (mark_candidates f bs)
unfolding mark_candidates
mark_candidates-Keeps f [] = λ db. refl
mark_candidates-Keeps f (b ∷ bs) =
    (>>=-Keeps (mark (verdict_on f b) b) _ (mark-Keeps _ b) (λ _. mark_candidates-Keeps f bs))

mark_uncounted-Keeps : (f : Option BlockId) (bs : List BlockId) → Keeps (mark_uncounted f bs)
unfolding mark_uncounted
mark_uncounted-Keeps none bs = λ db. refl
mark_uncounted-Keeps (some b) bs =
    if-Keeps _ (pure tt) _ (λ db'. refl) (mark-Keeps BlockStatus.final b)

pub apply_finality-Keeps :
    (f : Option BlockId) (bs : List BlockId) → Keeps (apply_finality_to_blocks f bs)
unfolding apply_finality_to_blocks
apply_finality-Keeps f bs =
    >>=-Keeps (mark_candidates f bs) _ (mark_candidates-Keeps f bs) (λ _. mark_uncounted-Keeps f bs)

discard_old-Keeps : (old : Option BlockId) → Keeps (discard_old old)
unfolding discard_old
discard_old-Keeps none db = refl
discard_old-Keeps (some b) db = (mark-Keeps BlockStatus.discarded b) db

pub adopt-Keeps :
    (libs : Libs) (row : SlotState) (resp : FinalSlotResponse) (b : Option BlockId)
    (t : Option Text)
    → Keeps (adopt_peer_verdict libs row resp b t)
unfolding adopt_peer_verdict
adopt-Keeps libs row resp b t =
    >>=-Keeps (discard_old row.final_block_id) _ (discard_old-Keeps row.final_block_id) λ _.
      >>=-Keeps (clear_sc_events_for_slot row.slot.period row.slot.thread) _
        (clear_sc_events-Keeps row.slot.period row.slot.thread)
        λ _.
          >>=-Keeps (clear_transfers_for_slot libs.b58 row.slot.period row.slot.thread) _
            (clear_transfers-Keeps libs row.slot.period row.slot.thread) λ _ db. refl

module _ (libs : Libs) where
  merge_op-Keeps :
      (op : StoredOperation) (found : Option StoredOperation) → Keeps (merge_op op found)
  unfolding merge_op
  merge_op-Keeps op none db = (write_op-Keeps op) db
  merge_op-Keeps op (some local) db = if-Keeps _ _ (pure tt) (write_op-Keeps _) (λ db'. refl) db

  apply_ops-Keeps : (ops : List (Option StoredOperation)) → Keeps (apply_ops ops)
  unfolding apply_ops
  apply_ops-Keeps [] = λ db. refl
  apply_ops-Keeps (none ∷ rest) = apply_ops-Keeps rest
  apply_ops-Keeps (some op ∷ rest) =
      (>>=-Keeps (read_op op.id) _ (read_op-Keeps op.id) λ found.
        >>=-Keeps (merge_op op found) _ (merge_op-Keeps op found) λ _. apply_ops-Keeps rest)

  apply_endorsements-Keeps :
      (es : List (Option StoredEndorsement)) → Keeps (apply_endorsements libs es)
  unfolding apply_endorsements
  apply_endorsements-Keeps [] = λ db. refl
  apply_endorsements-Keeps (none ∷ rest) = apply_endorsements-Keeps rest
  apply_endorsements-Keeps (some e ∷ rest) =
      (>>=-Keeps (write_endorsement libs e) _ (write_endorsement-Keeps libs e)
        (λ _. apply_endorsements-Keeps rest))

  apply_denunciations-Keeps :
      (now_ms : ℕ) (bid : BlockId) (ds : List StoredDenunciation)
      → Keeps (apply_denunciations libs now_ms bid ds)
  unfolding apply_denunciations
  apply_denunciations-Keeps now_ms bid [] db = refl
  apply_denunciations-Keeps now_ms bid (d ∷ rest) db =
      apply_denunciations-Keeps now_ms bid rest _ ∙ write_denunciation-Keeps libs _ db

  write_if_absent-Keeps :
      (b : StoredBlock) (found : Option StoredBlock) → Keeps (write_if_absent b found)
  unfolding write_if_absent
  write_if_absent-Keeps b none db = (write_block-Keeps b) db
  write_if_absent-Keeps b (some old) db = refl

  block_part-Keeps :
      (resp : FinalSlotResponse) (now_ms : ℕ) (b : StoredBlock)
      → Keeps (block_part libs resp now_ms b)
  unfolding block_part
  block_part-Keeps resp now_ms b = >>=-Keeps (read_block b.id) _ (read_block-Keeps b.id) λ found.
      >>=-Keeps (write_if_absent b found) _ (write_if_absent-Keeps b found) λ _.
        >>=-Keeps (apply_ops resp.operations) _ (apply_ops-Keeps resp.operations) λ _.
          >>=-Keeps (apply_endorsements libs resp.endorsements) _
            (apply_endorsements-Keeps resp.endorsements)
            λ _.
              >>=-Keeps (apply_denunciations libs now_ms b.id b.denunciations) _
                (apply_denunciations-Keeps now_ms b.id b.denunciations) λ _ db. refl

  shipped_part-Keeps :
      (resp : FinalSlotResponse) (now_ms : ℕ) (shipped : Option (Option StoredBlock))
      → Keeps (shipped_part libs resp now_ms shipped)
  unfolding shipped_part
  shipped_part-Keeps resp now_ms none db = refl
  shipped_part-Keeps resp now_ms (some none) db = refl
  shipped_part-Keeps resp now_ms (some (some b)) db = block_part-Keeps resp now_ms b db

  pub apply_block_part-Keeps :
      (resp : FinalSlotResponse) (now_ms : ℕ) → Keeps (apply_block_part libs resp now_ms)
  unfolding apply_block_part
  apply_block_part-Keeps resp now_ms = shipped_part-Keeps resp now_ms resp.block

  write_events-Keeps : (evs : List (Option StoredScEvent)) → Keeps (write_events evs)
  unfolding write_events
  write_events-Keeps [] = λ db. refl
  write_events-Keeps (none ∷ rest) = write_events-Keeps rest
  write_events-Keeps (some ev ∷ rest) =
      (>>=-Keeps (write_sc_event ev) _ (write_sc_event-Keeps ev) (λ _. write_events-Keeps rest))

  write_async-Keeps : (ms : List (Option StoredAsyncMsg)) → Keeps (write_async libs ms)
  unfolding write_async
  write_async-Keeps [] = λ db. refl
  write_async-Keeps (none ∷ rest) = write_async-Keeps rest
  write_async-Keeps (some m ∷ rest) =
      (>>=-Keeps (write_async_msg libs m) _ (write_async_msg-Keeps libs m)
        (λ _. write_async-Keeps rest))

  pub apply_exec_part-Keeps : (resp : FinalSlotResponse) → Keeps (apply_exec_part libs resp)
  unfolding apply_exec_part
  apply_exec_part-Keeps resp =
      >>=-Keeps (clear_sc_events_for_slot resp.period resp.thread) _
        (clear_sc_events-Keeps resp.period resp.thread)
        λ _.
          >>=-Keeps (write_events resp.sc_events) _ (write_events-Keeps resp.sc_events)
            λ _. write_async-Keeps resp.async_msgs

  pub write_transfers-Keeps : (ts : List StoredTransfer) → Keeps (write_transfers libs ts)
  unfolding write_transfers
  write_transfers-Keeps [] = λ db. refl
  write_transfers-Keeps (t ∷ rest) =
      (>>=-Keeps (write_transfer libs.b58 t) _ (write_transfer-Keeps libs t)
        (λ _. write_transfers-Keeps rest))

  write_deferred-Keeps : (ds : List StoredDeferredCall) → Keeps (write_deferred libs ds)
  unfolding write_deferred
  write_deferred-Keeps [] = λ db. refl
  write_deferred-Keeps (d ∷ rest) =
      (>>=-Keeps (write_deferred_call libs d) _ (write_deferred_call-Keeps libs d)
        (λ _. write_deferred-Keeps rest))

  async_round-Keeps :
      (slot : Slot) (now_ms : ℕ) (r : StoredTransfer) (id : Option Text) (o : Option AsyncMsgState)
      → Keeps (async_round libs slot now_ms r id o)
  unfolding async_round async_transfer read_async_msg
  async_round-Keeps slot now_ms r none o db = refl
  async_round-Keeps slot now_ms r (some id) none db = refl
  async_round-Keeps slot now_ms r (some id) (some s) db = write_async_msg-Keeps libs _ db

  pub reconcile_async-Keeps :
      (slot : Slot) (now_ms : ℕ) (r : StoredTransfer) → Keeps (reconcile_async libs slot now_ms r)
  unfolding reconcile_async
  reconcile_async-Keeps slot now_ms r =
      async_round-Keeps slot now_ms r r.async_msg_id (async_outcome r.origin)

  async_transfers-Keeps :
      (slot : Slot) (now_ms : ℕ) (rows : List StoredTransfer)
      → Keeps (reconcile_async_from_transfers libs slot rows now_ms)
  unfolding reconcile_async_from_transfers
  async_transfers-Keeps slot now_ms [] = λ db. refl
  async_transfers-Keeps slot now_ms (r ∷ rows) =
      (>>=-Keeps (reconcile_async libs slot now_ms r) _ (reconcile_async-Keeps slot now_ms r)
        (λ _. async_transfers-Keeps slot now_ms rows))

  deferred_write-Keeps :
      (slot : Slot) (now_ms : ℕ) (r : StoredTransfer)
      (o : Option (StoredDeferredCall × DeferredCallState))
      → Keeps (deferred_write libs slot now_ms r o)
  unfolding deferred_write
  deferred_write-Keeps slot now_ms r none db = refl
  deferred_write-Keeps slot now_ms r (some (d, s)) db = write_deferred_call-Keeps libs _ db

  deferred_round-Keeps :
      (slot : Slot) (now_ms : ℕ) (r : StoredTransfer) (id : Option Text)
      → Keeps (deferred_round libs slot now_ms r id)
  unfolding deferred_round read_deferred_call
  deferred_round-Keeps slot now_ms r none db = refl
  deferred_round-Keeps slot now_ms r (some id) db = deferred_write-Keeps slot now_ms r _ db

  pub reconcile_deferred-Keeps :
      (slot : Slot) (now_ms : ℕ) (r : StoredTransfer)
      → Keeps (reconcile_deferred libs slot now_ms r)
  unfolding reconcile_deferred
  reconcile_deferred-Keeps slot now_ms r = deferred_round-Keeps slot now_ms r r.deferred_call_id

  deferred_transfers-Keeps :
      (slot : Slot) (now_ms : ℕ) (rows : List StoredTransfer)
      → Keeps (reconcile_deferred_from_transfers libs slot rows now_ms)
  unfolding reconcile_deferred_from_transfers
  deferred_transfers-Keeps slot now_ms [] = λ db. refl
  deferred_transfers-Keeps slot now_ms (r ∷ rows) =
      (>>=-Keeps (reconcile_deferred libs slot now_ms r) _ (reconcile_deferred-Keeps slot now_ms r)
        (λ _. deferred_transfers-Keeps slot now_ms rows))

  pub apply_transfers_part-Keeps :
      (resp : FinalSlotResponse) (now_ms : ℕ) → Keeps (apply_transfers_part libs resp now_ms)
  unfolding apply_transfers_part
  apply_transfers_part-Keeps resp now_ms =
      let rows : List StoredTransfer = decoded_rows resp.transfers in
      >>=-Keeps (clear_transfers_for_slot libs.b58 resp.period resp.thread) _
        (clear_transfers-Keeps libs resp.period resp.thread)
        λ _. >>=-Keeps (write_transfers libs rows) _ (write_transfers-Keeps rows) λ _.
          >>=-Keeps (write_deferred libs (decoded_rows resp.deferred_calls)) _
            (write_deferred-Keeps (decoded_rows resp.deferred_calls))
            λ _.
              >>=-Keeps (reconcile_async_from_transfers libs (slot_of resp) rows now_ms) _
                (async_transfers-Keeps (slot_of resp) now_ms rows)
                λ _. deferred_transfers-Keeps (slot_of resp) now_ms rows
