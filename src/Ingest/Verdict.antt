-- ===== src/Ingest/Verdict.antt =====
-- massa-indexer/src/ingest.rs: what the node's events do to a slot, as a reader sees it.
use massa_history.Base.{
  ℕ, Bool, true, false, ◌≡◌, refl, ap, ap₂, ◌∙◌, sym, subst, Option, none, some, List,
  if◌then◌else◌,
}
use massa_history.Ids.{Text, BlockId}
use massa_history.Model.{Slot, SlotState, SlotStatus, fresh}
use massa_history.Model.Rows.{StoredBlock}
use massa_history.Model.Transfers.{StoredTransfer}
use massa_history.Db.{
  Libs, Done, pure, ◌>>◌, write_slot, read_slot, read_block, write_block, broadcast, slot_updated,
  block_seen,
}
use massa_history.Db.Events.{clear_transfers_for_slot}
use massa_history.Patch.{or_fresh}
use massa_history.Patch.Apply.{is_final, or_old}
use massa_history.Patch.Parts.{ensure_parent_stub, write_transfers}
use massa_history.Reconcile.{reconcile_async_from_transfers, reconcile_deferred_from_transfers}
use massa_history.Ingest.Messages.{FilledBlock, NewTransfersInfoServerResponse, Wire}
use massa_history.Ingest.Decode.{slot_from_pb}
use massa_history.Ingest.Blocks.{
  Opened, BlockBody, required, open_header, write_endorsements, write_denunciations, ingest_ops,
  entry_ops, block_body, block_row, initial_block_status, with_seen, seen_status, store_seen,
  store_block, ingest_body, handle_block,
}
use massa_history.Ingest.Transfers.{
  with_transfers_stored, store_row, note_transfers, store_transfers, handle_transfers,
}
use massa_history.Ingest.Frame
use massa_history.Ingest.Rows.{rows_pass}
use massa_history.Ingest.Moves.{
  view, view_as, Moves, stays, seen, settled, settled_unseen, settled_candidate, trail_told,
}
use massa_history.Ingest.Refines.{
  Rows, Placed, From, pure-From, keeps-then, write_slot-From, then-Allowed, >>=-Allowed,
  keeps-Allowed, parent_stub-Allowed,
}

-- How a row moves.
seen-Moves :
    (now_ms : ℕ) (bid : BlockId) (row : SlotState) (s : SlotStatus)
    → Moves (view_as row s) (view_as (with_seen now_ms bid row) (seen_status s))
unfolding with_seen view_as
seen-Moves now_ms bid row SlotStatus.unknown = seen
seen-Moves now_ms bid row SlotStatus.candidate = stays
seen-Moves now_ms bid row SlotStatus.final = stays

transfers-Moves :
    (now_ms : ℕ) (row : SlotState) (s : SlotStatus)
    → Moves (view_as row s) (view_as (with_transfers_stored now_ms row) s)
unfolding with_transfers_stored view_as
transfers-Moves now_ms row SlotStatus.unknown = stays
transfers-Moves now_ms row SlotStatus.candidate = stays
transfers-Moves now_ms row SlotStatus.final = stays

pub told-Moves :
    (m : Bool) (b : Option BlockId) (old new : Option Text)
    → Moves (settled m b old) (settled m b (or_old old new))
told-Moves m b (some h) new = stays
told-Moves m b none none = stays
told-Moves m b none (some h) = trail_told

-- A slot that is not FINAL is given a verdict, or is a candidate.
pub open-Moves :
    (row now : SlotState) (s : SlotStatus) (final : Bool)
    → is_final s ≡ false
    → Moves (view_as row s) (view_as now (if final then SlotStatus.final else SlotStatus.candidate))
unfolding view_as
open-Moves row now SlotStatus.unknown true e = settled_unseen
open-Moves row now SlotStatus.unknown false e = seen
open-Moves row now SlotStatus.candidate true e = settled_candidate
open-Moves row now SlotStatus.candidate false e = stays
open-Moves row now SlotStatus.final final e = cc e

pub final-Moves :
    (row now : SlotState) (s : SlotStatus)
    → is_final s ≡ true
    → Moves
        (settled row.is_miss row.final_block_id row.execution_trail_hash)
        (settled now.is_miss now.final_block_id now.execution_trail_hash)
    → Moves (view_as row s) (view_as now s)
unfolding view_as
final-Moves row now SlotStatus.unknown e m = cc e
final-Moves row now SlotStatus.candidate e m = cc e
final-Moves row now SlotStatus.final e m = m

module _ (rows : Rows) (placed : Placed rows) where
  -- The row that a handler starts from is its slot's.
  pub loaded :
      (slot : Slot) (now_ms : ℕ) (found : Option SlotState)
      → rows slot.period slot.thread ≡ found
      → view
          (rows (or_fresh slot now_ms found).slot.period (or_fresh slot now_ms found).slot.thread)
        ≡ view (some (or_fresh slot now_ms found))
  unfolding or_fresh view view_as
  loaded slot now_ms none e = ap view e
  loaded slot now_ms (some row) e =
      let (ep, et) = placed slot.period slot.thread row e in
      ap₂ (λ p t. view (rows p t)) ep et ∙ ap view e

  -- A row that was read is written again, moved as allowed.
  unfoldable pub AtOwn : SlotState → Type 0
  AtOwn row = view (rows row.slot.period row.slot.thread) ≡ view (some row)

  pub rewritten :
      (row now : SlotState)
      → AtOwn row
      → now.slot ≡ row.slot
      → Moves (view (some row)) (view (some now))
      → From rows (write_slot now)
  unfolding AtOwn
  rewritten row now l same m = write_slot-From rows now (
      subst (λ v. Moves v (view (some now)))
        (sym (ap (λ s. view (rows s.period s.thread)) same ∙ l)) m)

  -- It is written and told, and the parent's stub with it.
  pub told_row-From :
      (row now : SlotState)
      → AtOwn row
      → now.slot ≡ row.slot
      → Moves (view (some row)) (view (some now))
      → From rows (do write_slot now; broadcast (slot_updated now))
  told_row-From row now l same m =
      then-Allowed rows (write_slot now) _ (rewritten row now l same m)
        λ _. keeps-Allowed (broadcast (slot_updated now)) (rows_pass.told (slot_updated now))

  store_seen-From :
      (wire : Wire) (now_ms : ℕ) (o : Opened) (body : BlockBody) (row : SlotState)
      (prior : Option StoredBlock)
      → AtOwn row
      → From rows (store_seen wire now_ms o body row prior)
  unfolding store_seen view with_seen
  store_seen-From wire now_ms o body row prior l =
      let b = block_row wire now_ms o body (initial_block_status row o.block_id) prior in
      let now = with_seen now_ms o.block_id row in
      keeps-then rows (write_block b) _ (rows_pass.stored_block b) λ _.
        keeps-then rows (broadcast (block_seen b)) _ (rows_pass.told (block_seen b)) λ _.
          then-Allowed rows (write_slot now) _
            (rewritten row now l refl (seen-Moves now_ms o.block_id row row.status))
            λ _.
              >>=-Allowed (ensure_parent_stub o.slot now_ms) _ (parent_stub-Allowed o.slot now_ms)
                λ _.
                  keeps-Allowed (broadcast (slot_updated now)) (rows_pass.told (slot_updated now))

  store_block-From :
      (wire : Wire) (now_ms : ℕ) (o : Opened) (body : BlockBody)
      → From rows (store_block wire now_ms o body)
  unfolding store_block read_slot read_block AtOwn
  store_block-From wire now_ms o body db e =
      store_seen-From wire now_ms o body _ _
        (loaded o.slot now_ms (db.slots o.slot.period o.slot.thread)
          (ap (λ m. m o.slot.period o.slot.thread) (sym e)))
        db e

  body-From :
      (wire : Wire) (now_ms : ℕ) (fb : FilledBlock) (o : Opened)
      → From rows (ingest_body wire now_ms fb o)
  unfolding ingest_body
  body-From wire now_ms fb o =
      let body = block_body wire now_ms fb o in
      let ops = entry_ops wire.libs.b58 fb.operations in
      keeps-then rows (write_endorsements wire.libs body.endorsements) _
        (Frame.endorsements-Along rows_pass wire.libs body.endorsements)
        λ _.
          keeps-then rows (write_denunciations wire.libs now_ms o body.denunciations) _
            (Frame.denunciations-Along rows_pass wire.libs now_ms o body.denunciations)
            λ _.
              keeps-then rows (ingest_ops wire now_ms o ops) _
                (Frame.ingest_ops-Along rows_pass wire now_ms o ops)
                λ _. store_block-From wire now_ms o body

  pub handle_block-From :
      (wire : Wire) (now_ms : ℕ) (fb : FilledBlock) → From rows (handle_block wire now_ms fb)
  unfolding handle_block
  handle_block-From wire now_ms fb =
      keeps-then rows (open_header wire.libs.b58 fb) _
        (Frame.open_header-Along rows_pass wire.libs.b58 fb) λ o. body-From wire now_ms fb o

  note-From :
      (now_ms : ℕ) (slot : Slot) (found : Option SlotState)
      → rows slot.period slot.thread ≡ found
      → From rows (note_transfers now_ms slot found)
  unfolding note_transfers store_row AtOwn with_transfers_stored view or_fresh
  note-From now_ms slot none e =
      told_row-From (fresh slot now_ms) _ (loaded slot now_ms none e) refl
        (transfers-Moves now_ms (fresh slot now_ms) SlotStatus.unknown)
  note-From now_ms slot (some row) e =
      if-From row.completeness.transfers_stored (pure tt) _ (pure-From rows tt) (
        told_row-From row _ (loaded slot now_ms (some row) e) refl
          (transfers-Moves now_ms row row.status))
    where
      if-From :
          (c : Bool) (x y : Done)
          → From rows x
          → From rows y
          → From rows (λ db. (if c then x else y) db)
      if-From true x y h k = h
      if-From false x y h k = k

  rows-From :
      (libs : Libs) (now_ms : ℕ) (slot : Slot) (ts : List StoredTransfer)
      → From rows (store_transfers libs now_ms slot ts)
  unfolding store_transfers read_slot
  rows-From libs now_ms slot ts =
      keeps-then rows (clear_transfers_for_slot libs.b58 slot.period slot.thread) _
        (rows_pass.transfers_cleared libs.b58 slot.period slot.thread)
        λ _.
          keeps-then rows (write_transfers libs ts) _
            (Frame.write_transfers-Along rows_pass libs ts)
            λ _.
              keeps-then rows (reconcile_async_from_transfers libs slot ts now_ms) _
                (Frame.messages-Along rows_pass libs slot ts now_ms)
                λ _.
                  keeps-then rows (reconcile_deferred_from_transfers libs slot ts now_ms) _
                    (Frame.calls-Along rows_pass libs slot ts now_ms)
                    λ _ db e.
                      note-From now_ms slot (db.slots slot.period slot.thread)
                        (ap (λ m. m slot.period slot.thread) (sym e)) db e

  pub handle_transfers-From :
      (libs : Libs) (now_ms : ℕ) (resp : NewTransfersInfoServerResponse)
      → From rows (handle_transfers libs now_ms resp)
  unfolding handle_transfers
  handle_transfers-From libs now_ms resp =
      keeps-then rows (required resp.slot) _ (Frame.required-Along rows_pass resp.slot)
        λ s. rows-From libs now_ms (slot_from_pb s) _
