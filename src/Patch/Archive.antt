-- ===== src/Patch/Archive.antt =====
-- massa-indexer/src/peer/patch.rs: what `apply_legacy_patch` does not claim.
use massa_history.Base.{
  ℕ, Bool, true, false, not, ◌&&◌, ◌≡◌, refl, ap, ◌∙◌, subst, Option, none, some, ltb,
  if◌then◌else◌,
}
use massa_history.Base.Result.{ok}
use massa_history.Ids.{Text, BlockId}
use massa_history.Model.{SlotStatus, Slot, SlotState}
use massa_history.Model.Rows.{StoredBlock}
use massa_history.Backfill.{is_empty}
use massa_history.Db.{Db, Libs, Action, pure, write_slot, broadcast, read_slot}
use massa_history.Db.Frame.{>>=-ok, Gives, >>=-Gives, pure-Gives, if-Gives}
use massa_history.Patch.{FinalSlotResponse, PatchOutcome, no_outcome, slot_of, touched}
use massa_history.Patch.Parts.{
  apply_block_part, ensure_parent_stub, write_transfers, decoded_rows, is_some,
}
use massa_history.Patch.Apply.{Progress, is_final, promoted, note_last_final, with_body}
use massa_history.Patch.Stored.{stored-here, write_slot-Stores, ensure_parent_stub-Adds}
use massa_history.Patch.Outcome.{start}
use massa_history.Patch.Legacy.{
  legacy_verdict, legacy_block, legacy_miss, legacy_ops, legacy_transfers, legacy_finality,
  legacy_slot, apply_legacy_patch,
}

-- What the archive knows nothing of: the trail hash, the events and the whole set of transfers.
abbrev pub Unclaimed : Type 0
Unclaimed = Slot × Option Text × Bool × Bool × ℕ

abbrev pub unclaimed : SlotState → Unclaimed
unclaimed row = (
  row.slot, row.execution_trail_hash, row.completeness.exec_output_final,
  row.completeness.transfers_stored, row.sc_event_count,
)

abbrev pub verdict_of : SlotState → SlotStatus × Bool × Option BlockId
verdict_of row = (row.status, row.is_miss, row.final_block_id)

abbrev kept : SlotState → Unclaimed × (SlotStatus × Bool × Option BlockId)
kept row = (unclaimed row, verdict_of row)

abbrev Same : Progress → Progress → Type 0
Same p q = kept q.row ≡ kept p.row

if-Same :
    (p : Progress) (c : Bool) (a b : Progress) → Same p a → Same p b → Same p (if c then a else b)
if-Same p true a b h k = h
if-Same p false a b h k = k

with_body-Same : (body : Option StoredBlock) (p : Progress) → Same p (with_body body p)
unfolding with_body
with_body-Same none p = refl
with_body-Same (some b) p = refl

if_unclaimed :
    (c : Bool) (p q : Progress)
    → unclaimed q.row ≡ unclaimed p.row
    → unclaimed (if c then p else q).row ≡ unclaimed p.row
if_unclaimed true p q h = refl
if_unclaimed false p q h = h

if_taken : (c : Bool) (p q : Progress) → c ≡ true → (if c then p else q) ≡ p
if_taken c p q e = rw e

module _ (libs : Libs) (resp : FinalSlotResponse) (now_ms : ℕ) where
  legacy_verdict-unclaimed :
      (p : Progress) → unclaimed (legacy_verdict libs resp p).row ≡ unclaimed p.row
  unfolding legacy_verdict promoted
  legacy_verdict-unclaimed p = if_unclaimed (is_final p.row.status) p _ refl

  legacy_verdict-Same :
      (p : Progress) → is_final p.row.status ≡ true → Same p (legacy_verdict libs resp p)
  unfolding legacy_verdict
  legacy_verdict-Same p fin = ap (λ q. kept q.row) (if_taken _ p _ fin)

  legacy_block-Gives : (p : Progress) → Gives (Same p) (legacy_block libs resp now_ms p)
  unfolding legacy_block
  legacy_block-Gives p =
      if-Gives (Same p)
        (is_some resp.block && (not p.row.completeness.block_body_stored && not resp.is_miss)) _
        (pure p)
        (λ _.
          >>=-Gives (Same p) (apply_block_part libs resp now_ms) _
            λ body. pure-Gives (Same p) (with_body body p) (with_body-Same body p))
        λ _. pure-Gives (Same p) p refl

  legacy_rest-Same : (p : Progress) → Same p (legacy_ops libs resp (legacy_miss resp.is_miss p))
  unfolding legacy_ops legacy_miss
  legacy_rest-Same p =
      let q : Progress = legacy_miss resp.is_miss p in
      if-Same q (is_empty q.row.executed_op_ids && not (is_empty resp.executed_op_ids)) _ q refl
        refl
      ∙ if-Same p (resp.is_miss && p.row.is_miss) _ p refl refl

  legacy_transfers-Gives : (p : Progress) → Gives (Same p) (legacy_transfers libs resp p)
  unfolding legacy_transfers
  legacy_transfers-Gives p =
      >>=-Gives (Same p) (write_transfers libs (decoded_rows resp.transfers)) _
        λ _. pure-Gives (Same p) _ refl

  -- The row that a legacy run stores, after the verdict.
  abbrev StoredAfter : Progress → Db → Type 0
  StoredAfter p now =
      (row' : SlotState) × (now.slots p.row.slot.period p.row.slot.thread ≡ some row')
      × (kept row' ≡ kept p.row)

  abbrev first_step : SlotState → Progress
  first_step row = legacy_verdict libs resp (record { row = row; out = no_outcome })

  abbrev pub Unchanged : SlotState → Db → Type 0
  Unchanged row now =
      (row' : SlotState) × (now.slots row.slot.period row.slot.thread ≡ some row')
      × (unclaimed row' ≡ unclaimed row)

  legacy_slot-stored :
      (row : SlotState) (db : Db) (out : PatchOutcome)
      → (legacy_slot libs resp now_ms row db).0 ≡ ok out
      → StoredAfter (first_step row) (legacy_slot libs resp now_ms row db).1
  unfolding legacy_slot broadcast
  legacy_slot-stored row db out e =
      let p : Progress = first_step row in
      let (_, _, e1, s1) = >>=-ok (note_last_final (slot_of resp) p.out.became_final) _ db e in
      let db1 : Db = (note_last_final (slot_of resp) p.out.became_final db).1 in
      let (p1, x1, e2, s2) = >>=-ok (legacy_block libs resp now_ms p) _ db1 e1 in
      let db2 : Db = (legacy_block libs resp now_ms p db1).1 in
      let rest : Progress = legacy_ops libs resp (legacy_miss resp.is_miss p1) in
      let (p2, x2, e3, s3) = >>=-ok (legacy_transfers libs resp rest) _ db2 e2 in
      let db3 : Db = (legacy_transfers libs resp rest db2).1 in
      let (_, _, e4, s4) = >>=-ok (legacy_finality p2.row) _ db3 e3 in
      let db4 : Db = (legacy_finality p2.row db3).1 in
      let last : SlotState = touched now_ms p2.row in
      let (_, _, e5, s5) = >>=-ok (write_slot last) _ db4 e4 in
      let db5 : Db = (write_slot last db4).1 in
      let (_, _, _, s6) = >>=-ok (ensure_parent_stub (slot_of resp) now_ms) _ db5 e5 in
      let same : kept last ≡ kept p.row =
        legacy_transfers-Gives rest db2 p2 x2
        ∙ legacy_rest-Same p1
        ∙ legacy_block-Gives p db1 p1 x1 in
      let now : Db = (legacy_slot libs resp now_ms row db).1 in
      (
        last,
        subst (λ x. now.slots x.period x.thread ≡ some last) (ap (λ k. k.0.0) same)
            (ap (λ d. d.slots last.slot.period last.slot.thread) (s1 ∙ s2 ∙ s3 ∙ s4 ∙ s5 ∙ s6)
              ∙ (ensure_parent_stub-Adds (slot_of resp) now_ms db5).1 last.slot.period
                  last.slot.thread last (stored-here last db4 db5 (write_slot-Stores last db4))),
        same,
      )

  in_scope :
      (narrow unknown : Bool) (act : Action PatchOutcome) (db : Db) (out : PatchOutcome)
      (P : Db → Type 0)
      → narrow ≡ false
      → unknown ≡ false
      → ((act db).0 ≡ ok out → P (act db).1)
      → ((if narrow
            then pure no_outcome
            else if unknown
            then pure (record no_outcome { empty = true })
            else act)
          db).0
        ≡ ok out
      → P
          ((if narrow
              then pure no_outcome
              else if unknown
              then pure (record no_outcome { empty = true })
              else act)
            db).1
  in_scope true unknown act db out P n u h e = cc n
  in_scope false true act db out P n u h e = cc u
  in_scope false false act db out P n u h e = h e

  -- The slot's row after a legacy run that the peer's answer has a say in.
  stored_row :
      (db : Db) (out : PatchOutcome)
      → ltb resp.thread 256 ≡ true
      → resp.final_known ≡ true
      → (apply_legacy_patch libs resp now_ms db).0 ≡ ok out
      → StoredAfter
          (first_step (start libs resp now_ms db).row)
          (apply_legacy_patch libs resp now_ms db).1
  unfolding apply_legacy_patch read_slot
  stored_row db out fits known e =
      let row : SlotState = (start libs resp now_ms db).row in
      in_scope (not (ltb resp.thread 256)) (not resp.final_known) _ db out
        (StoredAfter (first_step row)) (ap not fits) (ap not known) (legacy_slot-stored row db out)
        e

  moved :
      (row : SlotState) (now : Db) (row' : SlotState)
      → now.slots (first_step row).row.slot.period (first_step row).row.slot.thread ≡ some row'
      → now.slots row.slot.period row.slot.thread ≡ some row'
  moved row now row' there =
      subst (λ x. now.slots x.period x.thread ≡ some row')
        (ap (λ u. u.0) (legacy_verdict-unclaimed (record { row = row; out = no_outcome }))) there

  -- A legacy patch of a known slot whose thread fits a byte, if it ends well, leaves a row with the
  -- trail hash, the count of events and the flags for execution output and transfers that the row
  -- had before it, so that a peer can still fill them.
  pub legacy_claims_no_more :
      (db : Db) (out : PatchOutcome)
      → ltb resp.thread 256 ≡ true
      → resp.final_known ≡ true
      → (apply_legacy_patch libs resp now_ms db).0 ≡ ok out
      → Unchanged (start libs resp now_ms db).row (apply_legacy_patch libs resp now_ms db).1
  legacy_claims_no_more db out fits known e =
      let row : SlotState = (start libs resp now_ms db).row in
      let (row', there, same) = stored_row db out fits known e in
      (
        row',
        moved row (apply_legacy_patch libs resp now_ms db).1 row' there,
        ap (λ k. k.0) same ∙ legacy_verdict-unclaimed (record { row = row; out = no_outcome }),
      )

  -- A legacy patch of a known slot whose thread fits a byte, if it ends well, leaves a FINAL row
  -- FINAL, with its miss flag and its final block.
  pub legacy_keeps_final :
      (db : Db) (out : PatchOutcome)
      → ltb resp.thread 256 ≡ true
      → resp.final_known ≡ true
      → is_final (start libs resp now_ms db).row.status ≡ true
      → (apply_legacy_patch libs resp now_ms db).0 ≡ ok out
      → (row' : SlotState) × ((apply_legacy_patch libs resp now_ms db).1.slots
            (start libs resp now_ms db).row.slot.period
            (start libs resp now_ms db).row.slot.thread
          ≡ some row')
        × (verdict_of row' ≡ verdict_of (start libs resp now_ms db).row)
  legacy_keeps_final db out fits known fin e =
      let row : SlotState = (start libs resp now_ms db).row in
      let (row', there, same) = stored_row db out fits known e in
      (
        row',
        moved row (apply_legacy_patch libs resp now_ms db).1 row' there,
        ap (λ k. k.1) (same ∙ legacy_verdict-Same (record { row = row; out = no_outcome }) fin),
      )
