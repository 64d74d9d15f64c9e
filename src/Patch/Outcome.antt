-- ===== src/Patch/Outcome.antt =====
-- A whole run of `apply_peer_patch` of massa-indexer/src/peer/patch.rs: the verdict that it reached, and
-- what it left in the store.
use massa_history.Base.{
  ℕ, Bool, true, false, not, ◌≡◌, refl, sym, ap, ◌∙◌, subst, Option, inl, inr, ◌⊎◌, ltb,
  if◌then◌else◌,
}
use massa_history.Base.Result.{ok}
use massa_history.Model.{Slot, SlotState}
use massa_history.Db.{Db, Libs, pure, write_slot, read_slot}
use massa_history.Db.Frame.{heads, ok_injective, >>=-ok}
use massa_history.Patch.{FinalSlotResponse, PatchOutcome, no_outcome, slot_of, or_fresh, touched}
use massa_history.Patch.Row.{
  Extends, Extends-trans, block_stage-Extends, exec_stage-Extends, transfers_stage-Extends,
  block_stage-Keeps, exec_stage-Keeps, transfers_stage-Keeps,
}
use massa_history.Patch.Stored.{write_slot-Stores}
use massa_history.Patch.Shipped.{Takes, stages-Takes}
use massa_history.Patch.Verdict.{Reconciled, reconcile_verdict-Reconciled, reconcile_verdict-Keeps}
use massa_history.Patch.Apply.{
  Progress, Stage, stop, go, reader, note_last_final, block_stage, exec_stage, transfers_stage,
  settle, apply_parts, after_verdict, patch_slot, reconcile_verdict, apply_peer_patch,
}
use massa_history.Patch.Settle.{
  slots-eq, last-eq, Stores-around, noted, note_last_final-is, Stored, settle-Stored,
}

module _ (libs : Libs) (resp : FinalSlotResponse) (now_ms : ℕ) where
  -- How the run goes on from a verdict.
  pub data Ends (old now : Db) (out : PatchOutcome) : Stage → Type 0 where
    stopped :
        (p : Progress)
        → p.out ≡ out
        → Stored (touched now_ms p.row) old.last_final_slot old now
        → Ends old now out (stop p)
    applied :
        (p q : Progress)
        → Extends p q
        → Takes resp q
        → q.out ≡ out
        → Stored
            (touched now_ms q.row)
            (noted (slot_of resp) p.out.became_final old.last_final_slot)
            old
            now
        → Ends old now out (go p)

  -- From what the stages keep to the store before them.
  carry :
      (row : SlotState) (last : Option Slot) (a b c : Db)
      → a.slots ≡ b.slots
      → b.last_final_slot ≡ last
      → Stored row b.last_final_slot b c
      → Stored row last a c
  carry row last a b c same is (put, kept) =
      (Stores-around a b c c same put (λ p t s had. had), kept ∙ is)

  apply_parts-Ends :
      (p : Progress) (db : Db) {out : PatchOutcome}
      → (apply_parts libs resp now_ms p db).0 ≡ ok out
      → Ends db (apply_parts libs resp now_ms p db).1 out (go p)
  unfolding apply_parts
  apply_parts-Ends p db e =
      let (_, _, e1, s1) = >>=-ok (note_last_final (slot_of resp) p.out.became_final) _ db e in
      let db1 : Db = (note_last_final (slot_of resp) p.out.became_final db).1 in
      let (p1, x1, e2, s2) = >>=-ok (block_stage libs resp now_ms p) _ db1 e1 in
      let db2 : Db = (block_stage libs resp now_ms p db1).1 in
      let (p2, x2, e3, s3) = >>=-ok (exec_stage libs resp p1) _ db2 e2 in
      let db3 : Db = (exec_stage libs resp p1 db2).1 in
      let (p3, x3, e4, s4) = >>=-ok (transfers_stage libs resp now_ms p2) _ db3 e3 in
      let db4 : Db = (transfers_stage libs resp now_ms p2 db3).1 in
      let kept : heads db4 ≡ heads db1 =
        transfers_stage-Keeps libs resp now_ms p2 db3
        ∙ exec_stage-Keeps libs resp now_ms p1 db2
        ∙ block_stage-Keeps libs resp now_ms p db1 in
      let start = note_last_final-is (slot_of resp) p.out.became_final db in
      let (same, held) = settle-Stored libs resp now_ms p3 db4 e4 in
      applied p p3
        (Extends-trans (block_stage-Extends libs resp now_ms p db1 x1) (
          Extends-trans (exec_stage-Extends libs resp now_ms p1 db2 x2)
            (transfers_stage-Extends libs resp now_ms p2 db3 x3)))
        (stages-Takes libs resp now_ms p p1 p2 p3 db1 db2 db3 x1 x2 x3) same
        (subst
          (Stored (touched now_ms p3.row)
            (noted (slot_of resp) p.out.became_final db.last_final_slot) db)
          (sym (s1 ∙ s2 ∙ s3 ∙ s4))
          (carry (touched now_ms p3.row) _ db db4 (settle libs resp now_ms p3 db4).1
            (sym (slots-eq db4 db1 kept ∙ ap (λ h. h.0) start))
            (last-eq db4 db1 kept ∙ ap (λ h. h.1) start) held))

  after_verdict-Ends :
      (s : Stage) (db : Db) {out : PatchOutcome}
      → (after_verdict libs resp now_ms s db).0 ≡ ok out
      → Ends db (after_verdict libs resp now_ms s db).1 out s
  unfolding after_verdict write_slot
  after_verdict-Ends (stop p) db e =
      stopped p (ok_injective e) (write_slot-Stores (touched now_ms p.row) db, refl)
  after_verdict-Ends (go p) db e = apply_parts-Ends p db e

  -- Steps that keep the rows, before a run that ends in this way.
  Ends-after :
      (a b c : Db) {out : PatchOutcome} {s : Stage}
      → heads b ≡ heads a
      → Ends b c out s
      → Ends a c out s
  Ends-after a b c e (stopped p same held) =
      stopped p same
        (carry (touched now_ms p.row) _ a b c (sym (slots-eq b a e)) (last-eq b a e) held)
  Ends-after a b c e (applied p q grown took same (put, last)) = applied p q grown took same (
    Stores-around a b c c (sym (slots-eq b a e)) put (λ p t s had. had),
    last ∙ ap (noted (slot_of resp) p.out.became_final) (last-eq b a e),
  )

  abbrev pub start : Db → Progress
  start db = record {
    row = or_fresh (slot_of resp) now_ms (db.slots resp.period resp.thread);
    out = no_outcome;
  }

  patch_slot-Ends :
      (db : Db) {out : PatchOutcome}
      → (patch_slot libs resp now_ms db).0 ≡ ok out
      → (s : Stage) × Reconciled libs resp (reader db) (start db) s
        × Ends db (patch_slot libs resp now_ms db).1 out s
  unfolding patch_slot read_slot
  patch_slot-Ends db {out} e =
      let (s, verdict, e1, s1) = >>=-ok (reconcile_verdict libs resp (start db)) _ db e in
      let db1 : Db = (reconcile_verdict libs resp (start db) db).1 in
      (
        s,
        reconcile_verdict-Reconciled libs resp (start db) db verdict,
        subst (λ c. Ends db c out s) (sym s1)
            (Ends-after db db1 (after_verdict libs resp now_ms s db1).1
              (reconcile_verdict-Keeps libs resp (start db) db) (after_verdict-Ends s db1 e1)),
      )

  patch-if :
      (narrow unknown : Bool) (db : Db) {out : PatchOutcome}
      → ((if narrow
            then pure no_outcome
            else if unknown
            then pure (record no_outcome { empty = true })
            else patch_slot libs resp now_ms)
          db).0
        ≡ ok out
      → (((if narrow
                then pure no_outcome
                else if unknown
                then pure (record no_outcome { empty = true })
                else patch_slot libs resp now_ms)
              db).1
            ≡ db)
          × (out.divergence_repaired ≡ false)
        ⊎ ((s : Stage) × Reconciled libs resp (reader db) (start db) s
            × Ends db
                ((if narrow
                    then pure no_outcome
                    else if unknown
                    then pure (record no_outcome { empty = true })
                    else patch_slot libs resp now_ms)
                  db).1
                out
                s)
  patch-if true unknown db e = inl (refl, ap (λ o. o.divergence_repaired) (sym (ok_injective e)))
  patch-if false true db e = inl (refl, ap (λ o. o.divergence_repaired) (sym (ok_injective e)))
  patch-if false false db e = inr (patch_slot-Ends db e)

  patch-known :
      (narrow unknown : Bool) (db : Db) {out : PatchOutcome}
      → narrow ≡ false
      → unknown ≡ false
      → ((if narrow
            then pure no_outcome
            else if unknown
            then pure (record no_outcome { empty = true })
            else patch_slot libs resp now_ms)
          db).0
        ≡ ok out
      → (s : Stage) × Reconciled libs resp (reader db) (start db) s
        × Ends db
            ((if narrow
                then pure no_outcome
                else if unknown
                then pure (record no_outcome { empty = true })
                else patch_slot libs resp now_ms)
              db).1
            out
            s
  patch-known true unknown db n u e = cc n
  patch-known false true db n u e = cc u
  patch-known false false db n u e = patch_slot-Ends db e

  -- The same where the peer knows the slot.
  pub apply_peer_patch-known :
      (db : Db) {out : PatchOutcome}
      → ltb resp.thread 256 ≡ true
      → resp.final_known ≡ true
      → (apply_peer_patch libs resp now_ms db).0 ≡ ok out
      → (s : Stage) × Reconciled libs resp (reader db) (start db) s
        × Ends db (apply_peer_patch libs resp now_ms db).1 out s
  unfolding apply_peer_patch
  apply_peer_patch-known db fits known e =
      patch-known (not (ltb resp.thread 256)) (not resp.final_known) db (ap not fits) (ap not known)
        e

  -- A run that ends well did nothing, or reached a verdict and ended from it.
  pub apply_peer_patch-cases :
      (db : Db) {out : PatchOutcome}
      → (apply_peer_patch libs resp now_ms db).0 ≡ ok out
      → (((apply_peer_patch libs resp now_ms db).1 ≡ db) × (out.divergence_repaired ≡ false))
        ⊎ ((s : Stage) × Reconciled libs resp (reader db) (start db) s
            × Ends db (apply_peer_patch libs resp now_ms db).1 out s)
  unfolding apply_peer_patch
  apply_peer_patch-cases db e = patch-if (not (ltb resp.thread 256)) (not resp.final_known) db e
