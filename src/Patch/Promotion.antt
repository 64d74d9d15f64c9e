-- ===== src/Patch/Promotion.antt =====
-- massa-indexer/src/peer/patch.rs: the slot's row, the other rows and the last final slot after
-- `apply_peer_patch`.
use massa_history.Base.{
  ℕ, Bool, true, false, ◌≡◌, refl, sym, ap, ◌∙◌, subst, Option, none, some, inl, inr, ltb,
  Bool-cases, arith,
}
use massa_history.Base.Result.{ok}
use massa_history.Ids.{Text, BlockId}
use massa_history.Model.{Slot, SlotState, SlotStatus}
use massa_history.Arbiter.{Verdict, of_local, of_peer}
use massa_history.Db.{Db, Libs}
use massa_history.Patch.{FinalSlotResponse, PatchOutcome, slot_of, peer_trail, named_block, touched}
use massa_history.Patch.Parts.{adopted_row}
use massa_history.Patch.Row.{extends}
use massa_history.Patch.Shipped.{Takes, takes}
use massa_history.Patch.Verdict.{Reconciled, promotes, fills, refuses, repairs}
use massa_history.Patch.Stored.{Stores, stores, is_at}
use massa_history.Patch.Outcome.{
  Ends, stopped, applied, start, apply_peer_patch-known, apply_peer_patch-cases,
}
use massa_history.Patch.Settle.{noted, raised}
use massa_history.Patch.Apply.{Progress, Stage, reader, is_final, promoted, after, apply_peer_patch}

pub is_final-eq : (s : SlotStatus) → is_final s ≡ true → s ≡ SlotStatus.final
is_final-eq SlotStatus.final e = refl
is_final-eq SlotStatus.candidate e = cc e
is_final-eq SlotStatus.unknown e = cc e

of_local-same :
    (a b : SlotState)
    → a.is_miss ≡ b.is_miss
    → a.final_block_id ≡ b.final_block_id
    → of_local a ≡ of_local b
unfolding of_local
of_local-same a b m f = rw (m, f)

-- The peer's verdict, if it has one, is the promoted row's.
promoted-of_local :
    (is_miss : Bool) (bid : Option BlockId) (trail : Option Text) (row : SlotState) (v : Verdict)
    → of_peer is_miss bid ≡ some v
    → of_local (promoted is_miss bid trail row) ≡ some v
unfolding promoted of_local of_peer
promoted-of_local true bid trail row v e = e
promoted-of_local false none trail row v e = cc e
promoted-of_local false (some b) trail row v e = e

Takes-same :
    (resp : FinalSlotResponse) (q : Progress) (row : SlotState) (out : PatchOutcome)
    → row.completeness ≡ q.row.completeness
    → Takes resp q
    → Takes resp (record { row = row; out = out })
Takes-same resp q row out e (takes b x t) =
    takes (λ c s m. ap (λ k. k.block_body_stored) e ∙ b c s m)
      (λ s. ap (λ k. k.exec_output_final) e ∙ x s) (λ s. ap (λ k. k.transfers_stored) e ∙ t s)

module _ (libs : Libs) (resp : FinalSlotResponse) (now_ms : ℕ) where
  -- The row that a run ends with is FINAL.
  final_row_stored :
      (db now : Db) (p : Progress) (s : Stage) (out : PatchOutcome)
      → Reconciled libs resp (reader db) p s
      → Ends libs resp now_ms db now out s
      → (row : SlotState) × (row.slot ≡ p.row.slot)
        × (row.status ≡ SlotStatus.final)
        × Stores row db now
  unfolding promoted adopted_row
  final_row_stored db now p _ out (promotes _) (applied _ q (extends v _ _ _) _ _ (put, _)) =
      (touched now_ms q.row, ap (λ w. w.0) v, ap (λ w. w.1) v, put)
  final_row_stored db now p _ out (fills fin _) (applied _ q (extends v _ _ _) _ _ (put, _)) =
      (touched now_ms q.row, ap (λ w. w.0) v, ap (λ w. w.1) v ∙ is_final-eq p.row.status fin, put)
  final_row_stored db now p _ out (refuses fin _ _ _) (stopped _ _ (put, _)) =
      (touched now_ms p.row, refl, is_final-eq p.row.status fin, put)
  final_row_stored db now p _ out (repairs fin _ _ _ _ _ _)
        (applied _ q (extends v _ _ _) _ _ (put, _)) =
      (touched now_ms q.row, ap (λ w. w.0) v, ap (λ w. w.1) v ∙ is_final-eq p.row.status fin, put)

  pub promoted_row_stored :
      (db now : Db) (p : Progress) (s : Stage) (out : PatchOutcome) (v : Verdict)
      → is_final p.row.status ≡ false
      → of_peer resp.is_miss (named_block libs.b58 resp) ≡ some v
      → Reconciled libs resp (reader db) p s
      → Ends libs resp now_ms db now out s
      → (row : SlotState) × (row.slot ≡ p.row.slot)
        × (of_local row ≡ some v)
        × Stores row db now
        × (row.is_miss ≡ resp.is_miss)
        × (row.status ≡ SlotStatus.final)
        × Takes resp (record { row = row; out = out })
        × (out.became_final ≡ true)
        × (now.last_final_slot ≡ noted (slot_of resp) true db.last_final_slot)
  unfolding promoted
  promoted_row_stored db now p _ out v _ said (promotes _)
        (applied p' q (extends w b _ _) took o (put, last)) =
      (
        touched now_ms q.row,
        ap (λ w. w.0) w,
        of_local-same (touched now_ms q.row) p'.row (ap (λ w. w.2) w) (ap (λ w. w.3) w)
            ∙ promoted-of_local resp.is_miss (named_block libs.b58 resp) (peer_trail resp) p.row v
                said,
        put,
        ap (λ w. w.2) w,
        ap (λ w. w.1) w,
        Takes-same resp q (touched now_ms q.row) out refl took,
        ap (λ x. x.became_final) (sym o) ∙ b,
        last,
      )
  promoted_row_stored db now p _ out v other _ (fills fin _) _ = cc (fin, other)
  promoted_row_stored db now p _ out v other _ (refuses fin _ _ _) _ = cc (fin, other)
  promoted_row_stored db now p _ out v other _ (repairs fin _ _ _ _ _ _) _ = cc (fin, other)

  after-irreflexive : (a : Slot) → after a a ≡ false
  unfolding after
  after-irreflexive a = ground arith

  after-asymmetric : (a b : Slot) → after a b ≡ true → after b a ≡ false
  unfolding after
  after-asymmetric a b e = ground arith

  noted-forward :
      (slot prev : Slot) (became : Bool)
      → (next : Slot) × (noted slot became (some prev) ≡ some next) × (after prev next ≡ false)
  noted-forward slot prev false = (prev, refl, after-irreflexive prev)
  noted-forward slot prev true = elim (Bool-cases (after slot prev)) [
    | inl later ↦ (slot, rw later, after-asymmetric slot prev later)
    | inr not_later ↦ (prev, rw not_later, after-irreflexive prev)
  ]

  last_final_kept_forward :
      (db now : Db) (s : Stage) (out : PatchOutcome) (prev : Slot)
      → Ends libs resp now_ms db now out s
      → db.last_final_slot ≡ some prev
      → (next : Slot) × (now.last_final_slot ≡ some next) × (after prev next ≡ false)
  last_final_kept_forward db now _ out prev (stopped _ _ (_, same)) e =
      (prev, same ∙ e, after-irreflexive prev)
  last_final_kept_forward db now _ out prev (applied p _ _ _ _ (_, last)) e =
      let (next, is, forward) = noted-forward (slot_of resp) prev p.out.became_final in
      (next, last ∙ ap (noted (slot_of resp) p.out.became_final) e ∙ is, forward)

module _ (libs : Libs) (resp : FinalSlotResponse) (now_ms : ℕ) (db : Db) (out : PatchOutcome)
    (fits : ltb resp.thread 256 ≡ true) (known : resp.final_known ≡ true)
    (placed : (start libs resp now_ms db).row.slot ≡ slot_of resp)
    (ran : (apply_peer_patch libs resp now_ms db).0 ≡ ok out) where
  abbrev after_patch : Db
  after_patch = (apply_peer_patch libs resp now_ms db).1

  found_at_slot :
      (row : SlotState)
      → row.slot ≡ slot_of resp
      → Stores row db after_patch
      → after_patch.slots resp.period resp.thread ≡ some row
  found_at_slot row e (stores here _) =
      subst (λ s. after_patch.slots s.period s.thread ≡ some row) e here

  others_kept :
      (row : SlotState)
      → row.slot ≡ slot_of resp
      → Stores row db after_patch
      → (p t : ℕ) (s : SlotState) → db.slots p t ≡ some s
      → is_at (slot_of resp) p t ≡ false
      → after_patch.slots p t ≡ some s
  others_kept row e (stores _ there) p t s had other =
      there p t s had (ap (λ x. is_at x p t) e ∙ other)

  -- A patch for a slot that the peer knows, if it ends well, leaves a FINAL row there, and every
  -- other row as it was, where the thread fits a byte and the slot's row stands under its own slot.
  pub slot_is_final :
      (row : SlotState) × (after_patch.slots resp.period resp.thread ≡ some row)
      × (row.status ≡ SlotStatus.final)
      × ((p t : ℕ) (s : SlotState)
          → db.slots p t ≡ some s
          → is_at (slot_of resp) p t ≡ false
          → after_patch.slots p t ≡ some s)
  slot_is_final =
      let (s, verdict, ends) = apply_peer_patch-known libs resp now_ms db fits known ran in
      let (row, at, fin, put) =
        final_row_stored libs resp now_ms db after_patch _ s out verdict ends in
      (row, found_at_slot row (at ∙ placed) put, fin, others_kept row (at ∙ placed) put)

  -- In a patch that ends well for a slot that the peer knows, a row that was not FINAL takes the
  -- peer's verdict, if it has one: the patch reports that the slot became final, and the last final
  -- slot is raised to it if it lies before it. The thread fits a byte, and the slot's row stands
  -- under its own slot.
  pub first_verdict_adopted :
      (v : Verdict)
      → is_final (start libs resp now_ms db).row.status ≡ false
      → of_peer resp.is_miss (named_block libs.b58 resp) ≡ some v
      → (row : SlotState) × (after_patch.slots resp.period resp.thread ≡ some row)
        × (of_local row ≡ some v)
        × (out.became_final ≡ true)
        × (after_patch.last_final_slot ≡ raised (slot_of resp) db.last_final_slot)
  first_verdict_adopted v other said =
      let (s, verdict, ends) = apply_peer_patch-known libs resp now_ms db fits known ran in
      let (row, at, is, put, _, _, _, became, last) =
        promoted_row_stored libs resp now_ms db after_patch _ s out v other said verdict ends in
      (row, found_at_slot row (at ∙ placed) put, is, became, last)

-- The last final slot never goes back in a patch that ends well.
pub last_final_forward :
    (libs : Libs) (resp : FinalSlotResponse) (now_ms : ℕ) (db : Db) (out : PatchOutcome)
    (prev : Slot)
    → (apply_peer_patch libs resp now_ms db).0 ≡ ok out
    → db.last_final_slot ≡ some prev
    → (next : Slot) × ((apply_peer_patch libs resp now_ms db).1.last_final_slot ≡ some next)
      × (after prev next ≡ false)
last_final_forward libs resp now_ms db out prev e had =
    elim (apply_peer_patch-cases libs resp now_ms db e) [
      | inl (same, _) ↦
          (prev, ap (λ d. d.last_final_slot) same ∙ had, after-irreflexive libs resp now_ms prev)
      | inr (s, _, ends) ↦ last_final_kept_forward libs resp now_ms db _ s out prev ends had
    ]
