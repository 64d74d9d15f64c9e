-- ===== src/Patch/Priority.antt =====
-- massa-indexer/src/peer/patch.rs: which verdict stands after `apply_peer_patch`.
use massa_history.Base.{
  ℕ, ◌+◌, ◌^◌, ◌<◌, true, false, ◌≡◌, ◌≢◌, refl, ap, ◌∙◌, subst, Option, none, some, inl, inr,
}
use massa_history.Base.Result.{ok}
use massa_history.Ids.{Text}
use massa_history.Model.{Slot, SlotState, SlotStatus}
use massa_history.Arbiter.{Verdict, of_local, of_peer}
use massa_history.Arbiter.Evidence.{ForPeer}
use massa_history.Arbiter.Sound.{adopt_peer_sound}
use massa_history.Db.{Db, Libs}
use massa_history.Patch.{
  FinalSlotResponse, PatchOutcome, slot_of, or_fresh, peer_trail, named_block, touched,
}
use massa_history.Patch.Row.{Grows, Grows-refl, Grows-trans, Extends, extends}
use massa_history.Patch.Verdict.{Reconciled, promotes, fills, refuses, repairs}
use massa_history.Patch.Stored.{stores}
use massa_history.Patch.Outcome.{Ends, stopped, applied, start, apply_peer_patch-cases}
use massa_history.Patch.Settle.{Stored}
use massa_history.Patch.Apply.{
  Progress, Stage, reader, is_final, or_old, shipped_block, apply_peer_patch,
}

-- The second row has the verdict of the first, and all that the first has.
pub data Honours (row row' : SlotState) : Type 0 where
  honours :
      row'.status ≡ row.status
      → row'.is_miss ≡ row.is_miss
      → row'.final_block_id ≡ row.final_block_id
      → ((t : Text) → row.execution_trail_hash ≡ some t → row'.execution_trail_hash ≡ some t)
      → Grows row.completeness row'.completeness
      → Honours row row'

or_old-keeps : (old new : Option Text) (t : Text) → old ≡ some t → or_old old new ≡ some t
or_old-keeps none new t e = cc e
or_old-keeps (some a) new t e = e

module _ (libs : Libs) (resp : FinalSlotResponse) (now_ms : ℕ) where
  Extends-Honours :
      (row : SlotState) (p q : Progress)
      → Honours row p.row
      → Extends p q
      → Honours row (touched now_ms q.row)
  Extends-Honours row p q (honours s m f t g) (extends v _ _ h) =
      honours (ap (λ w. w.1) v ∙ s) (ap (λ w. w.2) v ∙ m) (ap (λ w. w.3) v ∙ f)
        (λ x e. ap (λ w. w.4) v ∙ t x e) (Grows-trans g h)

  Extends-slot : (p q : Progress) → Extends p q → q.row.slot ≡ p.row.slot
  Extends-slot p q (extends v _ _ _) = ap (λ w. w.0) v

  -- The row that a run stored, found under its slot.
  pub found_at :
      {row : SlotState} {last : Option Slot} {db now : Db} (slot : Slot)
      → row.slot ≡ slot
      → Stored row last db now
      → now.slots slot.period slot.thread ≡ some row
  found_at {row} {last} {db} {now} slot e (stores here _, _) =
      subst (λ s. now.slots s.period s.thread ≡ some row) e here

  kept_when_final :
      (db now : Db) (p : Progress) (s : Stage) (out : PatchOutcome)
      → is_final p.row.status ≡ true
      → Reconciled libs resp (reader db) p s
      → Ends libs resp now_ms db now out s
      → out.divergence_repaired ≡ false
      → (row : SlotState) × (now.slots p.row.slot.period p.row.slot.thread ≡ some row)
        × Honours p.row row
  kept_when_final db now p _ out fin (promotes other) _ _ = cc (fin, other)
  kept_when_final db now p _ out fin (refuses _ o _ _) (stopped p' same held) e = (
    touched now_ms p.row,
    found_at p.row.slot refl held,
    honours refl refl refl (λ t h. h) Grows-refl,
  )
  kept_when_final db now p _ out fin (repairs _ l r _ _ _ _)
        (applied p' q (extends _ _ d _) _ same held) e =
      cc (d, same, e)
  kept_when_final db now p _ out fin (fills _ _) (applied p' q grown _ same held) e = (
    touched now_ms q.row,
    found_at p.row.slot (Extends-slot p' q grown) held,
    Extends-Honours p.row p' q
        (honours refl refl refl (or_old-keeps p.row.execution_trail_hash (peer_trail resp))
          Grows-refl)
        grown,
  )

  repaired-why :
      (db now : Db) (s : Stage) (out : PatchOutcome)
      → resp.period + 512 < 2 ^ 64
      → Reconciled libs resp (reader db) (start libs resp now_ms db) s
      → Ends libs resp now_ms db now out s
      → out.divergence_repaired ≡ true
      → (local peer : Verdict) × (is_final (start libs resp now_ms db).row.status ≡ true)
        × (of_local (start libs resp now_ms db).row ≡ some local)
        × (of_peer resp.is_miss (named_block libs.b58 resp) ≡ some peer)
        × (local ≢ peer)
        × ForPeer (reader db) (slot_of resp) local peer
  repaired-why db now _ out fits (promotes _) (applied p q (extends _ _ d _) _ same _) e =
      cc (d, same, e)
  repaired-why db now _ out fits (fills _ _) (applied p q (extends _ _ d _) _ same _) e =
      cc (d, same, e)
  repaired-why db now _ out fits (refuses _ o _ d) (stopped p same _) e = cc (d, same, e)
  repaired-why db now _ out fits (repairs fin l r isl isr _ by) _ e =
      let (differ, why) =
        adopt_peer_sound (reader db) (slot_of resp) l r (shipped_block resp) fits by in
      (l, r, fin, isl, isr, differ, why)

  start-row :
      (db : Db) (row : SlotState)
      → db.slots resp.period resp.thread ≡ some row
      → (start libs resp now_ms db).row ≡ row
  unfolding or_fresh
  start-row db row e = rw e

-- A FINAL row that stands under its own slot keeps its verdict through a patch that ends well
-- without a repair: its status, miss flag, final block and known trail hash stay, and every part that it has stays stored.
pub final_verdict_kept :
    (libs : Libs) (resp : FinalSlotResponse) (now_ms : ℕ) (db : Db) (row : SlotState)
    (out : PatchOutcome)
    → db.slots resp.period resp.thread ≡ some row
    → row.slot ≡ slot_of resp
    → row.status ≡ SlotStatus.final
    → (apply_peer_patch libs resp now_ms db).0 ≡ ok out
    → out.divergence_repaired ≡ false
    → (row' : SlotState) × ((apply_peer_patch libs resp now_ms db).1.slots resp.period resp.thread
        ≡ some row')
      × Honours row row'
final_verdict_kept libs resp now_ms db row out had at fin e kept =
    let is = start-row libs resp now_ms db row had in
    let p : Progress = start libs resp now_ms db in
    elim (apply_peer_patch-cases libs resp now_ms db e) [
      | inl (same, _) ↦ (
        row,
        ap (λ d. d.slots resp.period resp.thread) same ∙ had,
        honours refl refl refl (λ t h. h) Grows-refl,
      )
      | inr (s, verdict, ends) ↦
          let (row', there, good) =
            kept_when_final libs resp now_ms db (apply_peer_patch libs resp now_ms db).1 p s out
              (ap is_final (ap (λ r. r.status) is ∙ fin)) verdict ends kept in
          let now : Db = (apply_peer_patch libs resp now_ms db).1 in
          (
            row',
            subst (λ x. now.slots x.period x.thread ≡ some row') (ap (λ r. r.slot) is ∙ at) there,
            subst (λ r. Honours r row') is good,
          )
    ]

-- Within the range of u64, a patch that reports a repair found a FINAL row with a verdict, which is
-- not the peer's, and the stored chain speaks for the peer.
pub repaired_by_evidence :
    (libs : Libs) (resp : FinalSlotResponse) (now_ms : ℕ) (db : Db) (out : PatchOutcome)
    → resp.period + 512 < 2 ^ 64
    → (apply_peer_patch libs resp now_ms db).0 ≡ ok out
    → out.divergence_repaired ≡ true
    → (local peer : Verdict) × (is_final (start libs resp now_ms db).row.status ≡ true)
      × (of_local (start libs resp now_ms db).row ≡ some local)
      × (of_peer resp.is_miss (named_block libs.b58 resp) ≡ some peer)
      × (local ≢ peer)
      × ForPeer (reader db) (slot_of resp) local peer
repaired_by_evidence libs resp now_ms db out fits e fixed =
    elim (apply_peer_patch-cases libs resp now_ms db e) [
      | inl (_, no_repair) ↦ cc (fixed, no_repair)
      | inr (s, verdict, ends) ↦ repaired-why libs resp now_ms db _ s out fits verdict ends fixed
    ]
