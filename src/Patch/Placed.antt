-- ===== src/Patch/Placed.antt =====
-- massa-indexer/src/db.rs and massa-indexer/src/peer/patch.rs: each slot row stands under its own slot,
-- whatever a patch does and however it ends.
use massa_history.Base.{
  ℕ, Bool, true, false, not, ◌≡◌, refl, sym, ap, ◌∙◌, Option, none, some, inl, inr, ◌⊎◌, ◌==◌, ◌-◌,
  ltb, if◌then◌else◌, some_injective,
}
use massa_history.Base.Result.{Result, ok, err}
use massa_history.Error.{Error}
use massa_history.Model.{Slot, SlotState, fresh}
use massa_history.Db.{Db, Libs, Action, pure, continue, ◌>>=◌, read_slot, write_slot, broadcast}
use massa_history.Db.Frame.{Keeps}
use massa_history.Patch.{FinalSlotResponse, no_outcome, slot_of, touched}
use massa_history.Patch.Parts.{stub_if_absent, ensure_parent_stub, apply_finality_to_blocks}
use massa_history.Patch.Frame.{apply_finality-Keeps}
use massa_history.Patch.Row.{block_stage-Keeps, exec_stage-Keeps, transfers_stage-Keeps}
use massa_history.Patch.Verdict.{reconcile_verdict-Keeps}
use massa_history.Patch.Stored.{is_at, is_at-eq, announce-Keeps}
use massa_history.Patch.Outcome.{start}
use massa_history.Patch.Settle.{note_last_final-is}
use massa_history.Patch.Apply.{
  Progress, Stage, stop, go, note_last_final, block_stage, exec_stage, transfers_stage, announce,
  settle, apply_parts, after_verdict, patch_slot, reconcile_verdict, apply_peer_patch,
}

-- A row is found only under its own slot.
abbrev pub WellPlaced : Db → Type 0
WellPlaced db =
    (p t : ℕ) (row : SlotState)
    → db.slots p t ≡ some row
    → (row.slot.period ≡ p) × (row.slot.thread ≡ t)

abbrev pub Preserves : {A : Type 0} → Action A → Type 0
Preserves act = (db : Db) → WellPlaced db → WellPlaced (act db).1

WellPlaced-same : (a b : Db) → b.slots ≡ a.slots → WellPlaced a → WellPlaced b
WellPlaced-same a b e w p t row had = w p t row (ap (λ m. m p t) (sym e) ∙ had)

pub Keeps-Preserves : {A : Type 0} (act : Action A) → Keeps act → Preserves act
Keeps-Preserves act k db w = WellPlaced-same db (act db).1 (ap (λ h. h.0) (k db)) w

module _ {A B : Type 0} where
  continue-Preserves :
      (r : Result Error A) (now : Db) (next : A → Action B)
      → ((a : A) → Preserves (next a))
      → WellPlaced now
      → WellPlaced (continue r next now).1
  continue-Preserves (ok a) now next h w = h a now w
  continue-Preserves (err why) now next h w = w

  pub >>=-Preserves :
      (act : Action A) (next : A → Action B)
      → Preserves act
      → ((a : A) → Preserves (next a))
      → Preserves (act >>= next)
  >>=-Preserves act next h k db w = continue-Preserves (act db).0 (act db).1 next k (h db w)

  -- An action that leaves the rows, then another.
  pub keeps-then :
      (act : Action A) (next : A → Action B)
      → Keeps act
      → ((a : A) → Preserves (next a))
      → Preserves (act >>= next)
  keeps-then act next h k = >>=-Preserves act next (Keeps-Preserves act h) k

pub if-Preserves :
    {A : Type 0} (c : Bool) (x y : Action A)
    → Preserves x
    → Preserves y
    → Preserves (λ db. (if c then x else y) db)
if-Preserves true x y h k = h
if-Preserves false x y h k = k

written :
    (c : Bool) (row : SlotState) (old : Option SlotState) {found : SlotState}
    → (if c then some row else old) ≡ some found
    → ((c ≡ true) × (row ≡ found)) ⊎ (old ≡ some found)
written true row old e = inl (refl, some_injective e)
written false row old e = inr e

pub write_slot-Preserves : (row : SlotState) → Preserves (write_slot row)
unfolding write_slot
write_slot-Preserves row db w p t found had =
    elim (written (is_at row.slot p t) row (db.slots p t) had) [
      | inr before ↦ w p t found before
      | inl (at, same) ↦
          let (ep, et) = is_at-eq row.slot p t at in
          (ap (λ r. r.slot.period) (sym same) ∙ ep, ap (λ r. r.slot.thread) (sym same) ∙ et)
    ]

stub-Preserves :
    (slot : Slot) (now_ms : ℕ) (found : Option SlotState)
    → Preserves (stub_if_absent slot now_ms found)
unfolding stub_if_absent
stub-Preserves slot now_ms none = write_slot-Preserves (fresh slot now_ms)
stub-Preserves slot now_ms (some row) = λ db w. w

pub ensure_parent_stub-Preserves :
    (slot : Slot) (now_ms : ℕ) → Preserves (ensure_parent_stub slot now_ms)
unfolding ensure_parent_stub read_slot
ensure_parent_stub-Preserves slot now_ms =
    if-Preserves (slot.period == 0) (pure tt) _ (λ db w. w)
      λ db w.
        stub-Preserves (record { period = slot.period - 1; thread = slot.thread }) now_ms _ db w

pub broadcast-Preserves : (e : _) → Preserves (broadcast e)
unfolding broadcast
broadcast-Preserves e db w = w

pub note_last_final-Preserves : (slot : Slot) (b : Bool) → Preserves (note_last_final slot b)
note_last_final-Preserves slot b db w =
    WellPlaced-same db (note_last_final slot b db).1 (ap (λ h. h.0) (note_last_final-is slot b db))
      w

module _ (libs : Libs) (resp : FinalSlotResponse) (now_ms : ℕ) where
  settle-Preserves : (p : Progress) → Preserves (settle libs resp now_ms p)
  unfolding settle
  settle-Preserves p =
      let last : Progress = record p { row = touched now_ms p.row } in
      keeps-then (apply_finality_to_blocks p.row.final_block_id p.row.candidate_block_ids) _
        (apply_finality-Keeps p.row.final_block_id p.row.candidate_block_ids)
        λ _. >>=-Preserves (write_slot last.row) _ (write_slot-Preserves last.row) λ _.
          >>=-Preserves (ensure_parent_stub (slot_of resp) now_ms) _
            (ensure_parent_stub-Preserves (slot_of resp) now_ms)
            λ _. keeps-then (announce last) _ (announce-Keeps last) λ _ db w. w

  apply_parts-Preserves : (p : Progress) → Preserves (apply_parts libs resp now_ms p)
  unfolding apply_parts
  apply_parts-Preserves p =
      >>=-Preserves (note_last_final (slot_of resp) p.out.became_final) _
        (note_last_final-Preserves (slot_of resp) p.out.became_final)
        λ _.
          keeps-then (block_stage libs resp now_ms p) _ (block_stage-Keeps libs resp now_ms p) λ p1.
            keeps-then (exec_stage libs resp p1) _ (exec_stage-Keeps libs resp now_ms p1) λ p2.
              keeps-then (transfers_stage libs resp now_ms p2) _
                (transfers_stage-Keeps libs resp now_ms p2) settle-Preserves

  after_verdict-Preserves : (s : Stage) → Preserves (after_verdict libs resp now_ms s)
  unfolding after_verdict
  after_verdict-Preserves (stop p) =
      >>=-Preserves (write_slot (touched now_ms p.row)) _
        (write_slot-Preserves (touched now_ms p.row)) λ _ db w. w
  after_verdict-Preserves (go p) = apply_parts-Preserves p

  patch_slot-Preserves : Preserves (patch_slot libs resp now_ms)
  unfolding patch_slot read_slot
  patch_slot-Preserves db w =
      keeps-then (reconcile_verdict libs resp (start libs resp now_ms db))
        (after_verdict libs resp now_ms)
        (reconcile_verdict-Keeps libs resp (start libs resp now_ms db)) after_verdict-Preserves db w

  -- Whether or not it ends well, a peer's patch leaves each row under its own slot.
  pub apply_peer_patch-WellPlaced :
      (db : Db) → WellPlaced db → WellPlaced (apply_peer_patch libs resp now_ms db).1
  unfolding apply_peer_patch
  apply_peer_patch-WellPlaced =
      if-Preserves (not (ltb resp.thread 256)) (pure no_outcome) _ (λ db w. w)
        (if-Preserves (not resp.final_known) (pure (record no_outcome { empty = true })) _
          (λ db w. w) patch_slot-Preserves)
