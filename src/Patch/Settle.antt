-- ===== src/Patch/Settle.antt =====
-- massa-indexer/src/peer/patch.rs: the last steps of `apply_peer_patch`, from the block statuses to the
-- row, and the last final slot.
use massa_history.Base.{
  ℕ, Bool, true, false, ◌≡◌, refl, sym, ap, ◌∙◌, subst, Option, none, some, if◌then◌else◌,
}
use massa_history.Base.Result.{ok}
use massa_history.Model.{Slot, SlotState}
use massa_history.Db.{
  Db, Libs, Done, pure, ◌>>=◌, write_slot, update_last_final_slot, read_last_final_slot,
}
use massa_history.Db.Frame.{heads, ok_injective, >>=-ok}
use massa_history.Patch.{FinalSlotResponse, PatchOutcome, slot_of, touched}
use massa_history.Patch.Parts.{ensure_parent_stub, apply_finality_to_blocks}
use massa_history.Patch.Frame.{apply_finality-Keeps}
use massa_history.Patch.Stored.{
  Stores, stores, write_slot-Stores, ensure_parent_stub-Adds, announce-Keeps,
}
use massa_history.Patch.Apply.{Progress, after, raise_last_final, note_last_final, announce, settle}

pub slots-eq : (a b : Db) → heads a ≡ heads b → a.slots ≡ b.slots
slots-eq a b e = ap (λ h. h.0) e

pub last-eq : (a b : Db) → heads a ≡ heads b → a.last_final_slot ≡ b.last_final_slot
last-eq a b e = ap (λ h. h.1) e

-- Steps that keep the rows, before and after one that stores a row.
pub Stores-around :
    {row : SlotState} (a b c d : Db)
    → a.slots ≡ b.slots
    → Stores row b c
    → ((p t : ℕ) (s : SlotState) → c.slots p t ≡ some s → d.slots p t ≡ some s)
    → Stores row a d
Stores-around {row} a b c d e (stores here there) more =
    stores (more row.slot.period row.slot.thread row here)
      λ p t s had other. more p t s (there p t s (ap (λ m. m p t) (sym e) ∙ had) other)

keeps-more :
    (c d : Db)
    → heads d ≡ heads c
    → (p t : ℕ) (s : SlotState) → c.slots p t ≡ some s
    → d.slots p t ≡ some s
keeps-more c d e p t s had = ap (λ h. (h.0) p t) e ∙ had

-- The last final slot after a slot became final.
abbrev pub raised : Slot → Option Slot → Option Slot
raised slot none = some slot
raised slot (some prev) = if after slot prev then some slot else some prev

abbrev pub noted : Slot → Bool → Option Slot → Option Slot
noted slot became_final old = if became_final then raised slot old else old

if-heads :
    (c : Bool) (x y : Done) (db : Db) (slots : ℕ → ℕ → Option SlotState) (l m : Option Slot)
    → heads (x db).1 ≡ (slots, l)
    → heads (y db).1 ≡ (slots, m)
    → heads ((if c then x else y) db).1 ≡ (slots, if c then l else m)
if-heads true x y db slots l m h k = h
if-heads false x y db slots l m h k = k

raise-is :
    (slot : Slot) (db : Db) (old : Option Slot)
    → db.last_final_slot ≡ old
    → heads (raise_last_final slot old db).1 ≡ (db.slots, raised slot old)
unfolding raise_last_final update_last_final_slot
raise-is slot db none e = refl
raise-is slot db (some prev) e =
    if-heads (after slot prev) (update_last_final_slot slot) (pure tt) db db.slots (some slot)
      (some prev) refl (ap (λ l. (db.slots, l)) e)

pub note_last_final-is :
    (slot : Slot) (became_final : Bool) (db : Db)
    → heads (note_last_final slot became_final db).1
      ≡ (db.slots, noted slot became_final db.last_final_slot)
unfolding note_last_final read_last_final_slot
note_last_final-is slot became_final db =
    if-heads became_final (read_last_final_slot >>= raise_last_final slot) (pure tt) db db.slots
      (raised slot db.last_final_slot) db.last_final_slot (raise-is slot db _ refl) refl

-- A run ended well, stored the row, and left the last final slot.
abbrev pub Stored : SlotState → Option Slot → Db → Db → Type 0
Stored row last db now = Stores row db now × (now.last_final_slot ≡ last)

module _ (libs : Libs) (resp : FinalSlotResponse) (now_ms : ℕ) where
  abbrev marked : Progress → Db → Db
  marked p db = (apply_finality_to_blocks p.row.final_block_id p.row.candidate_block_ids db).1

  abbrev written : Progress → Db → Db
  written p db = (write_slot (touched now_ms p.row) (marked p db)).1

  abbrev stubbed : Progress → Db → Db
  stubbed p db = (ensure_parent_stub (slot_of resp) now_ms (written p db)).1

  abbrev told : Progress → Db → Db
  told p db = (announce (record p { row = touched now_ms p.row }) (stubbed p db)).1

  settle-end :
      (p : Progress) (db : Db) {out : PatchOutcome}
      → (settle libs resp now_ms p db).0 ≡ ok out
      → (p.out ≡ out) × ((settle libs resp now_ms p db).1 ≡ told p db)
  unfolding settle
  settle-end p db e =
      let (_, _, e1, s1) =
        >>=-ok (apply_finality_to_blocks p.row.final_block_id p.row.candidate_block_ids) _ db e in
      let (_, _, e2, s2) = >>=-ok (write_slot (touched now_ms p.row)) _ (marked p db) e1 in
      let (_, _, e3, s3) = >>=-ok (ensure_parent_stub (slot_of resp) now_ms) _ (written p db) e2 in
      let (_, _, e4, s4) =
        >>=-ok (announce (record p { row = touched now_ms p.row })) _ (stubbed p db) e3 in
      (ok_injective e4, s1 ∙ s2 ∙ s3 ∙ s4)

  told-Stores : (p : Progress) (db : Db) → Stores (touched now_ms p.row) db (told p db)
  told-Stores p db =
      let last : Progress = record p { row = touched now_ms p.row } in
      Stores-around db (marked p db) (written p db) (told p db)
        (sym (
          slots-eq (marked p db) db
            (apply_finality-Keeps p.row.final_block_id p.row.candidate_block_ids db)))
        (write_slot-Stores (touched now_ms p.row) (marked p db))
        λ q t s had.
          keeps-more (stubbed p db) (told p db) (announce-Keeps last (stubbed p db)) q t s
            ((ensure_parent_stub-Adds (slot_of resp) now_ms (written p db)).1 q t s had)

  told-last : (p : Progress) (db : Db) → (told p db).last_final_slot ≡ db.last_final_slot
  unfolding write_slot
  told-last p db =
      let last : Progress = record p { row = touched now_ms p.row } in
      last-eq (told p db) (stubbed p db) (announce-Keeps last (stubbed p db))
      ∙ (ensure_parent_stub-Adds (slot_of resp) now_ms (written p db)).0
      ∙ last-eq (marked p db) db
          (apply_finality-Keeps p.row.final_block_id p.row.candidate_block_ids db)

  pub settle-Stored :
      (p : Progress) (db : Db) {out : PatchOutcome}
      → (settle libs resp now_ms p db).0 ≡ ok out
      → (p.out ≡ out)
        × Stored (touched now_ms p.row) db.last_final_slot db (settle libs resp now_ms p db).1
  settle-Stored p db e =
      let (same, ends) = settle-end p db e in
      (
        same,
        subst (Stored (touched now_ms p.row) db.last_final_slot db) (sym ends)
            (told-Stores p db, told-last p db),
      )
