-- ===== src/Patch/Stored.antt =====
-- What `apply_peer_patch` of massa-indexer/src/peer/patch.rs leaves in the store: the slot's row, the
-- other rows and the last final slot.
use massa_history.Base.{
  ℕ, Bool, true, false, ◌&&◌, ◌||◌, ◌≡◌, refl, ap, ◌∙◌, Option, none, some, inl, inr, ◌==◌, ◌-◌,
  if◌then◌else◌, Bool-cases, eq→==, arith,
}
use massa_history.Model.{Slot, SlotState, fresh}
use massa_history.Db.{Db, Done, pure, ◌>>=◌, write_slot, read_slot, broadcast}
use massa_history.Db.Frame.{Keeps, >>=-Keeps, if-Keeps}
use massa_history.Patch.Parts.{stub_if_absent, ensure_parent_stub}
use massa_history.Patch.Apply.{Progress, announce}

abbrev pub is_at : Slot → ℕ → ℕ → Bool
is_at slot p t = slot.period == p && slot.thread == t

-- The rows that a store had are there still, and `row` is the one of its slot.
pub data Stores (row : SlotState) (old now : Db) : Type 0 where
  stores :
      (now.slots row.slot.period row.slot.thread ≡ some row)
      → ((p t : ℕ) (s : SlotState)
          → old.slots p t ≡ some s
          → is_at row.slot p t ≡ false
          → now.slots p t ≡ some s)
      → Stores row old now

pub stored-here :
    (row : SlotState) (old now : Db)
    → Stores row old now
    → now.slots row.slot.period row.slot.thread ≡ some row
stored-here row old now (stores here _) = here

-- Rows are only added.
abbrev pub Adds : Db → Db → Type 0
Adds old now =
    (now.last_final_slot ≡ old.last_final_slot)
    × ((p t : ℕ) (s : SlotState) → old.slots p t ≡ some s → now.slots p t ≡ some s)

is_at_self : (slot : Slot) → is_at slot slot.period slot.thread ≡ true
is_at_self slot = rw (eq→== slot.period slot.period refl, eq→== slot.thread slot.thread refl)

pub is_at-eq :
    (slot : Slot) (p t : ℕ) → is_at slot p t ≡ true → (slot.period ≡ p) × (slot.thread ≡ t)
is_at-eq slot p t e = ground arith

write_if :
    (c : Bool) (row : SlotState) (old : Option SlotState)
    → c ≡ false
    → (if c then some row else old) ≡ old
write_if c row old e = rw e

pub write_slot-Stores : (row : SlotState) (db : Db) → Stores row db (write_slot row db).1
unfolding write_slot
write_slot-Stores row db =
    stores (rw (is_at_self row.slot)) λ p t s had other. write_if _ row (db.slots p t) other ∙ had

stub-Adds :
    (slot : Slot) (now_ms : ℕ) (db : Db) (found : Option SlotState)
    → db.slots slot.period slot.thread ≡ found
    → Adds db (stub_if_absent slot now_ms found db).1
unfolding stub_if_absent write_slot
stub-Adds slot now_ms db (some row) e = (refl, λ p t s had. had)
stub-Adds slot now_ms db none e = (
  refl,
  λ p t s had. elim (Bool-cases (is_at slot p t)) [
    | inr other ↦ write_if _ (fresh slot now_ms) (db.slots p t) other ∙ had
    | inl at ↦ let (ep, et) = is_at-eq slot p t at in cc (ap db.slots ep, e, had, et)
  ],
)

if-Adds :
    (c : Bool) (x y : Done) (db : Db)
    → Adds db (x db).1
    → Adds db (y db).1
    → Adds db ((if c then x else y) db).1
if-Adds true x y db h k = h
if-Adds false x y db h k = k

pub ensure_parent_stub-Adds :
    (slot : Slot) (now_ms : ℕ) (db : Db) → Adds db (ensure_parent_stub slot now_ms db).1
unfolding ensure_parent_stub read_slot
ensure_parent_stub-Adds slot now_ms db =
    let prev : Slot = record { period = slot.period - 1; thread = slot.thread } in
    if-Adds (slot.period == 0) (pure tt)
      (read_slot prev.period prev.thread >>= stub_if_absent prev now_ms) db (refl, λ p t s had. had)
      (stub-Adds prev now_ms db _ refl)

pub announce-Keeps : (p : Progress) → Keeps (announce p)
unfolding announce broadcast
announce-Keeps p =
    >>=-Keeps (if p.out.became_final || p.out.divergence_repaired then _ else pure tt) _
      (if-Keeps (p.out.became_final || p.out.divergence_repaired) _ (pure tt) (λ db. refl)
        (λ db. refl))
      (λ _ db. refl)
