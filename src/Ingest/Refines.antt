-- ===== src/Ingest/Refines.antt =====
-- massa-indexer/src/ingest.rs: the handlers of the node's events move a slot only as `Moves` allows.
use massa_history.Base.{
  ℕ, ◌-◌, Bool, true, false, ◌≡◌, refl, ◌∙◌, sym, subst, Option, none, some, if◌then◌else◌, ◌==◌,
}
use massa_history.Base.Result.{Result, ok, err}
use massa_history.Error.{Error}
use massa_history.Model.{Slot, SlotState, fresh}
use massa_history.Db.{Db, Action, pure, continue, ◌>>=◌, write_slot, read_slot}
use massa_history.Patch.Parts.{stub_if_absent, ensure_parent_stub}
use massa_history.Patch.Stored.{is_at, is_at-eq}
use massa_history.Ingest.Frame.{Along}
use massa_history.Ingest.Rows.{SameRows}
use massa_history.Ingest.Moves.{unseen, view, Moves, stays, Moves-trans}

abbrev pub Rows : Type 0
Rows = ℕ → ℕ → Option SlotState

abbrev pub Placed : Rows → Type 0
Placed rows =
    (p t : ℕ) (row : SlotState)
    → rows p t ≡ some row
    → (row.slot.period ≡ p) × (row.slot.thread ≡ t)

-- Each slot moves as allowed.
abbrev pub MovesOn : Rows → Db → Type 0
MovesOn rows db = (p t : ℕ) → Moves (view (rows p t)) (view (db.slots p t))

-- An action that starts from these slot rows.
abbrev pub From : {A : Type 0} → Rows → Action A → Type 0
From rows act = (db : Db) → db.slots ≡ rows → MovesOn rows (act db).1

-- An action that moves each slot as allowed, wherever it starts.
abbrev pub Allowed : {A : Type 0} → Action A → Type 0
Allowed act = (db : Db) → MovesOn db.slots (act db).1

stays-same : (rows : Rows) (db : Db) → db.slots ≡ rows → MovesOn rows db
stays-same rows db e p t = subst (λ m. Moves (view (rows p t)) (view (m p t))) (sym e) stays

module _ (rows : Rows) where
  pub pure-From : {A : Type 0} (a : A) → From rows (pure a)
  pure-From a db e = stays-same rows db e

  -- An action that keeps the rows, then another.
  continue-From :
      {A B : Type 0} (r : Result Error A) (now : Db) (next : A → Action B)
      → now.slots ≡ rows
      → ((a : A) → From rows (next a))
      → MovesOn rows (continue r next now).1
  continue-From (ok a) now next e h = h a now e
  continue-From (err why) now next e h = stays-same rows now e

  pub keeps-then :
      {A B : Type 0} (act : Action A) (next : A → Action B)
      → Along SameRows act
      → ((a : A) → From rows (next a))
      → From rows (act >>= next)
  keeps-then act next k h db e = continue-From (act db).0 (act db).1 next (k db ∙ e) h

  at_test :
      (row : SlotState) (p t : ℕ) (c : Bool)
      → (c ≡ true → Moves (view (rows p t)) (view (some row)))
      → Moves (view (rows p t)) (view (if c then some row else rows p t))
  at_test row p t true h = h refl
  at_test row p t false h = stays

  -- A row is written that its slot may move to.
  pub write_slot-From :
      (row : SlotState)
      → Moves (view (rows row.slot.period row.slot.thread)) (view (some row))
      → From rows (write_slot row)
  unfolding write_slot
  write_slot-From row h db e p t =
      subst (λ m. Moves (view (rows p t)) (view (if is_at row.slot p t then some row else m p t)))
        (sym e)
        (at_test row p t (is_at row.slot p t) λ at.
          let (ep, et) = is_at-eq row.slot p t at in
          subst (λ q. Moves (view (rows q t)) (view (some row))) ep
            (subst (λ q. Moves (view (rows row.slot.period q)) (view (some row))) et h))

  continue-Allowed :
      {A B : Type 0} (r : Result Error A) (now : Db) (next : A → Action B)
      → MovesOn rows now
      → ((a : A) → Allowed (next a))
      → MovesOn rows (continue r next now).1
  continue-Allowed (ok a) now next m h = λ p t. Moves-trans (m p t) (h a now p t)
  continue-Allowed (err why) now next m h = m

  pub then-Allowed :
      {A B : Type 0} (act : Action A) (next : A → Action B)
      → From rows act
      → ((a : A) → Allowed (next a))
      → From rows (act >>= next)
  then-Allowed act next f h db e = continue-Allowed (act db).0 (act db).1 next (f db e) h

pub >>=-Allowed :
    {A B : Type 0} (act : Action A) (next : A → Action B)
    → Allowed act
    → ((a : A) → Allowed (next a))
    → Allowed (act >>= next)
>>=-Allowed act next f h db = continue-Allowed db.slots (act db).0 (act db).1 next (f db) h

pub keeps-Allowed : {A : Type 0} (act : Action A) → Along SameRows act → Allowed act
keeps-Allowed act k db = stays-same db.slots (act db).1 (k db)

stub-Moves :
    (slot : Slot) (now_ms : ℕ) (found : Option SlotState) (db : Db)
    → db.slots slot.period slot.thread ≡ found
    → MovesOn db.slots (stub_if_absent slot now_ms found db).1
unfolding stub_if_absent view
stub-Moves slot now_ms (some row) db e = stays-same db.slots db refl
stub-Moves slot now_ms none db e =
    write_slot-From db.slots (fresh slot now_ms) (subst (λ o. Moves (view o) unseen) (sym e) stays)
      db refl

if-Allowed :
    {A : Type 0} (c : Bool) (x y : Action A)
    → Allowed x
    → Allowed y
    → Allowed (λ db. (if c then x else y) db)
if-Allowed true x y h k = h
if-Allowed false x y h k = k

pub parent_stub-Allowed : (slot : Slot) (now_ms : ℕ) → Allowed (ensure_parent_stub slot now_ms)
unfolding ensure_parent_stub read_slot
parent_stub-Allowed slot now_ms =
    if-Allowed (slot.period == 0) (pure tt) _ (λ db. stays-same db.slots db refl)
      λ db. stub-Moves (record { period = slot.period - 1; thread = slot.thread }) now_ms _ db refl
