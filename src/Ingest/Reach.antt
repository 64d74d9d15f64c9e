-- ===== src/Ingest/Reach.antt =====
-- Actions that end with the row of a slot as it should be.
use massa_history.Base.{ℕ, ◌≡◌, ap, ◌∙◌, subst, some}
use massa_history.Base.Result.{Result, ok, err}
use massa_history.Error.{Error}
use massa_history.Model.{Slot, SlotState}
use massa_history.Db.{Db, Action, continue, ◌>>=◌, write_slot}
use massa_history.Db.Frame.{Stable}
use massa_history.Db.Total.{Total}
use massa_history.Patch.Parts.{ensure_parent_stub}
use massa_history.Patch.Stored.{write_slot-Stores, stored-here, ensure_parent_stub-Adds}
use massa_history.Ingest.Frame.{Along}
use massa_history.Ingest.Rows.{SameRows}

module _ (slot : Slot) (Q : SlotState → Type 0) where
  -- The slot's row is as it should be.
  abbrev pub Here : Db → Type 0
  Here db = (row : SlotState) × (db.slots slot.period slot.thread ≡ some row) × Q row

  unfoldable pub Reaches : {A : Type 0} → Action A → Type 0
  Reaches act = (db : Db) → Here (act db).1

  continue-Reaches :
      {A B : Type 0} (r : Result Error A) (now : Db) (next : A → Action B) (a : A)
      → r ≡ ok a
      → ((a : A) → Reaches (next a))
      → Here (continue r next now).1
  unfolding Reaches
  continue-Reaches (ok a') now next a e h = h a' now
  continue-Reaches (err why) now next a e h = cc e

  pub Total-then :
      {A B : Type 0} (act : Action A) (next : A → Action B)
      → Total act
      → ((a : A) → Reaches (next a))
      → Reaches (act >>= next)
  unfolding Reaches
  Total-then act next t h db =
      let (a, is) = t db in continue-Reaches (act db).0 (act db).1 next a is h

  continue-Here :
      {A B : Type 0} (r : Result Error A) (now : Db) (next : A → Action B)
      → Here now
      → ((a : A) → Stable Here (next a))
      → Here (continue r next now).1
  continue-Here (ok a) now next k h = h a now k
  continue-Here (err why) now next k h = k

  pub then-Stable :
      {A B : Type 0} (act : Action A) (next : A → Action B)
      → Reaches act
      → ((a : A) → Stable Here (next a))
      → Reaches (act >>= next)
  unfolding Reaches
  then-Stable act next r h db = continue-Here (act db).0 (act db).1 next (r db) h

  pub write-Reaches : (row : SlotState) → row.slot ≡ slot → Q row → Reaches (write_slot row)
  unfolding Reaches
  write-Reaches row at q db =
      let now = (write_slot row db).1 in
      (
        row,
        subst (λ s. now.slots s.period s.thread ≡ some row) at
            (stored-here row db now (write_slot-Stores row db)),
        q,
      )

  pub same-Here : {A : Type 0} (act : Action A) → Along SameRows act → Stable Here act
  same-Here act k db (row, at, q) = (row, ap (λ m. m slot.period slot.thread) (k db) ∙ at, q)

  pub parent-Here : (s : Slot) (now_ms : ℕ) → Stable Here (ensure_parent_stub s now_ms)
  parent-Here s now_ms db (row, at, q) =
      (row, (ensure_parent_stub-Adds s now_ms db).1 slot.period slot.thread row at, q)
