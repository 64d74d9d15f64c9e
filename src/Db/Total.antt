-- ===== src/Db/Total.antt =====
-- Actions that always end well.
use massa_history.Base.{Bool, true, false, Option, none, some, ◌≡◌, refl, if◌then◌else◌}
use massa_history.Base.Result.{Result, ok, err}
use massa_history.Error.{Error}
use massa_history.Model.{SlotState}
use massa_history.Model.Rows.{StoredEndorsement}
use massa_history.Ids.{EndorsementId, endorsement, parse, as_bytes}
use massa_history.Db.{
  Db, Libs, Action, continue, ◌>>=◌, write_slot, write_endorsement, endorsement_at,
  keep_or_write_endorsement,
}

abbrev pub Total : {A : Type 0} → Action A → Type 0
Total {A} act = (db : Db) → (a : A) × ((act db).0 ≡ ok a)

module _ {A B : Type 0} where
  continue-Total :
      (r : Result Error A) (now : Db) (next : A → Action B) (a : A)
      → r ≡ ok a
      → ((a : A) → Total (next a))
      → (b : B) × ((continue r next now).0 ≡ ok b)
  continue-Total (ok a') now next a e h = h a' now
  continue-Total (err why) now next a e h = cc e

  pub >>=-Total :
      (act : Action A) (next : A → Action B)
      → Total act
      → ((a : A) → Total (next a))
      → Total (act >>= next)
  >>=-Total act next t h db = let (a, is) = t db in continue-Total (act db).0 (act db).1 next a is h

pub if-Total :
    {A : Type 0} (c : Bool) (x y : Action A)
    → Total x
    → Total y
    → Total (λ db. (if c then x else y) db)
if-Total true x y h k = h
if-Total false x y h k = k

pub write_slot-Total : (row : SlotState) → Total (write_slot row)
unfolding write_slot
write_slot-Total row db = (tt, refl)

-- An endorsement is refused only for its id.
pub write_endorsement-Total :
    (libs : Libs) (e : StoredEndorsement) (id : EndorsementId)
    → parse libs.b58 endorsement e.id ≡ ok id
    → Total (write_endorsement libs e)
unfolding write_endorsement endorsement_at keep_or_write_endorsement
write_endorsement-Total libs e id named = rw named λ db. kept (db.endorsements (as_bytes id)) db
  where
    kept : (found : Option StoredEndorsement) → Total (keep_or_write_endorsement e id found)
    kept none = λ db. (tt, refl)
    kept (some old) = λ db. (tt, refl)
