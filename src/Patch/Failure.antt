-- ===== src/Patch/Failure.antt =====
-- massa-indexer/src/peer/patch.rs: what an error leaves. A patch writes the slot's row after everything
-- that can be refused; the stub of the parent slot follows, whose failure is not modelled.
use massa_history.Base.{◌≡◌}
use massa_history.Base.Result.{Result, err}
use massa_history.Error.{Error}
use massa_history.Db.{Db, Action}
use massa_history.Db.Total.{Total}

-- An action that, when it fails, leaves the slot rows.
abbrev Clean : {A : Type 0} → Action A → Type 0
Clean act = (db : Db) (why : Error) → (act db).0 ≡ err why → (act db).1.slots ≡ db.slots

abbrev KeepsRows : {A : Type 0} → Action A → Type 0
KeepsRows act = (db : Db) → (act db).1.slots ≡ db.slots
