-- ===== src/Db/Frame.antt =====
-- Runs of actions taken apart, and the actions that leave the slot rows alone.
use massa_history.Base.{
  ℕ, Bool, true, false, ◌≡◌, refl, subst, ◌∙◌, Option, none, some, if◌then◌else◌,
}
use massa_history.Base.Result.{Result, ok, err}
use massa_history.Error.{Error}
use massa_history.Bytes.{Bytes}
use massa_history.Ids.{EndorsementId, IdError, endorsement, parse}
use massa_history.Model.{Slot, SlotState}
use massa_history.Model.Rows.{StoredBlock, StoredEndorsement, StoredDenunciationEntry}
use massa_history.Model.Operations.{StoredOperation, StoredScEvent}
use massa_history.Model.Transfers.{StoredTransfer, StoredAsyncMsg, StoredDeferredCall}
use massa_history.Db.{
  Db, Libs, Action, pure, continue, ◌>>=◌, endorsement_at, denunciation_at, write_block, write_op,
  write_endorsement, write_denunciation, keep_or_write_endorsement, put_denunciation,
}
use massa_history.Db.Events.{
  write_sc_event, clear_sc_events_for_slot, write_transfer, clear_transfers_for_slot,
}
use massa_history.Db.Calls.{write_async_msg, write_deferred_call}

pub ok_injective : {A : Type 0} {a b : A} → Path (Result Error A) (ok a) (ok b) → a ≡ b
ok_injective e = cc e

module _ {A B : Type 0} where
  continue-ok :
      (r : Result Error A) (now : Db) (next : A → Action B) {b : B}
      → ((continue r next now).0) ≡ ok b
      → (a : A) × (r ≡ ok a) × ((next a now).0 ≡ ok b) × ((continue r next now).1 ≡ (next a now).1)
  continue-ok (ok a) now next e = (a, refl, e, refl)
  continue-ok (err why) now next e = cc e

  -- A run that ends well went through both parts.
  pub >>=-ok :
      (act : Action A) (next : A → Action B) (db : Db) {b : B}
      → ((act >>= next) db).0 ≡ ok b
      → (a : A) × ((act db).0 ≡ ok a)
        × ((next a (act db).1).0 ≡ ok b)
        × (((act >>= next) db).1 ≡ (next a (act db).1).1)
  >>=-ok act next db e = continue-ok (act db).0 (act db).1 next e

-- What a patch's parts leave alone.
abbrev pub Heads : Type 0
Heads = (ℕ → ℕ → Option SlotState) × Option Slot

abbrev pub heads : Db → Heads
heads db = (db.slots, db.last_final_slot)

abbrev pub Keeps : {A : Type 0} → Action A → Type 0
Keeps act = (db : Db) → heads (act db).1 ≡ heads db

module _ {A B : Type 0} where
  continue-Keeps :
      (r : Result Error A) (now : Db) (next : A → Action B)
      → ((a : A) → Keeps (next a))
      → heads (continue r next now).1 ≡ heads now
  continue-Keeps (ok a) now next h = h a now
  continue-Keeps (err why) now next h = refl

  pub >>=-Keeps :
      (act : Action A) (next : A → Action B)
      → Keeps act
      → ((a : A) → Keeps (next a))
      → Keeps (act >>= next)
  >>=-Keeps act next h k db = continue-Keeps (act db).0 (act db).1 next k ∙ h db

pub if-Keeps :
    {A : Type 0} (c : Bool) (x y : Action A)
    → Keeps x
    → Keeps y
    → (db : Db) → heads ((if c then x else y) db).1 ≡ heads db
if-Keeps true x y h k = h
if-Keeps false x y h k = k

pub write_block-Keeps : (b : StoredBlock) → Keeps (write_block b)
unfolding write_block
write_block-Keeps b db = refl

pub write_op-Keeps : (op : StoredOperation) → Keeps (write_op op)
unfolding write_op
write_op-Keeps op db = refl

keep_or_write-Keeps :
    (e : StoredEndorsement) (id : EndorsementId) (found : Option StoredEndorsement)
    → Keeps (keep_or_write_endorsement e id found)
unfolding keep_or_write_endorsement
keep_or_write-Keeps e id none db = refl
keep_or_write-Keeps e id (some old) db = refl

endorsement_at-Keeps :
    (e : StoredEndorsement) (r : Result IdError EndorsementId) → Keeps (endorsement_at e r)
unfolding endorsement_at
endorsement_at-Keeps e (ok id) db = keep_or_write-Keeps e id _ db
endorsement_at-Keeps e (err why) db = refl

pub write_endorsement-Keeps :
    (libs : Libs) (e : StoredEndorsement) → Keeps (write_endorsement libs e)
unfolding write_endorsement
write_endorsement-Keeps libs e = endorsement_at-Keeps e (parse libs.b58 endorsement e.id)

put_denunciation-Keeps :
    (d : StoredDenunciationEntry) (k : Bytes) (found : Option StoredDenunciationEntry)
    → Keeps (put_denunciation d k found)
unfolding put_denunciation
put_denunciation-Keeps d k none db = refl
put_denunciation-Keeps d k (some old) db = refl

denunciation_at-Keeps :
    (d : StoredDenunciationEntry) (k : Option Bytes) → Keeps (denunciation_at d k)
unfolding denunciation_at
denunciation_at-Keeps d none db = refl
denunciation_at-Keeps d (some k) db = put_denunciation-Keeps d k _ db

pub write_denunciation-Keeps :
    (libs : Libs) (d : StoredDenunciationEntry) → Keeps (write_denunciation libs d)
unfolding write_denunciation
write_denunciation-Keeps libs d = denunciation_at-Keeps d (libs.hex_decode d.hash)

pub write_sc_event-Keeps : (ev : StoredScEvent) → Keeps (write_sc_event ev)
unfolding write_sc_event
write_sc_event-Keeps ev db = refl

pub clear_sc_events-Keeps : (p t : ℕ) → Keeps (clear_sc_events_for_slot p t)
unfolding clear_sc_events_for_slot
clear_sc_events-Keeps p t db = refl

pub write_transfer-Keeps : (libs : Libs) (t : StoredTransfer) → Keeps (write_transfer libs.b58 t)
unfolding write_transfer
write_transfer-Keeps libs t db = refl

pub clear_transfers-Keeps : (libs : Libs) (p t : ℕ) → Keeps (clear_transfers_for_slot libs.b58 p t)
unfolding clear_transfers_for_slot
clear_transfers-Keeps libs p t db = refl

pub write_async_msg-Keeps : (libs : Libs) (m : StoredAsyncMsg) → Keeps (write_async_msg libs m)
unfolding write_async_msg
write_async_msg-Keeps libs m db = refl

pub write_deferred_call-Keeps :
    (libs : Libs) (d : StoredDeferredCall) → Keeps (write_deferred_call libs d)
unfolding write_deferred_call
write_deferred_call-Keeps libs d db = refl

-- What an action gives back, where it ends well.
abbrev pub Gives : {A : Type 0} → (A → Type 0) → Action A → Type 0
Gives {A} P act = (db : Db) (a : A) → (act db).0 ≡ ok a → P a

module _ {A B : Type 0} where
  pub >>=-Gives :
      (P : B → Type 0) (act : Action A) (next : A → Action B)
      → ((a : A) → Gives P (next a))
      → Gives P (act >>= next)
  >>=-Gives P act next h db b e = let (a, _, run, _) = >>=-ok act next db e in h a (act db).1 b run

pub pure-Gives : {A : Type 0} (P : A → Type 0) (a : A) → P a → Gives P (pure a)
pure-Gives P a h db b e = subst P (ok_injective e) h

pub if-Gives :
    {A : Type 0} (P : A → Type 0) (c : Bool) (x y : Action A)
    → (c ≡ true → Gives P x)
    → (c ≡ false → Gives P y)
    → Gives P (λ db. (if c then x else y) db)
if-Gives P true x y h k = h refl
if-Gives P false x y h k = k refl

-- What an action keeps, however it ends.
abbrev pub Stable : {A : Type 0} → (Db → Type 0) → Action A → Type 0
Stable P act = (db : Db) → P db → P (act db).1

module _ {A B : Type 0} (P : Db → Type 0) where
  continue-Stable :
      (r : Result Error A) (now : Db) (next : A → Action B)
      → ((a : A) → Stable P (next a))
      → P now
      → P (continue r next now).1
  continue-Stable (ok a) now next h p = h a now p
  continue-Stable (err why) now next h p = p

  pub >>=-Stable :
      (act : Action A) (next : A → Action B)
      → Stable P act
      → ((a : A) → Stable P (next a))
      → Stable P (act >>= next)
  >>=-Stable act next h k db p = continue-Stable (act db).0 (act db).1 next k (h db p)
