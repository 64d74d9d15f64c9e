-- ===== src/Reconcile/LifeCycle.antt =====
-- massa-indexer/src/ingest.rs: the life cycle of an async message through reconciliation. A message that
-- was executed or cancelled stays so, whatever transfers follow.
use massa_history.Base.{
  ℕ, Bool, true, false, ◌≡◌, refl, sym, ap, ◌∙◌, Option, none, some, List, [], ◌∷◌, inl, inr,
  some_injective,
}
use massa_history.Ids.{Text, bytes_eq}
use massa_history.Ids.Equality.{bytes_eq→eq}
use massa_history.Model.{Slot}
use massa_history.Model.Transfers.{StoredTransfer, StoredAsyncMsg, AsyncMsgState}
use massa_history.Db.{Db, Libs}
use massa_history.Db.Calls.{read_async_msg, write_async_msg, async_to_write}
use massa_history.Db.Frame.{Stable, >>=-Stable}
use massa_history.Reconcile.Rows.{put-cases, put_if}
use massa_history.Reconcile.{
  async_outcome, new_async, async_next, async_updated, or_new, async_transfer, async_round,
  reconcile_async, reconcile_async_from_transfers,
}

abbrev pub ended : AsyncMsgState → Bool
ended AsyncMsgState.executed = true
ended AsyncMsgState.cancelled = true
ended _ = false

async_next-ended : (s new : AsyncMsgState) → ended s ≡ true → async_next s new ≡ s
unfolding async_next
async_next-ended AsyncMsgState.pending new e = cc e
async_next-ended AsyncMsgState.consumed new e = cc e
async_next-ended AsyncMsgState.executed new e = refl
async_next-ended AsyncMsgState.cancelled new e = refl

-- A message is found only under its own identifier.
abbrev pub Named : Db → Type 0
Named db = (id : Text) (m : StoredAsyncMsg) → db.async_msgs id ≡ some m → m.id ≡ id

abbrev pub InState : Text → AsyncMsgState → Db → Type 0
InState id s db = (m : StoredAsyncMsg) × (db.async_msgs id ≡ some m) × (m.state ≡ s)

module _ (id : Text) (s : AsyncMsgState) where
  abbrev EndedAs : Db → Type 0
  EndedAs db = Named db × InState id s db

  async_to_write-id :
      (prev : Option StoredAsyncMsg) (msg : StoredAsyncMsg) → (async_to_write prev msg).id ≡ msg.id
  unfolding async_to_write
  async_to_write-id none msg = refl
  async_to_write-id (some p) msg = refl

  async_to_write-state :
      (prev : Option StoredAsyncMsg) (msg : StoredAsyncMsg)
      → (async_to_write prev msg).state ≡ msg.state
  unfolding async_to_write
  async_to_write-state none msg = refl
  async_to_write-state (some p) msg = refl

  -- A message is written that does not change the state.
  write_async_msg-EndedAs :
      (libs : Libs) (msg : StoredAsyncMsg) (db : Db)
      → (msg.id ≡ id → msg.state ≡ s)
      → EndedAs db
      → EndedAs (write_async_msg libs msg db).1
  unfolding write_async_msg
  write_async_msg-EndedAs libs msg db same (named, here) =
      let prev = db.async_msgs msg.id in
      (
        (λ q m had.
            elim (put-cases (bytes_eq msg.id q) (async_to_write prev msg) (db.async_msgs q) had) [
              | inr before ↦ named q m before
              | inl (at, is) ↦
                  ap (λ x. x.id) (sym is) ∙ async_to_write-id prev msg ∙ bytes_eq→eq msg.id q at
            ]),
        put_if (λ m. m.state ≡ s) (bytes_eq msg.id id) (async_to_write prev msg) (db.async_msgs id)
            (λ at. async_to_write-state prev msg ∙ same (bytes_eq→eq msg.id id at)) here,
      )

  found_id :
      (libs : Libs) (slot : Slot) (now_ms : ℕ) (r : StoredTransfer) (new : AsyncMsgState) (q : Text)
      (found : Option StoredAsyncMsg)
      → ((m : StoredAsyncMsg) → found ≡ some m → m.id ≡ q)
      → (async_updated libs.b58 slot now_ms r new (or_new found (new_async q new slot now_ms))).id
        ≡ q
  unfolding async_updated new_async
  found_id libs slot now_ms r new q none named = refl
  found_id libs slot now_ms r new q (some m) named = named m refl

  found_state :
      (libs : Libs) (slot : Slot) (now_ms : ℕ) (r : StoredTransfer) (new : AsyncMsgState) (q : Text)
      (found : Option StoredAsyncMsg) (m : StoredAsyncMsg)
      → ended s ≡ true
      → found ≡ some m
      → m.state ≡ s
      → (async_updated libs.b58 slot now_ms r new
          (or_new found (new_async q new slot now_ms))).state
        ≡ s
  unfolding async_updated
  found_state libs slot now_ms r new q none m e f st = cc f
  found_state libs slot now_ms r new q (some k) m e f st =
      let is : k.state ≡ s = ap (λ x. x.state) (some_injective f) ∙ st in
      ap (λ x. async_next x new) is ∙ async_next-ended s new e

  async_round-EndedAs :
      (libs : Libs) (slot : Slot) (now_ms : ℕ) (r : StoredTransfer) (name : Option Text)
      (outcome : Option AsyncMsgState)
      → ended s ≡ true
      → Stable EndedAs (async_round libs slot now_ms r name outcome)
  unfolding async_round async_transfer read_async_msg
  async_round-EndedAs libs slot now_ms r none outcome e = λ db k. k
  async_round-EndedAs libs slot now_ms r (some q) none e = λ db k. k
  async_round-EndedAs libs slot now_ms r (some q) (some new) e = λ db (named, (m, here, st)).
      let at = found_id libs slot now_ms r new q (db.async_msgs q) (named q) in
      write_async_msg-EndedAs libs
        (async_updated libs.b58 slot now_ms r new
          (or_new (db.async_msgs q) (new_async q new slot now_ms)))
        db
        (λ same.
          found_state libs slot now_ms r new q (db.async_msgs q) m e
            (ap db.async_msgs (sym at ∙ same) ∙ here) st)
        (named, (m, here, st))

  transfers-EndedAs :
      (libs : Libs) (slot : Slot) (now_ms : ℕ) (rows : List StoredTransfer)
      → ended s ≡ true
      → Stable EndedAs (reconcile_async_from_transfers libs slot rows now_ms)
  unfolding reconcile_async_from_transfers reconcile_async
  transfers-EndedAs libs slot now_ms [] e = λ db k. k
  transfers-EndedAs libs slot now_ms (r ∷ rows) e =
      >>=-Stable EndedAs (reconcile_async libs slot now_ms r) _
        (async_round-EndedAs libs slot now_ms r r.async_msg_id (async_outcome r.origin) e)
        λ _. transfers-EndedAs libs slot now_ms rows e

-- Where each message stands under its own identifier, a message that was executed or cancelled is
-- found in the same state after any transfers are reconciled, and each still stands under its own.
pub ended_message_stays :
    (libs : Libs) (slot : Slot) (now_ms : ℕ) (rows : List StoredTransfer) (db : Db) (id : Text)
    (m : StoredAsyncMsg)
    → Named db
    → db.async_msgs id ≡ some m
    → ended m.state ≡ true
    → Named (reconcile_async_from_transfers libs slot rows now_ms db).1
      × InState id m.state (reconcile_async_from_transfers libs slot rows now_ms db).1
ended_message_stays libs slot now_ms rows db id m named here e =
    transfers-EndedAs id m.state libs slot now_ms rows e db (named, (m, here, refl))
