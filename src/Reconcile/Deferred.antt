-- ===== src/Reconcile/Deferred.antt =====
-- massa-indexer/src/ingest.rs: the life cycle of a deferred call through reconciliation.
use massa_history.Base.{
  ℕ, Bool, true, false, ◌≡◌, refl, sym, ap, ◌∙◌, Option, none, some, List, [], ◌∷◌, inl, inr,
  some_injective,
}
use massa_history.Ids.{Text, Base58, bytes_eq}
use massa_history.Ids.Equality.{bytes_eq→eq}
use massa_history.Model.{Slot}
use massa_history.Model.Transfers.{
  CoinOrigin, StoredTransfer, StoredDeferredCall, DeferredCallState,
}
use massa_history.Db.{Db, Libs}
use massa_history.Db.Calls.{read_deferred_call, write_deferred_call, deferred_to_write}
use massa_history.Db.Frame.{Stable, >>=-Stable}
use massa_history.Reconcile.Rows.{put-cases, put_if}
use massa_history.Reconcile.{
  deferred_outcome, new_deferred, deferred_next, deferred_updated, or_new, deferred_write,
  deferred_round, reconcile_deferred, reconcile_deferred_from_transfers,
}

abbrev pub call_ended : DeferredCallState → Bool
call_ended DeferredCallState.registered = false
call_ended _ = true

deferred_next-ended : (s new : DeferredCallState) → call_ended s ≡ true → deferred_next s new ≡ s
unfolding deferred_next
deferred_next-ended DeferredCallState.registered new e = cc e
deferred_next-ended DeferredCallState.executed new e = refl
deferred_next-ended DeferredCallState.failed new e = refl
deferred_next-ended DeferredCallState.cancelled new e = refl

-- An outcome keeps the identifier and the state of the row that it starts from.
deferred_outcome-same :
    (b58 : Base58) (slot : Slot) (r : StoredTransfer) (before : StoredDeferredCall) (o : CoinOrigin)
    (k : StoredDeferredCall) (new : DeferredCallState)
    → deferred_outcome b58 slot r before o ≡ some (k, new)
    → (k.id ≡ before.id) × (k.state ≡ before.state)
deferred_outcome-same b58 slot r before CoinOrigin.deferred_call_register k new e =
    (ap (λ x. x.0.id) (sym (some_injective e)), ap (λ x. x.0.state) (sym (some_injective e)))
deferred_outcome-same b58 slot r before CoinOrigin.deferred_call_coins k new e =
    (ap (λ x. x.0.id) (sym (some_injective e)), ap (λ x. x.0.state) (sym (some_injective e)))
deferred_outcome-same b58 slot r before CoinOrigin.deferred_call_fail k new e =
    (ap (λ x. x.0.id) (sym (some_injective e)), ap (λ x. x.0.state) (sym (some_injective e)))
deferred_outcome-same b58 slot r before CoinOrigin.deferred_call_cancel k new e =
    (ap (λ x. x.0.id) (sym (some_injective e)), ap (λ x. x.0.state) (sym (some_injective e)))
deferred_outcome-same b58 slot r before CoinOrigin.deferred_call_storage_refund k new e =
    (ap (λ x. x.0.id) (sym (some_injective e)), ap (λ x. x.0.state) (sym (some_injective e)))
deferred_outcome-same b58 slot r before _ k new e = cc e

-- A call is found only under its own identifier.
abbrev pub CallsNamed : Db → Type 0
CallsNamed db = (id : Text) (m : StoredDeferredCall) → db.deferred_calls id ≡ some m → m.id ≡ id

abbrev pub CallInState : Text → DeferredCallState → Db → Type 0
CallInState id s db = (m : StoredDeferredCall) × (db.deferred_calls id ≡ some m) × (m.state ≡ s)

module _ (id : Text) (s : DeferredCallState) where
  abbrev EndedAs : Db → Type 0
  EndedAs db = CallsNamed db × CallInState id s db

  deferred_to_write-id :
      (prev : Option StoredDeferredCall) (call : StoredDeferredCall)
      → (deferred_to_write prev call).id ≡ call.id
  unfolding deferred_to_write
  deferred_to_write-id none call = refl
  deferred_to_write-id (some p) call = refl

  deferred_to_write-state :
      (prev : Option StoredDeferredCall) (call : StoredDeferredCall)
      → (deferred_to_write prev call).state ≡ call.state
  unfolding deferred_to_write
  deferred_to_write-state none call = refl
  deferred_to_write-state (some p) call = refl

  -- A call is written that does not change the state.
  write_deferred_call-EndedAs :
      (libs : Libs) (call : StoredDeferredCall) (db : Db)
      → (call.id ≡ id → call.state ≡ s)
      → EndedAs db
      → EndedAs (write_deferred_call libs call db).1
  unfolding write_deferred_call
  write_deferred_call-EndedAs libs call db same (named, here) =
      let prev = db.deferred_calls call.id in
      (
        (λ q m had.
            elim (put-cases (bytes_eq call.id q) (deferred_to_write prev call) (db.deferred_calls q)
              had) [
                | inr before ↦ named q m before
                | inl (at, is) ↦
                    ap (λ x. x.id) (sym is)
                    ∙ deferred_to_write-id prev call
                    ∙ bytes_eq→eq call.id q at
              ]),
        put_if (λ m. m.state ≡ s) (bytes_eq call.id id) (deferred_to_write prev call)
            (db.deferred_calls id)
            (λ at. deferred_to_write-state prev call ∙ same (bytes_eq→eq call.id id at)) here,
      )

  deferred_write-EndedAs :
      (libs : Libs) (slot : Slot) (now_ms : ℕ) (r : StoredTransfer) (db : Db)
      (o : Option (StoredDeferredCall × DeferredCallState))
      → call_ended s ≡ true
      → ((k : StoredDeferredCall) (new : DeferredCallState)
          → o ≡ some (k, new)
          → k.id ≡ id
          → k.state ≡ s)
      → EndedAs db
      → EndedAs (deferred_write libs slot now_ms r o db).1
  unfolding deferred_write deferred_updated
  deferred_write-EndedAs libs slot now_ms r db none e same here = here
  deferred_write-EndedAs libs slot now_ms r db (some (k, new)) e same here =
      write_deferred_call-EndedAs libs (deferred_updated slot now_ms r new k) db
        (λ at. ap (λ x. deferred_next x new) (same k new refl at) ∙ deferred_next-ended s new e)
        here

  found_state :
      (slot : Slot) (now_ms : ℕ) (q : Text) (found : Option StoredDeferredCall) (db : Db)
      → db.deferred_calls q ≡ found
      → EndedAs db
      → (or_new found (new_deferred q slot now_ms)).id ≡ id
      → (or_new found (new_deferred q slot now_ms)).state ≡ s
  unfolding new_deferred
  found_state slot now_ms q none db is (_, (m, here, _)) at = cc
  found_state slot now_ms q (some k) db is (named, (m, here, st)) at =
      let same : q ≡ id = sym (named q k is) ∙ at in
      ap (λ x. x.state) (some_injective (sym is ∙ ap db.deferred_calls same ∙ here)) ∙ st

  deferred_round-EndedAs :
      (libs : Libs) (slot : Slot) (now_ms : ℕ) (r : StoredTransfer) (name : Option Text)
      → call_ended s ≡ true
      → Stable EndedAs (deferred_round libs slot now_ms r name)
  unfolding deferred_round read_deferred_call
  deferred_round-EndedAs libs slot now_ms r none e = λ db here. here
  deferred_round-EndedAs libs slot now_ms r (some q) e = λ db here.
      let found = db.deferred_calls q in
      let before = or_new found (new_deferred q slot now_ms) in
      deferred_write-EndedAs libs slot now_ms r db _ e
        (λ k new is at.
          let (ids, states) = deferred_outcome-same libs.b58 slot r before r.origin k new is in
          states ∙ found_state slot now_ms q found db refl here (sym ids ∙ at))
        here

  transfers-EndedAs :
      (libs : Libs) (slot : Slot) (now_ms : ℕ) (rows : List StoredTransfer)
      → call_ended s ≡ true
      → Stable EndedAs (reconcile_deferred_from_transfers libs slot rows now_ms)
  unfolding reconcile_deferred_from_transfers reconcile_deferred
  transfers-EndedAs libs slot now_ms [] e = λ db here. here
  transfers-EndedAs libs slot now_ms (r ∷ rows) e =
      >>=-Stable EndedAs (reconcile_deferred libs slot now_ms r) _
        (deferred_round-EndedAs libs slot now_ms r r.deferred_call_id e)
        λ _. transfers-EndedAs libs slot now_ms rows e

-- Where each deferred call stands under its own identifier, a call that was executed, cancelled or
-- failed is found in the same state after any transfers are reconciled, and each still stands under
-- its own.
pub ended_call_stays :
    (libs : Libs) (slot : Slot) (now_ms : ℕ) (rows : List StoredTransfer) (db : Db) (id : Text)
    (m : StoredDeferredCall)
    → CallsNamed db
    → db.deferred_calls id ≡ some m
    → call_ended m.state ≡ true
    → CallsNamed (reconcile_deferred_from_transfers libs slot rows now_ms db).1
      × CallInState id m.state (reconcile_deferred_from_transfers libs slot rows now_ms db).1
ended_call_stays libs slot now_ms rows db id m named here e =
    transfers-EndedAs id m.state libs slot now_ms rows e db (named, (m, here, refl))
