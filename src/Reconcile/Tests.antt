-- ===== src/Reconcile/Tests.antt =====
-- Reconciliation on a store with one message.
use massa_history.Base.{
  true, false, ◌≡◌, refl, sym, ap, ◌∙◌, none, some, [], ◌∷◌, if◌then◌else◌, inl, inr,
}
use massa_history.Ids.{Text, bytes_eq}
use massa_history.Ids.Equality.{bytes_eq→eq}
use massa_history.Model.{Slot}
use massa_history.Model.Transfers.{
  StoredTransfer, TransferValue, StoredAsyncMsg, AsyncMsgState, async_msg_coins, StoredDeferredCall,
  DeferredCallState, deferred_call_coins,
}
use massa_history.Db.{Db, Libs}
use massa_history.Reconcile.{reconcile_async_from_transfers, reconcile_deferred_from_transfers}
use massa_history.Reconcile.Rows.{put-cases}
use massa_history.Reconcile.Deferred.{CallsNamed, CallInState, ended_call_stays}
use massa_history.Reconcile.LifeCycle.{Named, InState, ended_message_stays}

abbrev libs : Libs
libs = record {
  b58 = record { encode = λ bs. bs; decode = λ s. some s; decode-encode = λ bs _. refl };
  utf8 = λ s. s;
  hex_decode = λ s. some s;
  sha256_json = λ d. [];
}

abbrev slot : Slot
slot = record { period = 4; thread = 1 }

abbrev the_id : Text
the_id = b'm' ∷ []

abbrev blank : StoredAsyncMsg
blank = record {
  id = the_id;
  sender = none;
  destination = none;
  handler = none;
  coins_nmas = 0;
  max_gas = 0;
  fee_nmas = 0;
  emission_slot = none;
  validity_start = none;
  validity_end = none;
  state = AsyncMsgState.cancelled;
  last_slot = some slot;
  data_hex = none;
  trigger = none;
  can_be_executed = false;
  first_seen_ts_ms = 1;
  last_updated_ts_ms = 1;
}

abbrev one_message : Db
one_message = record {
  slots = λ p t. none;
  last_final_slot = none;
  last_candidate_slot = none;
  blocks = λ k. none;
  ops = λ k. none;
  endorsements = λ k. none;
  denunciations = λ k. none;
  sc_events = [];
  transfers = [];
  async_msgs = λ id. if bytes_eq the_id id then some blank else none;
  deferred_calls = λ k. none;
  index = λ c k. false;
  sent = [];
}

abbrev paid : StoredTransfer
paid = record {
  slot = slot;
  index_in_slot = 0;
  id = b't' ∷ [];
  block_id = none;
  block_timestamp_ms = 0;
  from = none;
  to = none;
  value = TransferValue.coins 5;
  origin = async_msg_coins;
  operation_id = none;
  async_msg_id = some the_id;
  deferred_call_id = none;
  denunciation_index = none;
  is_final = true;
  first_seen_ts_ms = 0;
}

named : Named one_message
named id m e = elim (put-cases (bytes_eq the_id id) blank none e) [
  | inl (at, is) ↦ ap (λ x. x.id) (sym is) ∙ bytes_eq→eq the_id id at
  | inr gone ↦ cc gone
]

found : one_message.async_msgs the_id ≡ some blank
unfolding bytes_eq
found = refl

-- The coins that arrive after the cancellation do not make the message an executed one.
ended_message_stays_example :
    Named (reconcile_async_from_transfers libs slot (paid ∷ []) 9 one_message).1
    × InState the_id AsyncMsgState.cancelled
        (reconcile_async_from_transfers libs slot (paid ∷ []) 9 one_message).1
ended_message_stays_example =
    ended_message_stays libs slot 9 (paid ∷ []) one_message the_id blank named found refl

abbrev failed_call : StoredDeferredCall
failed_call = record {
  id = the_id;
  sender = none;
  target_address = none;
  target_function = none;
  parameter_hex = none;
  coins_nmas = 0;
  max_gas = 0;
  target_slot = none;
  registered_slot = none;
  state = DeferredCallState.failed;
  last_slot = some slot;
  first_seen_ts_ms = 1;
  last_updated_ts_ms = 1;
}

abbrev one_call : Db
one_call = record one_message {
  deferred_calls = λ id. if bytes_eq the_id id then some failed_call else none;
}

named_call : CallsNamed one_call
named_call id m e = elim (put-cases (bytes_eq the_id id) failed_call none e) [
  | inl (at, is) ↦ ap (λ x. x.id) (sym is) ∙ bytes_eq→eq the_id id at
  | inr gone ↦ cc gone
]

found_call : one_call.deferred_calls the_id ≡ some failed_call
unfolding bytes_eq
found_call = refl

-- A late payment does not make a failed call an executed one.
abbrev late : StoredTransfer
late = record paid { origin = deferred_call_coins; deferred_call_id = some the_id }

ended_call_stays_example :
    CallsNamed (reconcile_deferred_from_transfers libs slot (late ∷ []) 9 one_call).1
    × CallInState the_id DeferredCallState.failed
        (reconcile_deferred_from_transfers libs slot (late ∷ []) 9 one_call).1
ended_call_stays_example =
    ended_call_stays libs slot 9 (late ∷ []) one_call the_id failed_call named_call found_call refl
