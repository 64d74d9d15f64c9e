-- ===== src/Ingest/Pool.antt =====
-- massa-indexer/src/ingest.rs: changes of the pool of asynchronous messages.
use massa_history.Base.{ℕ, Option, none, some, List, [], ◌∷◌, if◌then◌else◌}
use massa_history.Bytes.{Bytes}
use massa_history.Ids.{Text, Base58, parse_address}
use massa_history.Model.{Slot}
use massa_history.Model.Transfers.{AsyncMsgState, AsyncTrigger, StoredAsyncMsg}
use massa_history.Backfill.{is_empty}
use massa_history.Reconcile.{ok_of, new_async, or_new}
use massa_history.Patch.Parts.{hex_encode}
use massa_history.Db.{Libs, Done, pure, ◌>>=◌, ◌>>◌}
use massa_history.Db.Calls.{read_async_msg, write_async_msg}
use massa_history.Ingest.Decode.{slot_from_pb, map_option, amount_or_zero}
use massa_history.Ingest.Messages.{
  AsyncMessage, AsyncMessageUpdate, AsyncMessageTrigger, AsyncPoolChangeEntry, AsyncPoolChangeValue,
  AsyncPoolChangeType, PoolMessage, created_message, updated_message, set, keep, SetOrKeep,
}

-- `if x.is_empty() { None } else { Some(x) }`
text_or_none : Text → Option Text
text_or_none text = if is_empty text then none else some text

hex_non_empty : Bytes → Option Text
hex_non_empty bytes = if is_empty bytes then none else some (hex_encode bytes)

trigger_from_pb : AsyncMessageTrigger → AsyncTrigger
trigger_from_pb t = record {
  address = t.address;
  datastore_key_hex = map_option hex_encode t.datastore_key;
}

unfoldable pub async_msg_from_proto : Base58 → Text → AsyncMessage → Slot → ℕ → StoredAsyncMsg
unfolding text_or_none hex_non_empty trigger_from_pb
async_msg_from_proto b58 id msg slot now_ms = record {
  id = id;
  sender = ok_of (parse_address b58 msg.sender);
  destination = ok_of (parse_address b58 msg.destination);
  handler = text_or_none msg.handler;
  coins_nmas = amount_or_zero msg.coins;
  max_gas = msg.max_gas;
  fee_nmas = amount_or_zero msg.fee;
  emission_slot = map_option slot_from_pb msg.emission_slot;
  validity_start = map_option slot_from_pb msg.validity_start;
  validity_end = map_option slot_from_pb msg.validity_end;
  state = AsyncMsgState.pending;
  last_slot = some slot;
  data_hex = hex_non_empty msg.payload;
  trigger = map_option trigger_from_pb msg.trigger;
  can_be_executed = msg.can_be_executed;
  first_seen_ts_ms = now_ms;
  last_updated_ts_ms = now_ms;
}

-- `if let Some(Set(v)) = change { field = read(v) }`
unfoldable pub changed : {A B : Type 0} → (A → B) → SetOrKeep A → B → B
changed read (some (some (set v))) old = read v
changed read (some (some keep)) old = old
changed read (some none) old = old
changed read none old = old

unfoldable pub apply_async_update : Base58 → AsyncMessageUpdate → StoredAsyncMsg → StoredAsyncMsg
unfolding text_or_none hex_non_empty trigger_from_pb
apply_async_update b58 upd existing = record existing {
  emission_slot = changed (λ s. some (slot_from_pb s)) upd.emission_slot existing.emission_slot;
  sender = changed (λ s. ok_of (parse_address b58 s)) upd.sender existing.sender;
  destination = changed (λ s. ok_of (parse_address b58 s)) upd.destination existing.destination;
  handler = changed text_or_none upd.handler existing.handler;
  max_gas = changed (λ n. n) upd.max_gas existing.max_gas;
  fee_nmas = changed (λ n. n) upd.fee existing.fee_nmas;
  coins_nmas = changed (λ n. n) upd.coins existing.coins_nmas;
  validity_start = changed (λ s. some (slot_from_pb s)) upd.validity_start existing.validity_start;
  validity_end = changed (λ s. some (slot_from_pb s)) upd.validity_end existing.validity_end;
  data_hex = changed hex_non_empty upd.payload existing.data_hex;
  trigger = changed (λ t. some (trigger_from_pb t)) upd.trigger existing.trigger;
  can_be_executed = changed (λ b. b) upd.can_be_executed existing.can_be_executed;
}

abbrev seen_at : Slot → ℕ → StoredAsyncMsg → StoredAsyncMsg
seen_at slot now_ms row = record row { last_slot = some slot; last_updated_ts_ms = now_ms }

-- Executed and cancelled stay; the rest was consumed.
unfoldable pub consumed_next : AsyncMsgState → AsyncMsgState
consumed_next AsyncMsgState.executed = AsyncMsgState.executed
consumed_next AsyncMsgState.cancelled = AsyncMsgState.cancelled
consumed_next _ = AsyncMsgState.consumed

unfoldable pub pool_set : Libs → Slot → ℕ → Text → Option PoolMessage → Done
pool_set libs slot now_ms id (some (created_message msg)) =
    write_async_msg libs (async_msg_from_proto libs.b58 id msg slot now_ms)
pool_set libs slot now_ms id (some (updated_message upd)) = pure tt
pool_set libs slot now_ms id none = pure tt

unfoldable pub pool_update : Libs → Slot → ℕ → Text → Option PoolMessage → Done
pool_update libs slot now_ms id (some (updated_message upd)) = do
  found ← read_async_msg id
  write_async_msg libs (
      seen_at slot now_ms (
        apply_async_update libs.b58 upd
          (or_new found (new_async id AsyncMsgState.pending slot now_ms))))
pool_update libs slot now_ms id (some (created_message msg)) = pure tt
pool_update libs slot now_ms id none = pure tt

abbrev consumed_row : StoredAsyncMsg → StoredAsyncMsg
consumed_row row = record row { state = consumed_next row.state }

unfoldable pub pool_delete : Libs → Slot → ℕ → Text → Done
pool_delete libs slot now_ms id = do
  found ← read_async_msg id
  write_async_msg libs (
      seen_at slot now_ms
        (consumed_row (or_new found (new_async id AsyncMsgState.pending slot now_ms))))

unfoldable pub pool_kind :
    Libs → Slot → ℕ → Text → Option AsyncPoolChangeType → Option PoolMessage → Done
unfolding pool_set pool_update pool_delete
pool_kind libs slot now_ms id none message = pure tt
pool_kind libs slot now_ms id (some AsyncPoolChangeType.set_type) message =
    pool_set libs slot now_ms id message
pool_kind libs slot now_ms id (some AsyncPoolChangeType.update_type) message =
    pool_update libs slot now_ms id message
pool_kind libs slot now_ms id (some AsyncPoolChangeType.delete_type) message =
    pool_delete libs slot now_ms id
pool_kind libs slot now_ms id (some AsyncPoolChangeType.unspecified) message = pure tt

unfoldable pub pool_value : Libs → Slot → ℕ → Text → Option AsyncPoolChangeValue → Done
pool_value libs slot now_ms id none = pure tt
pool_value libs slot now_ms id (some val) =
    if is_empty id then pure tt else pool_kind libs slot now_ms id val.kind val.message

unfoldable pub pool_change : Libs → Slot → ℕ → AsyncPoolChangeEntry → Done
unfolding pool_value
pool_change libs slot now_ms entry = pool_value libs slot now_ms entry.async_message_id entry.value

unfoldable pub apply_async_pool_changes : Libs → Slot → List AsyncPoolChangeEntry → ℕ → Done
apply_async_pool_changes libs slot [] now_ms = pure tt
apply_async_pool_changes libs slot (entry ∷ rest) now_ms = do
  pool_change libs slot now_ms entry
  apply_async_pool_changes libs slot rest now_ms
