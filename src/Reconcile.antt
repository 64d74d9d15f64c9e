-- ===== src/Reconcile.antt =====
-- massa-indexer/src/ingest.rs: `reconcile_async_from_transfers` and
-- `reconcile_deferred_from_transfers`, which derive the life cycles of asynchronous messages and of
-- deferred calls from the transfers of a slot.
pub mod Rows
pub mod LifeCycle
pub mod Deferred
mod Tests
use massa_history.Base.{ℕ, false, Option, none, some, List, [], ◌∷◌, ltb, ◌==◌, if◌then◌else◌}
use massa_history.Base.Result.{Result, ok, err}
use massa_history.Ids.{Text, Base58, Address, parse_address}
use massa_history.Model.{Slot}
use massa_history.Model.Transfers.{
  TransferValue, CoinOrigin, deferred_call_register, deferred_call_coins, deferred_call_fail,
  deferred_call_cancel, deferred_call_storage_refund, async_msg_coins, async_msg_cancel,
  StoredTransfer, AsyncMsgState, StoredAsyncMsg, DeferredCallState, StoredDeferredCall,
}
use massa_history.Db.{Libs, Done, pure, ◌>>=◌, ◌>>◌}
use massa_history.Db.Calls.{
  read_async_msg, write_async_msg, read_deferred_call, write_deferred_call,
}

-- `.ok()`
abbrev pub ok_of : {A E : Type 0} → Result E A → Option A
ok_of (ok a) = some a
ok_of (err why) = none

unfoldable pub parsed : Base58 → Option Text → Option Address
parsed b58 none = none
parsed b58 (some text) = ok_of (parse_address b58 text)

-- `if x.is_none() { x = y }`
abbrev pub or_else : {A : Type 0} → Option A → Option A → Option A
or_else (some a) other = some a
or_else none other = other

-- What an origin says of a message; `none` goes on with the next transfer.
abbrev pub async_outcome : CoinOrigin → Option AsyncMsgState
async_outcome async_msg_coins = some AsyncMsgState.executed
async_outcome async_msg_cancel = some AsyncMsgState.cancelled
async_outcome _ = none

unfoldable pub new_async : Text → AsyncMsgState → Slot → ℕ → StoredAsyncMsg
new_async id state slot now_ms = record {
  id = id;
  sender = none;
  destination = none;
  handler = none;
  coins_nmas = 0;
  max_gas = 0;
  fee_nmas = 0;
  emission_slot = none;
  validity_start = none;
  validity_end = none;
  state = state;
  last_slot = some slot;
  data_hex = none;
  trigger = none;
  can_be_executed = false;
  first_seen_ts_ms = now_ms;
  last_updated_ts_ms = now_ms;
}

-- A message that was executed or cancelled stays so.
unfoldable pub async_next : AsyncMsgState → AsyncMsgState → AsyncMsgState
async_next AsyncMsgState.pending new_state = new_state
async_next AsyncMsgState.consumed new_state = new_state
async_next AsyncMsgState.executed new_state = AsyncMsgState.executed
async_next AsyncMsgState.cancelled new_state = AsyncMsgState.cancelled

abbrev coins_if_zero : TransferValue → ℕ → ℕ
coins_if_zero (TransferValue.coins nmas) had = if had == 0 then nmas else had
coins_if_zero _ had = had

unfoldable pub async_updated :
    Base58 → Slot → ℕ → StoredTransfer → AsyncMsgState → StoredAsyncMsg → StoredAsyncMsg
async_updated b58 slot now_ms r new_state existing = record existing {
  state = async_next existing.state new_state;
  sender = or_else existing.sender (parsed b58 r.from);
  destination = or_else existing.destination (parsed b58 r.to);
  coins_nmas = coins_if_zero r.value existing.coins_nmas;
  last_slot = some slot;
  last_updated_ts_ms = now_ms;
}

abbrev pub or_new : {A : Type 0} → Option A → A → A
or_new none fresh = fresh
or_new (some a) fresh = a

unfoldable pub async_transfer : Libs → Slot → ℕ → StoredTransfer → Text → AsyncMsgState → Done
async_transfer libs slot now_ms r id new_state = do
  found ← read_async_msg id
  write_async_msg libs (
      async_updated libs.b58 slot now_ms r new_state
        (or_new found (new_async id new_state slot now_ms)))

-- A round of the loop.
unfoldable pub async_round :
    Libs → Slot → ℕ → StoredTransfer → Option Text → Option AsyncMsgState → Done
unfolding async_transfer
async_round libs slot now_ms r none outcome = pure tt
async_round libs slot now_ms r (some id) none = pure tt
async_round libs slot now_ms r (some id) (some new_state) =
    async_transfer libs slot now_ms r id new_state

unfoldable pub reconcile_async : Libs → Slot → ℕ → StoredTransfer → Done
unfolding async_round
reconcile_async libs slot now_ms r =
    async_round libs slot now_ms r r.async_msg_id (async_outcome r.origin)

unfoldable pub reconcile_async_from_transfers : Libs → Slot → List StoredTransfer → ℕ → Done
reconcile_async_from_transfers libs slot [] now_ms = pure tt
reconcile_async_from_transfers libs slot (r ∷ rows) now_ms = do
  reconcile_async libs slot now_ms r
  reconcile_async_from_transfers libs slot rows now_ms

unfoldable pub new_deferred : Text → Slot → ℕ → StoredDeferredCall
new_deferred id slot now_ms = record {
  id = id;
  sender = none;
  target_address = none;
  target_function = none;
  parameter_hex = none;
  coins_nmas = 0;
  max_gas = 0;
  target_slot = none;
  registered_slot = none;
  state = DeferredCallState.registered;
  last_slot = some slot;
  first_seen_ts_ms = now_ms;
  last_updated_ts_ms = now_ms;
}

-- The row with what the origin fills in, and the state that the origin stands for.
abbrev pub deferred_outcome :
    Base58
    → Slot
    → StoredTransfer
    → StoredDeferredCall
    → CoinOrigin
    → Option (StoredDeferredCall × DeferredCallState)
deferred_outcome b58 slot r existing deferred_call_register = some (
  record existing {
    registered_slot = or_else existing.registered_slot (some slot);
    sender = or_else existing.sender (parsed b58 r.from);
  },
  DeferredCallState.registered,
)
deferred_outcome b58 slot r existing deferred_call_coins = some (
  record existing {
    target_slot = or_else existing.target_slot (some slot);
    target_address = or_else existing.target_address (parsed b58 r.to);
  },
  DeferredCallState.executed,
)
deferred_outcome b58 slot r existing deferred_call_fail = some (existing, DeferredCallState.failed)
deferred_outcome b58 slot r existing deferred_call_cancel =
    some (existing, DeferredCallState.cancelled)
deferred_outcome b58 slot r existing deferred_call_storage_refund = some (existing, existing.state)
deferred_outcome b58 slot r existing _ = none

-- A call that ended stays as it ended.
unfoldable pub deferred_next : DeferredCallState → DeferredCallState → DeferredCallState
deferred_next DeferredCallState.registered new_state = new_state
deferred_next DeferredCallState.executed new_state = DeferredCallState.executed
deferred_next DeferredCallState.failed new_state = DeferredCallState.failed
deferred_next DeferredCallState.cancelled new_state = DeferredCallState.cancelled

abbrev coins_if_more : TransferValue → ℕ → ℕ
coins_if_more (TransferValue.coins nmas) had = if ltb had nmas then nmas else had
coins_if_more _ had = had

unfoldable pub deferred_updated :
    Slot → ℕ → StoredTransfer → DeferredCallState → StoredDeferredCall → StoredDeferredCall
deferred_updated slot now_ms r new_state existing = record existing {
  coins_nmas = coins_if_more r.value existing.coins_nmas;
  state = deferred_next existing.state new_state;
  last_slot = some slot;
  last_updated_ts_ms = now_ms;
}

unfoldable pub deferred_write :
    Libs → Slot → ℕ → StoredTransfer → Option (StoredDeferredCall × DeferredCallState) → Done
deferred_write libs slot now_ms r none = pure tt
deferred_write libs slot now_ms r (some (existing, new_state)) =
    write_deferred_call libs (deferred_updated slot now_ms r new_state existing)

unfoldable pub deferred_round : Libs → Slot → ℕ → StoredTransfer → Option Text → Done
unfolding deferred_write
deferred_round libs slot now_ms r none = pure tt
deferred_round libs slot now_ms r (some id) = do
  found ← read_deferred_call id
  deferred_write libs slot now_ms r
      (deferred_outcome libs.b58 slot r (or_new found (new_deferred id slot now_ms)) r.origin)

unfoldable pub reconcile_deferred : Libs → Slot → ℕ → StoredTransfer → Done
unfolding deferred_round
reconcile_deferred libs slot now_ms r = deferred_round libs slot now_ms r r.deferred_call_id

unfoldable pub reconcile_deferred_from_transfers : Libs → Slot → List StoredTransfer → ℕ → Done
reconcile_deferred_from_transfers libs slot [] now_ms = pure tt
reconcile_deferred_from_transfers libs slot (r ∷ rows) now_ms = do
  reconcile_deferred libs slot now_ms r
  reconcile_deferred_from_transfers libs slot rows now_ms
