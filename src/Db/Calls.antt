-- ===== src/Db/Calls.antt =====
-- massa-indexer/src/db.rs: asynchronous messages and deferred calls, whose index keys follow the
-- row. A row keeps the time of its first sighting.
use massa_history.Base.{
  ℕ, Bool, true, false, ◌&&◌, Option, none, some, ◌∷◌, ◌++◌, ◌==◌, if◌then◌else◌,
}
use massa_history.Base.Result.{ok}
use massa_history.Bytes.{Bytes}
use massa_history.Ids.{Text, Address, bytes_eq}
use massa_history.Keys.Index.{idx_by_rslot_id}
use massa_history.Model.{Slot}
use massa_history.Model.Transfers.{StoredAsyncMsg, StoredDeferredCall}
use massa_history.Db.{
  Libs, Action, Done, Index, Cf, async_by_sender, async_by_dest, async_by_last_slot,
  deferred_by_sender, deferred_by_target, deferred_by_last_slot, write, put, put_key, delete_key,
}

idx_async_sender_key : Bytes → Bytes → Bytes
idx_async_sender_key sender_key id = sender_key ++ (0 ∷ id)

abbrev same_addr : Option Address → Option Address → Bool
same_addr none none = true
same_addr none (some b) = false
same_addr (some a) none = false
same_addr (some a) (some b) = bytes_eq a.key b.key

abbrev same_slot : Option Slot → Option Slot → Bool
same_slot none none = true
same_slot none (some b) = false
same_slot (some a) none = false
same_slot (some a) (some b) = a.period == b.period && a.thread == b.thread

put_addr : Cf → Bytes → Option Address → Index → Index
put_addr cf id none index = index
put_addr cf id (some a) index = put_key cf (idx_async_sender_key a.key id) index

delete_addr : Cf → Bytes → Option Address → Index → Index
delete_addr cf id none index = index
delete_addr cf id (some a) index = delete_key cf (idx_async_sender_key a.key id) index

put_last : Cf → Bytes → Option Slot → Index → Index
put_last cf id none index = index
put_last cf id (some s) index = put_key cf (idx_by_rslot_id s.period s.thread id) index

delete_last : Cf → Bytes → Option Slot → Index → Index
delete_last cf id none index = index
delete_last cf id (some s) index = delete_key cf (idx_by_rslot_id s.period s.thread id) index

-- The keys that the new row no longer has are deleted.
stale_addr : Cf → Bytes → Option Address → Option Address → Index → Index
stale_addr cf id old now index = if same_addr old now then index else delete_addr cf id old index

stale_last : Cf → Bytes → Option Slot → Option Slot → Index → Index
stale_last cf id old now index = if same_slot old now then index else delete_last cf id old index

-- A first sighting of 0 counts as none.
abbrev first_seen : ℕ → ℕ → ℕ
first_seen old now = if old == 0 then now else old

unfoldable pub async_to_write : Option StoredAsyncMsg → StoredAsyncMsg → StoredAsyncMsg
async_to_write none msg = msg
async_to_write (some p) msg = record msg {
  first_seen_ts_ms = first_seen p.first_seen_ts_ms msg.first_seen_ts_ms;
}

async_stale : Bytes → Option StoredAsyncMsg → StoredAsyncMsg → Index → Index
async_stale id none msg index = index
async_stale id (some p) msg index = stale_last async_by_last_slot id p.last_slot msg.last_slot (
    stale_addr async_by_dest id p.destination msg.destination
      (stale_addr async_by_sender id p.sender msg.sender index))

async_keys : Bytes → StoredAsyncMsg → Index → Index
async_keys id msg index =
    put_last async_by_last_slot id msg.last_slot
      (put_addr async_by_dest id msg.destination (put_addr async_by_sender id msg.sender index))

put_async : Bytes → Option StoredAsyncMsg → StoredAsyncMsg → Done
put_async id prev msg = write λ db. record db {
  async_msgs = put msg.id (async_to_write prev msg) db.async_msgs;
  index = async_keys id msg (async_stale id prev msg db.index);
}

unfoldable pub write_async_msg : Libs → StoredAsyncMsg → Done
unfolding put_async async_to_write async_stale async_keys put_addr delete_addr put_last delete_last
    stale_addr stale_last idx_async_sender_key
write_async_msg libs msg db = put_async (libs.utf8 msg.id) (db.async_msgs msg.id) msg db

unfoldable pub read_async_msg : Text → Action (Option StoredAsyncMsg)
read_async_msg id db = (ok (db.async_msgs id), db)

unfoldable pub deferred_to_write :
    Option StoredDeferredCall → StoredDeferredCall → StoredDeferredCall
deferred_to_write none call = call
deferred_to_write (some p) call = record call {
  first_seen_ts_ms = first_seen p.first_seen_ts_ms call.first_seen_ts_ms;
}

deferred_stale : Bytes → Option StoredDeferredCall → StoredDeferredCall → Index → Index
deferred_stale id none call index = index
deferred_stale id (some p) call index =
    stale_last deferred_by_last_slot id p.last_slot call.last_slot (
      stale_addr deferred_by_target id p.target_address call.target_address
        (stale_addr deferred_by_sender id p.sender call.sender index))

deferred_keys : Bytes → StoredDeferredCall → Index → Index
deferred_keys id call index = put_last deferred_by_last_slot id call.last_slot (
    put_addr deferred_by_target id call.target_address
      (put_addr deferred_by_sender id call.sender index))

put_deferred : Bytes → Option StoredDeferredCall → StoredDeferredCall → Done
put_deferred id prev call = write λ db. record db {
  deferred_calls = put call.id (deferred_to_write prev call) db.deferred_calls;
  index = deferred_keys id call (deferred_stale id prev call db.index);
}

unfoldable pub write_deferred_call : Libs → StoredDeferredCall → Done
unfolding put_deferred deferred_to_write deferred_stale deferred_keys put_addr delete_addr put_last
    delete_last stale_addr stale_last idx_async_sender_key
write_deferred_call libs call db =
    put_deferred (libs.utf8 call.id) (db.deferred_calls call.id) call db

unfoldable pub read_deferred_call : Text → Action (Option StoredDeferredCall)
read_deferred_call id db = (ok (db.deferred_calls id), db)
