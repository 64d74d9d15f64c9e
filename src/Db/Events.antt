-- ===== src/Db/Events.antt =====
-- massa-indexer/src/db.rs: the events and transfers of a slot, with their index keys.
use massa_history.Base.{ℕ, Bool, not, ◌&&◌, Option, none, some, List, [], ◌∷◌, ◌==◌, if◌then◌else◌}
use massa_history.Base.Result.{ok, err}
use massa_history.Bytes.{Bytes}
use massa_history.Ids.{
  Text, Base58, Address, OperationId, block, operation, as_bytes, parse, parse_address,
}
use massa_history.Keys.Index.{
  idx_event_by_addr, idx_event_by_op, idx_transfer_by_addr, idx_transfer_by_op,
  idx_transfer_by_block, transfer_tag_from, transfer_tag_to,
}
use massa_history.Model.{Slot}
use massa_history.Model.Operations.{StoredScEvent}
use massa_history.Model.Transfers.{StoredTransfer}
use massa_history.Registry.{retain}
use massa_history.Db.{
  Done, Index, Cf, sc_event_by_emitter, sc_event_by_caller, sc_event_by_op, transfer_by_addr,
  transfer_by_op, transfer_by_block, write, put_key, delete_key,
}

-- A change of an index at one key.
abbrev KeyChange : Type 0
KeyChange = Cf → Bytes → Index → Index

abbrev pub at_slot : ℕ → ℕ → Slot → Bool
at_slot period thread s = s.period == period && s.thread == thread

abbrev pub same_place : Slot → ℕ → Slot → ℕ → Bool
same_place s i r j = at_slot r.period r.thread s && i == j

addr_keys : KeyChange → Cf → Slot → ℕ → List Address → Index → Index
addr_keys change cf slot i [] index = index
addr_keys change cf slot i (a ∷ rest) index =
    addr_keys change cf slot i rest
      (change cf (idx_event_by_addr a.key slot.period slot.thread i) index)

op_key : KeyChange → Slot → ℕ → Option OperationId → Index → Index
op_key change slot i none index = index
op_key change slot i (some op) index =
    change sc_event_by_op (idx_event_by_op (as_bytes op) slot.period slot.thread i) index

-- The index keys of an event: one for each emitter and caller, and one for its operation.
unfoldable pub event_keys : KeyChange → StoredScEvent → Index → Index
unfolding addr_keys op_key
event_keys change ev index = op_key change ev.slot ev.index_in_slot ev.op_id (
    addr_keys change sc_event_by_caller ev.slot ev.index_in_slot ev.caller_addrs
      (addr_keys change sc_event_by_emitter ev.slot ev.index_in_slot ev.emitter_addrs index))

-- A row takes the place of the one under its key.
unfoldable pub write_sc_event : StoredScEvent → Done
write_sc_event ev = write λ db. record db {
  sc_events =
      ev
      ∷ retain (λ old. not (same_place old.slot old.index_in_slot ev.slot ev.index_in_slot))
          db.sc_events;
  index = event_keys put_key ev db.index;
}

delete_events : ℕ → ℕ → List StoredScEvent → Index → Index
delete_events period thread [] index = index
delete_events period thread (ev ∷ rest) index =
    delete_events period thread rest
      (if at_slot period thread ev.slot then event_keys delete_key ev index else index)

unfoldable pub clear_sc_events_for_slot : ℕ → ℕ → Done
unfolding delete_events
clear_sc_events_for_slot period thread = write λ db. record db {
  sc_events = retain (λ ev. not (at_slot period thread ev.slot)) db.sc_events;
  index = delete_events period thread db.sc_events db.index;
}

module _ (b58 : Base58) where
  transfer_addr_key : KeyChange → StoredTransfer → ℕ → Option Text → Index → Index
  transfer_addr_key change t tag none index = index
  transfer_addr_key change t tag (some text) index = elim (parse_address b58 text) [
    | err why ↦ index
    | ok a ↦
        change transfer_by_addr
          (idx_transfer_by_addr a.key t.slot.period t.slot.thread t.index_in_slot tag) index
  ]

  transfer_op_key : KeyChange → StoredTransfer → Option Text → Index → Index
  transfer_op_key change t none index = index
  transfer_op_key change t (some text) index = elim (parse b58 operation text) [
    | err why ↦ index
    | ok o ↦
        change transfer_by_op
          (idx_transfer_by_op (as_bytes o) t.slot.period t.slot.thread t.index_in_slot) index
  ]

  transfer_block_key : KeyChange → StoredTransfer → Option Text → Index → Index
  transfer_block_key change t none index = index
  transfer_block_key change t (some text) index = elim (parse b58 block text) [
    | err why ↦ index
    | ok b ↦
        change transfer_by_block
          (idx_transfer_by_block (as_bytes b) t.slot.period t.slot.thread t.index_in_slot) index
  ]

  -- A name that does not parse has no key.
  unfoldable pub transfer_keys : KeyChange → StoredTransfer → Index → Index
  unfolding transfer_addr_key transfer_op_key transfer_block_key
  transfer_keys change t index = transfer_block_key change t t.block_id (
      transfer_op_key change t t.operation_id (
        transfer_addr_key change t transfer_tag_to t.to
          (transfer_addr_key change t transfer_tag_from t.from index)))

  unfoldable pub write_transfer : StoredTransfer → Done
  write_transfer t = write λ db. record db {
    transfers =
        t
        ∷ retain (λ old. not (same_place old.slot old.index_in_slot t.slot t.index_in_slot))
            db.transfers;
    index = transfer_keys put_key t db.index;
  }

  delete_transfers : ℕ → ℕ → List StoredTransfer → Index → Index
  delete_transfers period thread [] index = index
  delete_transfers period thread (t ∷ rest) index =
      delete_transfers period thread rest
        (if at_slot period thread t.slot then transfer_keys delete_key t index else index)

  unfoldable pub clear_transfers_for_slot : ℕ → ℕ → Done
  unfolding delete_transfers
  clear_transfers_for_slot period thread = write λ db. record db {
    transfers = retain (λ t. not (at_slot period thread t.slot)) db.transfers;
    index = delete_transfers period thread db.transfers db.index;
  }
