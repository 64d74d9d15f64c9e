-- ===== src/Db.antt =====
-- massa-indexer/src/db.rs: the rows and the keys of the secondary indexes, as one state. A column
-- family of rows is a map from keys, an index the set of the keys that stand in it, and a
-- `WriteBatch` is one change of the state. RocksDB's own failures are left out; a row that was
-- read is encoded again without error. `utf8` and `hex_decode` are what Rust's standard library and
-- the crate hex do, and `sha256_json` stands for sha2 on serde_json's text.
pub mod Events
pub mod Calls
pub mod Frame
pub mod Total
use massa_history.Base.{
  ℕ, Bool, true, false, ◌&&◌, Option, none, some, List, [], ◌∷◌, ◌++◌, ◌==◌, if◌then◌else◌, ◌≡◌,
}
use massa_history.Base.Result.{Result, ok, err}
use massa_history.Error.{Error, other}
use massa_history.Bytes.{Bytes, IsBytes}
use massa_history.Ids.{
  Text, Base58, BlockId, OperationId, EndorsementId, block, operation, endorsement, as_bytes,
  bytes_eq, parse, IdError,
}
use massa_history.Keys.Slot.{slot_key}
use massa_history.Keys.Index.{
  idx_block_by_creator, idx_op_by_creator, idx_op_by_target, idx_denunciation_by_addr,
  idx_denunciation_recent,
}
use massa_history.Model.{Slot, SlotState}
use massa_history.Model.Rows.{
  StoredBlock, StoredEndorsement, StoredDenunciation, StoredDenunciationEntry,
}
use massa_history.Model.Operations.{StoredOperation, OperationInclusion, StoredScEvent}
use massa_history.Model.Transfers.{StoredTransfer, StoredAsyncMsg, StoredDeferredCall}

-- What the program takes from other libraries.
pub record Libs : Type 0 where
  pub b58 : Base58
  pub utf8 : Text → Bytes
  pub hex_decode : Text → Option Bytes
  pub sha256_json : StoredDenunciation → Bytes

-- The index column families.
pub data Cf : Type 0 where
  block_by_creator slot_candidate_block endorsement_by_creator op_by_creator op_by_target : Cf
  sc_event_by_emitter sc_event_by_caller sc_event_by_op denunciation_by_addr : Cf
  denunciation_recent transfer_by_addr transfer_by_op transfer_by_block async_by_sender : Cf
  async_by_dest async_by_last_slot deferred_by_sender deferred_by_target : Cf
  deferred_by_last_slot : Cf

cf_number : Cf → ℕ
cf_number block_by_creator = 0
cf_number slot_candidate_block = 1
cf_number endorsement_by_creator = 2
cf_number op_by_creator = 3
cf_number op_by_target = 4
cf_number sc_event_by_emitter = 5
cf_number sc_event_by_caller = 6
cf_number sc_event_by_op = 7
cf_number denunciation_by_addr = 8
cf_number denunciation_recent = 9
cf_number transfer_by_addr = 10
cf_number transfer_by_op = 11
cf_number transfer_by_block = 12
cf_number async_by_sender = 13
cf_number async_by_dest = 14
cf_number async_by_last_slot = 15
cf_number deferred_by_sender = 16
cf_number deferred_by_target = 17
cf_number deferred_by_last_slot = 18

-- The slot events that subscribers see.
pub data SlotSseEvent : Type 0 where
  slot_updated slot_final : SlotState → SlotSseEvent
  block_seen : StoredBlock → SlotSseEvent
  op_seen : StoredOperation → SlotSseEvent
  event_seen : StoredScEvent → SlotSseEvent
  heartbeat : (server_time_ms : ℕ) → SlotSseEvent

abbrev pub Index : Type 0
Index = Cf → Bytes → Bool

pub record Db : Type 0 where
  pub slots : ℕ → ℕ → Option SlotState
  pub last_final_slot : Option Slot
  pub last_candidate_slot : Option Slot
  pub blocks : Bytes → Option StoredBlock
  pub ops : Bytes → Option StoredOperation
  pub endorsements : Bytes → Option StoredEndorsement
  pub denunciations : Bytes → Option StoredDenunciationEntry
  pub sc_events : List StoredScEvent
  pub transfers : List StoredTransfer
  pub async_msgs : Text → Option StoredAsyncMsg
  pub deferred_calls : Text → Option StoredDeferredCall
  pub index : Index
  pub sent : List SlotSseEvent

-- A run ends with a result (the text of an error is left out) and the state; what was written before an error stays written.
abbrev pub Action : Type 0 → Type 0
Action A = Db → Result Error A × Db

abbrev pub pure : {A : Type 0} → A → Action A
pure a db = (ok a, db)

abbrev pub fail : {A : Type 0} → Text → Action A
fail why db = (err (other why), db)

abbrev pub continue : {A B : Type 0} → Result Error A → (A → Action B) → Action B
continue (ok a) next now = next a now
continue (err why) next now = (err why, now)

infixl 5 ◌>>=◌ ◌>>◌
abbrev pub ◌>>=◌ : {A B : Type 0} → Action A → (A → Action B) → Action B
◌>>=◌ act next db = let (r, now) = act db in continue r next now

abbrev pub ◌>>◌ : {A B : Type 0} → Action A → Action B → Action B
first >> second = first >>= λ _. second

abbrev pub Done : Type 0
Done = Action (Unit {0})

abbrev pub write : (Db → Db) → Done
write f db = (ok tt, f db)

abbrev pub put {ℓ} : {V : Type ℓ} → Bytes → V → (Bytes → Option V) → Bytes → Option V
put k v rows q = if bytes_eq k q then some v else rows q

-- `batch.put_cf` and `batch.delete_cf` on an index.
unfoldable pub put_key : Cf → Bytes → Index → Index
unfolding cf_number
put_key cf k index c q = if cf_number cf == cf_number c && bytes_eq k q then true else index c q

unfoldable pub delete_key : Cf → Bytes → Index → Index
unfolding cf_number
delete_key cf k index c q = if cf_number cf == cf_number c && bytes_eq k q then false else index c q

unfoldable pub read_slot : ℕ → ℕ → Action (Option SlotState)
read_slot period thread db = (ok (db.slots period thread), db)

unfoldable pub write_slot : SlotState → Done
write_slot row = write λ db. record db {
  slots = λ p t. if row.slot.period == p && row.slot.thread == t then some row else db.slots p t;
}

unfoldable pub read_last_final_slot : Action (Option Slot)
read_last_final_slot db = (ok db.last_final_slot, db)

unfoldable pub update_last_final_slot : Slot → Done
update_last_final_slot slot = write λ db. record db { last_final_slot = some slot }

unfoldable pub update_last_candidate_slot : Slot → Done
update_last_candidate_slot slot = write λ db. record db { last_candidate_slot = some slot }

unfoldable pub broadcast : SlotSseEvent → Done
broadcast event = write λ db. record db { sent = db.sent ++ event ∷ [] }

unfoldable pub read_block : BlockId → Action (Option StoredBlock)
read_block id db = (ok (db.blocks (as_bytes id)), db)

-- The index keys of a block.
abbrev pub creator_key : StoredBlock → Bytes
creator_key b = idx_block_by_creator b.creator.key b.slot.period b.slot.thread (as_bytes b.id)

abbrev pub candidate_key : StoredBlock → Bytes
candidate_key b = slot_key b.slot.period b.slot.thread ++ as_bytes b.id

unfoldable pub write_block : StoredBlock → Done
write_block b = write λ db. record db {
  blocks = put (as_bytes b.id) b db.blocks;
  index =
      put_key slot_candidate_block (candidate_key b)
        (put_key block_by_creator (creator_key b) db.index);
}

unfoldable pub read_op : OperationId → Action (Option StoredOperation)
read_op id db = (ok (db.ops (as_bytes id)), db)

op_target_key : StoredOperation → OperationInclusion → Index → Index
op_target_key op first index = elim op.target [
  | none ↦ index
  | some target ↦
      put_key op_by_target
        (idx_op_by_target target.key first.slot.period first.slot.thread (as_bytes op.id)) index
]

op_keys : StoredOperation → List OperationInclusion → Index → Index
op_keys op [] index = index
op_keys op (first ∷ later) index = op_target_key op first (
    put_key op_by_creator
      (idx_op_by_creator op.creator.key first.slot.period first.slot.thread (as_bytes op.id)) index)

unfoldable pub write_op : StoredOperation → Done
unfolding op_keys op_target_key
write_op op = write λ db. record db {
  ops = put (as_bytes op.id) op db.ops;
  index = op_keys op op.inclusions db.index;
}

-- First write wins.
keep_or_write_endorsement : StoredEndorsement → EndorsementId → Option StoredEndorsement → Done
keep_or_write_endorsement e id (some old) = pure tt
keep_or_write_endorsement e id none = write λ db. record db {
  endorsements = put (as_bytes id) e db.endorsements;
  index =
      put_key endorsement_by_creator
        (idx_block_by_creator e.content_creator_address.key e.slot.period e.slot.thread
          (as_bytes id))
        db.index;
}

endorsement_at : StoredEndorsement → Result IdError EndorsementId → Done
endorsement_at e (err why) db = fail [] db
endorsement_at e (ok id) db = keep_or_write_endorsement e id (db.endorsements (as_bytes id)) db

unfoldable pub write_endorsement : Libs → StoredEndorsement → Done
unfolding endorsement_at keep_or_write_endorsement
write_endorsement libs e = endorsement_at e (parse libs.b58 endorsement e.id)

denunciation_addr_key : StoredDenunciationEntry → Bytes → Index → Index
denunciation_addr_key d hash_key index = elim d.denounced_addr [
  | none ↦ index
  | some addr ↦
      put_key denunciation_by_addr
        (idx_denunciation_by_addr addr.key d.slot.period d.slot.thread hash_key) index
]

-- The earlier row stays, with the including block if it had none.
merged_denunciation : StoredDenunciationEntry → StoredDenunciationEntry → StoredDenunciationEntry
merged_denunciation prev d = elim prev.included_block_id [
  | some b ↦ prev
  | none ↦ elim d.included_block_id [
    | none ↦ prev
    | some b ↦ record prev { included_block_id = some b; included_slot = d.included_slot }
  ]
]

put_denunciation : StoredDenunciationEntry → Bytes → Option StoredDenunciationEntry → Done
put_denunciation d hash_key (some prev) =
    write
      λ db. record db { denunciations = put hash_key (merged_denunciation prev d) db.denunciations }
put_denunciation d hash_key none = write λ db. record db {
  denunciations = put hash_key d db.denunciations;
  index =
      put_key denunciation_recent (idx_denunciation_recent d.slot.period d.slot.thread hash_key)
        (denunciation_addr_key d hash_key db.index);
}

denunciation_at : StoredDenunciationEntry → Option Bytes → Done
denunciation_at d none db = fail [] db
denunciation_at d (some hash_key) db = put_denunciation d hash_key (db.denunciations hash_key) db

unfoldable pub write_denunciation : Libs → StoredDenunciationEntry → Done
unfolding denunciation_at put_denunciation merged_denunciation denunciation_addr_key
write_denunciation libs d = denunciation_at d (libs.hex_decode d.hash)
