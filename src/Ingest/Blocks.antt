-- ===== src/Ingest/Blocks.antt =====
-- massa-indexer/src/ingest.rs: `handle_block`, in the stages that the source goes through.
use massa_history.Base.{
  ℕ, Bool, true, false, ◌&&◌, ◌||◌, Option, none, some, List, [], ◌∷◌, ◌++◌, ◌==◌, map,
  if◌then◌else◌,
}
use massa_history.Base.Result.{Result, ok, err}
use massa_history.Ids.{
  Text, Base58, Address, BlockId, OperationId, IdError, block, operation, parse, parse_address,
  id_eq,
}
use massa_history.Model.{Slot, SlotState, SlotStatus, BlockStatus}
use massa_history.Model.Rows.{StoredBlock, StoredEndorsement, StoredDenunciation}
use massa_history.Model.Operations.{StoredOperation, OperationInclusion}
use massa_history.Arbiter.{option_eq}
use massa_history.Backfill.{is_empty}
use massa_history.Db.{
  Libs, Action, Done, pure, fail, ◌>>=◌, ◌>>◌, read_slot, write_slot, read_block, write_block,
  read_op, write_op, write_endorsement, write_denunciation, broadcast, slot_updated, block_seen,
  op_seen,
}
use massa_history.Patch.{or_fresh, with_candidate}
use massa_history.Patch.Parts.{denunciation_entry, forgiven, ensure_parent_stub}
use massa_history.Patch.Apply.{is_final}
use massa_history.Ingest.Messages.{
  Operation, SignedOperation, FilledOperationEntry, BlockHeader, SignedBlockHeader, FilledBlock,
  Wire,
}
use massa_history.Ingest.Decode.{
  slot_from_pb, classify_op, decode_endorsements, decode_denunciation, amount_or_zero,
}

-- A header that names its block, its slot and its creator.
pub record Opened : Type 0 where
  pub header : SignedBlockHeader
  pub content : BlockHeader
  pub block_id : BlockId
  pub slot : Slot
  pub creator : Address

-- `ok_or_else(|| Error::other(..))?`
abbrev pub required : {A : Type 0} → Option A → Action A
required none = fail []
required (some a) = pure a

-- `.map_err(Error::other)?`
abbrev pub checked : {A : Type 0} → Result IdError A → Action A
checked (ok a) = pure a
checked (err why) = fail []

unfoldable pub open_header : Base58 → FilledBlock → Action Opened
open_header b58 fb = do
  header ← required fb.header
  content ← required header.content
  block_id ←
      if is_empty header.secure_hash then fail [] else checked (parse b58 block header.secure_hash)
  slot ← required content.slot
  creator ← checked (parse_address b58 header.content_creator_address)
  pure (record {
    header = header;
    content = content;
    block_id = block_id;
    slot = slot_from_pb slot;
    creator = creator;
  })

-- `filter_map(|p| BlockId::parse(p).ok())`
unfoldable pub parsed_blocks : Base58 → List Text → List BlockId
parsed_blocks b58 [] = []
parsed_blocks b58 (s ∷ rest) =
    let later = parsed_blocks b58 rest in
    elim (parse b58 block s) [ ok b ↦ b ∷ later | err why ↦ later ]

unfoldable pub write_endorsements : Libs → List StoredEndorsement → Done
write_endorsements libs [] = pure tt
write_endorsements libs (e ∷ rest) = do write_endorsement libs e; write_endorsements libs rest

-- An error is logged and forgotten. The including slot is the block's.
unfoldable pub write_denunciations : Libs → ℕ → Opened → List StoredDenunciation → Done
write_denunciations libs now_ms o [] = pure tt
write_denunciations libs now_ms o (d ∷ rest) = do
  forgiven (
      write_denunciation libs
        (record (denunciation_entry libs now_ms o.block_id d) { included_slot = some o.slot }))
  write_denunciations libs now_ms o rest

abbrev op_name : FilledOperationEntry → SignedOperation → Text
op_name entry signed =
    if is_empty entry.operation_id then signed.secure_hash else entry.operation_id

unfoldable pub new_op :
    Wire → ℕ → Slot → OperationId → SignedOperation → Operation → Address → StoredOperation
new_op wire now_ms slot op_id signed content creator =
    let c = classify_op wire.libs.b58 content.op in
    record {
      id = op_id;
      creator = creator;
      target = c.target;
      kind = c.kind;
      expire_period = content.expire_period;
      fee_nmas = amount_or_zero content.fee;
      thread = slot.thread;
      inclusions = [];
      candidate_exec_status = none;
      final_exec_status = none;
      details = c.details;
      signature = signed.signature;
      content_creator_pub_key = signed.content_creator_pub_key;
      serialized_size = signed.serialized_size;
      raw_signed_op_b64 = wire.op_b64 signed;
      first_seen_ts_ms = now_ms;
    }

-- The stored row, or a new one.
unfoldable pub known_op :
    Wire
    → ℕ
    → Slot
    → OperationId
    → SignedOperation
    → Option StoredOperation
    → Action StoredOperation
known_op wire now_ms slot op_id signed (some op) = pure op
known_op wire now_ms slot op_id signed none = do
  content ← required signed.content
  creator ← checked (parse_address wire.libs.b58 signed.content_creator_address)
  pure (new_op wire now_ms slot op_id signed content creator)

abbrev slot_eq : Slot → Slot → Bool
slot_eq a b = a.period == b.period && a.thread == b.thread

-- `inclusions.iter().any(..)`
unfoldable pub included_in : BlockId → Slot → List OperationInclusion → Bool
included_in bid slot [] = false
included_in bid slot (inc ∷ rest) =
    (id_eq inc.block_id bid && slot_eq inc.slot slot) || included_in bid slot rest

unfoldable pub with_inclusion : BlockId → Slot → StoredOperation → StoredOperation
with_inclusion bid slot op = record op {
  thread = slot.thread;
  inclusions =
      if included_in bid slot op.inclusions
      then op.inclusions
      else op.inclusions ++ record { slot = slot; block_id = bid } ∷ [];
}

unfoldable pub ingest_op : Wire → ℕ → Opened → SignedOperation → OperationId → Done
ingest_op wire now_ms o signed op_id = do
  found ← read_op op_id
  known ← known_op wire now_ms o.slot op_id signed found
  write_op (with_inclusion o.block_id o.slot known)
  broadcast (op_seen (with_inclusion o.block_id o.slot known))

-- The signed operation of an entry and its identifier, if it has both.
unfoldable pub entry_op : Base58 → FilledOperationEntry → Option (SignedOperation × OperationId)
entry_op b58 entry = elim entry.operation [
  | none ↦ none
  | some signed ↦
      if is_empty (op_name entry signed)
      then none
      else elim (parse b58 operation (op_name entry signed)) [
        | err why ↦ none
        | ok op_id ↦ some (signed, op_id)
      ]
]

-- The operations that an entry names, in order.
unfoldable pub entry_ops : Base58 → List FilledOperationEntry → List (SignedOperation × OperationId)
entry_ops b58 [] = []
entry_ops b58 (entry ∷ rest) =
    let later = entry_ops b58 rest in
    elim (entry_op b58 entry) [ none ↦ later | some p ↦ p ∷ later ]

unfoldable pub ingest_ops : Wire → ℕ → Opened → List (SignedOperation × OperationId) → Done
ingest_ops wire now_ms o [] = pure tt
ingest_ops wire now_ms o ((signed, op_id) ∷ rest) = do
  ingest_op wire now_ms o signed op_id
  ingest_ops wire now_ms o rest

unfoldable pub initial_block_status : SlotState → BlockId → BlockStatus
initial_block_status row bid =
    if is_final row.status
    then (if option_eq row.final_block_id (some bid)
        then BlockStatus.final
        else BlockStatus.discarded)
    else BlockStatus.seen_candidate

-- `seen_candidate` is raised, the rest stays.
unfoldable pub raised_status : BlockStatus → BlockStatus → BlockStatus
raised_status BlockStatus.seen_candidate now = now
raised_status BlockStatus.final now = BlockStatus.final
raised_status BlockStatus.discarded now = BlockStatus.discarded

-- What a block's body brings.
pub record BlockBody : Type 0 where
  pub operation_ids : List OperationId
  pub endorsements : List StoredEndorsement
  pub denunciations : List StoredDenunciation

unfoldable pub block_row :
    Wire → ℕ → Opened → BlockBody → BlockStatus → Option StoredBlock → StoredBlock
block_row wire now_ms o body status (some b) = record b {
  operation_ids = if is_empty b.operation_ids then body.operation_ids else b.operation_ids;
  endorsements = body.endorsements;
  endorsement_ids = map (λ e. e.id) body.endorsements;
  denunciations = body.denunciations;
  status = raised_status b.status status;
}
block_row wire now_ms o body status none = record {
  id = o.block_id;
  slot = o.slot;
  creator = o.creator;
  parents = parsed_blocks wire.libs.b58 o.content.parents;
  operation_ids = body.operation_ids;
  endorsements = body.endorsements;
  endorsement_ids = map (λ e. e.id) body.endorsements;
  denunciations = body.denunciations;
  current_version = o.content.current_version;
  announced_version = o.content.announced_version;
  operations_hash = o.content.operations_hash;
  signature = o.header.signature;
  content_creator_pub_key = o.header.content_creator_pub_key;
  serialized_size = o.header.serialized_size;
  raw_signed_header_b64 = wire.header_b64 o.header;
  status = status;
  first_seen_ts_ms = now_ms;
}

abbrev pub seen_status : SlotStatus → SlotStatus
seen_status SlotStatus.unknown = SlotStatus.candidate
seen_status SlotStatus.candidate = SlotStatus.candidate
seen_status SlotStatus.final = SlotStatus.final

-- The slot's row with a block that was seen.
unfoldable pub with_seen : ℕ → BlockId → SlotState → SlotState
with_seen now_ms bid row = record row {
  candidate_block_ids = with_candidate bid row.candidate_block_ids;
  completeness = record row.completeness { block_body_stored = true };
  last_updated_ts_ms = now_ms;
  status = seen_status row.status;
}

unfoldable pub store_seen : Wire → ℕ → Opened → BlockBody → SlotState → Option StoredBlock → Done
store_seen wire now_ms o body row prior = do
  let stored = block_row wire now_ms o body (initial_block_status row o.block_id) prior
  write_block stored
  broadcast (block_seen stored)
  write_slot (with_seen now_ms o.block_id row)
  ensure_parent_stub o.slot now_ms
  broadcast (slot_updated (with_seen now_ms o.block_id row))

unfoldable pub store_block : Wire → ℕ → Opened → BlockBody → Done
store_block wire now_ms o body = do
  found ← read_slot o.slot.period o.slot.thread
  prior ← read_block o.block_id
  store_seen wire now_ms o body (or_fresh o.slot now_ms found) prior

unfoldable pub block_body : Wire → ℕ → FilledBlock → Opened → BlockBody
block_body wire now_ms fb o = record {
  operation_ids = map (λ p. p.1) (entry_ops wire.libs.b58 fb.operations);
  endorsements = decode_endorsements wire.libs.b58 o.content.endorsements o.block_id o.slot now_ms;
  denunciations = map decode_denunciation o.content.denunciations;
}

unfoldable pub ingest_body : Wire → ℕ → FilledBlock → Opened → Done
ingest_body wire now_ms fb o = do
  write_endorsements wire.libs (block_body wire now_ms fb o).endorsements
  write_denunciations wire.libs now_ms o (block_body wire now_ms fb o).denunciations
  ingest_ops wire now_ms o (entry_ops wire.libs.b58 fb.operations)
  store_block wire now_ms o (block_body wire now_ms fb o)

unfoldable pub handle_block : Wire → ℕ → FilledBlock → Done
handle_block wire now_ms fb = do o ← open_header wire.libs.b58 fb; ingest_body wire now_ms fb o
