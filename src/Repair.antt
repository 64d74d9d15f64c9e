-- ===== src/Repair.antt =====
-- massa-indexer/src/repair.rs, with `legacy_op_to_transfer` of massa-indexer/src/legacy/decode.rs: which
-- slots the repair tasks take up, and the patch that they rebuild for one. The tasks themselves
-- are followed in Repair/Passes; their counters and pauses are left out.
pub mod Passes
pub mod Rebuilt
pub mod Resume
pub mod Windows
pub mod Needy
pub mod Payments
mod Tests
use massa_history.Base.{
  ℕ, ◌+◌, ◌*◌, ◌/◌, ◌%◌, ◌^◌, ◌-◌, Bool, true, false, not, ◌&&◌, ◌||◌, Option, none, some, List, [],
  ◌∷◌, ◌++◌, ◌==◌, leb, ltb, if◌then◌else◌,
}
use massa_history.Ids.{Text, BlockId, OperationId, as_bytes}
use massa_history.Model.{Slot, SlotState, ExecStatus}
use massa_history.Model.Operations.{StoredOperation, OperationKind}
use massa_history.Model.Transfers.{StoredTransfer, TransferValue, CoinOrigin}
use massa_history.Backfill.{FinalSlotParts, is_empty}
use massa_history.Db.{Db}
use massa_history.Patch.{FinalSlotResponse}
use massa_history.Patch.Apply.{is_final}
use massa_history.Ingest.Decode.{decimal}

pub record ReconstructConfig : Type 0 where
  pub from_period : ℕ
  pub to_period : ℕ
  pub thread_count : ℕ
  pub genesis_timestamp_ms : ℕ
  pub t0_ms : ℕ

-- `saturating_mul` on i64, of numbers that are not negative.
abbrev saturating_mul : ℕ → ℕ → ℕ
saturating_mul a b = if ltb (a * b) (2 ^ 63) then a * b else 2 ^ 63 - 1

abbrev max_1 : ℕ → ℕ
max_1 n = if leb n 0 then 1 else n

-- For a genesis and a `t0` that are not negative and a period below 2 ^ 63. The sum wraps.
unfoldable pub slot_timestamp_ms : ReconstructConfig → Slot → ℕ
slot_timestamp_ms cfg slot =
    let per_thread = cfg.t0_ms / max_1 cfg.thread_count in
    (cfg.genesis_timestamp_ms + saturating_mul slot.period cfg.t0_ms + slot.thread * per_thread)
    % 2 ^ 64

abbrev pub is_transaction : OperationKind → Bool
is_transaction OperationKind.transaction = true
is_transaction _ = false

abbrev pub executed_ok : Option ExecStatus → Bool
executed_ok (some ExecStatus.ok) = true
executed_ok _ = false

unfoldable pub transaction_row : StoredOperation → Slot → Text → ℕ → ℕ → ℕ → Text → StoredTransfer
transaction_row op slot block_id i ts amount to = record {
  slot = slot;
  index_in_slot = i;
  id = op.id.text ++ b':' ∷ decimal i;
  block_id = some block_id;
  block_timestamp_ms = ts;
  from = some op.creator.text;
  to = some to;
  value = TransferValue.coins amount;
  origin = CoinOrigin.op_transaction_coins;
  operation_id = some op.id.text;
  async_msg_id = none;
  deferred_call_id = none;
  denunciation_index = none;
  is_final = true;
  first_seen_ts_ms = ts;
}

-- A transfer of nothing, or to nobody, is none.
unfoldable pub paid_row :
    StoredOperation → Slot → Text → ℕ → ℕ → Option ℕ → Option Text → Option StoredTransfer
paid_row op slot block_id i ts none to = none
paid_row op slot block_id i ts (some amount) none = none
paid_row op slot block_id i ts (some amount) (some to) =
    if amount == 0 then none else some (transaction_row op slot block_id i ts amount to)

unfoldable pub legacy_op_to_transfer : StoredOperation → Slot → Text → ℕ → ℕ → Option StoredTransfer
legacy_op_to_transfer op slot block_id i ts =
    if is_transaction op.kind
    then paid_row op slot block_id i ts op.details.amount_nmas op.details.recipient_address
    else none

-- The row of an operation that was executed with success.
unfoldable pub rebuilt_row : Option StoredOperation → Slot → Text → ℕ → ℕ → Option StoredTransfer
rebuilt_row none slot block_id i ts = none
rebuilt_row (some op) slot block_id i ts =
    if is_transaction op.kind && executed_ok op.final_exec_status
    then legacy_op_to_transfer op slot block_id i ts
    else none

-- The rows of the operations from the index `i` on, a u32.
unfoldable pub rebuilt_rows :
    Db → Slot → Text → ℕ → ℕ → List OperationId → List (Option StoredTransfer)
rebuilt_rows db slot block_id ts i [] = []
rebuilt_rows db slot block_id ts i (id ∷ rest) =
    let same = rebuilt_rows db slot block_id ts i rest in
    let later = rebuilt_rows db slot block_id ts ((i + 1) % 2 ^ 32) rest in
    elim (rebuilt_row (db.ops (as_bytes id)) slot block_id i ts) [
      | none ↦ same
      | some t ↦ some t ∷ later
    ]

abbrev pub rebuilt_response : Slot → BlockId → List (Option StoredTransfer) → FinalSlotResponse
rebuilt_response slot block_id rows = record {
  period = slot.period;
  thread = slot.thread;
  final_known = true;
  is_miss = false;
  execution_trail_hash = [];
  block = none;
  operations = [];
  endorsements = [];
  sc_events = [];
  executed_op_ids = [];
  sc_event_count = 0;
  async_msgs = [];
  transfers = rows;
  deferred_calls = [];
  final_block_id = block_id.text;
  completeness_known = false;
  has_block_body = false;
  has_exec_output = false;
  has_transfers = false;
  parts = none;
}

-- Nothing to rebuild.
unfoldable pub nothing_lacks : SlotState → Bool
nothing_lacks state =
    not (is_final state.status)
    || (state.is_miss || (state.completeness.transfers_stored || is_empty state.executed_op_ids))

unfoldable pub rebuilt_with :
    Db → ReconstructConfig → Slot → SlotState → Option BlockId → Option FinalSlotResponse
rebuilt_with db cfg slot state none = none
rebuilt_with db cfg slot state (some block_id) =
    let rows =
      rebuilt_rows db slot block_id.text (slot_timestamp_ms cfg slot) 0 state.executed_op_ids in
    if is_empty rows then none else some (rebuilt_response slot block_id rows)

unfoldable pub rebuilt_for :
    Db → ReconstructConfig → Slot → Option SlotState → Option FinalSlotResponse
rebuilt_for db cfg slot none = none
rebuilt_for db cfg slot (some state) =
    if nothing_lacks state then none else rebuilt_with db cfg slot state state.final_block_id

-- It reads, and writes nothing.
unfoldable pub reconstruct_slot : Db → ReconstructConfig → Slot → Option FinalSlotResponse
reconstruct_slot db cfg slot = rebuilt_for db cfg slot (db.slots slot.period slot.thread)

abbrev is_sc_call : OperationKind → Bool
is_sc_call OperationKind.call_sc = true
is_sc_call OperationKind.execute_sc = true
is_sc_call _ = false

abbrev sc_success : Option StoredOperation → Bool
sc_success none = false
sc_success (some op) = is_sc_call op.kind && executed_ok op.final_exec_status

any_sc_op : Db → List OperationId → Bool
any_sc_op db [] = false
any_sc_op db (id ∷ rest) = sc_success (db.ops (as_bytes id)) || any_sc_op db rest

unfoldable pub slot_has_successful_sc_op : Db → SlotState → Bool
unfolding any_sc_op
slot_has_successful_sc_op db state = any_sc_op db state.executed_op_ids

unfoldable pub lacks : SlotState → FinalSlotParts → Bool
lacks s parts =
    (parts.block && (not s.is_miss && not s.completeness.block_body_stored))
    || ((parts.exec_output && not s.completeness.exec_output_final)
        || (parts.transfers && not s.completeness.transfers_stored))

abbrev lacks_parts : Db → FinalSlotParts → Bool → Option SlotState → Bool
lacks_parts db parts require_sc_ops none = false
lacks_parts db parts require_sc_ops (some s) =
    is_final s.status && (lacks s parts && (not require_sc_ops || slot_has_successful_sc_op db s))

unfoldable pub slot_lacks_parts : Db → Slot → FinalSlotParts → Bool → Bool
slot_lacks_parts db slot parts require_sc_ops =
    lacks_parts db parts require_sc_ops (db.slots slot.period slot.thread)
