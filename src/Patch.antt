-- ===== src/Patch.antt =====
-- massa-indexer/src/peer/patch.rs: a peer's `FinalSlotResponse` is applied to the store. A row that
-- a peer ships stands for what codec.rs decodes it to, and is `none` where that fails. Log lines
-- are left out.
pub mod Parts
pub mod Frame
pub mod Row
pub mod Verdict
pub mod Stored
pub mod Settle
pub mod Outcome
pub mod Priority
pub mod Promotion
pub mod Placed
pub mod PlacedAll
pub mod Shipped
pub mod Settled
pub mod Arbitrates
pub mod Writes
pub mod Runs
pub mod Failure
pub mod Operator
pub mod Archive
pub mod Samples
mod Tests
pub mod Apply
pub mod Forced
pub mod Legacy
use massa_history.Base.{
  ℕ, ◌-◌, Bool, true, false, not, ◌&&◌, ◌||◌, Option, none, some, List, [], ◌∷◌, ◌++◌, ◌==◌, ltb,
  if◌then◌else◌,
}
use massa_history.Base.Result.{Result, ok, err}
use massa_history.Ids.{Text, Base58, BlockId, OperationId, block, operation, parse, id_eq}
use massa_history.Model.{Slot, SlotState, SlotStatus, SlotCompleteness, no_parts, fresh}
use massa_history.Model.Rows.{StoredBlock, StoredEndorsement}
use massa_history.Model.Operations.{StoredOperation, StoredScEvent}
use massa_history.Model.Transfers.{StoredTransfer, StoredAsyncMsg, StoredDeferredCall}
use massa_history.Backfill.{FinalSlotParts, is_empty}
use massa_history.Db.{Db, Libs, Action, Done}

-- `message FinalSlotResponse`
pub record FinalSlotResponse : Type 0 where
  pub period : ℕ
  pub thread : ℕ
  pub final_known : Bool
  pub is_miss : Bool
  pub execution_trail_hash : Text
  pub block : Option (Option StoredBlock)
  pub operations : List (Option StoredOperation)
  pub endorsements : List (Option StoredEndorsement)
  pub sc_events : List (Option StoredScEvent)
  pub executed_op_ids : List Text
  pub sc_event_count : ℕ
  pub async_msgs : List (Option StoredAsyncMsg)
  pub transfers : List (Option StoredTransfer)
  pub deferred_calls : List (Option StoredDeferredCall)
  pub final_block_id : Text
  pub completeness_known : Bool
  pub has_block_body : Bool
  pub has_exec_output : Bool
  pub has_transfers : Bool
  pub parts : Option FinalSlotParts

pub record PatchOutcome : Type 0 where
  pub became_final : Bool
  pub block_applied : Bool
  pub exec_applied : Bool
  pub transfers_applied : Bool
  pub trail_mismatch : Bool
  pub empty : Bool
  pub divergence_repaired : Bool
  pub divergence_kept_local : Bool

abbrev pub no_outcome : PatchOutcome
no_outcome = record {
  became_final = false;
  block_applied = false;
  exec_applied = false;
  transfers_applied = false;
  trail_mismatch = false;
  empty = false;
  divergence_repaired = false;
  divergence_kept_local = false;
}

-- `candidates.iter().any(|b| b == bid)`
unfoldable pub holds : BlockId → List BlockId → Bool
holds bid [] = false
holds bid (b ∷ rest) = id_eq b bid || holds bid rest

-- `if !any { push }`
unfoldable pub with_candidate : BlockId → List BlockId → List BlockId
with_candidate bid candidates = if holds bid candidates then candidates else candidates ++ bid ∷ []

abbrev pub slot_of : FinalSlotResponse → Slot
slot_of resp = record { period = resp.period; thread = resp.thread }

-- `state.unwrap_or_else(|| SlotState::fresh(slot, now_ms))`
unfoldable pub or_fresh : Slot → ℕ → Option SlotState → SlotState
or_fresh slot now_ms none = fresh slot now_ms
or_fresh slot now_ms (some row) = row

unfoldable pub peer_trail : FinalSlotResponse → Option Text
peer_trail resp =
    if is_empty resp.execution_trail_hash then none else some resp.execution_trail_hash

ok_id : {E : Type 0} {A : Type 0} → Result E A → Option A
ok_id (ok a) = some a
ok_id (err why) = none

unfoldable pub named_block : Base58 → FinalSlotResponse → Option BlockId
unfolding ok_id
named_block b58 resp =
    if is_empty resp.final_block_id then none else ok_id (parse b58 block resp.final_block_id)

-- `filter_map(|s| OperationId::parse(s).ok())`
unfoldable pub parsed_ops : Base58 → List Text → List OperationId
parsed_ops b58 [] = []
parsed_ops b58 (s ∷ rest) =
    let later = parsed_ops b58 rest in
    elim (parse b58 operation s) [ ok op ↦ op ∷ later | err why ↦ later ]

abbrev pub touched : ℕ → SlotState → SlotState
touched now_ms row = record row { last_updated_ts_ms = now_ms }
