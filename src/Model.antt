-- ===== src/Model.antt =====
-- massa-indexer/src/model.rs: the rows that the indexer stores. A text is the list of its code
-- points; an i64 timestamp is a natural number, since the program only stores and copies these.
pub mod Rows
pub mod Operations
pub mod Transfers
use massa_history.Base.{
  ℕ, Bool, true, false, not, ◌&&◌, ◌||◌, Option, none, List, [], compare, Ordering,
}
use massa_history.Bytes.{then_with}
use massa_history.Ids.{Text, BlockId, OperationId}

pub record Slot : Type 0 where
  pub period : ℕ
  pub thread : ℕ

-- The derived order.
abbrev pub cmp_slots : Slot → Slot → Ordering
cmp_slots a b = then_with (compare a.period b.period) (compare a.thread b.thread)

pub data ExecStatus : Type 0 where
  ok failed : ExecStatus

pub data SlotStatus : Type 0 where
  unknown candidate final : SlotStatus

pub data BlockStatus : Type 0 where
  seen_candidate final discarded : BlockStatus

pub record StreamsExpected : Type 0 where
  pub filled_blocks : Bool
  pub slot_execution_outputs : Bool
  pub transfers : Bool

abbrev pub all_streams : StreamsExpected
all_streams = record { filled_blocks = true; slot_execution_outputs = true; transfers = true }

pub record SlotCompleteness : Type 0 where
  pub block_body_stored : Bool
  pub exec_output_final : Bool
  pub exec_output_candidate : Bool
  pub transfers_stored : Bool

abbrev pub no_parts : SlotCompleteness
no_parts = record {
  block_body_stored = false;
  exec_output_final = false;
  exec_output_candidate = false;
  transfers_stored = false;
}

unfoldable pub is_complete : SlotCompleteness → Bool → StreamsExpected → Bool
is_complete c is_miss streams =
    let block_ok = not streams.filled_blocks || (is_miss || c.block_body_stored) in
    let exec_ok = not streams.slot_execution_outputs || c.exec_output_final in
    let transfers_ok = not streams.transfers || c.transfers_stored in
    block_ok && (exec_ok && transfers_ok)

pub record SlotState : Type 0 where
  pub slot : Slot
  pub status : SlotStatus
  pub is_miss : Bool
  pub final_block_id : Option BlockId
  pub candidate_block_ids : List BlockId
  pub execution_trail_hash : Option Text
  pub executed_op_ids : List OperationId
  pub sc_event_count : ℕ
  pub completeness : SlotCompleteness
  pub first_seen_ts_ms : ℕ
  pub last_updated_ts_ms : ℕ

abbrev pub fresh : Slot → ℕ → SlotState
fresh slot now_ms = record {
  slot = slot;
  status = SlotStatus.unknown;
  is_miss = false;
  final_block_id = none;
  candidate_block_ids = [];
  execution_trail_hash = none;
  executed_op_ids = [];
  sc_event_count = 0;
  completeness = no_parts;
  first_seen_ts_ms = now_ms;
  last_updated_ts_ms = now_ms;
}
