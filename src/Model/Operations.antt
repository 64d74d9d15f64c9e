-- ===== src/Model/Operations.antt =====
-- massa-indexer/src/model.rs: operations and smart-contract events.
use massa_history.Base.{ℕ, Option, List}
use massa_history.Ids.{Text, BlockId, OperationId, Address}
use massa_history.Model.{Slot, SlotStatus, ExecStatus}

pub data OperationKind : Type 0 where
  transaction roll_buy roll_sell execute_sc call_sc unknown : OperationKind

pub record DatastoreEntry : Type 0 where
  pub key_hex : Text
  pub value_hex : Text

pub record OperationDetails : Type 0 where
  pub amount_nmas : Option ℕ
  pub recipient_address : Option Text
  pub roll_count : Option ℕ
  pub target_address : Option Text
  pub target_function : Option Text
  pub parameter_hex : Option Text
  pub parameter_len : Option ℕ
  pub coins_nmas : Option ℕ
  pub max_gas : Option ℕ
  pub bytecode_hex : Option Text
  pub bytecode_size : Option ℕ
  pub max_coins_nmas : Option ℕ
  pub datastore : List DatastoreEntry
  pub datastore_keys : Option ℕ

pub record OperationInclusion : Type 0 where
  pub slot : Slot
  pub block_id : BlockId

pub record StoredOperation : Type 0 where
  pub id : OperationId
  pub creator : Address
  pub target : Option Address
  pub kind : OperationKind
  pub expire_period : ℕ
  pub fee_nmas : ℕ
  pub thread : ℕ
  pub inclusions : List OperationInclusion
  pub candidate_exec_status : Option ExecStatus
  pub final_exec_status : Option ExecStatus
  pub details : OperationDetails
  pub signature : Text
  pub content_creator_pub_key : Text
  pub serialized_size : ℕ
  pub raw_signed_op_b64 : Text
  pub first_seen_ts_ms : ℕ

pub record StoredScEvent : Type 0 where
  pub slot : Slot
  pub index_in_slot : ℕ
  pub text : Text
  pub emitter_addrs : List Address
  pub caller_addrs : List Address
  pub status : SlotStatus
  pub op_id : Option OperationId
