-- ===== src/Ingest/Messages.antt =====
-- The protobuf messages of the node (massa-proto/proto/commons/massa/model/v1), with the fields that
-- massa-indexer/src/ingest.rs reads. A message field may be absent. An i32 is its bit pattern.
use massa_history.Base.{ℕ, Bool, Option, List}
use massa_history.Bytes.{Bytes}
use massa_history.Ids.{Text}
use massa_history.Db.{Libs}

pub record PbSlot : Type 0 where
  pub period : ℕ
  pub thread : ℕ

pub record NativeAmount : Type 0 where
  pub mantissa : ℕ

pub record BytesMapFieldEntry : Type 0 where
  pub key : Bytes
  pub value : Bytes

-- `message OperationType`
pub data OperationType : Type 0 where
  transaction : (recipient_address : Text) (amount : Option NativeAmount) → OperationType
  roll_buy roll_sell : (roll_count : ℕ) → OperationType
  execute_sc :
      (code : Bytes) (max_coins max_gas : ℕ) (datastore : List BytesMapFieldEntry) → OperationType
  call_sc :
      (target_address target_function : Text) (parameter : Bytes) (max_gas : ℕ)
      (coins : Option NativeAmount)
      → OperationType

-- `op` is absent, or a message whose `type` may be absent.
pub record Operation : Type 0 where
  pub fee : Option NativeAmount
  pub expire_period : ℕ
  pub op : Option (Option OperationType)

pub record SignedOperation : Type 0 where
  pub content : Option Operation
  pub signature : Text
  pub content_creator_pub_key : Text
  pub content_creator_address : Text
  pub secure_hash : Text
  pub serialized_size : ℕ

pub record FilledOperationEntry : Type 0 where
  pub operation_id : Text
  pub operation : Option SignedOperation

pub record Endorsement : Type 0 where
  pub slot : Option PbSlot
  pub index : ℕ
  pub endorsed_block : Text

pub record SignedEndorsement : Type 0 where
  pub content : Option Endorsement
  pub signature : Text
  pub content_creator_pub_key : Text
  pub content_creator_address : Text
  pub secure_hash : Text
  pub serialized_size : ℕ

-- `message Denunciation`
pub data Denunciation : Type 0 where
  header :
      (public_key : Text) (slot : Option PbSlot) (hash_1 hash_2 signature_1 signature_2 : Text)
      → Denunciation
  endorsed :
      (public_key : Text) (slot : Option PbSlot) (index : ℕ)
      (hash_1 hash_2 signature_1 signature_2 : Text)
      → Denunciation
  denounced :
      (address_denounced : Text) (slot : Option PbSlot) (slashed : Option NativeAmount)
      → Denunciation
  absent : Denunciation

pub record BlockHeader : Type 0 where
  pub current_version : ℕ
  pub announced_version : Option ℕ
  pub slot : Option PbSlot
  pub parents : List Text
  pub operations_hash : Text
  pub endorsements : List SignedEndorsement
  pub denunciations : List Denunciation

pub record SignedBlockHeader : Type 0 where
  pub content : Option BlockHeader
  pub signature : Text
  pub content_creator_pub_key : Text
  pub content_creator_address : Text
  pub secure_hash : Text
  pub serialized_size : ℕ

pub record FilledBlock : Type 0 where
  pub header : Option SignedBlockHeader
  pub operations : List FilledOperationEntry

pub record ScExecutionEventContext : Type 0 where
  pub call_stack : List Text
  pub origin_operation_id : Option Text

pub record ScExecutionEvent : Type 0 where
  pub context : Option ScExecutionEventContext
  pub payload : Bytes

pub data OperationExecutionStatus : Type 0 where
  unspecified success failed : OperationExecutionStatus

-- `value` is absent, or a status that `try_from` knows or does not.
pub record ExecutedOpsChangeEntry : Type 0 where
  pub operation_id : Text
  pub value : Option (Option OperationExecutionStatus)

pub record AsyncMessageTrigger : Type 0 where
  pub address : Text
  pub datastore_key : Option Bytes

pub record AsyncMessage : Type 0 where
  pub emission_slot : Option PbSlot
  pub sender : Text
  pub destination : Text
  pub handler : Text
  pub max_gas : ℕ
  pub fee : Option NativeAmount
  pub coins : Option NativeAmount
  pub validity_start : Option PbSlot
  pub validity_end : Option PbSlot
  pub payload : Bytes
  pub trigger : Option AsyncMessageTrigger
  pub can_be_executed : Bool

pub data Change {ℓ} (A : Type ℓ) : Type ℓ where
  set : A → Change A
  keep : Change A

-- A `SetOrKeep` message, whose `change` may be absent too.
abbrev pub SetOrKeep {ℓ} : Type ℓ → Type ℓ
SetOrKeep A = Option (Option (Change A))

pub record AsyncMessageUpdate : Type 0 where
  pub emission_slot : SetOrKeep PbSlot
  pub sender : SetOrKeep Text
  pub destination : SetOrKeep Text
  pub handler : SetOrKeep Text
  pub max_gas : SetOrKeep ℕ
  pub fee : SetOrKeep ℕ
  pub coins : SetOrKeep ℕ
  pub validity_start : SetOrKeep PbSlot
  pub validity_end : SetOrKeep PbSlot
  pub payload : SetOrKeep Bytes
  pub trigger : SetOrKeep AsyncMessageTrigger
  pub can_be_executed : SetOrKeep Bool

pub data AsyncPoolChangeType : Type 0 where
  unspecified set_type update_type delete_type : AsyncPoolChangeType

pub data PoolMessage : Type 0 where
  created_message : AsyncMessage → PoolMessage
  updated_message : AsyncMessageUpdate → PoolMessage

-- `kind` is what `try_from` makes of the type.
pub record AsyncPoolChangeValue : Type 0 where
  pub kind : Option AsyncPoolChangeType
  pub message : Option PoolMessage

pub record AsyncPoolChangeEntry : Type 0 where
  pub async_message_id : Text
  pub value : Option AsyncPoolChangeValue

pub record StateChanges : Type 0 where
  pub async_pool_changes : List AsyncPoolChangeEntry
  pub executed_ops_changes : List ExecutedOpsChangeEntry
  pub execution_trail_hash_change : SetOrKeep Text

pub record ExecutionOutput : Type 0 where
  pub slot : Option PbSlot
  pub block_id : Option Text
  pub events : List ScExecutionEvent
  pub state_changes : Option StateChanges

pub data ExecutionOutputStatus : Type 0 where
  unspecified candidate final unknown : ExecutionOutputStatus

-- `status` is what `try_from` makes of it, with `Unspecified` for the rest.
pub record SlotExecutionOutput : Type 0 where
  pub status : ExecutionOutputStatus
  pub execution_output : Option ExecutionOutput

pub data PbValue : Type 0 where
  rolls : (count : ℕ) → PbValue
  coins deferred_credits : NativeAmount → PbValue

pub data DenunciationIndex : Type 0 where
  header_at : (slot : Option PbSlot) → DenunciationIndex
  endorsement_at : (slot : Option PbSlot) (index : ℕ) → DenunciationIndex
  no_entry : DenunciationIndex

pub record ExecTransferInfo : Type 0 where
  pub id : Text
  pub from_address : Option Text
  pub to_address : Option Text
  pub value : Option (Option PbValue)
  pub origin : ℕ
  pub operation_id : Option Text
  pub async_msg_id : Option Text
  pub deferred_call_id : Option Text
  pub denunciation_index : Option DenunciationIndex

pub record NewTransfersInfoServerResponse : Type 0 where
  pub slot : Option PbSlot
  pub timestamp : ℕ
  pub block_id : Option Text
  pub transfers_info : List ExecTransferInfo

-- What ingest takes from other libraries besides: base64 of a message encoded by prost, and the two
-- readings of bytes as UTF-8.
pub record Wire : Type 0 where
  pub libs : Libs
  pub header_b64 : SignedBlockHeader → Text
  pub op_b64 : SignedOperation → Text
  pub from_utf8 : Bytes → Option Text
  pub from_utf8_lossy : Bytes → Text
