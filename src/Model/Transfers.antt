-- ===== src/Model/Transfers.antt =====
-- massa-indexer/src/model.rs: transfers, asynchronous messages and deferred calls.
use massa_history.Base.{ℕ, Bool, Option}
use massa_history.Ids.{Text, Address}
use massa_history.Model.{Slot}

pub data TransferValue : Type 0 where
  coins : (nmas : ℕ) → TransferValue
  rolls : (count : ℕ) → TransferValue
  deferred_credits : (nmas : ℕ) → TransferValue
  unknown : TransferValue

pub data CoinOrigin : Type 0 where
  unspecified block_reward deferred_call_fail deferred_call_cancel deferred_call_coins : CoinOrigin
  deferred_call_register deferred_call_storage_refund endorsement_reward : CoinOrigin
  endorsed_reward slash op_roll_buy op_roll_sell op_callsc_coins read_only_fn_call_fees : CoinOrigin
  read_only_fn_call_coins read_only_bytecode_exec_fees set_bytecode_storage : CoinOrigin
  abi_call_coins abi_transfer_coins abi_transfer_for_coins abi_send_msg_coins : CoinOrigin
  abi_send_msg_fees op_roll_sell_deferred_mas op_executesc_fees op_transaction_coins : CoinOrigin
  op_transaction_fees async_msg_coins async_msg_cancel create_sc_storage : CoinOrigin
  datastore_storage deferred_credit : CoinOrigin
  other : (code : ℕ) → CoinOrigin

pub record StoredTransfer : Type 0 where
  pub slot : Slot
  pub index_in_slot : ℕ
  pub id : Text
  pub block_id : Option Text
  pub block_timestamp_ms : ℕ
  pub from : Option Text
  pub to : Option Text
  pub value : TransferValue
  pub origin : CoinOrigin
  pub operation_id : Option Text
  pub async_msg_id : Option Text
  pub deferred_call_id : Option Text
  pub denunciation_index : Option Text
  pub is_final : Bool
  pub first_seen_ts_ms : ℕ

pub data AsyncMsgState : Type 0 where
  pending executed cancelled consumed : AsyncMsgState

pub record AsyncTrigger : Type 0 where
  pub address : Text
  pub datastore_key_hex : Option Text

pub record StoredAsyncMsg : Type 0 where
  pub id : Text
  pub sender : Option Address
  pub destination : Option Address
  pub handler : Option Text
  pub coins_nmas : ℕ
  pub max_gas : ℕ
  pub fee_nmas : ℕ
  pub emission_slot : Option Slot
  pub validity_start : Option Slot
  pub validity_end : Option Slot
  pub state : AsyncMsgState
  pub last_slot : Option Slot
  pub data_hex : Option Text
  pub trigger : Option AsyncTrigger
  pub can_be_executed : Bool
  pub first_seen_ts_ms : ℕ
  pub last_updated_ts_ms : ℕ

pub data DeferredCallState : Type 0 where
  registered executed failed cancelled : DeferredCallState

pub record StoredDeferredCall : Type 0 where
  pub id : Text
  pub sender : Option Address
  pub target_address : Option Address
  pub target_function : Option Text
  pub parameter_hex : Option Text
  pub coins_nmas : ℕ
  pub max_gas : ℕ
  pub target_slot : Option Slot
  pub registered_slot : Option Slot
  pub state : DeferredCallState
  pub last_slot : Option Slot
  pub first_seen_ts_ms : ℕ
  pub last_updated_ts_ms : ℕ
