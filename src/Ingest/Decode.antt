-- ===== src/Ingest/Decode.antt =====
-- massa-indexer/src/ingest.rs: the node's messages decoded to stored rows.
use massa_history.Base.{
  ℕ, zero, suc, ◌+◌, ◌/◌, ◌%◌, ◌^◌, Bool, true, false, Option, none, some, List, [], ◌∷◌, ◌++◌,
  ◌==◌, ltb, map, length, get_or, if◌then◌else◌,
}
use massa_history.Bytes.{Bytes}
use massa_history.Ids.{Text, Base58, Address, BlockId, OperationId, operation, parse, parse_address}
use massa_history.Model.{Slot}
use massa_history.Model.Rows.{StoredEndorsement, StoredDenunciation}
use massa_history.Model.Operations.{OperationKind, OperationDetails, DatastoreEntry}
use massa_history.Model.Transfers.{TransferValue, CoinOrigin}
use massa_history.Reconcile.{ok_of}
use massa_history.Patch.Parts.{hex_encode}
use massa_history.Ingest.Messages.{
  PbSlot, NativeAmount, BytesMapFieldEntry, OperationType, SignedEndorsement, Endorsement,
  Denunciation, DenunciationIndex, ScExecutionEvent, PbValue, Wire,
}

-- `Slot::new(s.period, s.thread as u8)`
unfoldable pub slot_from_pb : PbSlot → Slot
slot_from_pb s = record { period = s.period; thread = s.thread % 2 ^ 8 }

abbrev pub map_option : {A B : Type 0} → (A → B) → Option A → Option B
map_option f none = none
map_option f (some a) = some (f a)

abbrev pub unwrap_or : {A : Type 0} → A → Option A → A
unwrap_or d none = d
unwrap_or d (some a) = a

unfoldable pub native_amount_to_nmas : NativeAmount → ℕ
native_amount_to_nmas a = a.mantissa

abbrev pub amount_or_zero : Option NativeAmount → ℕ
amount_or_zero none = 0
amount_or_zero (some a) = a.mantissa

-- `OperationDetails::default()`
abbrev no_details : OperationDetails
no_details = record {
  amount_nmas = none;
  recipient_address = none;
  roll_count = none;
  target_address = none;
  target_function = none;
  parameter_hex = none;
  parameter_len = none;
  coins_nmas = none;
  max_gas = none;
  bytecode_hex = none;
  bytecode_size = none;
  max_coins_nmas = none;
  datastore = [];
  datastore_keys = none;
}

-- What `classify_op` makes of an operation.
pub record Classified : Type 0 where
  pub kind : OperationKind
  pub target : Option Address
  pub details : OperationDetails

hex_entry : BytesMapFieldEntry → DatastoreEntry
hex_entry e = record { key_hex = hex_encode e.key; value_hex = hex_encode e.value }

module _ (b58 : Base58) where
  classify_type : OperationType → Classified
  unfolding hex_entry
  classify_type (OperationType.transaction recipient amount) = record {
    kind = OperationKind.transaction;
    target = ok_of (parse_address b58 recipient);
    details = record no_details {
      amount_nmas = map_option (λ a. a.mantissa) amount;
      recipient_address = some recipient;
    };
  }
  classify_type (OperationType.roll_buy count) = record {
    kind = OperationKind.roll_buy;
    target = none;
    details = record no_details { roll_count = some count };
  }
  classify_type (OperationType.roll_sell count) = record {
    kind = OperationKind.roll_sell;
    target = none;
    details = record no_details { roll_count = some count };
  }
  classify_type (OperationType.execute_sc code max_coins max_gas datastore) = record {
    kind = OperationKind.execute_sc;
    target = none;
    details = record no_details {
      bytecode_hex = some (hex_encode code);
      bytecode_size = some (length code);
      max_coins_nmas = some max_coins;
      max_gas = some max_gas;
      datastore_keys = some (length datastore % 2 ^ 32);
      datastore = map hex_entry datastore;
    };
  }
  classify_type (OperationType.call_sc address function parameter max_gas coins) = record {
    kind = OperationKind.call_sc;
    target = ok_of (parse_address b58 address);
    details = record no_details {
      target_address = some address;
      target_function = some function;
      parameter_hex = some (hex_encode parameter);
      parameter_len = some (length parameter);
      max_gas = some max_gas;
      coins_nmas = map_option (λ a. a.mantissa) coins;
    };
  }

  unfoldable pub classify_op : Option (Option OperationType) → Classified
  unfolding classify_type
  classify_op none = record { kind = OperationKind.unknown; target = none; details = no_details }
  classify_op (some none) = record {
    kind = OperationKind.unknown;
    target = none;
    details = no_details;
  }
  classify_op (some (some t)) = classify_type t

  endorsement_of :
      SignedEndorsement
      → BlockId
      → Slot
      → ℕ
      → Endorsement
      → Option PbSlot
      → Option Address
      → Option StoredEndorsement
  endorsement_of se bid slot now_ms content none creator = none
  endorsement_of se bid slot now_ms content (some s) none = none
  endorsement_of se bid slot now_ms content (some s) (some creator) = some (record {
    id = se.secure_hash;
    slot = slot_from_pb s;
    index = content.index;
    endorsed_block_id = content.endorsed_block;
    content_creator_pub_key = se.content_creator_pub_key;
    content_creator_address = creator;
    signature = se.signature;
    serialized_size = se.serialized_size;
    included_block_id = bid.text;
    included_slot = slot;
    first_seen_ts_ms = now_ms;
  })

  unfoldable pub decode_endorsement :
      SignedEndorsement → BlockId → Slot → ℕ → Option StoredEndorsement
  unfolding endorsement_of
  decode_endorsement se bid slot now_ms = elim se.content [
    | none ↦ none
    | some content ↦
        endorsement_of se bid slot now_ms content content.slot
          (ok_of (parse_address b58 se.content_creator_address))
  ]

  -- `filter_map(|se| decode_endorsement(se, ..))`
  unfoldable pub decode_endorsements :
      List SignedEndorsement → BlockId → Slot → ℕ → List StoredEndorsement
  decode_endorsements [] bid slot now_ms = []
  decode_endorsements (se ∷ rest) bid slot now_ms =
      let later = decode_endorsements rest bid slot now_ms in
      elim (decode_endorsement se bid slot now_ms) [ none ↦ later | some e ↦ e ∷ later ]

  -- `filter_map(|s| Address::parse(s.clone()).ok())`
  parsed_addrs : List Text → List Address
  parsed_addrs [] = []
  parsed_addrs (s ∷ rest) =
      let later = parsed_addrs rest in
      elim (ok_of (parse_address b58 s)) [ none ↦ later | some a ↦ a ∷ later ]

abbrev first_of : {A : Type 0} → List A → List A
first_of [] = []
first_of (a ∷ rest) = a ∷ []

abbrev last_of : {A : Type 0} → List A → List A
last_of [] = []
last_of (a ∷ []) = a ∷ []
last_of (a ∷ (b ∷ rest)) = last_of (b ∷ rest)

-- The emitters, the callers and the operation of an event.
pub record EventContext : Type 0 where
  pub emitters : List Address
  pub callers : List Address
  pub op_id : Option OperationId

op_named : Base58 → Option Text → Option OperationId
op_named b58 none = none
op_named b58 (some s) = ok_of (parse b58 operation s)

unfoldable pub extract_event_context : Base58 → ScExecutionEvent → EventContext
unfolding parsed_addrs op_named
extract_event_context b58 ev = elim ev.context [
  | none ↦ record { emitters = []; callers = []; op_id = none }
  | some ctx ↦
      let call_stack = parsed_addrs b58 ctx.call_stack in
      record {
        emitters = last_of call_stack;
        callers = first_of call_stack;
        op_id = op_named b58 ctx.origin_operation_id;
      }
]

unfoldable pub stringify_bytes : Wire → Bytes → Text
stringify_bytes wire b = unwrap_or (wire.from_utf8_lossy b) (wire.from_utf8 b)

slot_or_origin : Option PbSlot → Slot
slot_or_origin none = record { period = 0; thread = 0 }
slot_or_origin (some s) = slot_from_pb s

unfoldable pub decode_denunciation : Denunciation → StoredDenunciation
unfolding slot_or_origin
decode_denunciation (Denunciation.header k s h1 h2 s1 s2) =
    StoredDenunciation.block_header k (slot_or_origin s) h1 h2 s1 s2
decode_denunciation (Denunciation.endorsed k s i h1 h2 s1 s2) =
    StoredDenunciation.endorsement k (slot_or_origin s) i h1 h2 s1 s2
decode_denunciation (Denunciation.denounced a s slashed) =
    StoredDenunciation.address a (slot_or_origin s) (amount_or_zero slashed)
decode_denunciation Denunciation.absent = StoredDenunciation.unknown

known_origins : List CoinOrigin
known_origins =
    CoinOrigin.unspecified ∷ CoinOrigin.block_reward ∷ CoinOrigin.deferred_call_fail
    ∷ CoinOrigin.deferred_call_cancel ∷ CoinOrigin.deferred_call_coins
    ∷ CoinOrigin.deferred_call_register ∷ CoinOrigin.deferred_call_storage_refund
    ∷ CoinOrigin.endorsement_reward ∷ CoinOrigin.endorsed_reward ∷ CoinOrigin.slash
    ∷ CoinOrigin.op_roll_buy ∷ CoinOrigin.op_roll_sell ∷ CoinOrigin.op_callsc_coins
    ∷ CoinOrigin.read_only_fn_call_fees ∷ CoinOrigin.read_only_fn_call_coins
    ∷ CoinOrigin.read_only_bytecode_exec_fees ∷ CoinOrigin.set_bytecode_storage
    ∷ CoinOrigin.abi_call_coins ∷ CoinOrigin.abi_transfer_coins ∷ CoinOrigin.abi_transfer_for_coins
    ∷ CoinOrigin.abi_send_msg_coins ∷ CoinOrigin.abi_send_msg_fees
    ∷ CoinOrigin.op_roll_sell_deferred_mas ∷ CoinOrigin.op_executesc_fees
    ∷ CoinOrigin.op_transaction_coins ∷ CoinOrigin.op_transaction_fees ∷ CoinOrigin.async_msg_coins
    ∷ CoinOrigin.async_msg_cancel ∷ CoinOrigin.create_sc_storage ∷ CoinOrigin.datastore_storage
    ∷ CoinOrigin.deferred_credit ∷ []

-- The origins are numbered in this order.
unfoldable pub coin_origin_from_i32 : ℕ → CoinOrigin
unfolding known_origins
coin_origin_from_i32 code = get_or known_origins code (CoinOrigin.other code)

unfoldable pub transfer_value : Option (Option PbValue) → TransferValue
transfer_value none = TransferValue.unknown
transfer_value (some none) = TransferValue.unknown
transfer_value (some (some (PbValue.rolls n))) = TransferValue.rolls n
transfer_value (some (some (PbValue.coins a))) = TransferValue.coins (native_amount_to_nmas a)
transfer_value (some (some (PbValue.deferred_credits a))) =
    TransferValue.deferred_credits (native_amount_to_nmas a)

unfoldable pub is_zero_value : TransferValue → Bool
is_zero_value (TransferValue.coins nmas) = nmas == 0
is_zero_value (TransferValue.deferred_credits nmas) = nmas == 0
is_zero_value (TransferValue.rolls count) = count == 0
is_zero_value TransferValue.unknown = true

unfoldable pub is_reward_origin : CoinOrigin → Bool
is_reward_origin CoinOrigin.block_reward = true
is_reward_origin CoinOrigin.endorsement_reward = true
is_reward_origin CoinOrigin.endorsed_reward = true
is_reward_origin CoinOrigin.slash = true
is_reward_origin CoinOrigin.deferred_credit = true
is_reward_origin _ = false

unfoldable pub is_op_child_origin : CoinOrigin → Bool
is_op_child_origin CoinOrigin.abi_call_coins = true
is_op_child_origin CoinOrigin.abi_transfer_coins = true
is_op_child_origin CoinOrigin.abi_transfer_for_coins = true
is_op_child_origin CoinOrigin.abi_send_msg_coins = true
is_op_child_origin CoinOrigin.abi_send_msg_fees = true
is_op_child_origin CoinOrigin.create_sc_storage = true
is_op_child_origin CoinOrigin.datastore_storage = true
is_op_child_origin CoinOrigin.set_bytecode_storage = true
is_op_child_origin _ = false

-- The decimal digits of a number below 10 ^ 20, as a u64 is.
digits : ℕ → ℕ → Text → Text
digits zero n later = later
digits (suc rounds) n later =
    let rest = digits rounds (n / 10) ((b'0' + n % 10) ∷ later) in
    if ltb n 10 then (b'0' + n) ∷ later else rest

unfoldable pub decimal : ℕ → Text
unfolding digits
decimal n = digits 20 n []

slot_text : Option PbSlot → Text
slot_text none = b'(' ∷ b')' ∷ []
slot_text (some s) = b'(' ∷ decimal s.period ++ b',' ∷ decimal s.thread ++ b')' ∷ []

unfoldable pub format_denunciation_index : DenunciationIndex → Text
unfolding slot_text
format_denunciation_index (DenunciationIndex.header_at s) =
    b'b'
    ∷ b'l'
    ∷ b'o'
    ∷ b'c'
    ∷ b'k'
    ∷ b'_'
    ∷ b'h'
    ∷ b'e'
    ∷ b'a'
    ∷ b'd'
    ∷ b'e'
    ∷ b'r'
    ∷ b'@'
    ∷ slot_text s
format_denunciation_index (DenunciationIndex.endorsement_at s index) =
    b'e' ∷ b'n' ∷ b'd' ∷ b'o' ∷ b'r' ∷ b's' ∷ b'e' ∷ b'm' ∷ b'e' ∷ b'n' ∷ b't' ∷ b'@' ∷ slot_text s
    ++ b'#' ∷ decimal index
format_denunciation_index DenunciationIndex.no_entry =
    b'u' ∷ b'n' ∷ b'k' ∷ b'n' ∷ b'o' ∷ b'w' ∷ b'n' ∷ []
