-- ===== src/Codec/Tests.antt =====
-- The codec at concrete inputs. The stand-in for prost keeps the message as it is, and the one for
-- base58-check is the identity on byte strings.
use massa_history.Base.{ℕ, false, ◌≡◌, refl, none, some, [], ◌∷◌, arith, zero, suc}
use massa_history.Base.Result.{ok, err}
use massa_history.Bytes.{Bytes}
use massa_history.Ids.{
  Base58, operation, BlockId, OperationId, from_key_bytes, encode_single_family, as_bytes,
}
use massa_history.Model.{SlotStatus, SlotState, no_parts}
use massa_history.Model.Rows.{MetaRow}
use massa_history.Codec.{
  Message, SlotStatePb, MetaRowPb, SlotStateFits, MetaRowFits, custom, invalid_operation_id_key,
  slot_to_pb, slot_status_to_pb,
}
use massa_history.Codec.Rows.{
  encode_slot_state, decode_slot_state, slot_state_to_pb, meta_row_to_pb, final_key, text_or_empty,
  slot_opt_to_pb, ids_from_keys, id_from_key,
}
use massa_history.Codec.RoundTrip.{IsStorable, decode-encode_slot_state}
use massa_history.Codec.Sound.{decode_slot_state_sound}

abbrev plain : Base58
plain = record { encode = λ bs. bs; decode = λ s. some s; decode-encode = λ bs _. refl }

abbrev slot_message : Message SlotStatePb SlotStatePb SlotStateFits
slot_message = record {
  encode_to_vec = λ m. m;
  decode = λ m. ok m;
  decode-encode_to_vec = λ m _. refl;
}

abbrev meta_message : Message MetaRowPb MetaRowPb MetaRowFits
meta_message = record {
  encode_to_vec = λ m. m;
  decode = λ m. ok m;
  decode-encode_to_vec = λ m _. refl;
}

abbrev repeat : ℕ → ℕ → Bytes
repeat zero b = []
repeat (suc n) b = b ∷ repeat n b

abbrev the_block : BlockId
the_block = record { key = repeat 33 7; text = b'B' ∷ repeat 33 7 }

abbrev the_operation : OperationId
the_operation = record { key = repeat 33 9; text = b'O' ∷ repeat 33 9 }

abbrev row : SlotState
row = record {
  slot = record { period = 100; thread = 5 };
  status = SlotStatus.final;
  is_miss = false;
  final_block_id = some the_block;
  candidate_block_ids = the_block ∷ [];
  execution_trail_hash = some (b'h' ∷ []);
  executed_op_ids = the_operation ∷ [];
  sc_event_count = 2;
  completeness = no_parts;
  first_seen_ts_ms = 1000;
  last_updated_ts_ms = 2000;
}

row-IsStorable : IsStorable plain row
unfolding from_key_bytes as_bytes encode_single_family
row-IsStorable = record {
  thread = omega arith;
  final = refl;
  candidates = (refl, tt);
  executed = (refl, tt);
  trail = λ e. cc e;
}

row-fits : SlotStateFits (slot_state_to_pb row)
unfolding slot_state_to_pb slot_to_pb slot_status_to_pb final_key as_bytes text_or_empty
row-fits = omega arith

decode-encode_slot_state_example :
    decode_slot_state slot_message plain (encode_slot_state slot_message row) ≡ ok row
decode-encode_slot_state_example =
    decode-encode_slot_state slot_message plain row row-IsStorable row-fits

decode_slot_state_sound_example : IsStorable plain row
decode_slot_state_sound_example =
    decode_slot_state_sound slot_message plain (encode_slot_state slot_message row) row
      decode-encode_slot_state_example

-- A key that is one byte short is refused.
short_key : ids_from_keys plain operation (repeat 32 9 ∷ []) ≡ err (custom invalid_operation_id_key)
unfolding ids_from_keys id_from_key from_key_bytes
short_key = refl

abbrev meta : MetaRow
meta = record {
  network = b'm' ∷ [];
  genesis_timestamp_ms = 5;
  t0_ms = 16000;
  thread_count = 32;
  last_final_slot = some (record { period = 9; thread = 31 });
  last_candidate_slot = none;
  build_version = [];
  created_at_ms = 6;
  updated_at_ms = 7;
}

meta-fits : MetaRowFits (meta_row_to_pb meta)
unfolding meta_row_to_pb slot_opt_to_pb slot_to_pb
meta-fits = omega arith
