-- ===== src/Codec.antt =====
-- massa-indexer/src/codec.rs: rows and the protobuf messages of proto/indexer/v1/storage.proto,
-- here the rows of slots and of the metadata. The crate prost is the parameter `Message`: what it
-- makes of a message is of the parameter type `Wire`. An `i32` or `i64` is its bit pattern, and an
-- error message is a constructor of `Complaint`.
pub mod Rows
pub mod RoundTrip
pub mod Sound
mod Tests
use massa_history.Base.{
  ℕ, Bool, ◌<◌, ◌^◌, ◌≤◌, ◌⊎◌, Option, none, some, List, ◌≡◌, All, if◌then◌else◌, ltb, ◌==◌,
}
use massa_history.Base.Result.{Result, ok, err, ok_or, ◌>>=◌}
use massa_history.Bytes.{Bytes, IsBytes}
use massa_history.Ids.{Text}
use massa_history.Model.{Slot, SlotStatus, BlockStatus, ExecStatus}

pub record SlotPb : Type 0 where
  pub period : ℕ
  pub thread : ℕ

pub data SlotStatusPb : Type 0 where
  slot_status_unknown slot_status_candidate slot_status_final : SlotStatusPb

pub data BlockStatusPb : Type 0 where
  block_status_unspecified block_status_seen_candidate block_status_final block_status_discarded :
      BlockStatusPb

pub data ExecStatusPb : Type 0 where
  exec_status_unspecified exec_status_ok exec_status_failed : ExecStatusPb

pub record SlotCompletenessPb : Type 0 where
  pub block_body_stored : Bool
  pub exec_output_final : Bool
  pub exec_output_candidate : Bool
  pub transfers_stored : Bool

pub record SlotStatePb : Type 0 where
  pub slot : Option SlotPb
  pub status : ℕ
  pub is_miss : Bool
  pub final_block_id_key : Bytes
  pub candidate_block_id_keys : List Bytes
  pub execution_trail_hash : Text
  pub executed_op_id_keys : List Bytes
  pub sc_event_count : ℕ
  pub completeness : Option SlotCompletenessPb
  pub first_seen_ts_ms : ℕ
  pub last_updated_ts_ms : ℕ

pub record MetaRowPb : Type 0 where
  pub network : Text
  pub genesis_timestamp_ms : ℕ
  pub t0_ms : ℕ
  pub thread_count : ℕ
  pub last_final_slot : Option SlotPb
  pub has_last_final_slot : Bool
  pub last_candidate_slot : Option SlotPb
  pub has_last_candidate_slot : Bool
  pub build_version : Text
  pub created_at_ms : ℕ
  pub updated_at_ms : ℕ

pub data Complaint : Type 0 where
  invalid_block_id_key invalid_operation_id_key thread_above_255 missing_slot : Complaint
  thread_count_above_255 : Complaint

pub data CodecError : Type 0 where
  decode : Text → CodecError
  custom : Complaint → CodecError

-- prost's encoding of a message whose fields are in the range of their types.
pub record Message (M Wire : Type 0) (Fits : M → Type 0) : Type 0 where
  pub encode_to_vec : M → Wire
  pub decode : Wire → Result Text M
  pub decode-encode_to_vec : (m : M) → Fits m → decode (encode_to_vec m) ≡ ok m

abbrev pub IsChar : ℕ → Type 0
IsChar c = (c < 55296) ⊎ (57344 ≤ c) × (c < 1114112)

abbrev pub SlotFits : Option SlotPb → Type 0
SlotFits none = Unit
SlotFits (some p) = (p.period < 2 ^ 64) × (p.thread < 2 ^ 32)

abbrev pub SlotStateFits : SlotStatePb → Type 0
SlotStateFits m =
    SlotFits m.slot
    × (m.status < 2 ^ 32)
    × IsBytes m.final_block_id_key
    × All IsBytes m.candidate_block_id_keys
    × All IsChar m.execution_trail_hash
    × All IsBytes m.executed_op_id_keys
    × (m.sc_event_count < 2 ^ 32)
    × (m.first_seen_ts_ms < 2 ^ 64)
    × (m.last_updated_ts_ms < 2 ^ 64)

abbrev pub MetaRowFits : MetaRowPb → Type 0
MetaRowFits m =
    All IsChar m.network
    × (m.genesis_timestamp_ms < 2 ^ 64)
    × (m.t0_ms < 2 ^ 64)
    × (m.thread_count < 2 ^ 32)
    × SlotFits m.last_final_slot
    × SlotFits m.last_candidate_slot
    × All IsChar m.build_version
    × (m.created_at_ms < 2 ^ 64)
    × (m.updated_at_ms < 2 ^ 64)

-- `?` of prost's error.
abbrev pub decoded : {M : Type 0} → Result Text M → Result CodecError M
decoded (ok m) = ok m
decoded (err why) = err (CodecError.decode why)

unfoldable pub slot_to_pb : Slot → SlotPb
slot_to_pb s = record { period = s.period; thread = s.thread }

unfoldable pub slot_from_pb : SlotPb → Result CodecError Slot
slot_from_pb p =
    if ltb p.thread 256
    then ok (record { period = p.period; thread = p.thread })
    else err (custom thread_above_255)

unfoldable pub slot_from_opt : Option SlotPb → Result CodecError Slot
slot_from_opt p = do there ← ok_or p (custom missing_slot); slot_from_pb there

unfoldable pub slot_status_to_pb : SlotStatus → ℕ
slot_status_to_pb SlotStatus.unknown = 0
slot_status_to_pb SlotStatus.candidate = 1
slot_status_to_pb SlotStatus.final = 2

-- `SlotStatusPb::try_from`, by the numbers of storage.proto; so are the next two.
abbrev slot_status_tag : ℕ → Option SlotStatusPb
slot_status_tag i =
    if i == 0
    then some slot_status_unknown
    else if i == 1
    then some slot_status_candidate
    else if i == 2
    then some slot_status_final
    else none

abbrev slot_status_of : Option SlotStatusPb → SlotStatus
slot_status_of (some slot_status_candidate) = SlotStatus.candidate
slot_status_of (some slot_status_final) = SlotStatus.final
slot_status_of (some slot_status_unknown) = SlotStatus.unknown
slot_status_of none = SlotStatus.unknown

unfoldable pub slot_status_from_pb : ℕ → SlotStatus
slot_status_from_pb i = slot_status_of (slot_status_tag i)

unfoldable pub exec_status_to_pb : ExecStatus → ℕ
exec_status_to_pb ExecStatus.ok = 1
exec_status_to_pb ExecStatus.failed = 2

abbrev exec_status_tag : ℕ → Option ExecStatusPb
exec_status_tag i =
    if i == 0
    then some exec_status_unspecified
    else if i == 1
    then some exec_status_ok
    else if i == 2
    then some exec_status_failed
    else none

abbrev exec_status_of : Option ExecStatusPb → Option ExecStatus
exec_status_of (some exec_status_ok) = some ExecStatus.ok
exec_status_of (some exec_status_failed) = some ExecStatus.failed
exec_status_of (some exec_status_unspecified) = none
exec_status_of none = none

unfoldable pub exec_status_from_pb : ℕ → Option ExecStatus
exec_status_from_pb i = exec_status_of (exec_status_tag i)

unfoldable pub block_status_to_pb : BlockStatus → ℕ
block_status_to_pb BlockStatus.seen_candidate = 1
block_status_to_pb BlockStatus.final = 2
block_status_to_pb BlockStatus.discarded = 3

abbrev block_status_tag : ℕ → Option BlockStatusPb
block_status_tag i =
    if i == 0
    then some block_status_unspecified
    else if i == 1
    then some block_status_seen_candidate
    else if i == 2
    then some block_status_final
    else if i == 3
    then some block_status_discarded
    else none

abbrev block_status_of : Option BlockStatusPb → BlockStatus
block_status_of (some block_status_final) = BlockStatus.final
block_status_of (some block_status_discarded) = BlockStatus.discarded
block_status_of (some block_status_seen_candidate) = BlockStatus.seen_candidate
block_status_of (some block_status_unspecified) = BlockStatus.seen_candidate
block_status_of none = BlockStatus.seen_candidate

unfoldable pub block_status_from_pb : ℕ → BlockStatus
block_status_from_pb i = block_status_of (block_status_tag i)
