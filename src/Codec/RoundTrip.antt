-- ===== src/Codec/RoundTrip.antt =====
-- massa-indexer/src/codec.rs: an encoded row is decoded to the same row.
use massa_history.Base.{◌<◌, ◌≡◌, ◌≢◌, refl, Option, none, some, List, [], ◌∷◌, map, lt→ltb, All}
use massa_history.Base.Result.{ok}
use massa_history.Bytes.{Bytes}
use massa_history.Ids.{
  Text, Base58, Family, block, operation, FamilyId, BlockId, as_bytes, from_key_bytes,
}
use massa_history.Model.{Slot, SlotStatus, BlockStatus, ExecStatus, SlotState}
use massa_history.Model.Rows.{MetaRow}
use massa_history.Codec.{
  Message, SlotStatePb, MetaRowPb, SlotStateFits, MetaRowFits, slot_to_pb, slot_from_pb,
  slot_from_opt, slot_status_to_pb, slot_status_from_pb, exec_status_to_pb, exec_status_from_pb,
  block_status_to_pb, block_status_from_pb,
}
use massa_history.Codec.Rows.{
  final_key, text_or_empty, non_empty, slot_opt_to_pb, is_some, flagged_slot, id_from_key,
  ids_from_keys, final_from_key, slot_state_to_pb, slot_state_from_pb, meta_row_to_pb,
  thread_count_from, meta_row_from_pb, encode_slot_state, decode_slot_state, encode_meta_row,
  decode_meta_row, completeness_from_pb, completeness_to_pb,
}

-- An identifier that is shown the way its key bytes are.
abbrev pub Canonical : Base58 → (f : Family) → FamilyId f → Type 0
Canonical b58 f x = from_key_bytes b58 f (as_bytes x) ≡ some x

abbrev pub CanonicalOption : Base58 → Option BlockId → Type 0
CanonicalOption b58 none = Unit
CanonicalOption b58 (some x) = Canonical b58 block x

-- A slot row whose thread is a `u8`, whose identifiers are canonical and whose trail hash, if
-- there is one, is not empty.
pub record IsStorable (b58 : Base58) (s : SlotState) : Type 0 where
  pub thread : s.slot.thread < 256
  pub final : CanonicalOption b58 s.final_block_id
  pub candidates : All (Canonical b58 block) s.candidate_block_ids
  pub executed : All (Canonical b58 operation) s.executed_op_ids
  pub trail : s.execution_trail_hash ≢ some []

slot_from_pb-to : (s : Slot) → s.thread < 256 → slot_from_pb (slot_to_pb s) ≡ ok s
unfolding slot_from_pb slot_to_pb
slot_from_pb-to s h = rw (lt→ltb _ _ h)

pub slot_status-round : (s : SlotStatus) → slot_status_from_pb (slot_status_to_pb s) ≡ s
unfolding slot_status_from_pb slot_status_to_pb
slot_status-round SlotStatus.unknown = refl
slot_status-round SlotStatus.candidate = refl
slot_status-round SlotStatus.final = refl

exec_status-round : (s : ExecStatus) → exec_status_from_pb (exec_status_to_pb s) ≡ some s
unfolding exec_status_from_pb exec_status_to_pb
exec_status-round ExecStatus.ok = refl
exec_status-round ExecStatus.failed = refl

block_status-round : (s : BlockStatus) → block_status_from_pb (block_status_to_pb s) ≡ s
unfolding block_status_from_pb block_status_to_pb
block_status-round BlockStatus.seen_candidate = refl
block_status-round BlockStatus.final = refl
block_status-round BlockStatus.discarded = refl

-- The numbers of the three status enums lead back to the status.
pub status_round :
    (slot : SlotStatus) (exec : ExecStatus) (body : BlockStatus)
    → (slot_status_from_pb (slot_status_to_pb slot) ≡ slot)
      × (exec_status_from_pb (exec_status_to_pb exec) ≡ some exec)
      × (block_status_from_pb (block_status_to_pb body) ≡ body)
status_round slot exec body =
    (slot_status-round slot, exec_status-round exec, block_status-round body)

trail-round : (t : Option Text) → t ≢ some [] → non_empty (text_or_empty t) ≡ t
unfolding non_empty text_or_empty
trail-round none h = refl
trail-round (some []) h = absurd (h refl)
trail-round (some (c ∷ cs)) h = refl

abbrev pub ThreadFits : Option Slot → Type 0
ThreadFits none = Unit
ThreadFits (some x) = x.thread < 256

flagged_slot-round :
    (s : Option Slot) → ThreadFits s → flagged_slot (is_some s) (slot_opt_to_pb s) ≡ ok s
unfolding flagged_slot slot_opt_to_pb slot_from_opt
flagged_slot-round none h = refl
flagged_slot-round (some x) h = rw (slot_from_pb-to x h)

module _ (b58 : Base58) where
  id_from_key-ok :
      (f : Family) (x : FamilyId f) → Canonical b58 f x → id_from_key b58 f (as_bytes x) ≡ ok x
  unfolding id_from_key
  id_from_key-ok f x h = rw h

  ids_from_keys-ok :
      (f : Family) (xs : List (FamilyId f))
      → All (Canonical b58 f) xs
      → ids_from_keys b58 f (map as_bytes xs) ≡ ok xs
  unfolding ids_from_keys
  ids_from_keys-ok f [] h = refl
  ids_from_keys-ok f (x ∷ xs) (here, rest) =
      rw (id_from_key-ok f x here, ids_from_keys-ok f xs rest)

  -- Key bytes that make an identifier are not empty.
  final_from_key-some :
      (key : Bytes) (x : BlockId)
      → from_key_bytes b58 block key ≡ some x
      → final_from_key b58 key ≡ ok (some x)
  unfolding final_from_key id_from_key from_key_bytes
  final_from_key-some [] x h = cc h
  final_from_key-some (b ∷ bs) x h = rw h

  final_from_key-round :
      (x : Option BlockId) → CanonicalOption b58 x → final_from_key b58 (final_key x) ≡ ok x
  unfolding final_key final_from_key
  final_from_key-round none h = refl
  final_from_key-round (some x) h = final_from_key-some (as_bytes x) x h

  slot_state-round :
      (s : SlotState) → IsStorable b58 s → slot_state_from_pb b58 (slot_state_to_pb s) ≡ ok s
  unfolding slot_state_from_pb slot_state_to_pb slot_from_opt completeness_from_pb
      completeness_to_pb
  slot_state-round s w = rw (
    slot_from_pb-to s.slot w.thread,
    final_from_key-round s.final_block_id w.final,
    ids_from_keys-ok block s.candidate_block_ids w.candidates,
    ids_from_keys-ok operation s.executed_op_ids w.executed,
    slot_status-round s.status,
    trail-round s.execution_trail_hash w.trail,
  )

-- A storable slot row whose fields are in the range of their types is decoded to itself.
pub decode-encode_slot_state :
    {Wire : Type 0} (prost : Message SlotStatePb Wire SlotStateFits) (b58 : Base58) (s : SlotState)
    → IsStorable b58 s
    → SlotStateFits (slot_state_to_pb s)
    → decode_slot_state prost b58 (encode_slot_state prost s) ≡ ok s
unfolding decode_slot_state encode_slot_state
decode-encode_slot_state prost b58 s w fits =
    rw (prost.decode-encode_to_vec (slot_state_to_pb s) fits, slot_state-round b58 s w)

meta_row-round :
    (m : MetaRow)
    → m.thread_count < 256
    → ThreadFits m.last_final_slot
    → ThreadFits m.last_candidate_slot
    → meta_row_from_pb (meta_row_to_pb m) ≡ ok m
unfolding meta_row_from_pb meta_row_to_pb thread_count_from
meta_row-round m h final candidate = rw (
  lt→ltb _ _ h,
  flagged_slot-round m.last_final_slot final,
  flagged_slot-round m.last_candidate_slot candidate,
)

-- A metadata row whose thread numbers and thread count are a `u8` each, and whose other fields are
-- in the range of their types, is decoded to itself.
pub decode-encode_meta_row :
    {Wire : Type 0} (prost : Message MetaRowPb Wire MetaRowFits) (m : MetaRow)
    → m.thread_count < 256
    → ThreadFits m.last_final_slot
    → ThreadFits m.last_candidate_slot
    → MetaRowFits (meta_row_to_pb m)
    → decode_meta_row prost (encode_meta_row prost m) ≡ ok m
unfolding decode_meta_row encode_meta_row
decode-encode_meta_row prost m h final candidate fits =
    rw (prost.decode-encode_to_vec (meta_row_to_pb m) fits, meta_row-round m h final candidate)
