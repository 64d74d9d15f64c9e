-- ===== src/Codec/Sound.antt =====
-- massa-indexer/src/codec.rs: whatever bytes are decoded, the row that comes of them is storable.
use massa_history.Base.{
  ◌<◌, ◌≡◌, ◌≢◌, inl, inr, Option, some, List, [], ◌∷◌, ltb, All, Bool-cases, Option-cases, length,
  ◌==◌, arith, subst, some_injective,
}
use massa_history.Base.Result.{Result, ok, ok_or, >>=-eq-ok}
use massa_history.Bytes.{Bytes}
use massa_history.Ids.{
  Text, Base58, Family, block, operation, FamilyId, BlockId, as_bytes, from_key_bytes,
}
use massa_history.Model.{Slot, SlotState}
use massa_history.Codec.{
  Message, SlotPb, SlotStatePb, SlotStateFits, decoded, slot_from_pb, slot_from_opt, custom,
  missing_slot, CodecError,
}
use massa_history.Codec.Rows.{
  non_empty, id_from_key, ids_from_keys, final_from_key, slot_state_from_pb, decode_slot_state,
}
use massa_history.Codec.RoundTrip.{Canonical, CanonicalOption, IsStorable}

ok_injective : {A : Type 0} {a b : A} → ◌≡◌ {A = Result CodecError A} (ok a) (ok b) → a ≡ b
ok_injective e = cc e

slot_from_pb-ok : (p : SlotPb) (s : Slot) → slot_from_pb p ≡ ok s → s.thread < 256
unfolding slot_from_pb
slot_from_pb-ok p s e = elim (Bool-cases (ltb p.thread 256)) [
  | inl fits ↦ ground (arith, fits, e)
  | inr large ↦ cc (rw large at e)
]

slot_from_opt-ok : (p : Option SlotPb) (s : Slot) → slot_from_opt p ≡ ok s → s.thread < 256
unfolding slot_from_opt
slot_from_opt-ok p s e =
    let (there, _, rest) = >>=-eq-ok (ok_or p (custom missing_slot)) slot_from_pb e in
    slot_from_pb-ok there s rest

non_empty-some : (t : Text) → non_empty t ≢ some []
unfolding non_empty
non_empty-some [] h = cc h
non_empty-some (c ∷ cs) h = cc h

module _ (b58 : Base58) where
  from_key_bytes-Canonical :
      (f : Family) (bytes : Bytes) (x : FamilyId f)
      → from_key_bytes b58 f bytes ≡ some x
      → Canonical b58 f x
  unfolding from_key_bytes as_bytes
  from_key_bytes-Canonical f bytes x e = elim (Bool-cases (length bytes == 33)) [
    | inl fits ↦ subst (Canonical b58 f) (some_injective (rw fits at e)) (rw fits)
    | inr other ↦ cc (rw other at e)
  ]

  id_from_key-Canonical :
      (f : Family) (bytes : Bytes) (x : FamilyId f)
      → id_from_key b58 f bytes ≡ ok x
      → Canonical b58 f x
  unfolding id_from_key
  id_from_key-Canonical f bytes x e = elim (Option-cases (from_key_bytes b58 f bytes)) [
    | inl n ↦ cc (rw n at e)
    | inr (y, is) ↦ from_key_bytes-Canonical f bytes x (cc (is, rw is at e))
  ]

  ids_from_keys-Canonical :
      (f : Family) (keys : List Bytes) (xs : List (FamilyId f))
      → ids_from_keys b58 f keys ≡ ok xs
      → All (Canonical b58 f) xs
  unfolding ids_from_keys
  ids_from_keys-Canonical f [] xs e = subst (All (Canonical b58 f)) (ok_injective e) tt
  ids_from_keys-Canonical f (k ∷ ks) xs e =
      let (y, here, more) = >>=-eq-ok (id_from_key b58 f k) _ e in
      let (ys, there, is) = >>=-eq-ok (ids_from_keys b58 f ks) _ more in
      subst (All (Canonical b58 f)) (ok_injective is)
        (id_from_key-Canonical f k y here, ids_from_keys-Canonical f ks ys there)

  final_from_key-Canonical :
      (key : Bytes) (x : Option BlockId) → final_from_key b58 key ≡ ok x → CanonicalOption b58 x
  unfolding final_from_key
  final_from_key-Canonical [] x e = subst (CanonicalOption b58) (ok_injective e) tt
  final_from_key-Canonical (b ∷ bs) x e =
      let (y, here, is) = >>=-eq-ok (id_from_key b58 block (b ∷ bs)) _ e in
      subst (CanonicalOption b58) (ok_injective is) (id_from_key-Canonical block (b ∷ bs) y here)

  slot_state_from_pb-IsStorable :
      (p : SlotStatePb) (s : SlotState) → slot_state_from_pb b58 p ≡ ok s → IsStorable b58 s
  unfolding slot_state_from_pb
  slot_state_from_pb-IsStorable p s e =
      let (slot, slot_is, e1) = >>=-eq-ok (slot_from_opt p.slot) _ e in
      let (final, final_is, e2) = >>=-eq-ok (final_from_key b58 p.final_block_id_key) _ e1 in
      let (cands, cands_are, e3) =
        >>=-eq-ok (ids_from_keys b58 block p.candidate_block_id_keys) _ e2 in
      let (ops, ops_are, e4) = >>=-eq-ok (ids_from_keys b58 operation p.executed_op_id_keys) _ e3 in
      subst (IsStorable b58) (ok_injective e4) (record {
        thread = slot_from_opt-ok p.slot slot slot_is;
        final = final_from_key-Canonical p.final_block_id_key final final_is;
        candidates = ids_from_keys-Canonical block p.candidate_block_id_keys cands cands_are;
        executed = ids_from_keys-Canonical operation p.executed_op_id_keys ops ops_are;
        trail = non_empty-some p.execution_trail_hash;
      })

-- Whatever bytes are decoded to a slot row, the row is storable: its thread is a `u8`, its
-- identifiers are canonical, and its trail hash, if there is one, is not empty.
pub decode_slot_state_sound :
    {Wire : Type 0} (prost : Message SlotStatePb Wire SlotStateFits) (b58 : Base58) (bytes : Wire)
    (s : SlotState)
    → decode_slot_state prost b58 bytes ≡ ok s
    → IsStorable b58 s
unfolding decode_slot_state
decode_slot_state_sound prost b58 bytes s e =
    let (p, _, rest) = >>=-eq-ok (decoded (prost.decode bytes)) (slot_state_from_pb b58) e in
    slot_state_from_pb-IsStorable b58 p s rest
