-- ===== src/Keys/RoundTrip.antt =====
-- The slot keys of massa-indexer/src/keys.rs and their decoders are inverse to one another.
use massa_history.Base.{
  ℕ, ◌≡◌, ap, ap₂, sym, ◌∙◌, inl, inr, some, [], ◌∷◌, ◌++◌, map, length, get_or, take, arith,
  length-append, length-map, take-append, drop-append, get_or-append, take-get_or, length-take,
  eq→==, Bool-cases, ==_iff, ◌==◌, zero, suc,
}
use massa_history.Bytes.{Bytes, IsBytes, to_be_bytes, from_be_bytes, not_u8, length-to_be_bytes}
use massa_history.Bytes.Encode.{
  from-to_be_bytes, to-from_be_bytes, map-not-not, map-not-IsBytes, IsBytes-append,
  to_be_bytes-IsBytes,
}
use massa_history.Keys.Slot.{
  IsU64, IsU32, IsU8, slot_key, decode_slot_key, rslot_key, decode_rslot_key, sc_event_key,
  decode_slot_indexed_key,
}

pub length-slot_key : (p t : ℕ) → length (slot_key p t) ≡ 9
unfolding slot_key
length-slot_key p t =
    length-append (to_be_bytes 8 p) (t ∷ []) ∙ omega (arith, length-to_be_bytes 8 p)

pub length-rslot_key : (p t : ℕ) → length (rslot_key p t) ≡ 9
unfolding rslot_key
length-rslot_key p t = length-map not_u8 (slot_key p t) ∙ length-slot_key p t

pub slot_key-IsBytes : (p t : ℕ) → IsU8 t → IsBytes (slot_key p t)
unfolding slot_key
slot_key-IsBytes p t h = IsBytes-append (to_be_bytes 8 p) (t ∷ []) (to_be_bytes-IsBytes 8 p) (h, tt)

-- A slot is decoded from its key.
pub decode-slot_key : (p t : ℕ) → IsU64 p → decode_slot_key (slot_key p t) ≡ some (p, t)
unfolding decode_slot_key
decode-slot_key p t h = rw (eq→== _ _ (length-slot_key p t)) (
    unfold slot_key in
    ap₂ (λ q u. some (q, u))
      (ap from_be_bytes (take-append 8 (to_be_bytes 8 p) (t ∷ []) (length-to_be_bytes 8 p))
        ∙ from-to_be_bytes 8 p h)
      (get_or-append 8 (to_be_bytes 8 p) t [] 0 (length-to_be_bytes 8 p)))

decode_rslot-eq : (bs : Bytes) → decode_rslot_key bs ≡ decode_slot_key (map not_u8 bs)
unfolding decode_rslot_key decode_slot_key
decode_rslot-eq bs = rw (length-map not_u8 bs)

-- A slot is decoded from its complemented key.
pub decode-rslot_key : (p t : ℕ) → IsU64 p → IsU8 t → decode_rslot_key (rslot_key p t) ≡ some (p, t)
unfolding rslot_key
decode-rslot_key p t h k =
    decode_rslot-eq (rslot_key p t)
    ∙ ap decode_slot_key (map-not-not (slot_key p t) (slot_key-IsBytes p t k))
    ∙ decode-slot_key p t h

All-take : (n : ℕ) (bs : Bytes) → IsBytes bs → IsBytes (take n bs)
All-take zero bs h = tt
All-take (suc n) [] h = tt
All-take (suc n) (b ∷ bs) h = (h.0, All-take n bs h.1)

slot_key_of_parts :
    (bs : Bytes)
    → IsBytes bs
    → length bs ≡ 9
    → slot_key (from_be_bytes (take 8 bs)) (get_or bs 8 0) ≡ bs
unfolding slot_key
slot_key_of_parts bs h e =
    ap (λ xs. xs ++ get_or bs 8 0 ∷ [])
      (to-from_be_bytes 8 (take 8 bs) (length-take 8 bs (omega arith)) (All-take 8 bs h))
    ∙ take-get_or 8 bs 0 e

-- Bytes that decode to a slot are that slot's key.
pub slot_key-decode :
    (bs : Bytes) (p t : ℕ) → IsBytes bs → decode_slot_key bs ≡ some (p, t) → slot_key p t ≡ bs
unfolding decode_slot_key
slot_key-decode bs p t h d = elim (Bool-cases (length bs == 9)) [
  | inl e ↦ cc (slot_key_of_parts bs h ((==_iff _ _).0 e), e, d)
  | inr e ↦ cc (e, d)
]

-- Bytes that decode as a complemented key are the slot's complemented key.
pub rslot_key-decode :
    (bs : Bytes) (p t : ℕ) → IsBytes bs → decode_rslot_key bs ≡ some (p, t) → rslot_key p t ≡ bs
unfolding rslot_key
rslot_key-decode bs p t h d =
    ap (map not_u8)
      (slot_key-decode (map not_u8 bs) p t (map-not-IsBytes bs) (sym (decode_rslot-eq bs) ∙ d))
    ∙ map-not-not bs h

-- The primary key of an event or a transfer gives back its slot and its index.
pub decode-slot_indexed_key :
    (p t i : ℕ) → IsU64 p → IsU32 i → decode_slot_indexed_key (sc_event_key p t i) ≡ some (p, t, i)
unfolding decode_slot_indexed_key sc_event_key
decode-slot_indexed_key p t i hp hi = rw (
  eq→== _ 13 (
      length-append (slot_key p t) (to_be_bytes 4 i)
      ∙ omega (arith, length-slot_key p t, length-to_be_bytes 4 i)),
  take-append 9 (slot_key p t) (to_be_bytes 4 i) (length-slot_key p t),
  drop-append 9 (slot_key p t) (to_be_bytes 4 i) (length-slot_key p t),
  decode-slot_key p t hp,
  from-to_be_bytes 4 i hi,
)
