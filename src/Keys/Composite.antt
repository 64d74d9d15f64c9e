-- ===== src/Keys/Composite.antt =====
-- The composite keys of massa-indexer/src/keys.rs come back from their parsers.
use massa_history.Base.{
  ℕ, ◌+◌, ◌-◌, ◌≡◌, refl, ap, ◌∙◌, true, false, some, [], ◌∷◌, ◌++◌, length, get_or, take, ◌==◌,
  ◌≤◌, drop, arith, length-append, take-append, take-drop-append, drop-append-append, get_or-append,
  append_assoc, eq→==, ltb,
}
use massa_history.Bytes.{Bytes, to_be_bytes, length-to_be_bytes}
use massa_history.Bytes.Encode.{from-to_be_bytes}
use massa_history.Keys.Slot.{IsU64, IsU32, IsU8, rslot_key, decode_rslot_key}
use massa_history.Keys.Index.{
  idx_addr_slot_id, idx_transfer_by_addr, idx_id_slot_index, idx_event_by_addr, idx_event_by_op,
  idx_denunciation_by_addr, idx_denunciation_recent, idx_by_rslot_id,
}
use massa_history.Keys.Parse.{
  parse_idx_addr_slot_id, parse_idx_transfer_by_addr, parse_idx_id_slot_index, parse_idx_event,
  parse_idx_denunciation_by_addr, parse_idx_denunciation_recent, parse_idx_by_rslot_id,
}
use massa_history.Keys.RoundTrip.{length-rslot_key, decode-rslot_key}

length_three : (xs ys zs : Bytes) → length (xs ++ (ys ++ zs)) ≡ length xs + length ys + length zs
length_three xs ys zs = omega (arith, length-append xs (ys ++ zs), length-append ys zs)

pub length-idx :
    (xs : Bytes) (p t : ℕ) (zs : Bytes)
    → length (xs ++ (rslot_key p t ++ zs)) ≡ length xs + 9 + length zs
length-idx xs p t zs = omega (arith, length_three xs (rslot_key p t) zs, length-rslot_key p t)

module _ (n : ℕ) (xs : Bytes) (p t : ℕ) (zs : Bytes) (e : length xs ≡ n) (hp : IsU64 p)
    (ht : IsU8 t) where
  -- The slot in the middle of a key.
  slot_inside : decode_rslot_key (take 9 (drop n (xs ++ (rslot_key p t ++ zs)))) ≡ some (p, t)
  slot_inside =
      ap decode_rslot_key (take-drop-append n 9 xs (rslot_key p t) zs e (length-rslot_key p t))
      ∙ decode-rslot_key p t hp ht

  rest_behind : drop (n + 9) (xs ++ (rslot_key p t ++ zs)) ≡ zs
  rest_behind =
      drop-append-append (n + 9) xs (rslot_key p t) zs (omega (arith, length-rslot_key p t))

length_test :
    (n : ℕ) (xs : Bytes) (p t : ℕ) (zs : Bytes)
    → length xs + 9 + length zs ≡ n
    → (length (xs ++ (rslot_key p t ++ zs)) == n) ≡ true
length_test n xs p t zs h = eq→== _ n (length-idx xs p t zs ∙ h)

short_test : (n : ℕ) (bs : Bytes) → n ≤ length bs → ltb (length bs) n ≡ false
short_test n bs h = ground arith

last_byte :
    (n : ℕ) (xs ys zs : Bytes) (b : ℕ)
    → length xs + length ys + length zs ≡ n
    → get_or (xs ++ (ys ++ (zs ++ b ∷ []))) n 0 ≡ b
last_byte n xs ys zs b h =
    rw (← append_assoc ys zs (b ∷ []), ← append_assoc xs (ys ++ zs) (b ∷ []))
      (get_or-append n (xs ++ (ys ++ zs)) b [] 0 (length_three xs ys zs ∙ h))

-- A row of a by-address index gives back its slot and its id.
pub parse-idx_addr_slot_id :
    (addr : Bytes) (p t : ℕ) (id : Bytes)
    → length addr ≡ 34
    → length id ≡ 33
    → IsU64 p
    → IsU8 t
    → parse_idx_addr_slot_id (idx_addr_slot_id addr p t id) ≡ some (p, t, id)
unfolding parse_idx_addr_slot_id idx_addr_slot_id
parse-idx_addr_slot_id addr p t id ea ei hp ht = rw (
  length_test 76 addr p t id (omega arith),
  slot_inside 34 addr p t id ea hp ht,
  rest_behind 34 addr p t id ea hp ht,
)

-- A row of the by-address transfer index gives back its slot, its index and its role.
pub parse-idx_transfer_by_addr :
    (addr : Bytes) (p t i tag : ℕ)
    → length addr ≡ 34
    → IsU64 p
    → IsU8 t
    → IsU32 i
    → parse_idx_transfer_by_addr (idx_transfer_by_addr addr p t i tag) ≡ some (p, t, i, tag)
unfolding parse_idx_transfer_by_addr idx_transfer_by_addr
parse-idx_transfer_by_addr addr p t i tag ea hp ht hi =
    let zs : Bytes = to_be_bytes 4 i ++ tag ∷ [] in
    let lz : length zs ≡ 5 =
      omega (arith, length-append (to_be_bytes 4 i) (tag ∷ []), length-to_be_bytes 4 i) in
    rw (
      length_test 48 addr p t zs (omega arith),
      slot_inside 34 addr p t zs ea hp ht,
      rest_behind 34 addr p t zs ea hp ht,
      take-append 4 (to_be_bytes 4 i) (tag ∷ []) (length-to_be_bytes 4 i),
      from-to_be_bytes 4 i hi,
      last_byte 47 addr (rslot_key p t) (to_be_bytes 4 i) tag
          (omega (arith, length-rslot_key p t, length-to_be_bytes 4 i)),
    )

-- A row of a by-operation or by-block index gives back its slot and its index.
pub parse-idx_id_slot_index :
    (id : Bytes) (p t i : ℕ)
    → length id ≡ 33
    → IsU64 p
    → IsU8 t
    → IsU32 i
    → parse_idx_id_slot_index (idx_id_slot_index id p t i) ≡ some (p, t, i)
unfolding parse_idx_id_slot_index idx_id_slot_index
parse-idx_id_slot_index id p t i ei hp ht hi = rw (
  length_test 46 id p t (to_be_bytes 4 i) (omega (arith, length-to_be_bytes 4 i)),
  slot_inside 33 id p t (to_be_bytes 4 i) ei hp ht,
  rest_behind 33 id p t (to_be_bytes 4 i) ei hp ht,
  from-to_be_bytes 4 i hi,
)

event_behind :
    (xs : Bytes) (p t i : ℕ)
    → IsU64 p
    → IsU8 t
    → IsU32 i
    → parse_idx_event (xs ++ (rslot_key p t ++ to_be_bytes 4 i)) ≡ some (p, t, i)
unfolding parse_idx_event
event_behind xs p t i hp ht hi =
    let key : Bytes = xs ++ (rslot_key p t ++ to_be_bytes 4 i) in
    let n : length key ≡ length xs + 13 =
      omega (arith, length-idx xs p t (to_be_bytes 4 i), length-to_be_bytes 4 i) in
    let from : length key - 9 - 4 ≡ length xs = omega arith in
    let to : length key - 4 ≡ length xs + 9 = omega arith in
    let width : length xs + 9 - length xs ≡ 9 = omega arith in
    rw (
      short_test 13 key (omega arith),
      from,
      to,
      width,
      slot_inside (length xs) xs p t (to_be_bytes 4 i) refl hp ht,
      rest_behind (length xs) xs p t (to_be_bytes 4 i) refl hp ht,
      from-to_be_bytes 4 i hi,
    )

-- One parser reads both event layouts, the one that begins with an address and the one that
-- begins with an operation id, whatever the length of that first part.
pub parse-idx_event :
    (addr op_id : Bytes) (p t i : ℕ)
    → IsU64 p
    → IsU8 t
    → IsU32 i
    → (parse_idx_event (idx_event_by_addr addr p t i) ≡ some (p, t, i))
      × (parse_idx_event (idx_event_by_op op_id p t i) ≡ some (p, t, i))
unfolding idx_event_by_addr idx_event_by_op idx_id_slot_index
parse-idx_event addr op_id p t i hp ht hi =
    (event_behind addr p t i hp ht hi, event_behind op_id p t i hp ht hi)

-- Both denunciation indexes give back the slot and the hash.
pub parse-idx_denunciation :
    (addr : Bytes) (p t : ℕ) (hash : Bytes)
    → length addr ≡ 34
    → length hash ≡ 32
    → IsU64 p
    → IsU8 t
    → (parse_idx_denunciation_by_addr (idx_denunciation_by_addr addr p t hash) ≡ some (p, t, hash))
      × (parse_idx_denunciation_recent (idx_denunciation_recent p t hash) ≡ some (p, t, hash))
unfolding parse_idx_denunciation_by_addr idx_denunciation_by_addr parse_idx_denunciation_recent
    idx_denunciation_recent
parse-idx_denunciation addr p t hash ea eh hp ht = (
  rw (
    length_test 75 addr p t hash (omega arith),
    slot_inside 34 addr p t hash ea hp ht,
    rest_behind 34 addr p t hash ea hp ht,
  ),
  rw (
    length_test 41 [] p t hash (omega arith),
    slot_inside 0 [] p t hash refl hp ht,
    rest_behind 0 [] p t hash refl hp ht,
  ),
)

-- A row of a by-last-slot index gives back its slot and its id, of any length.
pub parse-idx_by_rslot_id :
    (p t : ℕ) (id : Bytes)
    → IsU64 p
    → IsU8 t
    → parse_idx_by_rslot_id (idx_by_rslot_id p t id) ≡ some (p, t, id)
unfolding parse_idx_by_rslot_id idx_by_rslot_id
parse-idx_by_rslot_id p t id hp ht = rw (
  short_test 9 (rslot_key p t ++ id) (omega (arith, length-idx [] p t id)),
  slot_inside 0 [] p t id refl hp ht,
  rest_behind 0 [] p t id refl hp ht,
)
