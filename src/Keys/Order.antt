-- ===== src/Keys/Order.antt =====
-- The order in which an iterator walks the keys of massa-indexer/src/keys.rs.
use massa_history.Base.{ℕ, compare, Ordering, ◌≡◌, refl, ap, ap₂, sym, ◌∙◌, [], ◌∷◌, ◌++◌}
use massa_history.Bytes.{Bytes, to_be_bytes, then_with, cmp_bytes, length-to_be_bytes}
use massa_history.Bytes.Order.{cmp-append, cmp-to_be_bytes, cmp-map-not, cmp_refl, then_with-eq}
use massa_history.Keys.Slot.{IsU64, IsU8, slot_key, rslot_key}
use massa_history.Keys.Index.{idx_addr_slot_id, idx_denunciation_recent}
use massa_history.Keys.RoundTrip.{length-slot_key, length-rslot_key, slot_key-IsBytes}

-- The order of `(period, thread)` pairs.
abbrev pub cmp_slot : ℕ → ℕ → ℕ → ℕ → Ordering
cmp_slot p t q u = then_with (compare p q) (compare t u)

cmp_thread : (t u : ℕ) → cmp_bytes (t ∷ []) (u ∷ []) ≡ compare t u
unfolding cmp_bytes
cmp_thread t u = then_with-eq (compare t u)

-- Slot keys stand in the order of the slots: an iterator walks them oldest first.
pub cmp-slot_key :
    (p t q u : ℕ) → IsU64 p → IsU64 q → cmp_bytes (slot_key p t) (slot_key q u) ≡ cmp_slot p t q u
unfolding slot_key
cmp-slot_key p t q u hp hq =
    cmp-append (to_be_bytes 8 p) (to_be_bytes 8 q) (t ∷ []) (u ∷ [])
      (length-to_be_bytes 8 p ∙ sym (length-to_be_bytes 8 q))
    ∙ ap₂ then_with (cmp-to_be_bytes 8 p q hp hq) (cmp_thread t u)

-- Complemented slot keys stand in the opposite order: an iterator walks them newest first.
pub cmp-rslot_key :
    (p t q u : ℕ)
    → IsU64 p
    → IsU8 t
    → IsU64 q
    → IsU8 u
    → cmp_bytes (rslot_key p t) (rslot_key q u) ≡ cmp_slot q u p t
unfolding rslot_key
cmp-rslot_key p t q u hp ht hq hu =
    cmp-map-not (slot_key p t) (slot_key q u) (slot_key-IsBytes p t ht) (slot_key-IsBytes q u hu)
      (length-slot_key p t ∙ sym (length-slot_key q u))
    ∙ cmp-slot_key q u p t hq hp

cmp_behind_slot :
    (p t q u : ℕ) (xs ys : Bytes)
    → IsU64 p
    → IsU8 t
    → IsU64 q
    → IsU8 u
    → cmp_bytes (rslot_key p t ++ xs) (rslot_key q u ++ ys)
      ≡ then_with (cmp_slot q u p t) (cmp_bytes xs ys)
cmp_behind_slot p t q u xs ys hp ht hq hu =
    cmp-append (rslot_key p t) (rslot_key q u) xs ys
      (length-rslot_key p t ∙ sym (length-rslot_key q u))
    ∙ ap (λ o. then_with o (cmp_bytes xs ys)) (cmp-rslot_key p t q u hp ht hq hu)

-- The rows of one address stand newest slot first, and by id within a slot.
pub cmp-idx_addr_slot_id :
    (addr : Bytes) (p t q u : ℕ) (id id' : Bytes)
    → IsU64 p
    → IsU8 t
    → IsU64 q
    → IsU8 u
    → cmp_bytes (idx_addr_slot_id addr p t id) (idx_addr_slot_id addr q u id')
      ≡ then_with (cmp_slot q u p t) (cmp_bytes id id')
unfolding idx_addr_slot_id
cmp-idx_addr_slot_id addr p t q u id id' hp ht hq hu =
    cmp-append addr addr (rslot_key p t ++ id) (rslot_key q u ++ id') refl
    ∙ ap₂ then_with (cmp_refl addr) (cmp_behind_slot p t q u id id' hp ht hq hu)

-- The recent denunciations stand newest slot first, and by hash within a slot.
pub cmp-idx_denunciation_recent :
    (p t q u : ℕ) (hash hash' : Bytes)
    → IsU64 p
    → IsU8 t
    → IsU64 q
    → IsU8 u
    → cmp_bytes (idx_denunciation_recent p t hash) (idx_denunciation_recent q u hash')
      ≡ then_with (cmp_slot q u p t) (cmp_bytes hash hash')
unfolding idx_denunciation_recent
cmp-idx_denunciation_recent p t q u hash hash' hp ht hq hu =
    cmp_behind_slot p t q u hash hash' hp ht hq hu
