-- ===== src/Keys/Scan.antt =====
-- Which rows a scan by prefix meets, and that no two transfers share a row of the address index.
use massa_history.Base.{
  ℕ, ◌≡◌, ap, sym, ◌∙◌, ◌↔◌, true, Option, some, ◌++◌, length, take, take-append,
}
use massa_history.Bytes.{Bytes, starts_with}
use massa_history.Bytes.Prefix.{starts_with-append, starts_with-eq}
use massa_history.Keys.Slot.{IsU64, IsU32, IsU8, rslot_key}
use massa_history.Keys.Index.{idx_transfer_by_addr, idx_by_rslot_id, idx_by_rslot_prefix}
use massa_history.Keys.RoundTrip.{length-rslot_key, decode-rslot_key}
use massa_history.Keys.Composite.{parse-idx_transfer_by_addr}

begins_iff :
    (xs rest ps : Bytes) → length xs ≡ length ps → (starts_with (xs ++ rest) ps ≡ true) ↔ (xs ≡ ps)
begins_iff xs rest ps e = (
  starts_with-eq xs rest ps e,
  λ h. ap (starts_with (xs ++ rest)) (sym h) ∙ starts_with-append xs rest,
)

rslot_key-injective :
    (p t q u : ℕ)
    → IsU64 p
    → IsU8 t
    → IsU64 q
    → IsU8 u
    → rslot_key p t ≡ rslot_key q u
    → (p ≡ q) × (t ≡ u)
rslot_key-injective p t q u hp ht hq hu e =
    let same : ◌≡◌ {A = Option (ℕ × ℕ)} (some (p, t)) (some (q, u)) =
      cc (decode-rslot_key p t hp ht, decode-rslot_key q u hq hu, e) in
    (cc same, cc same)

-- A scan by the prefix of a slot meets a row of a by-last-slot index exactly when the row is of
-- that slot.
pub scan-by-rslot :
    (p t q u : ℕ) (id : Bytes)
    → IsU64 p
    → IsU8 t
    → IsU64 q
    → IsU8 u
    → (starts_with (idx_by_rslot_id p t id) (idx_by_rslot_prefix q u) ≡ true) ↔ ((p ≡ q) × (t ≡ u))
unfolding idx_by_rslot_id idx_by_rslot_prefix
scan-by-rslot p t q u id hp ht hq hu =
    let iff =
      begins_iff (rslot_key p t) id (rslot_key q u)
        (length-rslot_key p t ∙ sym (length-rslot_key q u)) in
    (λ h. rslot_key-injective p t q u hp ht hq hu (iff.0 h), λ h. iff.1 (cc (h.0, h.1)))

first_part :
    (addr addr' xs ys : Bytes)
    → length addr ≡ 34
    → length addr' ≡ 34
    → addr ++ xs ≡ addr' ++ ys
    → addr ≡ addr'
first_part addr addr' xs ys h h' e =
    sym (take-append 34 addr xs h) ∙ ap (take 34) e ∙ take-append 34 addr' ys h'

address :
    (addr addr' : Bytes) (p t i tag p' t' i' tag' : ℕ)
    → length addr ≡ 34
    → length addr' ≡ 34
    → idx_transfer_by_addr addr p t i tag ≡ idx_transfer_by_addr addr' p' t' i' tag'
    → addr ≡ addr'
unfolding idx_transfer_by_addr
address addr addr' p t i tag p' t' i' tag' h h' e = first_part addr addr' _ _ h h' e

-- Two transfer rows of the address index are the same row only if the address, the slot, the
-- index and the role are the same: a self-transfer keeps its two rows apart.
pub idx_transfer_by_addr-injective :
    (addr addr' : Bytes) (p t i tag p' t' i' tag' : ℕ)
    → (length addr ≡ 34) × IsU64 p × IsU8 t × IsU32 i
    → (length addr' ≡ 34) × IsU64 p' × IsU8 t' × IsU32 i'
    → idx_transfer_by_addr addr p t i tag ≡ idx_transfer_by_addr addr' p' t' i' tag'
    → (addr ≡ addr') × (p ≡ p') × (t ≡ t') × (i ≡ i') × (tag ≡ tag')
idx_transfer_by_addr-injective addr addr' p t i tag p' t' i' tag' h h' e =
    let same : ◌≡◌ {A = Option (ℕ × ℕ × ℕ × ℕ)} (some (p, t, i, tag)) (some (p', t', i', tag')) =
      cc (
        parse-idx_transfer_by_addr addr p t i tag h.0 h.1 h.2 h.3,
        parse-idx_transfer_by_addr addr' p' t' i' tag' h'.0 h'.1 h'.2 h'.3,
        e,
      ) in
    (address addr addr' p t i tag p' t' i' tag' h.0 h'.0 e, cc same, cc same, cc same, cc same)
