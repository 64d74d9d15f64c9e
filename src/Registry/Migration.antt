-- ===== src/Registry/Migration.antt =====
-- massa-indexer/src/peer/registry.rs: `migrate_peer_id` moves the routes of one name to another.
use massa_history.Base.{
  ℕ, Bool, true, false, not, ◌≡◌, refl, inl, inr, none, some, List, [], ◌∷◌, ◌++◌, All, Bool-cases,
  arith,
}
use massa_history.Ids.{Text, bytes_eq}
use massa_history.Ids.Equality.{bytes_eq→eq, bytes_eq_refl}
use massa_history.Backfill.{is_empty}
use massa_history.Registry.{
  PeerRoutes, PeerRegistry, get, entry_or_default, merged, migrate_peer_id, any_eq, push_new,
  push_all_new, find, remove, same_id,
}
use massa_history.Registry.Lists.{All-retain, All-retain-keep, bytes_eq_comm}

module _ {A : Type 0} (eq : A → A → Bool) (same : (x : A) → eq x x ≡ true)
    (chain : (x y z : A) → eq x y ≡ true → eq y z ≡ true → eq x z ≡ true) where
  any_eq-chain :
      (y u : A) (xs : List A) → eq y u ≡ true → any_eq eq y xs ≡ true → any_eq eq u xs ≡ true
  any_eq-chain y u [] h k = cc k
  any_eq-chain y u (z ∷ zs) h k = elim (Bool-cases (eq z y)) [
    | inl hit ↦ rw (chain z y u hit h)
    | inr off ↦ ground (arith, any_eq-chain y u zs h (rw off at k))
  ]

  any_eq-append :
      (u y : A) (xs : List A) → any_eq eq u xs ≡ true → any_eq eq u (xs ++ y ∷ []) ≡ true
  any_eq-append u y [] h = cc h
  any_eq-append u y (x ∷ xs) h = ground (arith, h, any_eq-append u y xs)

  any_eq-last : (y : A) (xs : List A) → any_eq eq y (xs ++ y ∷ []) ≡ true
  any_eq-last y [] = rw (same y)
  any_eq-last y (x ∷ xs) = ground (arith, any_eq-last y xs)

  any_eq-push_new :
      (u y : A) (xs : List A) → any_eq eq u xs ≡ true → any_eq eq u (push_new eq y xs) ≡ true
  any_eq-push_new u y xs h = elim (Bool-cases (any_eq eq y xs)) [
    | inl there ↦ rw there h
    | inr fresh ↦ rw fresh (any_eq-append u y xs h)
  ]

  any_eq-pushed : (y : A) (xs : List A) → any_eq eq y (push_new eq y xs) ≡ true
  any_eq-pushed y xs = elim (Bool-cases (any_eq eq y xs)) [
    | inl there ↦ rw (there, there)
    | inr fresh ↦ rw fresh (any_eq-last y xs)
  ]

  any_eq-kept :
      (u : A) (ys xs : List A) → any_eq eq u xs ≡ true → any_eq eq u (push_all_new eq ys xs) ≡ true
  any_eq-kept u [] xs h = h
  any_eq-kept u (y ∷ ys) xs h = any_eq-kept u ys (push_new eq y xs) (any_eq-push_new u y xs h)

  any_eq-push_all_new :
      (u : A) (ys xs : List A) → any_eq eq u ys ≡ true → any_eq eq u (push_all_new eq ys xs) ≡ true
  any_eq-push_all_new u [] xs h = cc h
  any_eq-push_all_new u (y ∷ ys) xs h = elim (Bool-cases (eq y u)) [
    | inl hit ↦
        any_eq-kept u ys (push_new eq y xs)
          (any_eq-chain y u (push_new eq y xs) hit (any_eq-pushed y xs))
    | inr off ↦ any_eq-push_all_new u ys (push_new eq y xs) (rw off at h)
  ]

bytes_eq_chain : (x y z : Text) → bytes_eq x y ≡ true → bytes_eq y z ≡ true → bytes_eq x z ≡ true
bytes_eq_chain x y z h k = rw (bytes_eq→eq x y h) k

find-absent :
    {A : Type 0} (k : Text) (entries : List (Text × A))
    → All (λ e. not (bytes_eq e.0 k) ≡ true) entries
    → find k entries ≡ none
find-absent k [] h = refl
find-absent k (e ∷ rest) (here, later) = ground (arith, here, find-absent k rest later)

module _ {Session : Type 0} (id : Session → ℕ) where
  same_id_refl : (s : Session) → same_id id s s ≡ true
  same_id_refl s = ground arith

  same_id_chain :
      (s t u : Session) → same_id id s t ≡ true → same_id id t u ≡ true → same_id id s u ≡ true
  same_id_chain s t u h k = ground arith

  -- Every URL and every session of `a` is one of `b`.
  pub record IsCovered (a b : PeerRoutes Session) : Type 0 where
    pub urls : (u : Text) → any_eq bytes_eq u a.urls ≡ true → any_eq bytes_eq u b.urls ≡ true
    pub sessions :
        (s : Session)
        → any_eq (same_id id) s a.sessions ≡ true
        → any_eq (same_id id) s b.sessions ≡ true

  merged-IsCovered : (old e : PeerRoutes Session) → IsCovered old (merged id old e)
  merged-IsCovered old e = record {
    urls = λ u. any_eq-push_all_new bytes_eq bytes_eq_refl bytes_eq_chain u old.urls e.urls;
    sessions =
        λ s. any_eq-push_all_new (same_id id) same_id_refl same_id_chain s old.sessions e.sessions;
  }

  kept-IsCovered : (old e : PeerRoutes Session) → IsCovered e (merged id old e)
  kept-IsCovered old e = record {
    urls = λ u. any_eq-kept bytes_eq bytes_eq_refl bytes_eq_chain u old.urls e.urls;
    sessions = λ s. any_eq-kept (same_id id) same_id_refl same_id_chain s old.sessions e.sessions;
  }

  -- When the routes of one name are moved to another, two names that differ and are not empty, the
  -- first has no entry any more, and the entry of the other has every URL and every session that
  -- the first had, and those that it had itself.
  pub migrate_peer_id_moves :
      (from to : Text) (r : PeerRegistry Session) (old : PeerRoutes Session)
      → is_empty from ≡ false
      → is_empty to ≡ false
      → bytes_eq from to ≡ false
      → get r from ≡ some old
      → (get (migrate_peer_id id from to r) from ≡ none)
        × ((e : PeerRoutes Session) × (get (migrate_peer_id id from to r) to ≡ some e)
            × IsCovered old e
            × IsCovered (entry_or_default to (remove from r.inner)) e)
  unfolding migrate_peer_id get
  migrate_peer_id_moves from to r old nf nt other is =
      let rest = remove from r.inner in
      let before = entry_or_default to rest in
      (
        rw (nf, nt, other, is, bytes_eq_comm to from, other)
            (find-absent from (remove to rest) (All-retain _ _ rest (All-retain-keep _ r.inner))),
        (
          merged id old before,
          rw (nf, nt, other, is, bytes_eq_refl to),
          merged-IsCovered old before,
          kept-IsCovered old before,
        ),
      )
