-- ===== src/Registry/Clearing.antt =====
-- massa-indexer/src/peer/registry.rs: the removal of a bridge from every entry.
use massa_history.Base.{
  ℕ, true, false, not, ◌≡◌, refl, ◌⊎◌, inl, inr, List, [], ◌∷◌, All, Bool-cases, arith, ◌==◌, subst,
}
use massa_history.Ids.{Text, bytes_eq}
use massa_history.Ids.Equality.{bytes_eq_refl}
use massa_history.Backfill.{is_empty}
use massa_history.Registry.{
  PeerRoutes, PeerRegistry, routeless, without_session, empty_keys, cleared,
  clear_session_by_bridge_id, any_eq, remove, remove_all, same_id,
}
use massa_history.Registry.Lists.{
  All-retain, All-retain-keep, All-zip, Distinct, Distinct-retain, bytes_eq_comm, same_key,
}
use massa_history.Registry.Invariant.{IsRoutes, IsEntry, IsWellFormed}

module _ {Session : Type 0} (id : Session → ℕ) where
  pub without-IsRoutes :
      (b : ℕ) (e : PeerRoutes Session) → IsRoutes id e → IsRoutes id (without_session id b e)
  without-IsRoutes b e h = record {
    urls = h.urls;
    sessions = Distinct-retain (same_id id) _ e.sessions h.sessions;
  }

  -- An entry on the way: it can be reached, or its key is to be removed.
  abbrev Pending : List Text → (Text × PeerRoutes Session) → Type 0
  Pending ks e =
      (is_empty e.0 ≡ false)
      × IsRoutes id e.1
      × ((routeless e.1 ≡ false) ⊎ (any_eq bytes_eq e.0 ks ≡ true))

  passed :
      (k : Text) (ks : List Text) (e : Text × PeerRoutes Session)
      → Pending (k ∷ ks) e
      → not (bytes_eq e.0 k) ≡ true
      → Pending ks e
  passed k ks e (n, h, inl reached) other = (n, h, inl reached)
  passed k ks e (n, h, inr listed) other =
      (n, h, inr (ground (arith, listed, other, bytes_eq_comm e.0 k)))

  postponed :
      (k : Text) (ks : List Text) (e : Text × PeerRoutes Session)
      → Pending ks e
      → Pending ks e
      → Pending (k ∷ ks) e
  postponed k ks e (n, h, inl reached) _ = (n, h, inl reached)
  postponed k ks e (n, h, inr listed) _ = (n, h, inr (ground (arith, listed)))

  remove_all-IsWellFormed :
      (ks : List Text) (entries : List (Text × PeerRoutes Session))
      → Distinct same_key entries
      → All (Pending ks) entries
      → IsWellFormed id (remove_all ks entries)
  remove_all-IsWellFormed [] entries d hs = record {
    keys = d;
    each =
        All-zip (Pending []) (Pending []) (IsEntry id) entries
          (λ e p _. record {
            named = p.0;
            reachable = elim p.2 [ inl reached ↦ reached | inr listed ↦ cc listed ];
            routes = p.1;
          })
          hs hs;
  }
  remove_all-IsWellFormed (k ∷ ks) entries d hs =
      remove_all-IsWellFormed ks (remove k entries) (Distinct-retain same_key _ entries d) (
        All-zip (Pending (k ∷ ks)) _ (Pending ks) (remove k entries) (passed k ks)
          (All-retain (Pending (k ∷ ks)) _ entries hs) (All-retain-keep _ entries))

  empty_keys-Pending :
      (b : ℕ) (entries : List (Text × PeerRoutes Session))
      → All (IsEntry id) entries
      → All (Pending (empty_keys id (cleared id b entries))) (cleared id b entries)
  empty_keys-Pending b [] hs = tt
  empty_keys-Pending b ((k, e) ∷ rest) (h, hs) =
      let ks = empty_keys id (cleared id b rest) in
      let later = empty_keys-Pending b rest hs in
      elim (Bool-cases (routeless (without_session id b e))) [
        | inl bare ↦
            let grown : k ∷ ks ≡ empty_keys id (cleared id b ((k, e) ∷ rest)) = rw bare in
            subst (λ zs. All (Pending zs) (cleared id b ((k, e) ∷ rest))) grown
              (
                (h.named, without-IsRoutes b e h.routes, inr (rw (bytes_eq_refl k))),
                All-zip (Pending ks) (Pending ks) (Pending (k ∷ ks)) (cleared id b rest)
                    (postponed k ks) later later,
              )
        | inr reached ↦
            let same : ks ≡ empty_keys id (cleared id b ((k, e) ∷ rest)) = rw reached in
            subst (λ zs. All (Pending zs) (cleared id b ((k, e) ∷ rest))) same
              ((h.named, without-IsRoutes b e h.routes, inl reached), later)
      ]

  any_key-cleared :
      (b : ℕ) (k : Text) (e : PeerRoutes Session) (entries : List (Text × PeerRoutes Session))
      → any_eq same_key (k, e) entries ≡ false
      → any_eq same_key (k, without_session id b e) (cleared id b entries) ≡ false
  any_key-cleared b k e [] h = refl
  any_key-cleared b k e (f ∷ rest) h = ground (arith, h, any_key-cleared b k e rest)

  Distinct-cleared :
      (b : ℕ) (entries : List (Text × PeerRoutes Session))
      → Distinct same_key entries
      → Distinct same_key (cleared id b entries)
  Distinct-cleared b [] d = tt
  Distinct-cleared b ((k, e) ∷ rest) (fresh, d) =
      (any_key-cleared b k e rest fresh, Distinct-cleared b rest d)

  pub clear-IsWellFormed :
      (b : ℕ) (r : PeerRegistry Session)
      → IsWellFormed id r.inner
      → IsWellFormed id (clear_session_by_bridge_id id b r).inner
  unfolding clear_session_by_bridge_id
  clear-IsWellFormed b r w =
      remove_all-IsWellFormed (empty_keys id (cleared id b r.inner)) (cleared id b r.inner)
        (Distinct-cleared b r.inner w.keys) (empty_keys-Pending b r.inner w.each)

  -- An entry without a session of that bridge.
  abbrev pub Without : ℕ → (Text × PeerRoutes Session) → Type 0
  Without b e = All (λ s. not (id s == b) ≡ true) e.1.sessions

  remove_all-Without :
      (b : ℕ) (ks : List Text) (entries : List (Text × PeerRoutes Session))
      → All (Without b) entries
      → All (Without b) (remove_all ks entries)
  remove_all-Without b [] entries h = h
  remove_all-Without b (k ∷ ks) entries h =
      remove_all-Without b ks (remove k entries) (All-retain (Without b) _ entries h)

  cleared-Without :
      (b : ℕ) (entries : List (Text × PeerRoutes Session)) → All (Without b) (cleared id b entries)
  cleared-Without b [] = tt
  cleared-Without b (e ∷ rest) = (All-retain-keep _ e.1.sessions, cleared-Without b rest)

  -- After a bridge is cleared, no entry has a session of it.
  pub clear_session_by_bridge_id_gone :
      (b : ℕ) (r : PeerRegistry Session) → All (Without b) (clear_session_by_bridge_id id b r).inner
  unfolding clear_session_by_bridge_id
  clear_session_by_bridge_id_gone b r =
      remove_all-Without b (empty_keys id (cleared id b r.inner)) (cleared id b r.inner)
        (cleared-Without b r.inner)
