-- ===== src/Registry/Steps.antt =====
-- massa-indexer/src/peer/registry.rs: the operations as the steps of one registry.
use massa_history.Base.{
  ℕ, ◌||◌, inl, inr, none, some, List, [], ◌∷◌, Bool-cases, Option-cases, arith,
}
use massa_history.Ids.{Text, bytes_eq}
use massa_history.Backfill.{is_empty}
use massa_history.Registry.{
  PeerRoutes, PeerRegistry, entry_or_default, put_or_remove, with_url, add_url, without_url,
  remove_url, with_session, set_session, without_session, clear_session_by_id,
  clear_session_by_bridge_id, merged, migrate_peer_id, find, remove, is_demoted,
}
use massa_history.Registry.Lists.{Distinct-retain}
use massa_history.Registry.Invariant.{
  IsRoutes, IsWellFormed, found, default-IsRoutes, remove-IsWellFormed, insert-IsWellFormed,
  put_or_remove-IsWellFormed, with_url-IsEntry, with_session-IsEntry, merged-IsEntry,
}
use massa_history.Registry.Clearing.{without-IsRoutes, clear-IsWellFormed}

-- The calls of the operations, with their arguments.
pub data Op (Session : Type 0) : Type 0 where
  advertise : (now : ℕ) (peer_id url : Text) → Op Session
  demote : (now : ℕ) (peer_id url : Text) → Op Session
  attach : (peer_id : Text) (s : Session) → Op Session
  detach : (peer_id : Text) (bridge_id : ℕ) → Op Session
  detach_everywhere : (bridge_id : ℕ) → Op Session
  rename : (from to : Text) → Op Session

module _ {Session : Type 0} (id : Session → ℕ) where
  abbrev pub step : Op Session → PeerRegistry Session → PeerRegistry Session
  step (advertise now p u) r = add_url now p u r
  step (demote now p u) r = remove_url now p u r
  step (attach p s) r = set_session id p s r
  step (detach p b) r = clear_session_by_id id p b r
  step (detach_everywhere b) r = clear_session_by_bridge_id id b r
  step (rename from to) r = migrate_peer_id id from to r

  abbrev pub run : List (Op Session) → PeerRegistry Session → PeerRegistry Session
  run [] r = r
  run (o ∷ os) r = run os (step o r)

  abbrev Kept : PeerRegistry Session → Type 0
  Kept r = IsWellFormed id r.inner

  add_url-Kept :
      (now : ℕ) (p u : Text) (r : PeerRegistry Session) → Kept r → Kept (add_url now p u r)
  unfolding add_url
  add_url-Kept now p u r w = elim (Bool-cases (is_empty p || is_empty u)) [
    | inl bare ↦ rw bare w
    | inr full ↦ elim (Bool-cases (is_demoted now u r)) [
      | inl shut ↦ rw (full, shut) w
      | inr open_url ↦
          rw (full, open_url)
            (insert-IsWellFormed id p (with_url u (entry_or_default p r.inner)) r.inner
              (with_url-IsEntry id p u (entry_or_default p r.inner) (ground (arith, full))
                (default-IsRoutes id p r.inner w))
              w)
    ]
  ]

  changed-IsWellFormed :
      (p : Text) (f : PeerRoutes Session → PeerRoutes Session) (r : PeerRegistry Session)
      → ((e : PeerRoutes Session) → IsRoutes id e → IsRoutes id (f e))
      → Kept r
      → IsWellFormed id
          (elim (find p r.inner) [ none ↦ r.inner | some e ↦ put_or_remove p (f e) r.inner ])
  changed-IsWellFormed p f r kept w = elim (Option-cases (find p r.inner)) [
    | inl absent ↦ rw absent w
    | inr (e, is) ↦ rw is (
        put_or_remove-IsWellFormed id p (f e) r.inner (found id p r.inner e w is).named
          (kept e (found id p r.inner e w is).routes) w)
  ]

  remove_url-Kept :
      (now : ℕ) (p u : Text) (r : PeerRegistry Session) → Kept r → Kept (remove_url now p u r)
  unfolding remove_url
  remove_url-Kept now p u r w = elim (Bool-cases (is_empty p || is_empty u)) [
    | inl bare ↦ rw bare w
    | inr full ↦ rw full (
        changed-IsWellFormed p (without_url u) r
          (λ e h. record { urls = Distinct-retain bytes_eq _ e.urls h.urls; sessions = h.sessions })
          w)
  ]

  set_session-Kept :
      (p : Text) (s : Session) (r : PeerRegistry Session) → Kept r → Kept (set_session id p s r)
  unfolding set_session
  set_session-Kept p s r w = elim (Bool-cases (is_empty p)) [
    | inl bare ↦ rw bare w
    | inr full ↦ rw full (
        insert-IsWellFormed id p (with_session id s (entry_or_default p r.inner)) r.inner
          (with_session-IsEntry id p s (entry_or_default p r.inner) full
            (default-IsRoutes id p r.inner w))
          w)
  ]

  migrate_peer_id-Kept :
      (a b : Text) (r : PeerRegistry Session) → Kept r → Kept (migrate_peer_id id a b r)
  unfolding migrate_peer_id
  migrate_peer_id-Kept a b r w = elim (Bool-cases (is_empty a || (is_empty b || bytes_eq a b))) [
    | inl bare ↦ rw bare w
    | inr full ↦ elim (Option-cases (find a r.inner)) [
      | inl absent ↦ rw (full, absent) w
      | inr (old, is) ↦
          let rest = remove a r.inner in
          let kept = remove-IsWellFormed id a r.inner w in
          rw (full, is)
            (insert-IsWellFormed id b (merged id old (entry_or_default b rest)) rest
              (merged-IsEntry id b old (entry_or_default b rest) (ground (arith, full))
                (found id a r.inner old w is).reachable (default-IsRoutes id b rest kept))
              kept)
    ]
  ]

  step-Kept : (o : Op Session) (r : PeerRegistry Session) → Kept r → Kept (step o r)
  unfolding clear_session_by_id
  step-Kept (advertise now p u) r w = add_url-Kept now p u r w
  step-Kept (demote now p u) r w = remove_url-Kept now p u r w
  step-Kept (attach p s) r w = set_session-Kept p s r w
  step-Kept (detach p b) r w =
      changed-IsWellFormed p (without_session id b) r (without-IsRoutes id b) w
  step-Kept (detach_everywhere b) r w = clear-IsWellFormed id b r w
  step-Kept (rename from to) r w = migrate_peer_id-Kept from to r w

  -- Whatever operations run, a well-formed registry stays one: it has one entry for a peer, each
  -- under a non-empty name and with some route, and no URL and no session stands twice in one.
  pub run-IsWellFormed :
      (ops : List (Op Session)) (r : PeerRegistry Session)
      → IsWellFormed id r.inner
      → IsWellFormed id (run ops r).inner
  run-IsWellFormed [] r w = w
  run-IsWellFormed (o ∷ os) r w = run-IsWellFormed os (step o r) (step-Kept o r w)
