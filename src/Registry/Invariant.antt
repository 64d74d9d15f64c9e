-- ===== src/Registry/Invariant.antt =====
-- massa-indexer/src/peer/registry.rs: what every operation keeps of the registry.
use massa_history.Base.{
  ℕ, Bool, false, ◌≡◌, refl, inl, inr, some, List, [], ◌∷◌, All, Bool-cases, Option-cases, arith,
}
use massa_history.Ids.{Text, bytes_eq}
use massa_history.Backfill.{is_empty}
use massa_history.Registry.{
  PeerRoutes, entry_or_default, routeless, put_or_remove, with_url, same_id, with_session, merged,
  push_new, push_all_new, find, remove, insert,
}
use massa_history.Registry.Lists.{
  All-retain, Distinct, Distinct-retain, Distinct-push_new, Distinct-push_all_new, bytes_eq_comm,
  find-All, same_key, Distinct-insert,
}

module _ {ℓ} {A : Type ℓ} (eq : A → A → Bool) where
  push_new-filled : (x : A) (xs : List A) → is_empty (push_new eq x xs) ≡ false
  push_new-filled x [] = refl
  push_new-filled x (y ∷ ys) = ground arith

  push_all_new-keeps :
      (ys xs : List A) → is_empty xs ≡ false → is_empty (push_all_new eq ys xs) ≡ false
  push_all_new-keeps [] xs h = h
  push_all_new-keeps (y ∷ ys) xs h = push_all_new-keeps ys (push_new eq y xs) (push_new-filled y xs)

  push_all_new-filled :
      (ys xs : List A) → is_empty ys ≡ false → is_empty (push_all_new eq ys xs) ≡ false
  push_all_new-filled [] xs h = cc h
  push_all_new-filled (y ∷ ys) xs h =
      push_all_new-keeps ys (push_new eq y xs) (push_new-filled y xs)

module _ {Session : Type 0} (id : Session → ℕ) where
  same_id_comm : (s t : Session) → same_id id s t ≡ same_id id t s
  same_id_comm s t = ground arith

  -- No URL and no session stands twice.
  pub record IsRoutes (e : PeerRoutes Session) : Type 0 where
    pub urls : Distinct bytes_eq e.urls
    pub sessions : Distinct (same_id id) e.sessions

  -- A named peer that can be reached.
  pub record IsEntry (e : Text × PeerRoutes Session) : Type 0 where
    pub named : is_empty e.0 ≡ false
    pub reachable : routeless e.1 ≡ false
    pub routes : IsRoutes e.1

  -- One entry for a peer, and each as it should be.
  pub record IsWellFormed (entries : List (Text × PeerRoutes Session)) : Type 0 where
    pub keys : Distinct same_key entries
    pub each : All IsEntry entries

  pub found :
      (k : Text) (entries : List (Text × PeerRoutes Session)) (e : PeerRoutes Session)
      → IsWellFormed entries
      → find k entries ≡ some e
      → IsEntry (k, e)
  found k entries e w is = find-All IsEntry k entries e w.each is

  pub default-IsRoutes :
      (k : Text) (entries : List (Text × PeerRoutes Session))
      → IsWellFormed entries
      → IsRoutes (entry_or_default k entries)
  default-IsRoutes k entries w = elim (Option-cases (find k entries)) [
    | inl absent ↦ rw (absent, entry_or_default) (record { urls = tt; sessions = tt })
    | inr (e, is) ↦ rw (is, entry_or_default) (found k entries e w is).routes
  ]

  pub remove-IsWellFormed :
      (k : Text) (entries : List (Text × PeerRoutes Session))
      → IsWellFormed entries
      → IsWellFormed (remove k entries)
  remove-IsWellFormed k entries w = record {
    keys = Distinct-retain same_key _ entries w.keys;
    each = All-retain IsEntry _ entries w.each;
  }

  pub insert-IsWellFormed :
      (k : Text) (e : PeerRoutes Session) (entries : List (Text × PeerRoutes Session))
      → IsEntry (k, e)
      → IsWellFormed entries
      → IsWellFormed (insert k e entries)
  insert-IsWellFormed k e entries h w = record {
    keys = Distinct-insert k e entries w.keys;
    each = (h, All-retain IsEntry _ entries w.each);
  }

  pub put_or_remove-IsWellFormed :
      (k : Text) (e : PeerRoutes Session) (entries : List (Text × PeerRoutes Session))
      → is_empty k ≡ false
      → IsRoutes e
      → IsWellFormed entries
      → IsWellFormed (put_or_remove k e entries)
  put_or_remove-IsWellFormed k e entries n h w = elim (Bool-cases (routeless e)) [
    | inl bare ↦ rw bare (remove-IsWellFormed k entries w)
    | inr reached ↦
        rw reached (
          insert-IsWellFormed k e entries (record { named = n; reachable = reached; routes = h }) w)
  ]

  pub with_url-IsEntry :
      (k url : Text) (e : PeerRoutes Session)
      → is_empty k ≡ false
      → IsRoutes e
      → IsEntry (k, with_url url e)
  with_url-IsEntry k url e n h = record {
    named = n;
    reachable = ground (arith, push_new-filled bytes_eq url e.urls);
    routes = record {
      urls = Distinct-push_new bytes_eq bytes_eq_comm url e.urls h.urls;
      sessions = h.sessions;
    };
  }

  pub with_session-IsEntry :
      (k : Text) (s : Session) (e : PeerRoutes Session)
      → is_empty k ≡ false
      → IsRoutes e
      → IsEntry (k, with_session id s e)
  with_session-IsEntry k s e n h = record {
    named = n;
    reachable = ground (arith, push_new-filled (same_id id) s e.sessions);
    routes = record {
      urls = h.urls;
      sessions = Distinct-push_new (same_id id) same_id_comm s e.sessions h.sessions;
    };
  }

  pub merged-IsEntry :
      (k : Text) (old e : PeerRoutes Session)
      → is_empty k ≡ false
      → routeless old ≡ false
      → IsRoutes e
      → IsEntry (k, merged id old e)
  merged-IsEntry k old e n reached h = record {
    named = n;
    reachable = ground (
      arith,
      reached,
      push_all_new-filled bytes_eq old.urls e.urls,
      push_all_new-filled (same_id id) old.sessions e.sessions,
    );
    routes = record {
      urls = Distinct-push_all_new bytes_eq bytes_eq_comm old.urls e.urls h.urls;
      sessions = Distinct-push_all_new (same_id id) same_id_comm old.sessions e.sessions h.sessions;
    };
  }
