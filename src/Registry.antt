-- ===== src/Registry.antt =====
-- massa-indexer/src/peer/registry.rs: the routes to each remote peer. A `HashMap` is the list of its
-- entries, a lock is held for the whole of an operation, and `Instant::now()` is an argument, in
-- seconds. Of a session the registry reads the id only: `Session` and `id` are parameters.
pub mod Lists
pub mod Invariant
pub mod Clearing
pub mod Steps
pub mod Demotion
pub mod Migration
mod Tests
use massa_history.Base.{
  ℕ, ◌+◌, Bool, true, false, not, ◌&&◌, ◌||◌, Option, none, some, List, [], ◌∷◌, ◌++◌, map,
  if◌then◌else◌, ltb, ◌==◌,
}
use massa_history.Ids.{Text, bytes_eq}
use massa_history.Backfill.{is_empty}

abbrev pub url_demote_ttl : ℕ
url_demote_ttl = 1800

module _ {ℓ} {A : Type ℓ} where
  -- `Vec::retain`
  abbrev pub retain : (A → Bool) → List A → List A
  retain keep [] = []
  retain keep (x ∷ xs) = let rest = retain keep xs in if keep x then x ∷ rest else rest

  -- `.iter().any(|u| u == x)`
  abbrev pub any_eq : (A → A → Bool) → A → List A → Bool
  any_eq eq x [] = false
  any_eq eq x (y ∷ ys) = eq y x || any_eq eq x ys

  -- `push`, of what is not there yet.
  abbrev pub push_new : (A → A → Bool) → A → List A → List A
  push_new eq x xs = if any_eq eq x xs then xs else xs ++ x ∷ []

  abbrev pub push_all_new : (A → A → Bool) → List A → List A → List A
  push_all_new eq [] xs = xs
  push_all_new eq (y ∷ ys) xs = push_all_new eq ys (push_new eq y xs)

module _ {ℓ} {A : Type ℓ} where
  -- `HashMap::get`, `remove` and `insert`.
  abbrev pub find : Text → List (Text × A) → Option A
  find k [] = none
  find k ((j, v) ∷ rest) = let later = find k rest in if bytes_eq j k then some v else later

  abbrev pub remove : Text → List (Text × A) → List (Text × A)
  remove k entries = retain (λ e. not (bytes_eq e.0 k)) entries

  abbrev pub insert : Text → A → List (Text × A) → List (Text × A)
  insert k v entries = (k, v) ∷ remove k entries

abbrev pub remove_all {ℓ} : {A : Type ℓ} → List Text → List (Text × A) → List (Text × A)
remove_all [] entries = entries
remove_all (k ∷ ks) entries = remove_all ks (remove k entries)

pub record PeerRoutes (Session : Type 0) : Type 0 where
  pub urls : List Text
  pub sessions : List Session

pub record PeerRegistry (Session : Type 0) : Type 0 where
  pub inner : List (Text × PeerRoutes Session)
  pub demoted_urls : List (Text × ℕ)

module _ {Session : Type 0} where
  abbrev pub new : PeerRegistry Session
  new = record { inner = []; demoted_urls = [] }

  abbrev pub no_routes : PeerRoutes Session
  no_routes = record { urls = []; sessions = [] }

  unfoldable pub has_any : PeerRegistry Session → Bool
  has_any r = not (is_empty r.inner)

  unfoldable pub get : PeerRegistry Session → Text → Option (PeerRoutes Session)
  get r peer_id = find peer_id r.inner

  -- `entry(..).or_default()`
  abbrev pub entry_or_default : Text → List (Text × PeerRoutes Session) → PeerRoutes Session
  entry_or_default k entries = elim (find k entries) [ none ↦ no_routes | some e ↦ e ]

  abbrev pub routeless : PeerRoutes Session → Bool
  routeless e = is_empty e.sessions && is_empty e.urls

  -- What is left of an entry that was changed through `get_mut`.
  abbrev pub put_or_remove :
      Text
      → PeerRoutes Session
      → List (Text × PeerRoutes Session)
      → List (Text × PeerRoutes Session)
  put_or_remove k e entries = if routeless e then remove k entries else insert k e entries

  -- The demotions that last, and whether `url` has one.
  unfoldable pub lasting : ℕ → PeerRegistry Session → List (Text × ℕ)
  lasting now r = retain (λ d. ltb now d.1) r.demoted_urls

  unfoldable pub is_demoted : ℕ → Text → PeerRegistry Session → Bool
  is_demoted now url r = elim (find url (lasting now r)) [ none ↦ false | some until ↦ true ]

  abbrev pub with_url : Text → PeerRoutes Session → PeerRoutes Session
  with_url url e = record { urls = push_new bytes_eq url e.urls; sessions = e.sessions }

  unfoldable pub add_url : ℕ → Text → Text → PeerRegistry Session → PeerRegistry Session
  add_url now peer_id url r =
      if is_empty peer_id || is_empty url
      then r
      else if is_demoted now url r
      then record { inner = r.inner; demoted_urls = lasting now r }
      else record {
        inner = insert peer_id (with_url url (entry_or_default peer_id r.inner)) r.inner;
        demoted_urls = lasting now r;
      }

  abbrev pub without_url : Text → PeerRoutes Session → PeerRoutes Session
  without_url url e = record {
    urls = retain (λ u. not (bytes_eq u url)) e.urls;
    sessions = e.sessions;
  }

  unfoldable pub remove_url : ℕ → Text → Text → PeerRegistry Session → PeerRegistry Session
  remove_url now peer_id url r = if is_empty peer_id || is_empty url then r else record {
    inner = elim (find peer_id r.inner) [
      | none ↦ r.inner
      | some e ↦ put_or_remove peer_id (without_url url e) r.inner
    ];
    demoted_urls = insert url (now + url_demote_ttl) r.demoted_urls;
  }

module _ {Session : Type 0} (id : Session → ℕ) where
  abbrev pub same_id : Session → Session → Bool
  same_id s t = id s == id t

  abbrev pub with_session : Session → PeerRoutes Session → PeerRoutes Session
  with_session s e = record { urls = e.urls; sessions = push_new same_id s e.sessions }

  unfoldable pub set_session : Text → Session → PeerRegistry Session → PeerRegistry Session
  set_session peer_id s r = if is_empty peer_id then r else record {
    inner = insert peer_id (with_session s (entry_or_default peer_id r.inner)) r.inner;
    demoted_urls = r.demoted_urls;
  }

  abbrev pub without_session : ℕ → PeerRoutes Session → PeerRoutes Session
  without_session bridge_id e = record {
    urls = e.urls;
    sessions = retain (λ s. not (id s == bridge_id)) e.sessions;
  }

  unfoldable pub clear_session_by_id : Text → ℕ → PeerRegistry Session → PeerRegistry Session
  clear_session_by_id peer_id bridge_id r = record {
    inner = elim (find peer_id r.inner) [
      | none ↦ r.inner
      | some e ↦ put_or_remove peer_id (without_session bridge_id e) r.inner
    ];
    demoted_urls = r.demoted_urls;
  }

  abbrev pub empty_keys : List (Text × PeerRoutes Session) → List Text
  empty_keys [] = []
  empty_keys ((k, e) ∷ rest) =
      let later = empty_keys rest in if routeless e then k ∷ later else later

  abbrev pub cleared : ℕ → List (Text × PeerRoutes Session) → List (Text × PeerRoutes Session)
  cleared bridge_id entries = map (λ e. (e.0, without_session bridge_id e.1)) entries

  unfoldable pub clear_session_by_bridge_id : ℕ → PeerRegistry Session → PeerRegistry Session
  clear_session_by_bridge_id bridge_id r = record {
    inner = remove_all (empty_keys (cleared bridge_id r.inner)) (cleared bridge_id r.inner);
    demoted_urls = r.demoted_urls;
  }

  abbrev pub merged : PeerRoutes Session → PeerRoutes Session → PeerRoutes Session
  merged old e = record {
    urls = push_all_new bytes_eq old.urls e.urls;
    sessions = push_all_new same_id old.sessions e.sessions;
  }

  abbrev pub moved :
      Text
      → Text
      → Option (PeerRoutes Session)
      → List (Text × PeerRoutes Session)
      → List (Text × PeerRoutes Session)
  moved from to none entries = entries
  moved from to (some old) entries =
      let rest = remove from entries in insert to (merged old (entry_or_default to rest)) rest

  unfoldable pub migrate_peer_id : Text → Text → PeerRegistry Session → PeerRegistry Session
  migrate_peer_id from to r =
      if is_empty from || (is_empty to || bytes_eq from to) then r else record {
        inner = moved from to (find from r.inner) r.inner;
        demoted_urls = r.demoted_urls;
      }
