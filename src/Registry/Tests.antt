-- ===== src/Registry/Tests.antt =====
-- The registry at concrete inputs; a session is its id.
use massa_history.Base.{ℕ, false, ◌≡◌, refl, some, [], ◌∷◌, List, arith}
use massa_history.Ids.{Text, bytes_eq}
use massa_history.Registry.{
  PeerRegistry, new, add_url, remove_url, is_demoted, lasting, get, clear_session_by_bridge_id,
  set_session, has_any, migrate_peer_id,
}
use massa_history.Registry.Invariant.{IsWellFormed}
use massa_history.Registry.Steps.{
  Op, advertise, demote, attach, detach_everywhere, rename, run, run-IsWellFormed,
}
use massa_history.Registry.Demotion.{removed_url_refused}

abbrev id : ℕ → ℕ
id s = s

abbrev alice : Text
alice = b'a' ∷ []

abbrev bob : Text
bob = b'b' ∷ []

abbrev url : Text
url = b'u' ∷ []

abbrev empty : PeerRegistry ℕ
empty = new

abbrev ops : List (Op ℕ)
ops =
    advertise 0 alice url
    ∷ attach alice 7
    ∷ attach bob 7
    ∷ rename alice bob
    ∷ demote 5 bob url
    ∷ detach_everywhere 7
    ∷ []

-- The two peers become one, which keeps a route until its last session closes.
merged_routes :
    get (run id (advertise 0 alice url ∷ attach alice 7 ∷ rename alice bob ∷ []) empty) bob
    ≡ some (record { urls = url ∷ []; sessions = 7 ∷ [] })
unfolding add_url set_session migrate_peer_id get is_demoted lasting bytes_eq
merged_routes = refl

nothing_left : has_any (run id ops empty) ≡ false
unfolding add_url set_session migrate_peer_id remove_url clear_session_by_bridge_id has_any
    is_demoted lasting bytes_eq
nothing_left = refl

empty-IsWellFormed : IsWellFormed id (empty.inner)
empty-IsWellFormed = record { keys = tt; each = tt }

run-IsWellFormed_example : IsWellFormed id (run id ops empty).inner
run-IsWellFormed_example = run-IsWellFormed id ops empty empty-IsWellFormed

abbrev between : List (Op ℕ)
between = advertise 9 bob alice ∷ attach bob 7 ∷ rename bob alice ∷ demote 20 alice bob ∷ []

removed_url_refused_example :
    (add_url 1804 bob url (run id between (remove_url 5 alice url empty))).inner
    ≡ (run id between (remove_url 5 alice url empty)).inner
removed_url_refused_example =
    removed_url_refused id url 5 1804 alice bob between empty refl refl (omega arith)
      ((omega arith, omega arith), (tt, (tt, ((omega arith, omega arith), tt))))

not_demoted : is_demoted 1805 url (remove_url 5 alice url empty) ≡ false
unfolding is_demoted remove_url lasting bytes_eq
not_demoted = refl

abbrev both : PeerRegistry ℕ
both = run id (advertise 0 alice url ∷ attach alice 7 ∷ attach bob 8 ∷ []) empty

alice_routes : get both alice ≡ some (record { urls = url ∷ []; sessions = 7 ∷ [] })
unfolding add_url set_session get is_demoted lasting bytes_eq
alice_routes = refl

names_differ : bytes_eq alice bob ≡ false
unfolding bytes_eq
names_differ = refl
