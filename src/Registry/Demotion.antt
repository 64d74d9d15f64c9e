-- ===== src/Registry/Demotion.antt =====
-- massa-indexer/src/peer/registry.rs: when a URL is listed and when it is refused.
use massa_history.Base.{
  ℕ, ◌+◌, ◌<◌, ◌≤◌, Bool, true, false, ◌||◌, ◌≡◌, refl, ◌∙◌, ap, inl, inr, none, some, List, [],
  ◌∷◌, ◌++◌, All, Bool-cases, arith, ltb, some_injective,
}
use massa_history.Ids.{Text, bytes_eq}
use massa_history.Ids.Equality.{bytes_eq_refl, bytes_eq→eq}
use massa_history.Backfill.{is_empty}
use massa_history.Registry.{
  PeerRoutes, PeerRegistry, add_url, remove_url, is_demoted, lasting, get, url_demote_ttl, any_eq,
  push_new, remove, entry_or_default, with_url, find, retain, set_session, clear_session_by_id,
  clear_session_by_bridge_id, migrate_peer_id,
}
use massa_history.Registry.Steps.{
  Op, advertise, demote, attach, detach, detach_everywhere, rename, step, run,
}

any_url-append : (u : Text) (us : List Text) → any_eq bytes_eq u (us ++ u ∷ []) ≡ true
any_url-append u [] = rw (bytes_eq_refl u)
any_url-append u (v ∷ us) = ground (arith, any_url-append u us)

any_url-push_new : (u : Text) (us : List Text) → any_eq bytes_eq u (push_new bytes_eq u us) ≡ true
any_url-push_new u us = elim (Bool-cases (any_eq bytes_eq u us)) [
  | inl there ↦ rw (there, there)
  | inr fresh ↦ rw fresh (any_url-append u us)
]

module _ {ℓ} {A : Type ℓ} where
  -- An entry that a test keeps is still found.
  find-retain :
      (keep : Text × A → Bool) (k : Text) (v : A) (entries : List (Text × A))
      → ((j : Text) → keep (j, v) ≡ true)
      → find k entries ≡ some v
      → find k (retain keep entries) ≡ some v
  find-retain keep k v [] stays e = e
  find-retain keep k v ((j, w) ∷ rest) stays e = elim (Bool-cases (bytes_eq j k)) [
    | inl same ↦
        let is : w ≡ v = some_injective (rw same at e) in
        let kept : keep (j, w) ≡ true = rw is (stays j) in rw (kept, same, is)
    | inr other ↦
        let ih = find-retain keep k v rest stays (rw other at e) in
        elim (Bool-cases (keep (j, w))) [ inl kept ↦ rw (kept, other) ih | inr gone ↦ rw gone ih ]
  ]

  -- Another entry that is removed or replaced does not hide it.
  find-remove-other :
      (j k : Text) (entries : List (Text × A))
      → bytes_eq j k ≡ false
      → find k (remove j entries) ≡ find k entries
  find-remove-other j k [] other = refl
  find-remove-other j k ((i, w) ∷ rest) other = elim (Bool-cases (bytes_eq i j)) [
    | inl gone ↦
        let is : i ≡ j = bytes_eq→eq i j gone in
        let apart : bytes_eq i k ≡ false = rw is other in
        rw (gone, apart) (find-remove-other j k rest other)
    | inr kept ↦ elim (Bool-cases (bytes_eq i k)) [
      | inl here ↦ rw (kept, here)
      | inr on ↦ rw (kept, on) (find-remove-other j k rest other)
    ]
  ]

-- The operation, if it reads the clock, does so in the time from `now` to `later`.
abbrev pub Meanwhile : {Session : Type 0} → ℕ → ℕ → Op Session → Type 0
Meanwhile now later (advertise t p u) = (now ≤ t) × (t ≤ later)
Meanwhile now later (demote t p u) = (now ≤ t) × (t ≤ later)
Meanwhile now later _ = Unit

module _ {Session : Type 0} (id : Session → ℕ) (u : Text) where
  -- A demotion of `u` that lasts beyond `later`.
  Shut : ℕ → PeerRegistry Session → Type 0
  Shut later r = (until : ℕ) × (find u r.demoted_urls ≡ some until) × (later < until)

  Shut-is_demoted :
      (later : ℕ) (r : PeerRegistry Session) → Shut later r → is_demoted later u r ≡ true
  unfolding Shut is_demoted lasting
  Shut-is_demoted later r (until, e, soon) =
      ap (λ o. elim o [ none ↦ false | some _ ↦ true ])
        (find-retain (λ d. ltb later d.1) u until r.demoted_urls (λ j. ground (arith, soon)) e)

  add_url-Shut :
      (later t : ℕ) (p v : Text) (r : PeerRegistry Session)
      → t ≤ later
      → Shut later r
      → Shut later (add_url t p v r)
  unfolding Shut add_url lasting
  add_url-Shut later t p v r h (until, e, soon) =
      let kept =
        find-retain (λ d. ltb t d.1) u until r.demoted_urls (λ j. ground (arith, soon, h)) e in
      elim (Bool-cases (is_empty p || is_empty v)) [
        | inl bare ↦ rw bare (until, e, soon)
        | inr full ↦ elim (Bool-cases (is_demoted t v r)) [
          | inl shut ↦ rw (full, shut) (until, kept, soon)
          | inr free ↦ rw (full, free) (until, kept, soon)
        ]
      ]

  remove_url-Shut :
      (later t : ℕ) (p v : Text) (r : PeerRegistry Session)
      → later < t + url_demote_ttl
      → Shut later r
      → Shut later (remove_url t p v r)
  unfolding Shut remove_url
  remove_url-Shut later t p v r h (until, e, soon) = elim (Bool-cases (is_empty p || is_empty v)) [
    | inl bare ↦ rw bare (until, e, soon)
    | inr full ↦ elim (Bool-cases (bytes_eq v u)) [
      | inl same ↦ rw full (t + url_demote_ttl, rw same, h)
      | inr other ↦ rw full (until, rw other (find-remove-other v u r.demoted_urls other ∙ e), soon)
    ]
  ]

  migrate-Shut :
      (later : ℕ) (p q : Text) (r : PeerRegistry Session)
      → Shut later r
      → Shut later (migrate_peer_id id p q r)
  unfolding Shut migrate_peer_id
  migrate-Shut later p q r s = elim (Bool-cases (is_empty p || (is_empty q || bytes_eq p q))) [
    | inl bare ↦ rw bare s
    | inr full ↦ rw full s
  ]

  set_session-Shut :
      (later : ℕ) (p : Text) (c : Session) (r : PeerRegistry Session)
      → Shut later r
      → Shut later (set_session id p c r)
  unfolding Shut set_session
  set_session-Shut later p c r s = elim (Bool-cases (is_empty p)) [
    | inl bare ↦ rw bare s
    | inr full ↦ rw full s
  ]

  step-Shut :
      (now later : ℕ) (o : Op Session) (r : PeerRegistry Session)
      → later < now + url_demote_ttl
      → Meanwhile now later o
      → Shut later r
      → Shut later (step id o r)
  unfolding Shut clear_session_by_id clear_session_by_bridge_id
  step-Shut now later (advertise t p v) r soon (_, h) s = add_url-Shut later t p v r h s
  step-Shut now later (demote t p v) r soon (h, _) s = remove_url-Shut later t p v r (omega arith) s
  step-Shut now later (attach p c) r soon h s = set_session-Shut later p c r s
  step-Shut now later (detach p b) r soon h s = s
  step-Shut now later (detach_everywhere b) r soon h s = s
  step-Shut now later (rename p q) r soon h s = migrate-Shut later p q r s

  run-Shut :
      (now later : ℕ) (ops : List (Op Session)) (r : PeerRegistry Session)
      → later < now + url_demote_ttl
      → All (Meanwhile now later) ops
      → Shut later r
      → Shut later (run id ops r)
  run-Shut now later [] r soon h s = s
  run-Shut now later (o ∷ os) r soon (h, hs) s =
      run-Shut now later os (step id o r) soon hs (step-Shut now later o r soon h s)

  removed-Shut :
      (now later : ℕ) (p : Text) (r : PeerRegistry Session)
      → is_empty p ≡ false
      → is_empty u ≡ false
      → later < now + url_demote_ttl
      → Shut later (remove_url now p u r)
  unfolding Shut remove_url
  removed-Shut now later p r np nu soon =
      rw (np, nu) (now + url_demote_ttl, rw (bytes_eq_refl u), soon)

  -- A URL that was removed less than 1800 seconds ago is not listed by `add_url`, for any peer,
  -- whatever operations ran since it was removed, each at a time in between.
  pub removed_url_refused :
      (now later : ℕ) (p q : Text) (ops : List (Op Session)) (r : PeerRegistry Session)
      → is_empty p ≡ false
      → is_empty u ≡ false
      → later < now + url_demote_ttl
      → All (Meanwhile now later) ops
      → (add_url later q u (run id ops (remove_url now p u r))).inner
        ≡ (run id ops (remove_url now p u r)).inner
  unfolding add_url
  removed_url_refused now later p q ops r np nu soon times =
      let since = run id ops (remove_url now p u r) in
      let shut : is_demoted later u since ≡ true = Shut-is_demoted later since (
        run-Shut now later ops (remove_url now p u r) soon times
          (removed-Shut now later p r np nu soon)) in
      elim (Bool-cases (is_empty q || is_empty u)) [
        | inl bare ↦ rw bare
        | inr full ↦ rw (full, shut)
      ]

module _ {Session : Type 0} where
  -- A URL that is not demoted is listed for the peer when it is added, names that are empty apart.
  pub added_url_listed :
      (now : ℕ) (p u : Text) (r : PeerRegistry Session)
      → is_empty p ≡ false
      → is_empty u ≡ false
      → is_demoted now u r ≡ false
      → (e : PeerRoutes Session) × (get (add_url now p u r) p ≡ some e)
        × (any_eq bytes_eq u e.urls ≡ true)
  unfolding add_url get
  added_url_listed now p u r np nu free = (
    with_url u (entry_or_default p r.inner),
    rw (np, nu, free, bytes_eq_refl p),
    any_url-push_new u (entry_or_default p r.inner).urls,
  )
