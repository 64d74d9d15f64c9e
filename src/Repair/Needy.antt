-- ===== src/Repair/Needy.antt =====
-- massa-indexer/src/repair.rs: the slots of a window for which `run_pull_parts` calls
-- `range_fill_window_opts`. What the peers answer is not followed: the store at each window is given.
use massa_history.Base.{
  ℕ, zero, suc, ◌+◌, ◌-◌, ◌≤◌, ◌<◌, Bool, true, false, ◌≡◌, refl, subst, inl, inr, none, List, [],
  ◌∷◌, ◌++◌, ◌==◌, take, if◌then◌else◌, Any, here, there, in_front, behind, Bool-cases, arith,
}
use massa_history.Model.{Slot}
use massa_history.Backfill.{FinalSlotParts, is_empty}
use massa_history.Db.{Db}
use massa_history.Repair.{slot_lacks_parts}
use massa_history.Repair.Windows.{
  Window, Falls, pull_run, pull_checkpoint, every_period_is_windowed,
}

pub record PullPartsConfig : Type 0 where
  pub from_period : ℕ
  pub to_period : ℕ
  pub parts : FinalSlotParts
  pub thread_count : ℕ
  pub require_sc_ops : Bool

-- `for t in 0..cfg.thread_count`: the threads from `thread` on.
unfoldable pub needy_threads : PullPartsConfig → Db → ℕ → ℕ → ℕ → List Slot
needy_threads cfg db period thread zero = []
needy_threads cfg db period thread (suc left) =
    let slot : Slot = record { period = period; thread = thread } in
    let rest = needy_threads cfg db period (thread + 1) left in
    if slot_lacks_parts db slot cfg.parts cfg.require_sc_ops then slot ∷ rest else rest

-- `for p in (lo..=hi).rev()`, for so many periods.
unfoldable pub needy_periods : PullPartsConfig → Db → ℕ → ℕ → List Slot
needy_periods cfg db hi zero = []
needy_periods cfg db hi (suc left) =
    needy_threads cfg db hi 0 cfg.thread_count ++ needy_periods cfg db (hi - 1) left

unfoldable pub needy : PullPartsConfig → Db → Window → List Slot
needy cfg db w = needy_periods cfg db w.hi (w.hi + 1 - w.lo)

-- A call of `range_fill_window_opts`.
pub record Request : Type 0 where
  pub lo : ℕ
  pub hi : ℕ
  pub slots : List Slot

-- The calls for the windows from the `turn`-th on; there is none for a window that lacks nothing.
unfoldable pub requests : PullPartsConfig → (ℕ → Db) → ℕ → List Window → List Request
requests cfg store turn [] = []
requests cfg store turn (w ∷ rest) =
    let slots = needy cfg (store turn) w in
    let later = requests cfg store (turn + 1) rest in
    if is_empty slots then later else record { lo = w.lo; hi = w.hi; slots = slots } ∷ later

module _ (cfg : PullPartsConfig) (p t : ℕ) where
  abbrev pub Lacks : Db → Type 0
  Lacks db =
      slot_lacks_parts db (record { period = p; thread = t }) cfg.parts cfg.require_sc_ops ≡ true

  abbrev Is : Slot → Type 0
  Is s = s ≡ record { period = p; thread = t }

  needy_threads-Any :
      (db : Db) (thread left : ℕ)
      → Lacks db
      → thread ≤ t
      → t < thread + left
      → Any Is (needy_threads cfg db p thread left)
  unfolding needy_threads
  needy_threads-Any db thread zero h k l = absurd (omega arith)
  needy_threads-Any db thread (suc left) h k l = elim (Bool-cases (t == thread)) [
    | inl e ↦
        let same : t ≡ thread = ground arith in
        subst
          (λ u.
            let slot : Slot = record { period = p; thread = u } in
            let rest = needy_threads cfg db p (thread + 1) left in
            Any Is
              (if slot_lacks_parts db slot cfg.parts cfg.require_sc_ops then slot ∷ rest else rest))
          same (rw h (here refl))
    | inr e ↦
        let later : thread + 1 ≤ t = ground arith in
        kept
          (slot_lacks_parts db (record { period = p; thread = thread }) cfg.parts
            cfg.require_sc_ops)
          _ _ (needy_threads-Any db (thread + 1) left h later (omega arith))
  ]
    where
      kept :
          (c : Bool) (s : Slot) (rest : List Slot)
          → Any Is rest
          → Any Is (if c then s ∷ rest else rest)
      kept true s rest h = there h
      kept false s rest h = h

  needy_periods-Any :
      (db : Db) (hi left : ℕ)
      → Lacks db
      → t < cfg.thread_count
      → p ≤ hi
      → hi < p + left
      → Any Is (needy_periods cfg db hi left)
  unfolding needy_periods
  needy_periods-Any db hi zero h k u l = absurd (omega arith)
  needy_periods-Any db hi (suc left) h k u l = elim (Bool-cases (p == hi)) [
    | inl e ↦
        let same : p ≡ hi = ground arith in
        in_front _ _ (
          subst (λ q. Any Is (needy_threads cfg db q 0 cfg.thread_count)) same
            (needy_threads-Any db 0 cfg.thread_count h (omega arith) (omega arith)))
    | inr e ↦
        let below : p < hi = ground arith in
        behind (needy_threads cfg db hi 0 cfg.thread_count) _
          (needy_periods-Any db (hi - 1) left h k (omega arith) (omega arith))
  ]

  -- A call for the slot, within the range and of no more periods than asked for at a time.
  abbrev pub Asks : ℕ → Request → Type 0
  Asks range r =
      Any Is r.slots
      × (cfg.from_period ≤ r.lo)
      × (r.lo ≤ p)
      × (p ≤ r.hi)
      × (r.hi ≤ r.lo + (range - 1))

  asked :
      (range turn : ℕ) (store : ℕ → Db) (w : Window) (rest : List Request)
      → Falls range cfg.from_period p w
      → t < cfg.thread_count
      → Lacks (store turn)
      → Any (Asks range) (
          let slots = needy cfg (store turn) w in
          if is_empty slots then rest else record { lo = w.lo; hi = w.hi; slots = slots } ∷ rest)
  unfolding needy
  asked range turn store w rest (low, high, from, wide) k h =
      by_slots (needy_periods cfg (store turn) w.hi (w.hi + 1 - w.lo))
        (needy_periods-Any (store turn) w.hi (w.hi + 1 - w.lo) h k high (omega arith))
    where
      by_slots :
          (slots : List Slot)
          → Any Is slots
          → Any (Asks range) (
              if is_empty slots
              then rest
              else record { lo = w.lo; hi = w.hi; slots = slots } ∷ rest)
      by_slots [] h = elim h [ ]
      by_slots (s ∷ slots) h = here (h, from, low, high, wide)

  requests-Any :
      (range turn : ℕ) (store : ℕ → Db) (ws : List Window)
      → Any (Falls range cfg.from_period p) ws
      → t < cfg.thread_count
      → ((n : ℕ) → Lacks (store n))
      → Any (Asks range) (requests cfg store turn ws)
  unfolding requests
  requests-Any range turn store (w ∷ ws) (here f) k h =
      asked range turn store w (requests cfg store (turn + 1) ws) f k (h turn)
  requests-Any range turn store (w ∷ ws) (there f) k h =
      kept (is_empty (needy cfg (store turn) w)) _ _ (requests-Any range (turn + 1) store ws f k h)
    where
      kept :
          (c : Bool) (r : Request) (rest : List Request)
          → Any (Asks range) rest
          → Any (Asks range) (if c then rest else r ∷ rest)
      kept true r rest h = h
      kept false r rest h = there h
  requests-Any range turn store [] f k h = elim f [ ]

  -- Wherever the first run of `run_pull_parts` over a range is stopped between two windows, it and a
  -- second run, which starts from the checkpoint that the first has left, call
  -- `range_fill_window_opts` for every slot of the range that lacks the parts whenever a window's
  -- turn comes: with the slot among the needy ones, and a window around it that stays above
  -- `from_period` and has at most `range` periods, or one.
  pub every_lacking_slot_is_asked :
      (range n : ℕ) (store : ℕ → Db)
      → cfg.from_period ≤ p
      → p ≤ cfg.to_period
      → t < cfg.thread_count
      → ((turn : ℕ) → Lacks (store turn))
      → Any (Asks range) (
          requests cfg store 0 (
            take n (pull_run range cfg.from_period cfg.to_period none)
            ++ pull_run range cfg.from_period cfg.to_period (
                pull_checkpoint none (take n (pull_run range cfg.from_period cfg.to_period none)))))
  every_lacking_slot_is_asked range n store h k l lacks =
      requests-Any range 0 store _
        (every_period_is_windowed range cfg.from_period cfg.to_period n p h k) l lacks
