-- ===== src/Repair/Windows.antt =====
-- massa-indexer/src/repair.rs: the windows that `run_pull_parts` walks, from the head down, and the
-- checkpoint that it leaves.
use massa_history.Base.{
  ℕ, zero, suc, ◌+◌, ◌-◌, ◌≤◌, ◌<◌, false, ◌||◌, ◌≡◌, refl, Option, none, some, List, [], ◌∷◌, ◌==◌,
  leb, ltb, if◌then◌else◌, arith, Bool-cases, inl, inr, Any, here, there, in_front, behind, sym,
  subst, take, ◌++◌, ◌⊎◌,
}

pub record Window : Type 0 where
  pub lo : ℕ
  pub hi : ℕ

-- `hi.saturating_sub(range_periods.saturating_sub(1)).max(from_period)`
unfoldable pub window_lo : ℕ → ℕ → ℕ → ℕ
window_lo range_periods from_period hi =
    let lo = hi - (range_periods - 1) in if ltb lo from_period then from_period else lo

-- The loop, for so many windows.
unfoldable pub windows : ℕ → ℕ → ℕ → ℕ → List Window
windows range_periods from_period zero hi = []
windows range_periods from_period (suc rounds) hi =
    let lo = window_lo range_periods from_period hi in
    let rest = windows range_periods from_period rounds (lo - 1) in
    record { lo = lo; hi = hi } ∷ (if leb lo from_period || lo == 0 then [] else rest)

-- `stored.unwrap_or(to_period).min(to_period)`
unfoldable pub start_hi : ℕ → Option ℕ → ℕ
start_hi to_period none = to_period
start_hi to_period (some stored) = if ltb stored to_period then stored else to_period

-- Each window is below the one before, so that one more round than periods is enough.
unfoldable pub pull_run : ℕ → ℕ → ℕ → Option ℕ → List Window
pull_run range_periods from_period to_period stored =
    let hi = start_hi to_period stored in
    if ltb hi from_period then [] else windows range_periods from_period (hi + 1) hi

-- `lo.saturating_sub(1)`, behind each window.
unfoldable pub pull_checkpoint : Option ℕ → List Window → Option ℕ
pull_checkpoint stored [] = stored
pull_checkpoint stored (w ∷ rest) = pull_checkpoint (some (w.lo - 1)) rest

module _ (range from : ℕ) where
  lo-bounds :
      (hi : ℕ)
      → from ≤ hi
      → (from ≤ window_lo range from hi)
        × (window_lo range from hi ≤ hi)
        × (hi ≤ window_lo range from hi + (range - 1))
  unfolding window_lo
  lo-bounds hi h = ground arith

  -- The window that a period falls in.
  abbrev pub Falls : ℕ → Window → Type 0
  Falls p w = (w.lo ≤ p) × (p ≤ w.hi) × (from ≤ w.lo) × (w.hi ≤ w.lo + (range - 1))

  -- The windows from `hi` down contain every period from `from` up to `hi`.
  windows_reach :
      (rounds hi p : ℕ)
      → from ≤ p
      → p ≤ hi
      → hi < rounds
      → Any (Falls p) (windows range from rounds hi)
  unfolding windows
  windows_reach zero hi p h k l = absurd (omega arith)
  windows_reach (suc rounds) hi p h k l =
      let lo = window_lo range from hi in
      let (low, high, wide) = lo-bounds hi (omega arith) in
      by_place lo low high wide (windows range from rounds (lo - 1))
        λ below. windows_reach rounds (lo - 1) p h (omega arith) (omega arith)
    where
      by_place :
          (lo : ℕ)
          → from ≤ lo
          → lo ≤ hi
          → hi ≤ lo + (range - 1)
          → (rest : List Window) → (p < lo → Any (Falls p) rest)
          → Any
              (Falls p)
              (record { lo = lo; hi = hi } ∷ (if leb lo from || lo == 0 then [] else rest))
      by_place lo low high wide rest ih = elim (Bool-cases (leb lo p)) [
        | inl e ↦ here (ground arith, k, low, wide)
        | inr e ↦
            let under : p < lo = ground arith in
            let more : (leb lo from || lo == 0) ≡ false = ground arith in
            there (subst (λ c. Any (Falls p) (if c then [] else rest)) (sym more) (ih under))
      ]

  -- The checkpoint leaves a period to the runs that follow.
  Left : ℕ → ℕ → Option ℕ → Type 0
  Left to p c = (c ≡ none) ⊎ ((m : ℕ) × (c ≡ some m) × (p ≤ m) × (m ≤ to))

  -- After so many windows a period is in one of them or left.
  part-Left :
      (n rounds to hi p : ℕ) (c : Option ℕ)
      → from ≤ p
      → p ≤ hi
      → hi ≤ to
      → hi < rounds
      → Left to p c
      → Any (Falls p) (take n (windows range from rounds hi))
        ⊎ Left to p (pull_checkpoint c (take n (windows range from rounds hi)))
  unfolding windows pull_checkpoint Left
  part-Left zero rounds to hi p c h k u l left = inr left
  part-Left (suc n) zero to hi p c h k u l left = absurd (omega arith)
  part-Left (suc n) (suc rounds) to hi p c h k u l left =
      let lo = window_lo range from hi in
      let (low, high, wide) = lo-bounds hi (omega arith) in
      elim (Bool-cases (leb lo p)) [
        | inl e ↦ inl (here (ground arith, k, low, wide))
        | inr e ↦
            let under : p < lo = ground arith in
            let more : (leb lo from || lo == 0) ≡ false = ground arith in
            elim (part-Left n rounds to (lo - 1) p (some (lo - 1)) h (omega arith) (omega arith)
              (omega arith) (inr (lo - 1, refl, omega arith, omega arith))) [
                | inl later ↦ inl (
                    there (
                      subst
                        (λ c.
                          Any (Falls p)
                            (take n (if c then [] else windows range from rounds (lo - 1))))
                        (sym more) later))
                | inr rest ↦ inr (
                    subst
                      (λ b. Left to p (
                        pull_checkpoint (some (lo - 1))
                          (take n (if b then [] else windows range from rounds (lo - 1)))))
                      (sym more) rest)
              ]
      ]

  -- A run from a checkpoint that leaves a period has a window for it.
  Left-reached :
      (to p : ℕ) (c : Option ℕ)
      → from ≤ p
      → p ≤ to
      → Left to p c
      → Any (Falls p) (pull_run range from to c)
  unfolding pull_run Left start_hi
  Left-reached to p c h k (inl e) =
      let more : ltb to from ≡ false = ground arith in
      subst (λ c. Any (Falls p) (pull_run range from to c)) (sym e)
        (subst (λ b. Any (Falls p) (if b then [] else windows range from (to + 1) to)) (sym more)
          (windows_reach (to + 1) to p h k (omega arith)))
  Left-reached to p c h k (inr (m, e, above, inside)) =
      subst (λ c. Any (Falls p) (pull_run range from to c)) (sym e)
        (from_hi (start_hi to (some m)) (ground arith))
    where
      from_hi :
          (hi : ℕ)
          → p ≤ hi
          → Any (Falls p) (if ltb hi from then [] else windows range from (hi + 1) hi)
      from_hi hi over =
          let more : ltb hi from ≡ false = ground arith in
          subst (λ b. Any (Falls p) (if b then [] else windows range from (hi + 1) hi)) (sym more)
            (windows_reach (hi + 1) hi p h over (omega arith))

  -- Wherever the first run of `run_pull_parts` over a range is stopped, it and a second run, which starts
  -- from the checkpoint that the first has left, have a window for every period of the range; it
  -- stays above `from` and has at most `range` periods, or one.
  pub every_period_is_windowed :
      (to n p : ℕ)
      → from ≤ p
      → p ≤ to
      → Any (Falls p) (
          take n (pull_run range from to none)
          ++ pull_run range from to (pull_checkpoint none (take n (pull_run range from to none))))
  unfolding pull_run start_hi Left
  every_period_is_windowed to n p h k =
      let more : ltb to from ≡ false = ground arith in
      let first = windows range from (to + 1) to in
      let told =
        subst
          (λ b.
            Any (Falls p) (take n (if b then [] else first))
            ⊎ Left to p (pull_checkpoint none (take n (if b then [] else first))))
          (sym more)
          (part-Left n (to + 1) to to p none h k (omega arith) (omega arith) (inl refl)) in
      by_part (take n (pull_run range from to none)) told
    where
      by_part :
          (part : List Window)
          → Any (Falls p) part ⊎ Left to p (pull_checkpoint none part)
          → Any (Falls p) (part ++ pull_run range from to (pull_checkpoint none part))
      by_part part (inl h) = in_front part _ h
      by_part part (inr left) = behind part _ (Left-reached to p _ h k left)
