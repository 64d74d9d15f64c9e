-- ===== src/Repair/Resume.antt =====
-- massa-indexer/src/repair.rs: a pass that is stopped and started again has scanned every slot.
use massa_history.Base.{
  ℕ, zero, suc, ◌+◌, ◌-◌, ◌%◌, ◌≤◌, ◌<◌, Bool, true, false, ◌≡◌, refl, sym, ap, ◌∙◌, subst, ◌⊎◌,
  inl, inr, Option, none, some, List, [], ◌∷◌, ◌++◌, ◌==◌, leb, ltb, take, if◌then◌else◌, arith,
  Bool-cases,
}
use massa_history.Repair.Passes.{
  Act, scanned, checkpoint, scans, marks, ascending, start_of, reconstruct_run, last_checkpoint,
}

-- A part of a pass has scanned a slot.
pub data Scanned (p t : ℕ) : List Act → Type 0 where
  here : {rest : List Act} → Scanned p t (scanned p t ∷ rest)
  there : {a : Act} {rest : List Act} → Scanned p t rest → Scanned p t (a ∷ rest)

module _ {p t : ℕ} where
  is_here : {q u : ℕ} {rest : List Act} → q ≡ p → u ≡ t → Scanned p t (scanned q u ∷ rest)
  is_here {q} {u} {rest} ep et =
      subst (λ b. Scanned p b (scanned q u ∷ rest)) et
        (subst (λ a. Scanned a u (scanned q u ∷ rest)) ep here)

  in_front : (xs ys : List Act) → Scanned p t xs → Scanned p t (xs ++ ys)
  in_front (scanned _ _ ∷ xs) ys here = here
  in_front (a ∷ xs) ys (there h) = there (in_front xs ys h)
  in_front [] ys h = elim h [ ]

  behind : (xs ys : List Act) → Scanned p t ys → Scanned p t (xs ++ ys)
  behind [] ys h = h
  behind (a ∷ xs) ys h = there (behind xs ys h)

scans_all : (p t u left : ℕ) → u ≤ t → t < u + left → Scanned p t (scans p u left)
unfolding scans
scans_all p t u zero h k = absurd (omega arith)
scans_all p t u (suc left) h k =
    by_test (t == u) refl λ later. scans_all p t (u + 1) left later (omega arith)
  where
    by_test :
        (c : Bool)
        → (t == u) ≡ c
        → (u + 1 ≤ t → Scanned p t (scans p (u + 1) left))
        → Scanned p t (scanned p u ∷ scans p (u + 1) left)
    by_test true e ih =
        let same : t ≡ u = ground arith in
        subst (λ v. Scanned p t (scanned p v ∷ scans p (u + 1) left)) same here
    by_test false e ih = let later : u + 1 ≤ t = ground arith in there (ih later)

module _ (threads from : ℕ) where
  ascending_all :
      (p t s left : ℕ) → s ≤ p → p < s + left → t < threads → Scanned p t (ascending threads s left)
  unfolding ascending
  ascending_all p t s zero h k l = absurd (omega arith)
  ascending_all p t s (suc left) h k l =
      by_test (p == s) refl λ later. ascending_all p t (s + 1) left later (omega arith) l
    where
      by_test :
          (c : Bool)
          → (p == s) ≡ c
          → (s + 1 ≤ p → Scanned p t (ascending threads (s + 1) left))
          → Scanned p t (scans s 0 threads ++ (marks s ++ ascending threads (s + 1) left))
      by_test true e ih =
          let same : p ≡ s = ground arith in
          subst
            (λ q. Scanned p t (scans q 0 threads ++ (marks s ++ ascending threads (s + 1) left)))
            same
            (in_front (scans p 0 threads) _ (scans_all p t 0 threads (omega arith) (omega arith)))
      by_test false e ih =
          let later : s + 1 ≤ p = ground arith in
          behind (scans s 0 threads) _ (behind (marks s) _ (ih later))

  -- Every slot from `from` up to a period is in a set.
  Covers : (ℕ → ℕ → Type 0) → ℕ → Type 0
  Covers D n = (p t : ℕ) → from ≤ p → p < n → t < threads → D p t

  With : (ℕ → ℕ → Type 0) → ℕ → ℕ → ℕ → ℕ → Type 0
  With D p t q u = D q u ⊎ ((p ≡ q) × (t ≡ u))

  -- Each checkpoint comes when what is below it has been scanned.
  Sound : (ℕ → ℕ → Type 0) → List Act → Type 0
  Sound D [] = Unit
  Sound D (scanned p t ∷ rest) = Sound (With D p t) rest
  Sound D (checkpoint n ∷ rest) = Covers D n × Sound D rest

  Sound-scans :
      (D : ℕ → ℕ → Type 0) (p u left : ℕ) (ys : List Act)
      → ((E : ℕ → ℕ → Type 0)
          → ((q t : ℕ) → D q t → E q t)
          → ((t : ℕ) → u ≤ t → t < u + left → E p t)
          → Sound E ys)
      → Sound D (scans p u left ++ ys)
  unfolding Sound scans With
  Sound-scans D p u zero ys k = k D (λ q t d. d) λ t h l. absurd (omega arith)
  Sound-scans D p u (suc left) ys k = Sound-scans (With D p u) p (u + 1) left ys λ E more all.
      k E (λ q t d. more q t (inl d))
        λ t h l. elim (Bool-cases (t == u)) [
          | inl e ↦ let same : t ≡ u = ground arith in more p t (inr (refl, sym same))
          | inr e ↦ let later : u + 1 ≤ t = ground arith in all t later (omega arith)
        ]

  Sound-marks :
      (D : ℕ → ℕ → Type 0) (s : ℕ) (ys : List Act)
      → Covers D (s + 1)
      → Sound D ys
      → Sound D (marks s ++ ys)
  unfolding Sound
  Sound-marks D s ys c k = by_test (s % 64 == 0)
    where
      by_test : (b : Bool) → Sound D ((if b then checkpoint (s + 1) ∷ [] else []) ++ ys)
      by_test true = (c, k)
      by_test false = k

  Sound-ascending :
      (left s : ℕ) (D : ℕ → ℕ → Type 0) → Covers D s → Sound D (ascending threads s left)
  unfolding Sound ascending Covers
  Sound-ascending zero s D c = (c, tt)
  Sound-ascending (suc left) s D c =
      Sound-scans D s 0 threads (marks s ++ ascending threads (s + 1) left) λ E more all.
        let next : (p t : ℕ) → from ≤ p → p < s + 1 → t < threads → E p t = λ p t h l k.
          elim (Bool-cases (p == s)) [
            | inl e ↦
                let same : p ≡ s = ground arith in
                subst (λ q. E q t) (sym same) (all t (omega arith) (omega arith))
            | inr e ↦ let before : p < s = ground arith in more p t (c p t h before k)
          ] in
        Sound-marks E s (ascending threads (s + 1) left) next (Sound-ascending left (s + 1) E next)

  -- What the metadata says after a part of a pass.
  Told : (ℕ → ℕ → Type 0) → List Act → Option ℕ → Option ℕ → Type 0
  Told D part old now =
      (now ≡ old)
      ⊎ ((n : ℕ) × (now ≡ some n)
          × ((p t : ℕ) → from ≤ p → p < n → t < threads → D p t ⊎ Scanned p t part))

  part-Told :
      (acts : List Act) (D : ℕ → ℕ → Type 0) (n : ℕ) (old : Option ℕ)
      → Sound D acts
      → Told D (take n acts) old (last_checkpoint old (take n acts))
  unfolding Told last_checkpoint Sound Covers With
  part-Told acts D zero old s = inl refl
  part-Told [] D (suc n) old s = inl refl
  part-Told (scanned q u ∷ rest) D (suc n) old s = elim (part-Told rest (With D q u) n old s) [
    | inl e ↦ inl e
    | inr (m, e, all) ↦ inr (
      m,
      e,
      λ p t h l k. elim (all p t h l k) [
        | inl (inl d) ↦ inl d
        | inl (inr (ep, et)) ↦ inr (is_here ep et)
        | inr later ↦ inr (there later)
      ],
    )
  ]
  part-Told (checkpoint j ∷ rest) D (suc n) old (c, s) = elim (part-Told rest D n (some j) s) [
    | inl e ↦ inr (j, e, λ p t h l k. inl (c p t h l k))
    | inr (m, e, all) ↦
        inr (
          m,
          e,
          λ p t h l k. elim (all p t h l k) [ inl d ↦ inl d | inr later ↦ inr (there later) ],
        )
  ]

  -- A run from a start below the end scans every slot from it on.
  run_all :
      (to p t s : ℕ) (stored : Option ℕ)
      → start_of from stored ≡ s
      → s ≤ p
      → p ≤ to
      → t < threads
      → Scanned p t (reconstruct_run threads from to stored)
  unfolding reconstruct_run
  run_all to p t s stored e h k l =
      subst (λ q. Scanned p t (if ltb to q then [] else ascending threads q (to + 1 - q))) (sym e)
        (not_over (ltb to s) (ground arith))
    where
      not_over :
          (b : Bool) → b ≡ false → Scanned p t (if b then [] else ascending threads s (to + 1 - s))
      not_over true f = cc f
      not_over false f = ascending_all p t s (to + 1 - s) h (omega arith) l

  start_below : (n p : ℕ) → from ≤ p → n ≤ p → (s : ℕ) × (start_of from (some n) ≡ s) × (s ≤ p)
  unfolding start_of
  start_below n p h k = elim (Bool-cases (leb from n)) [
    | inl e ↦ (n, rw e refl, k)
    | inr e ↦ (from, rw e refl, h)
  ]

  Never : ℕ → ℕ → Type 0
  Never p t = true ≡ false

  first_run-Sound : (to : ℕ) → Sound Never (reconstruct_run threads from to none)
  unfolding reconstruct_run start_of Sound Covers Never
  first_run-Sound to = by_test (ltb to from)
    where
      by_test : (b : Bool) → Sound Never (if b then [] else ascending threads from (to + 1 - from))
      by_test true = tt
      by_test false = Sound-ascending (to + 1 - from) from Never λ p t h k l. absurd (omega arith)

  resumed :
      (to p t : ℕ) (part : List Act) (now : Option ℕ)
      → Told Never part none now
      → from ≤ p
      → p ≤ to
      → t < threads
      → Scanned p t (part ++ reconstruct_run threads from to now)
  unfolding Told Never start_of
  resumed to p t part now (inl e) h k l =
      behind part _ (run_all to p t from now (ap (start_of from) e ∙ refl) h k l)
  resumed to p t part now (inr (m, e, all)) h k l = elim (Bool-cases (ltb p m)) [
    | inl below ↦
        let less : p < m = ground arith in
        elim (all p t h less l) [ inl never ↦ cc never | inr done ↦ in_front part _ done ]
    | inr above ↦
        let more : m ≤ p = ground arith in
        let (s, es, low) = start_below m p h more in
        behind part _ (run_all to p t s now (ap (start_of from) e ∙ es) low k l)
  ]

  -- Wherever the first run over a range is stopped, a second run, which starts from the checkpoint
  -- that the first has left, scans with it every slot of the range.
  pub no_slot_is_skipped :
      (to n p t : ℕ)
      → from ≤ p
      → p ≤ to
      → t < threads
      → Scanned p t (
          take n (reconstruct_run threads from to none)
          ++ reconstruct_run threads from to
              (last_checkpoint none (take n (reconstruct_run threads from to none))))
  no_slot_is_skipped to n p t h k l =
      resumed to p t (take n (reconstruct_run threads from to none)) _
        (part-Told (reconstruct_run threads from to none) Never n none (first_run-Sound to)) h k l
