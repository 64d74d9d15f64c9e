-- ===== src/Arbiter/Fork.antt =====
-- What `dead_fork_anchor` of massa-indexer/src/peer/patch.rs finds.
use massa_history.Base.{
  ℕ, zero, suc, ◌+◌, ◌-◌, ◌^◌, ◌<◌, ◌≡◌, ◌≢◌, ap, ◌∙◌, ◌⊎◌, inl, inr, Option, none, some, arith,
  Bool-cases, Option-cases,
}
use massa_history.Base.Result.{ok, >>=-eq-ok}
use massa_history.Ids.{BlockId}
use massa_history.Model.{Slot}
use massa_history.Model.Rows.{StoredBlock}
use massa_history.Arbiter.{
  Reader, Verdict, final_of, parent_in, option_eq, broken_link, anchor_loop, block_before,
  dead_fork_anchor, add_u64,
}
use massa_history.Arbiter.Links.{FinalAt, FinalAt-final_of, final_of-FinalAt}
use massa_history.Arbiter.Parents.{option_eq→eq, option_eq_refl}
use massa_history.Arbiter.Ancestors.{ParentOf}

module _ (db : Reader) (thread : ℕ) where
  -- Our rows from `p`, where the final block before is `prev`, up to `q`, where it is `last`: each
  -- final block on the way names the one before it, or we do not hold its body, or its body has no
  -- parent in the thread.
  pub data Unbroken (p : ℕ) (prev : Option BlockId) : ℕ → Option BlockId → Type 0 where
    start : Unbroken p prev p prev
    skip :
        {q : ℕ} {last : Option BlockId}
        → Unbroken p prev q last
        → ((b : BlockId) → ¬ FinalAt db thread q b)
        → Unbroken p prev (suc q) last
    step :
        {q : ℕ} {last : Option BlockId} (b : BlockId)
        → Unbroken p prev q last
        → FinalAt db thread q b
        → ((par : BlockId) → ParentOf db thread b par → some par ≡ last)
        → Unbroken p prev (suc q) (some b)

  -- The first broken link from `p` on: the final block of a row names another parent than the
  -- final block that our rows have before it.
  pub record Break (p hi : ℕ) (prev : Option BlockId) (anchor : BlockId) : Type 0 where
    pub at : ℕ
    pub above : at < hi
    pub last : Option BlockId
    pub before : Unbroken p prev at last
    pub final_block : BlockId
    pub is_final : FinalAt db thread at final_block
    pub names : ParentOf db thread final_block anchor
    pub other : some anchor ≢ last

  broken_link-some :
      (prev : Option BlockId) (b par : BlockId) (body : Option StoredBlock)
      → db.read_block b ≡ ok body
      → broken_link thread prev body ≡ some par
      → ParentOf db thread b par × (some par ≢ prev)
  unfolding broken_link
  broken_link-some prev b par none held e = cc e
  broken_link-some prev b par (some body) held e = elim (Option-cases (parent_in thread body)) [
    | inl missing ↦ cc (rw (missing, broken_link) at e)
    | inr (named, names) ↦ elim (Bool-cases (option_eq (some named) prev)) [
      | inl same ↦ cc (rw (names, same, broken_link) at e)
      | inr ne ↦
          let is : some named ≡ some par = rw (names, ne, broken_link) at e in
          (
            record { body = body; held = held; names = names ∙ is },
            λ agrees. cc (ne, ap (λ o. option_eq o prev) (is ∙ agrees), option_eq_refl prev),
          )
    ]
  ]

  broken_link-none :
      (prev : Option BlockId) (b : BlockId) (body : Option StoredBlock)
      → db.read_block b ≡ ok body
      → broken_link thread prev body ≡ none
      → (par : BlockId) → ParentOf db thread b par
      → some par ≡ prev
  unfolding broken_link
  broken_link-none prev b body held e par named =
      let is : body ≡ some named.body = cc (held, named.held) in
      elim (Bool-cases (option_eq (some par) prev)) [
        | inl same ↦ option_eq→eq (some par) prev same
        | inr ne ↦ cc (rw (named.names, ne, broken_link) at (rw is at e))
      ]

  anchor_loop-ok :
      (p₀ : ℕ) (prev₀ : Option BlockId) (rounds p hi : ℕ) (prev anchor : Option BlockId)
      → p + rounds ≡ hi
      → Unbroken p₀ prev₀ p prev
      → anchor_loop db thread rounds p prev ≡ ok anchor
      → ((a : BlockId) × (anchor ≡ some a) × Break p₀ hi prev₀ a)
        ⊎ ((anchor ≡ none) × ((last : Option BlockId) × Unbroken p₀ prev₀ hi last))
  unfolding anchor_loop
  anchor_loop-ok p₀ prev₀ zero p hi prev anchor h walked e =
      let same : p ≡ hi = omega arith in inr (cc e, (prev, rw (← same) walked))
  anchor_loop-ok p₀ prev₀ (suc rounds) p hi prev anchor h walked e =
      let (row, read, rest) = >>=-eq-ok (db.read_slot p thread) _ e in
      elim (Option-cases (final_of row)) [
        | inl past ↦
            anchor_loop-ok p₀ prev₀ rounds (suc p) hi prev anchor (omega arith)
              (skip walked (λ b f. cc (past, FinalAt-final_of db thread p row b read f)))
              (rw past at rest)
        | inr (bid, fin) ↦
            let final_here = final_of-FinalAt db thread p row bid read fin in
            let (body, held, rest') = >>=-eq-ok (db.read_block bid) _ (rw fin at rest) in
            elim (Option-cases (broken_link thread prev body)) [
              | inl fine ↦
                  anchor_loop-ok p₀ prev₀ rounds (suc p) hi (some bid) anchor (omega arith)
                    (step bid walked final_here (broken_link-none prev bid body held fine))
                    (rw fine at rest')
              | inr (par, broken) ↦
                  let (names, other) = broken_link-some prev bid par body held broken in
                  inl (
                    par,
                    cc (rw broken at rest'),
                    record {
                      at = p;
                      above = omega arith;
                      last = prev;
                      before = walked;
                      final_block = bid;
                      is_final = final_here;
                      names = names;
                      other = other;
                    },
                  )
            ]
      ]

-- Within the range of u64, `dead_fork_anchor` walks our rows from the local verdict on for 512
-- periods: it returns the parent that the first broken link names, and otherwise nothing, where each
-- final block on the way names the one before it as its parent in the thread, unless we do not
-- hold its body or the body has no parent there.
pub dead_fork_anchor_first :
    (db : Reader) (slot : Slot) (local : Verdict) (anchor : Option BlockId)
    → slot.period + 512 < 2 ^ 64
    → dead_fork_anchor db slot local ≡ ok anchor
    → (prev : Option BlockId) × (block_before db slot local ≡ ok prev)
      × (((a : BlockId) × (anchor ≡ some a)
            × Break db slot.thread (slot.period + 1) (slot.period + 513) prev a)
          ⊎ ((anchor ≡ none)
              × ((last : Option BlockId) × Unbroken db slot.thread
                    (slot.period + 1)
                    prev
                    (slot.period + 513)
                    last)))
unfolding dead_fork_anchor
dead_fork_anchor_first db slot local anchor fits e =
    let lo : add_u64 slot.period 1 ≡ slot.period + 1 = omega arith in
    let hi : add_u64 slot.period 512 ≡ slot.period + 512 = omega arith in
    let rounds : slot.period + 512 + 1 - (slot.period + 1) ≡ 512 = omega arith in
    let (prev, before, rest) = >>=-eq-ok (block_before db slot local) _ e in
    (
      prev,
      before,
      anchor_loop-ok db slot.thread (slot.period + 1) prev 512 (slot.period + 1) (slot.period + 513)
          prev anchor (omega arith) start (rw (lo, hi, rounds) at rest),
    )
