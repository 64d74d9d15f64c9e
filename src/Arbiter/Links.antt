-- ===== src/Arbiter/Links.antt =====
-- What `next_parent_link` and `prev_final_block` of massa-indexer/src/peer/patch.rs find.
use massa_history.Base.{
  ℕ, zero, suc, ◌+◌, ◌-◌, ◌^◌, ◌≤◌, ◌<◌, false, ◌≡◌, ap, ◌∙◌, sym, ◌⊎◌, inl, inr, Option, none,
  some, arith, Bool-cases, Option-cases, ◌==◌, ==_iff,
}
use massa_history.Base.Result.{ok, >>=-eq-ok}
use massa_history.Ids.{BlockId}
use massa_history.Model.{Slot, SlotState, SlotStatus}
use massa_history.Model.Rows.{StoredBlock}
use massa_history.Arbiter.{
  Reader, final_of, parent_in, link_at, link_loop, next_parent_link, prev_loop, prev_final_block,
  add_u64,
}

module _ (db : Reader) (thread : ℕ) where
  -- Our row of the period is FINAL, no miss, with the block `b`.
  pub record FinalAt (p : ℕ) (b : BlockId) : Type 0 where
    pub row : SlotState
    pub stored : db.read_slot p thread ≡ ok (some row)
    pub is_final : row.status ≡ SlotStatus.final
    pub no_miss : row.is_miss ≡ false
    pub has_block : row.final_block_id ≡ some b

  -- As above, and we hold the body of the block.
  pub record BodyAt (p : ℕ) (b : BlockId) (body : StoredBlock) : Type 0 where
    pub is_final : FinalAt p b
    pub held : db.read_block b ≡ ok (some body)

  pub final_of-FinalAt :
      (p : ℕ) (row : Option SlotState) (b : BlockId)
      → db.read_slot p thread ≡ ok row
      → final_of row ≡ some b
      → FinalAt p b
  unfolding final_of
  final_of-FinalAt p none b read e = cc e
  final_of-FinalAt p (some s) b read e = record {
    row = s;
    stored = read;
    is_final = ground arith;
    no_miss = ground arith;
    has_block = ground arith;
  }

  pub FinalAt-final_of :
      (p : ℕ) (row : Option SlotState) (b : BlockId)
      → db.read_slot p thread ≡ ok row
      → FinalAt p b
      → final_of row ≡ some b
  unfolding final_of
  FinalAt-final_of p row b read f =
      let same : row ≡ some f.row = cc (read, f.stored) in
      rw same (rw (f.is_final, f.no_miss) f.has_block)

  -- What one round says: it stops at a final block with a body, and goes on past all else.
  link_at-some :
      (p : ℕ) (link : Option BlockId)
      → link_at db thread p ≡ ok (some link)
      → (b : BlockId) × (body : StoredBlock) × BodyAt p b body × (link ≡ parent_in thread body)
  unfolding link_at
  link_at-some p link e =
      let (row, read, rest) = >>=-eq-ok (db.read_slot p thread) _ e in
      elim (Option-cases (final_of row)) [
        | inl past ↦ cc (rest, past)
        | inr (b, fin) ↦
            let (body, held, out) = >>=-eq-ok (db.read_block b) _ (rw fin at rest) in
            elim (Option-cases body) [
              | inl gone ↦ cc (out, gone)
              | inr (found, is) ↦ (
                b,
                found,
                record { is_final = final_of-FinalAt p row b read fin; held = cc (held, is) },
                cc (out, is),
              )
            ]
      ]

  link_at-none :
      (p : ℕ)
      → link_at db thread p ≡ ok none
      → (b : BlockId) (body : StoredBlock) → ¬ BodyAt p b body
  unfolding link_at
  link_at-none p e b body at =
      let (row, read, rest) = >>=-eq-ok (db.read_slot p thread) _ e in
      let fin : final_of row ≡ some b = FinalAt-final_of p row b read at.is_final in
      cc (rw (fin, at.held) at rest)

  abbrev pub NoBody : ℕ → ℕ → Type 0
  NoBody lo hi = (q : ℕ) → lo ≤ q → q < hi → (b : BlockId) (body : StoredBlock) → ¬ BodyAt q b body

  abbrev pub NoFinal : ℕ → ℕ → Type 0
  NoFinal lo hi = (q : ℕ) → lo ≤ q → q < hi → (b : BlockId) → ¬ FinalAt q b

  -- The first period from `lo` on at which we hold the final block's body, and the parent in this
  -- thread that the body names.
  pub record FirstLink (lo hi : ℕ) (link : Option BlockId) : Type 0 where
    pub at : ℕ
    pub below : lo ≤ at
    pub above : at < hi
    pub final_block : BlockId
    pub body : StoredBlock
    pub holds : BodyAt at final_block body
    pub names : parent_in thread body ≡ link
    pub first : NoBody lo at

  -- The last period below `hi` with a final block.
  pub record LastFinal (lo hi : ℕ) (b : BlockId) : Type 0 where
    pub at : ℕ
    pub below : lo ≤ at
    pub above : at < hi
    pub is_final : FinalAt at b
    pub last : NoFinal (suc at) hi

  NoBody-suc :
      (p hi : ℕ)
      → ((b : BlockId) (body : StoredBlock) → ¬ BodyAt p b body)
      → NoBody (suc p) hi
      → NoBody p hi
  NoBody-suc p hi here later q lo below b body h = elim (Bool-cases (p == q)) [
    | inl same ↦ here b body (rw ((==_iff p q).0 same) h)
    | inr ne ↦ later q (ground arith) below b body h
  ]

  NoFinal-snoc :
      (p lo rounds : ℕ)
      → ((x : BlockId) → ¬ FinalAt (lo + rounds) x)
      → NoFinal p (lo + rounds)
      → NoFinal p (lo + suc rounds)
  NoFinal-snoc p lo rounds here before q low above x f = elim (Bool-cases (q == lo + rounds)) [
    | inl same ↦ here x (rw (← (==_iff q (lo + rounds)).0 same) f)
    | inr ne ↦ before q low (ground arith) x f
  ]

  later_link :
      {p hi : ℕ} {link : Option BlockId}
      → ((b : BlockId) (body : StoredBlock) → ¬ BodyAt p b body)
      → FirstLink (suc p) hi link
      → FirstLink p hi link
  later_link {p} here l = record {
    at = l.at;
    below = omega (arith, l.below);
    above = l.above;
    final_block = l.final_block;
    body = l.body;
    holds = l.holds;
    names = l.names;
    first = NoBody-suc p l.at here l.first;
  }

  first_link :
      {p hi : ℕ} {link : Option BlockId}
      → p < hi
      → link_at db thread p ≡ ok (some link)
      → FirstLink p hi link
  first_link {p} {link = link} h e =
      let (b, body, holds, names) = link_at-some p link e in
      record {
        at = p;
        below = omega arith;
        above = h;
        final_block = b;
        body = body;
        holds = holds;
        names = sym names;
        first = λ q lo above. absurd (omega arith);
      }

  link_loop-ok :
      (rounds p hi : ℕ) (link : Option BlockId)
      → p + rounds ≡ hi
      → link_loop db thread rounds p ≡ ok link
      → FirstLink p hi link ⊎ ((link ≡ none) × NoBody p hi)
  unfolding link_loop
  link_loop-ok zero p hi link h e = inr (cc e, λ q lo above. absurd (omega arith))
  link_loop-ok (suc rounds) p hi link h e =
      let (hit, now, rest) = >>=-eq-ok (link_at db thread p) _ e in
      elim (Option-cases hit) [
        | inl go_on ↦
            let here = link_at-none p (now ∙ ap ok go_on) in
            elim (link_loop-ok rounds (suc p) hi link (omega arith) (rw go_on at rest)) [
              | inl l ↦ inl (later_link here l)
              | inr (is, none_left) ↦ inr (is, NoBody-suc p hi here none_left)
            ]
        | inr (found, stop) ↦
            let same : found ≡ link = cc (rest, stop) in
            inl (first_link (omega arith) (now ∙ ap ok (stop ∙ ap some same)))
      ]

  prev_loop-ok :
      (rounds lo : ℕ) (b : Option BlockId)
      → prev_loop db thread lo rounds ≡ ok b
      → ((x : BlockId) × (b ≡ some x) × LastFinal lo (lo + rounds) x)
        ⊎ ((b ≡ none) × NoFinal lo (lo + rounds))
  unfolding prev_loop
  prev_loop-ok zero lo b e = inr (cc e, λ q low above. absurd (omega arith))
  prev_loop-ok (suc rounds) lo b e =
      let (row, read, rest) = >>=-eq-ok (db.read_slot (lo + rounds) thread) _ e in
      elim (Option-cases (final_of row)) [
        | inl past ↦
            let here : (x : BlockId) → ¬ FinalAt (lo + rounds) x =
              λ x f. cc (past, FinalAt-final_of (lo + rounds) row x read f) in
            elim (prev_loop-ok rounds lo b (rw past at rest)) [
              | inl (x, is, l) ↦ inl (
                x,
                is,
                record {
                  at = l.at;
                  below = l.below;
                  above = omega (arith, l.above);
                  is_final = l.is_final;
                  last = NoFinal-snoc (suc l.at) lo rounds here l.last;
                },
              )
              | inr (is, none_left) ↦ inr (is, NoFinal-snoc lo lo rounds here none_left)
            ]
        | inr (x, fin) ↦ inl (
          x,
          cc (rest, fin),
          record {
            at = lo + rounds;
            below = omega arith;
            above = omega arith;
            is_final = final_of-FinalAt (lo + rounds) row x read fin;
            last = λ q low above. absurd (omega arith);
          },
        )
      ]

-- Within the range of u64, `next_parent_link` returns what the first final block after the slot
-- whose body we hold names as its parent in the thread; without such a block in the next 512
-- periods it returns nothing.
pub next_parent_link_first :
    (db : Reader) (slot : Slot) (link : Option BlockId)
    → slot.period + 512 < 2 ^ 64
    → next_parent_link db slot ≡ ok link
    → FirstLink db slot.thread (slot.period + 1) (slot.period + 513) link
      ⊎ ((link ≡ none) × NoBody db slot.thread (slot.period + 1) (slot.period + 513))
unfolding next_parent_link
next_parent_link_first db slot link fits e =
    let lo : add_u64 slot.period 1 ≡ slot.period + 1 = omega arith in
    let hi : add_u64 slot.period 512 ≡ slot.period + 512 = omega arith in
    let rounds : slot.period + 512 + 1 - (slot.period + 1) ≡ 512 = omega arith in
    link_loop-ok db slot.thread 512 (slot.period + 1) (slot.period + 513) link (omega arith)
      (rw (lo, hi, rounds) at e)

-- `prev_final_block` returns the last final block before the slot, looking back at most 512
-- periods; without one it returns nothing.
pub prev_final_block_last :
    (db : Reader) (slot : Slot) (before : Option BlockId)
    → prev_final_block db slot ≡ ok before
    → ((x : BlockId) × (before ≡ some x)
        × LastFinal db slot.thread (slot.period - 512) slot.period x)
      ⊎ ((before ≡ none) × NoFinal db slot.thread (slot.period - 512) slot.period)
unfolding prev_final_block
prev_final_block_last db slot before e =
    let lo : ℕ = slot.period - 512 in
    let whole : lo + (slot.period - lo) ≡ slot.period = omega arith in
    rw whole at (prev_loop-ok db slot.thread (slot.period - lo) lo before e)
