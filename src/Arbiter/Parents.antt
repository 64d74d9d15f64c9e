-- ===== src/Arbiter/Parents.antt =====
-- What `block_has_dead_parent` of massa-indexer/src/peer/patch.rs decides.
use massa_history.Base.{
  ℕ, zero, suc, true, false, not, ◌||◌, ◌≡◌, ◌≢◌, refl, ap, ◌∙◌, ◌⊎◌, inl, inr, Option, none, some,
  List, [], ◌∷◌, get_elem?, arith, Bool-cases, Option-cases,
}
use massa_history.Base.Result.{ok, >>=-eq-ok}
use massa_history.Ids.{BlockId}
use massa_history.Ids.Equality.{id_eq_refl, id_eq→eq}
use massa_history.Model.{SlotState, SlotStatus}
use massa_history.Model.Rows.{StoredBlock}
use massa_history.Arbiter.{Reader, option_eq, dead_by, dead_among, block_has_dead_parent}

pub option_eq→eq : (x y : Option BlockId) → option_eq x y ≡ true → x ≡ y
unfolding option_eq
option_eq→eq none none h = refl
option_eq→eq none (some y) h = cc
option_eq→eq (some x) none h = cc
option_eq→eq (some x) (some y) h = ap some (id_eq→eq x y h)

pub option_eq_refl : (x : Option BlockId) → option_eq x x ≡ true
unfolding option_eq
option_eq_refl none = refl
option_eq_refl (some x) = id_eq_refl x

module _ (db : Reader) where
  -- We hold the body of `parent`, and our FINAL row of its slot has another verdict.
  pub record DeadParent (parent : BlockId) : Type 0 where
    pub body : StoredBlock
    pub held : db.read_block parent ≡ ok (some body)
    pub row : SlotState
    pub stored : db.read_slot body.slot.period body.slot.thread ≡ ok (some row)
    pub is_final : row.status ≡ SlotStatus.final
    pub other : (row.is_miss ≡ true) ⊎ (row.final_block_id ≢ some parent)

  dead_by-true :
      (parent : BlockId) (body : StoredBlock) (row : Option SlotState)
      → db.read_block parent ≡ ok (some body)
      → db.read_slot body.slot.period body.slot.thread ≡ ok row
      → dead_by parent row ≡ true
      → DeadParent parent
  unfolding dead_by
  dead_by-true parent body none held stored e = cc e
  dead_by-true parent body (some row) held stored e = record {
    body = body;
    held = held;
    row = row;
    stored = stored;
    is_final = ground arith;
    other = elim (Bool-cases row.is_miss) [
      | inl miss ↦ inl miss
      | inr present ↦ inr (λ same.
          cc (
            differs present,
            ap (λ b. option_eq b (some parent)) same,
            option_eq_refl (some parent),
          ))
    ];
  }
    where
      differs : row.is_miss ≡ false → option_eq row.final_block_id (some parent) ≡ false
      differs present = ground (arith, present, e)

  contested :
      (parent : BlockId) (row : SlotState)
      → (row.is_miss ≡ true) ⊎ (row.final_block_id ≢ some parent)
      → (row.is_miss || not (option_eq row.final_block_id (some parent))) ≡ true
  contested parent row (inl miss) = rw miss
  contested parent row (inr ne) = elim (Bool-cases (option_eq row.final_block_id (some parent))) [
    | inl same ↦ absurd (ne (option_eq→eq row.final_block_id (some parent) same))
    | inr differs ↦ rw differs (ground arith)
  ]

  among_later :
      (parent : BlockId) (rest : List BlockId)
      → (i : ℕ) × (p : BlockId) × (get_elem? rest i ≡ some p) × DeadParent p
      → (i : ℕ) × (p : BlockId) × (get_elem? (parent ∷ rest) i ≡ some p) × DeadParent p
  among_later parent rest (i, p, at, dead) = (suc i, p, at, dead)

  DeadParent-dead_by :
      (parent : BlockId) (body : StoredBlock) (row : Option SlotState)
      → db.read_block parent ≡ ok (some body)
      → db.read_slot body.slot.period body.slot.thread ≡ ok row
      → DeadParent parent
      → dead_by parent row ≡ true
  unfolding dead_by
  DeadParent-dead_by parent body row held stored d =
      let body_same : body ≡ d.body = cc (held, d.held) in
      let same : row ≡ some d.row = cc (stored, d.stored, body_same) in
      rw same (rw d.is_final (contested parent d.row d.other))

  dead_among-true :
      (parents : List BlockId)
      → dead_among db parents ≡ ok true
      → (i : ℕ) × (parent : BlockId) × (get_elem? parents i ≡ some parent) × DeadParent parent
  unfolding dead_among
  dead_among-true [] e = cc e
  dead_among-true (parent ∷ rest) e =
      let (body, held, e') = >>=-eq-ok (db.read_block parent) _ e in
      elim (Option-cases body) [
        | inl gone ↦ among_later parent rest (dead_among-true rest (rw gone at e'))
        | inr (pb, is) ↦
            let (row, stored, e'') =
              >>=-eq-ok (db.read_slot pb.slot.period pb.slot.thread) _ (rw is at e') in
            elim (Bool-cases (dead_by parent row)) [
              | inl dead ↦
                  (0, parent, refl, dead_by-true parent pb row (held ∙ ap ok is) stored dead)
              | inr alive ↦ among_later parent rest (dead_among-true rest (rw alive at e''))
            ]
      ]

  abbrev NoneDead : List BlockId → Type 0
  NoneDead parents =
      (i : ℕ) (parent : BlockId) → get_elem? parents i ≡ some parent → ¬ DeadParent parent

  NoneDead-cons :
      (parent : BlockId) (rest : List BlockId)
      → ¬ DeadParent parent
      → NoneDead rest
      → NoneDead (parent ∷ rest)
  NoneDead-cons parent rest here later zero p at d =
      let same : p ≡ parent = cc at in here (rw same at d)
  NoneDead-cons parent rest here later (suc i) p at d = later i p at d

  dead_among-false : (parents : List BlockId) → dead_among db parents ≡ ok false → NoneDead parents
  unfolding dead_among
  dead_among-false [] e = λ i parent at. cc at
  dead_among-false (parent ∷ rest) e =
      let (body, held, e') = >>=-eq-ok (db.read_block parent) _ e in
      elim (Option-cases body) [
        | inl gone ↦
            NoneDead-cons parent rest (λ d. cc (d.held, held, gone))
              (dead_among-false rest (rw gone at e'))
        | inr (pb, is) ↦
            let (row, stored, e'') =
              >>=-eq-ok (db.read_slot pb.slot.period pb.slot.thread) _ (rw is at e') in
            elim (Bool-cases (dead_by parent row)) [
              | inl dead ↦ cc (rw dead at e'')
              | inr alive ↦
                  NoneDead-cons parent rest
                    (λ d. cc (DeadParent-dead_by parent pb row (held ∙ ap ok is) stored d, alive))
                    (dead_among-false rest (rw alive at e''))
            ]
      ]

-- `block_has_dead_parent` answers true only if some parent of the block is held, stands at a slot
-- that is FINAL in our rows, and is not that slot's final block; and false only if none is so.
pub block_has_dead_parent_sound :
    (db : Reader) (b : StoredBlock)
    → (block_has_dead_parent db b ≡ ok true
        → (i : ℕ) × (parent : BlockId) × (get_elem? b.parents i ≡ some parent)
          × DeadParent db parent)
      × (block_has_dead_parent db b ≡ ok false
          → (i : ℕ) (parent : BlockId) → get_elem? b.parents i ≡ some parent
          → ¬ DeadParent db parent)
unfolding block_has_dead_parent
block_has_dead_parent_sound db b = (dead_among-true db b.parents, dead_among-false db b.parents)
