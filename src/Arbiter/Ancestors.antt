-- ===== src/Arbiter/Ancestors.antt =====
-- What `reachable_via_parents` of massa-indexer/src/peer/patch.rs decides.
use massa_history.Base.{
  ℕ, zero, suc, ◌<◌, true, ◌≡◌, inl, inr, Option, none, some, arith, Bool-cases, Option-cases,
}
use massa_history.Base.Result.{ok, >>=-eq-ok}
use massa_history.Ids.{BlockId, id_eq}
use massa_history.Ids.Equality.{id_eq_refl, id_eq→eq}
use massa_history.Model.Rows.{StoredBlock}
use massa_history.Arbiter.{Reader, parent_in, parent_of, reach_loop, reachable_via_parents}

module _ (db : Reader) (thread : ℕ) where
  -- We hold the body of `b`, and it names `par` as its parent in the thread.
  pub record ParentOf (b par : BlockId) : Type 0 where
    pub body : StoredBlock
    pub held : db.read_block b ≡ ok (some body)
    pub names : parent_in thread body ≡ some par

  -- `a` is reached from `b` by so many parent links.
  pub data Ancestor (a : BlockId) : ℕ → BlockId → Type 0 where
    here : Ancestor a zero a
    up : {n : ℕ} {b par : BlockId} → ParentOf b par → Ancestor a n par → Ancestor a (suc n) b

  parent_of-ParentOf :
      (b par : BlockId) (body : Option StoredBlock)
      → db.read_block b ≡ ok body
      → parent_of thread body ≡ some par
      → ParentOf b par
  unfolding parent_of
  parent_of-ParentOf b par none held names = cc names
  parent_of-ParentOf b par (some body) held names = record {
    body = body;
    held = held;
    names = names;
  }

  ParentOf-parent_of :
      {b par : BlockId} (link : ParentOf b par) → parent_of thread (some link.body) ≡ some par
  unfolding parent_of
  ParentOf-parent_of link = link.names

  reach_loop-true :
      (target : BlockId) (rounds : ℕ) (cur : BlockId)
      → reach_loop db thread target rounds cur ≡ ok true
      → (n : ℕ) × (n < rounds) × Ancestor target n cur
  unfolding reach_loop
  reach_loop-true target zero cur e = cc e
  reach_loop-true target (suc rounds) cur e = elim (Bool-cases (id_eq cur target)) [
    | inl same ↦ let is : cur ≡ target = id_eq→eq cur target same in (0, omega arith, rw is here)
    | inr ne ↦
        let (body, held, e') = >>=-eq-ok (db.read_block cur) _ (rw (ne, reach_loop) at e) in
        elim (Option-cases (parent_of thread body)) [
          | inl gone ↦ cc (rw gone at e')
          | inr (par, names) ↦
              let (n, below, path) = reach_loop-true target rounds par (rw names at e') in
              (suc n, omega (arith, below), up (parent_of-ParentOf cur par body held names) path)
        ]
  ]

  reach_loop-Ancestor :
      (target : BlockId) (rounds n : ℕ) (cur : BlockId)
      → n < rounds
      → Ancestor target n cur
      → reach_loop db thread target rounds cur ≡ ok true
  unfolding reach_loop
  reach_loop-Ancestor target zero n cur below path = absurd (omega arith)
  reach_loop-Ancestor target (suc rounds) zero cur below here = rw (id_eq_refl target, reach_loop)
  reach_loop-Ancestor target (suc rounds) (suc n) cur below (up {par = par} link path) =
      elim (Bool-cases (id_eq cur target)) [
        | inl same ↦ rw (same, reach_loop)
        | inr ne ↦ ground (
          arith,
          link.held,
          ParentOf-parent_of link,
          reach_loop-Ancestor target rounds n par (omega arith) path,
        )
      ]

-- `reachable_via_parents` answers true exactly when the target is the anchor or an ancestor of it
-- by fewer than 64 parent links in the thread, through bodies that we hold.
pub reachable_iff :
    (db : Reader) (anchor target : BlockId) (thread : ℕ)
    → (reachable_via_parents db anchor target thread ≡ ok true
        → (n : ℕ) × (n < 64) × Ancestor db thread target n anchor)
      × ((n : ℕ)
          → n < 64
          → Ancestor db thread target n anchor
          → reachable_via_parents db anchor target thread ≡ ok true)
unfolding reachable_via_parents
reachable_iff db anchor target thread = (
  reach_loop-true db thread target 64 anchor,
  λ n below path. reach_loop-Ancestor db thread target 64 n anchor below path,
)
