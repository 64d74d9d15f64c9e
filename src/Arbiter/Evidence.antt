-- ===== src/Arbiter/Evidence.antt =====
-- massa-indexer/src/peer/patch.rs: what the chain can show for either verdict, and what the tests for
-- dead parents find.
use massa_history.Base.{
  ℕ, ◌+◌, ◌-◌, ◌<◌, true, false, ◌≡◌, refl, ap, ◌∙◌, inl, inr, Option, none, some, get_elem?,
  Bool-cases, Option-cases,
}
use massa_history.Base.Result.{ok, >>=-eq-ok}
use massa_history.Ids.{BlockId, id_eq}
use massa_history.Ids.Equality.{id_eq→eq, id_eq_refl}
use massa_history.Model.{Slot}
use massa_history.Model.Rows.{StoredBlock}
use massa_history.Arbiter.{
  Reader, Verdict, miss, block, verdict_eq, block_before, peer_block_dead, local_block_dead,
}
use massa_history.Arbiter.Links.{FirstLink, LastFinal}
use massa_history.Arbiter.Parents.{DeadParent, block_has_dead_parent_sound}
use massa_history.Arbiter.Ancestors.{Ancestor}
use massa_history.Arbiter.Fork.{Unbroken, Break}

pub verdict_eq→eq : (x y : Verdict) → verdict_eq x y ≡ true → x ≡ y
unfolding verdict_eq
verdict_eq→eq miss miss h = refl
verdict_eq→eq miss (block y) h = cc
verdict_eq→eq (block x) miss h = cc
verdict_eq→eq (block x) (block y) h = ap block (id_eq→eq x y h)

pub verdict_eq_refl : (x : Verdict) → verdict_eq x x ≡ true
unfolding verdict_eq
verdict_eq_refl miss = refl
verdict_eq_refl (block x) = id_eq_refl x

-- Some parent of the block is dead.
abbrev pub HasDeadParent : Reader → StoredBlock → Type 0
HasDeadParent db b =
    (i : ℕ) × (parent : BlockId) × (get_elem? b.parents i ≡ some parent) × DeadParent db parent

-- None is.
abbrev pub NoDeadParent : Reader → StoredBlock → Type 0
NoDeadParent db b =
    (i : ℕ) (parent : BlockId) → get_elem? b.parents i ≡ some parent → ¬ DeadParent db parent

module _ (db : Reader) (slot : Slot) (local peer : Verdict) where
  -- The next final block of the thread names `b` as its parent.
  abbrev pub NextNames : BlockId → Type 0
  NextNames b = FirstLink db slot.thread (slot.period + 1) (slot.period + 513) (some b)

  -- Our chain is broken ahead of the slot, and goes on from `anchor` there.
  abbrev pub BrokenAt : BlockId → Type 0
  BrokenAt anchor =
      (prev : Option BlockId) × (block_before db slot local ≡ ok prev)
      × Break db slot.thread (slot.period + 1) (slot.period + 513) prev anchor

  -- Our chain ahead of the slot holds together.
  abbrev pub UnbrokenAhead : Type 0
  UnbrokenAhead =
      (prev : Option BlockId) × (block_before db slot local ≡ ok prev)
      × ((last : Option BlockId) × Unbroken db slot.thread (slot.period + 1) prev
            (slot.period + 513) last)

  -- What speaks for the peer.
  pub data ForPeer : Type 0 where
    local_is_dead :
        (x : BlockId) (body : StoredBlock)
        → local ≡ block x
        → db.read_block x ≡ ok (some body)
        → HasDeadParent db body
        → ForPeer
    next_names_it : (y : BlockId) → peer ≡ block y → NextNames y → ForPeer
    next_skips_ours :
        (x before : BlockId)
        → local ≡ block x
        → peer ≡ miss
        → NextNames before
        → LastFinal db slot.thread (slot.period - 512) slot.period before
        → ForPeer
    fork_and_miss : (x anchor : BlockId) → local ≡ block x → peer ≡ miss → BrokenAt anchor → ForPeer
    fork_and_ancestor :
        (y anchor : BlockId) (n : ℕ)
        → peer ≡ block y
        → BrokenAt anchor
        → n < 64
        → Ancestor db slot.thread y n anchor
        → ForPeer

  -- What speaks for the local verdict.
  pub data ForLocal (peer_block : Option StoredBlock) : Type 0 where
    same_verdict : local ≡ peer → ForLocal peer_block
    peer_is_dead :
        (y : BlockId) (body : StoredBlock)
        → peer ≡ block y
        → peer_block ≡ some body
        → body.id ≡ y
        → HasDeadParent db body
        → ForLocal peer_block
    next_names_ours :
        (x : BlockId) → local ≡ block x → NextNames x → UnbrokenAhead → ForLocal peer_block

pub peer_block_dead-true :
    (db : Reader) (peer : Verdict) (body : Option StoredBlock)
    → peer_block_dead db peer body ≡ ok true
    → (y : BlockId) × (b : StoredBlock) × (peer ≡ block y)
      × (body ≡ some b)
      × (b.id ≡ y)
      × HasDeadParent db b
unfolding peer_block_dead
peer_block_dead-true db miss body e = cc e
peer_block_dead-true db (block y) none e = cc e
peer_block_dead-true db (block y) (some b) e = elim (Bool-cases (id_eq b.id y)) [
  | inl same ↦
      (y, b, refl, refl, id_eq→eq b.id y same, (block_has_dead_parent_sound db b).0 (rw same at e))
  | inr ne ↦ cc (rw ne at e)
]

pub peer_block_dead-false :
    (db : Reader) (y : BlockId) (b : StoredBlock)
    → peer_block_dead db (block y) (some b) ≡ ok false
    → b.id ≡ y
    → NoDeadParent db b
unfolding peer_block_dead
peer_block_dead-false db y b e same =
    let is : id_eq b.id y ≡ true = rw same (id_eq_refl y) in
    (block_has_dead_parent_sound db b).1 (rw is at e)

pub local_block_dead-true :
    (db : Reader) (local : Verdict)
    → local_block_dead db local ≡ ok true
    → (x : BlockId) × (b : StoredBlock) × (local ≡ block x)
      × (db.read_block x ≡ ok (some b))
      × HasDeadParent db b
unfolding local_block_dead
local_block_dead-true db miss e = cc e
local_block_dead-true db (block x) e =
    let (body, held, e') = >>=-eq-ok (db.read_block x) _ e in
    elim (Option-cases body) [
      | inl gone ↦ cc (rw gone at e')
      | inr (b, is) ↦
          (x, b, refl, held ∙ ap ok is, (block_has_dead_parent_sound db b).0 (rw is at e'))
    ]
