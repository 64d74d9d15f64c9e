-- ===== src/Patch/Arbitrates.antt =====
-- massa-indexer/src/peer/patch.rs: over a store whose reads do not fail, the arbiter always comes to a
-- decision.
use massa_history.Base.{
  ℕ, zero, suc, ◌+◌, Bool, true, false, ◌≡◌, refl, Option, none, some, List, [], ◌∷◌, if◌then◌else◌,
}
use massa_history.Base.Result.{Result, ok, err, ◌>>=◌}
use massa_history.Error.{Error}
use massa_history.Ids.{BlockId, id_eq, as_bytes}
use massa_history.Model.{Slot}
use massa_history.Model.Rows.{StoredBlock}
use massa_history.Db.{Db}
use massa_history.Arbiter.{
  Reader, Verdict, miss, block, Arbitration, adopt_peer, keep_local, inconclusive, verdict_eq,
  final_of, parent_in, parent_of, dead_by, broken_link, link_at, link_loop, next_parent_link,
  prev_loop, prev_final_block, anchor_loop, block_before, dead_fork_anchor, reach_loop,
  reachable_via_parents, dead_among, block_has_dead_parent, arbitrate_in_dead_fork, peer_block_dead,
  local_block_dead, immediate, unless_fork, conclude, by_linkage, arbitrate_verdicts,
}
use massa_history.Patch.Apply.{reader}

abbrev Answers : {A : Type 0} → Result Error A → Type 0
Answers {A} r = (a : A) × (r ≡ ok a)

bind-Answers :
    {A B : Type 0} (r : Result Error A) (next : A → Result Error B)
    → Answers r
    → ((a : A) → Answers (next a))
    → Answers (r >>= next)
bind-Answers (ok a) next h k = k a
bind-Answers (err why) next (a, e) k = cc e

if-Answers :
    {A : Type 0} (c : Bool) (x y : Result Error A)
    → Answers x
    → Answers y
    → Answers (if c then x else y)
if-Answers true x y h k = h
if-Answers false x y h k = k

option-Answers :
    {A B : Type 0} (found : Option A) (x : Result Error B) (next : A → Result Error B)
    → Answers x
    → ((a : A) → Answers (next a))
    → Answers (elim found [ none ↦ x | some a ↦ next a ])
option-Answers none x next h k = h
option-Answers (some a) x next h k = k a

module _ (db : Db) where
  abbrev rows : Reader
  rows = reader db

  link_at-Answers : (thread p : ℕ) → Answers (link_at rows thread p)
  unfolding link_at
  link_at-Answers thread p =
      option-Answers (final_of (db.slots p thread)) _ _ (none, refl)
        λ bid.
          option-Answers (db.blocks (as_bytes bid)) _ _ (none, refl)
            λ b. (some (parent_in thread b), refl)

  link_loop-Answers : (thread rounds p : ℕ) → Answers (link_loop rows thread rounds p)
  unfolding link_loop
  link_loop-Answers thread zero p = (none, refl)
  link_loop-Answers thread (suc rounds) p =
      bind-Answers (link_at rows thread p) _ (link_at-Answers thread p)
        λ hit. option-Answers hit _ _ (link_loop-Answers thread rounds (suc p)) λ link. (link, refl)

  prev_loop-Answers : (thread lo rounds : ℕ) → Answers (prev_loop rows thread lo rounds)
  unfolding prev_loop
  prev_loop-Answers thread lo zero = (none, refl)
  prev_loop-Answers thread lo (suc rounds) =
      option-Answers (final_of (db.slots (lo + rounds) thread)) _ _
        (prev_loop-Answers thread lo rounds) λ bid. (some bid, refl)

  anchor_loop-Answers :
      (thread rounds p : ℕ) (prev : Option BlockId)
      → Answers (anchor_loop rows thread rounds p prev)
  unfolding anchor_loop
  anchor_loop-Answers thread zero p prev = (none, refl)
  anchor_loop-Answers thread (suc rounds) p prev =
      option-Answers (final_of (db.slots p thread)) _ _
        (anchor_loop-Answers thread rounds (suc p) prev)
        λ bid.
          option-Answers (broken_link thread prev (db.blocks (as_bytes bid))) _ _
            (anchor_loop-Answers thread rounds (suc p) (some bid)) λ par. (some par, refl)

  reach_loop-Answers :
      (thread : ℕ) (target : BlockId) (rounds : ℕ) (cur : BlockId)
      → Answers (reach_loop rows thread target rounds cur)
  unfolding reach_loop
  reach_loop-Answers thread target zero cur = (false, refl)
  reach_loop-Answers thread target (suc rounds) cur = by_test (id_eq cur target) (
      option-Answers (parent_of thread (db.blocks (as_bytes cur))) _ _ (false, refl)
        λ par. reach_loop-Answers thread target rounds par)
    where
      by_test :
          {r : Result Error Bool} (c : Bool)
          → Answers r
          → Answers (elim c [ true ↦ ok true | false ↦ r ])
      by_test true h = (true, refl)
      by_test false h = h

  dead_among-Answers : (parents : List BlockId) → Answers (dead_among rows parents)
  unfolding dead_among
  dead_among-Answers [] = (false, refl)
  dead_among-Answers (parent ∷ rest) =
      option-Answers (db.blocks (as_bytes parent)) _ _ (dead_among-Answers rest) λ pb.
        by_test (dead_by parent (db.slots pb.slot.period pb.slot.thread)) (dead_among-Answers rest)
    where
      by_test :
          {r : Result Error Bool} (c : Bool)
          → Answers r
          → Answers (elim c [ true ↦ ok true | false ↦ r ])
      by_test true h = (true, refl)
      by_test false h = h

  prev_final_block-Answers : (slot : Slot) → Answers (prev_final_block rows slot)
  unfolding prev_final_block
  prev_final_block-Answers slot = prev_loop-Answers slot.thread _ _

  block_before-Answers : (slot : Slot) (v : Verdict) → Answers (block_before rows slot v)
  unfolding block_before
  block_before-Answers slot miss = prev_final_block-Answers slot
  block_before-Answers slot (block b) = (some b, refl)

  in_fork-Answers :
      (slot : Slot) (local peer : Verdict) (anchor : BlockId)
      → Answers (arbitrate_in_dead_fork rows slot local peer anchor)
  unfolding arbitrate_in_dead_fork reachable_via_parents
  in_fork-Answers slot (block x) miss anchor = (adopt_peer, refl)
  in_fork-Answers slot miss miss anchor = (keep_local, refl)
  in_fork-Answers slot miss (block y) anchor =
      if-Answers (id_eq y anchor) _ _ (adopt_peer, refl)
        (bind-Answers (reach_loop rows slot.thread y 64 anchor) _
          (reach_loop-Answers slot.thread y 64 anchor) λ reached. (_, refl))
  in_fork-Answers slot (block x) (block y) anchor =
      if-Answers (id_eq y anchor) _ _ (adopt_peer, refl)
        (bind-Answers (reach_loop rows slot.thread y 64 anchor) _
          (reach_loop-Answers slot.thread y 64 anchor) λ reached. (_, refl))

  peer_dead-Answers :
      (peer : Verdict) (body : Option StoredBlock) → Answers (peer_block_dead rows peer body)
  unfolding peer_block_dead block_has_dead_parent
  peer_dead-Answers miss body = (false, refl)
  peer_dead-Answers (block y) none = (false, refl)
  peer_dead-Answers (block y) (some pb) =
      if-Answers (id_eq pb.id y) _ _ (dead_among-Answers pb.parents) (false, refl)

  local_dead-Answers : (local : Verdict) → Answers (local_block_dead rows local)
  unfolding local_block_dead block_has_dead_parent
  local_dead-Answers miss = (false, refl)
  local_dead-Answers (block x) =
      option-Answers (db.blocks (as_bytes x)) _ _ (false, refl) λ lb. dead_among-Answers lb.parents

  immediate-Answers :
      (slot : Slot) (local peer : Verdict) (next : BlockId)
      → Answers (immediate rows slot local peer next)
  unfolding immediate
  immediate-Answers slot (block x) (block y) next = (_, refl)
  immediate-Answers slot miss (block y) next = (_, refl)
  immediate-Answers slot (block x) miss next =
      if-Answers (id_eq next x) _ _ (some keep_local, refl)
        (bind-Answers (prev_final_block rows slot) _ (prev_final_block-Answers slot)
          λ before. (_, refl))
  immediate-Answers slot miss miss next = (some keep_local, refl)

  unless_fork-Answers :
      (slot : Slot) (local peer : Verdict) (otherwise : Arbitration)
      → Answers (unless_fork rows slot local peer otherwise)
  unfolding unless_fork dead_fork_anchor
  unless_fork-Answers slot local peer otherwise =
      bind-Answers (dead_fork_anchor rows slot local) _
        (bind-Answers (block_before rows slot local) _ (block_before-Answers slot local)
          λ prev. anchor_loop-Answers slot.thread _ _ prev)
        λ anchor. option-Answers anchor _ _ (otherwise, refl) λ a. in_fork-Answers slot local peer a

  conclude-Answers :
      (slot : Slot) (local peer : Verdict) (now : Option Arbitration)
      → Answers (conclude rows slot local peer now)
  unfolding conclude
  conclude-Answers slot local peer (some adopt_peer) = (adopt_peer, refl)
  conclude-Answers slot local peer (some inconclusive) = (inconclusive, refl)
  conclude-Answers slot local peer (some keep_local) =
      unless_fork-Answers slot local peer keep_local
  conclude-Answers slot local peer none = unless_fork-Answers slot local peer inconclusive

  by_linkage-Answers :
      (slot : Slot) (local peer : Verdict) → Answers (by_linkage rows slot local peer)
  unfolding by_linkage next_parent_link
  by_linkage-Answers slot local peer =
      bind-Answers (next_parent_link rows slot) _ (link_loop-Answers slot.thread _ _) λ link.
        option-Answers link _ _ (inconclusive, refl)
          λ next.
            bind-Answers (immediate rows slot local peer next) _
              (immediate-Answers slot local peer next) λ now. conclude-Answers slot local peer now

  pub arbitrate_verdicts-Answers :
      (slot : Slot) (local peer : Verdict) (body : Option StoredBlock)
      → (a : Arbitration) × (arbitrate_verdicts rows slot local peer body ≡ ok a)
  unfolding arbitrate_verdicts
  arbitrate_verdicts-Answers slot local peer body =
      if-Answers (verdict_eq local peer) _ _ (keep_local, refl)
        (bind-Answers (peer_block_dead rows peer body) _ (peer_dead-Answers peer body) λ peer_dead.
          if-Answers peer_dead _ _ (keep_local, refl)
            (bind-Answers (local_block_dead rows local) _ (local_dead-Answers local) λ local_dead.
              if-Answers local_dead _ _ (adopt_peer, refl) (by_linkage-Answers slot local peer)))
