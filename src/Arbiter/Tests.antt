-- ===== src/Arbiter/Tests.antt =====
-- The arbiter on a small store: the row of slot (10, 0) has the block `ours`, and the final block
-- `after` of (11, 0) names `theirs` as its parent in thread 0; or, in the second store, `ours`.
use massa_history.Base.{
  ℕ, ◌<◌, ◌-◌, true, false, ◌≡◌, ◌≢◌, refl, ◌⊎◌, Option, none, some, [], ◌∷◌, List, arith, ◌==◌,
  if◌then◌else◌, get_elem?,
}
use massa_history.Base.Result.{ok}
use massa_history.Ids.{BlockId, id_eq, Address, bytes_eq}
use massa_history.Model.{Slot, SlotState, SlotStatus, BlockStatus, fresh}
use massa_history.Model.Rows.{StoredBlock}
use massa_history.Arbiter.{
  Reader, miss, block, adopt_peer, keep_local, inconclusive, arbitrate_verdicts, next_parent_link,
  prev_final_block, dead_fork_anchor, reachable_via_parents, block_has_dead_parent, block_before,
  link_loop, link_at, final_of, parent_in, prev_loop, anchor_loop, broken_link, option_eq,
  peer_block_dead, local_block_dead, verdict_eq, by_linkage, immediate, conclude, unless_fork,
  dead_among,
}
use massa_history.Arbiter.Links.{
  FirstLink, NoBody, LastFinal, NoFinal, next_parent_link_first, prev_final_block_last,
}
use massa_history.Arbiter.Parents.{DeadParent, block_has_dead_parent_sound}
use massa_history.Arbiter.Ancestors.{Ancestor, here, up, reachable_iff}
use massa_history.Arbiter.Fork.{Break, Unbroken, dead_fork_anchor_first}
use massa_history.Arbiter.Evidence.{ForPeer, ForLocal, HasDeadParent}
use massa_history.Arbiter.Sound.{adopt_peer_sound, dead_peer_refused, keep_local_sound}

abbrev name : ℕ → BlockId
name n = record { key = n ∷ []; text = [] }

abbrev ours : BlockId
ours = name 1

abbrev theirs : BlockId
theirs = name 2

abbrev after : BlockId
after = name 3

abbrev nobody : Address
nobody = record { key = []; text = [] }

abbrev body_of : BlockId → ℕ → List BlockId → StoredBlock
body_of id period parents = record {
  id = id;
  slot = record { period = period; thread = 0 };
  creator = nobody;
  parents = parents;
  operation_ids = [];
  endorsements = [];
  endorsement_ids = [];
  denunciations = [];
  current_version = 0;
  announced_version = none;
  operations_hash = [];
  signature = [];
  content_creator_pub_key = [];
  serialized_size = 0;
  raw_signed_header_b64 = [];
  status = BlockStatus.final;
  first_seen_ts_ms = 0;
}

abbrev final_row : ℕ → BlockId → SlotState
final_row period b =
    let s : SlotState = fresh (record { period = period; thread = 0 }) 0 in
    record s { status = SlotStatus.final; final_block_id = some b }

abbrev rows : ℕ → ℕ → Option SlotState
rows p t =
    if p == 10
    then some (final_row 10 ours)
    else if p == 11
    then some (final_row 11 after)
    else none

abbrev store : BlockId → Reader
store parent = record {
  read_slot = λ p t. ok (rows p t);
  read_block =
      λ b. ok (if bytes_eq b.key (3 ∷ []) then some (body_of after 11 (parent ∷ [])) else none);
}

abbrev disputed : Slot
disputed = record { period = 10; thread = 0 }

link_found : next_parent_link (store theirs) disputed ≡ ok (some theirs)
unfolding next_parent_link link_loop link_at final_of parent_in bytes_eq
link_found = refl

before_found : prev_final_block (store theirs) (record { period = 11; thread = 0 }) ≡ ok (some ours)
unfolding prev_final_block prev_loop final_of
before_found = refl

anchor_found : dead_fork_anchor (store theirs) disputed (block ours) ≡ ok (some theirs)
unfolding dead_fork_anchor anchor_loop broken_link option_eq final_of parent_in id_eq bytes_eq
anchor_found = refl

adopted :
    arbitrate_verdicts (store theirs) disputed (block ours) (block theirs) none ≡ ok adopt_peer
unfolding arbitrate_verdicts peer_block_dead local_block_dead verdict_eq id_eq bytes_eq by_linkage
    next_parent_link link_loop link_at final_of parent_in immediate conclude
adopted = refl

-- The peer's miss is refused: the next block builds on ours.
kept : arbitrate_verdicts (store ours) disputed (block ours) miss none ≡ ok keep_local
unfolding arbitrate_verdicts peer_block_dead local_block_dead verdict_eq id_eq bytes_eq by_linkage
    next_parent_link link_loop link_at final_of parent_in immediate conclude unless_fork
    dead_fork_anchor anchor_loop broken_link option_eq
kept = refl

-- The store knows nothing ahead of the later slot.
undecided :
    arbitrate_verdicts (store ours) (record { period = 11; thread = 0 }) (block after) miss none
    ≡ ok inconclusive
unfolding arbitrate_verdicts peer_block_dead local_block_dead block_has_dead_parent dead_among
    verdict_eq id_eq bytes_eq by_linkage next_parent_link link_loop link_at final_of parent_in
undecided = refl

after_names_theirs : reachable_via_parents (store theirs) after theirs 0 ≡ ok true
unfolding bytes_eq parent_in
after_names_theirs =
    (reachable_iff (store theirs) after theirs 0).1 1 (omega arith)
      (up (record { body = body_of after 11 (theirs ∷ []); held = refl; names = refl }) here)

next_parent_link_first_example :
    FirstLink (store theirs) 0 11 523 (some theirs)
    ⊎ (◌≡◌ {A = Option BlockId} (some theirs) none × NoBody (store theirs) 0 11 523)
next_parent_link_first_example =
    next_parent_link_first (store theirs) disputed (some theirs) (omega arith) link_found

prev_final_block_last_example :
    ((x : BlockId) × (◌≡◌ {A = Option BlockId} (some ours) (some x))
      × LastFinal (store theirs) 0 (11 - 512) 11 x)
    ⊎ (◌≡◌ {A = Option BlockId} (some ours) none × NoFinal (store theirs) 0 (11 - 512) 11)
prev_final_block_last_example =
    prev_final_block_last (store theirs) (record { period = 11; thread = 0 }) (some ours)
      before_found

block_has_dead_parent_sound_example :
    (block_has_dead_parent (store ours) (body_of after 11 (ours ∷ [])) ≡ ok true
      → HasDeadParent (store ours) (body_of after 11 (ours ∷ [])))
    × (block_has_dead_parent (store ours) (body_of after 11 (ours ∷ [])) ≡ ok false
        → (i : ℕ) (parent : BlockId) → get_elem? (ours ∷ []) i ≡ some parent
        → ¬ DeadParent (store ours) parent)
block_has_dead_parent_sound_example =
    block_has_dead_parent_sound (store ours) (body_of after 11 (ours ∷ []))

reachable_iff_example :
    (reachable_via_parents (store theirs) after theirs 0 ≡ ok true
      → (n : ℕ) × (n < 64) × Ancestor (store theirs) 0 theirs n after)
    × ((n : ℕ)
        → n < 64
        → Ancestor (store theirs) 0 theirs n after
        → reachable_via_parents (store theirs) after theirs 0 ≡ ok true)
reachable_iff_example = reachable_iff (store theirs) after theirs 0

dead_fork_anchor_first_example :
    (prev : Option BlockId) × (block_before (store theirs) disputed (block ours) ≡ ok prev)
    × (((a : BlockId) × (◌≡◌ {A = Option BlockId} (some theirs) (some a))
          × Break (store theirs) 0 11 523 prev a)
        ⊎ ((◌≡◌ {A = Option BlockId} (some theirs) none)
            × ((last : Option BlockId) × Unbroken (store theirs) 0 11 prev 523 last)))
dead_fork_anchor_first_example =
    dead_fork_anchor_first (store theirs) disputed (block ours) (some theirs) (omega arith)
      anchor_found

adopt_peer_sound_example :
    (block ours ≢ block theirs) × ForPeer (store theirs) disputed (block ours) (block theirs)
adopt_peer_sound_example =
    adopt_peer_sound (store theirs) disputed (block ours) (block theirs) none (omega arith) adopted

abbrev shipped : StoredBlock
shipped = body_of theirs 10 []

adopted_body :
    arbitrate_verdicts (store theirs) disputed (block ours) (block theirs) (some shipped)
    ≡ ok adopt_peer
unfolding arbitrate_verdicts peer_block_dead local_block_dead block_has_dead_parent dead_among
    verdict_eq id_eq bytes_eq by_linkage next_parent_link link_loop link_at final_of parent_in
    immediate conclude
adopted_body = refl

dead_peer_refused_example : ¬ HasDeadParent (store theirs) shipped
dead_peer_refused_example =
    dead_peer_refused (store theirs) disputed (block ours) theirs shipped refl adopted_body

keep_local_sound_example : ForLocal (store ours) disputed (block ours) miss none
keep_local_sound_example =
    keep_local_sound (store ours) disputed (block ours) miss none (omega arith) kept
