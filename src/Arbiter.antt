-- ===== src/Arbiter.antt =====
-- massa-indexer/src/peer/patch.rs, lines 78 to 348: which of two FINAL verdicts on one slot the
-- chain confirms. The arbiter only reads the store, so it takes the two reads as a `Reader`.
pub mod Links
pub mod Parents
pub mod Ancestors
pub mod Fork
pub mod Evidence
pub mod Linkage
pub mod Sound
mod Tests
use massa_history.Base.{
  ℕ, zero, suc, ◌+◌, ◌-◌, ◌^◌, ◌%◌, Bool, true, false, not, ◌&&◌, ◌||◌, Option, none, some, List,
  [], ◌∷◌, get_elem?, if◌then◌else◌,
}
use massa_history.Base.Result.{ok, ◌>>=◌}
use massa_history.Error.{Res}
use massa_history.Ids.{BlockId, id_eq}
use massa_history.Model.{Slot, SlotState, SlotStatus}
use massa_history.Model.Rows.{StoredBlock}

-- `Db::read_slot` and `Db::read_block`.
pub record Reader : Type 0 where
  pub read_slot : ℕ → ℕ → Res (Option SlotState)
  pub read_block : BlockId → Res (Option StoredBlock)

pub data Verdict : Type 0 where
  miss : Verdict
  block : BlockId → Verdict

-- `map(Verdict::Block)`
abbrev of_block : Option BlockId → Option Verdict
of_block none = none
of_block (some b) = some (block b)

unfoldable pub of_local : SlotState → Option Verdict
of_local state = if state.is_miss then some miss else of_block state.final_block_id

-- The response enters by its field `is_miss`.
unfoldable pub of_peer : Bool → Option BlockId → Option Verdict
of_peer is_miss final_block_id = if is_miss then some miss else of_block final_block_id

unfoldable pub verdict_eq : Verdict → Verdict → Bool
verdict_eq miss miss = true
verdict_eq miss (block y) = false
verdict_eq (block x) miss = false
verdict_eq (block x) (block y) = id_eq x y

pub data Arbitration : Type 0 where
  adopt_peer keep_local inconclusive : Arbitration

abbrev pub linkage_lookaround : ℕ
linkage_lookaround = 512

-- `+` on u64, which wraps in a release build.
abbrev pub add_u64 : ℕ → ℕ → ℕ
add_u64 a b = (a + b) % 2 ^ 64

abbrev is_final : SlotStatus → Bool
is_final SlotStatus.final = true
is_final SlotStatus.candidate = false
is_final SlotStatus.unknown = false

-- `==` on `Option<BlockId>`.
unfoldable pub option_eq : Option BlockId → Option BlockId → Bool
option_eq none none = true
option_eq none (some y) = false
option_eq (some x) none = false
option_eq (some x) (some y) = id_eq x y

-- The guards that open each loop body: the final block of a FINAL row that is no miss.
unfoldable pub final_of : Option SlotState → Option BlockId
final_of none = none
final_of (some s) = if is_final s.status && not s.is_miss then s.final_block_id else none

-- `block.parents.get(thread)`
unfoldable pub parent_in : ℕ → StoredBlock → Option BlockId
parent_in thread body = get_elem? body.parents thread

-- The parent that a body names, if we hold the body.
unfoldable pub parent_of : ℕ → Option StoredBlock → Option BlockId
parent_of thread none = none
parent_of thread (some body) = parent_in thread body

-- Whether a parent is dead by our row of its slot.
unfoldable pub dead_by : BlockId → Option SlotState → Bool
dead_by parent none = false
dead_by parent (some row) =
    is_final row.status && (row.is_miss || not (option_eq row.final_block_id (some parent)))

-- The parent that a body names, if it is not the block that our rows have before it.
unfoldable pub broken_link : ℕ → Option BlockId → Option StoredBlock → Option BlockId
broken_link thread prev none = none
broken_link thread prev (some body) = elim (parent_in thread body) [
  | none ↦ none
  | some par ↦ if option_eq (some par) prev then none else some par
]

module _ (db : Reader) where
  open db use {read_slot, read_block}

  -- A round of the loop of `next_parent_link`; `none` goes on, `some` returns.
  unfoldable pub link_at : ℕ → ℕ → Res (Option (Option BlockId))
  link_at thread p = do
    row ← read_slot p thread
    elim (final_of row) [
      | none ↦ ok none
      | some bid ↦ do
        body ← read_block bid
        elim body [ none ↦ ok none | some b ↦ ok (some (parent_in thread b)) ]
    ]

  unfoldable pub link_loop : ℕ → ℕ → ℕ → Res (Option BlockId)
  link_loop thread zero p = ok none
  link_loop thread (suc rounds) p = do
    hit ← link_at thread p
    elim hit [ some link ↦ ok link | none ↦ link_loop thread rounds (suc p) ]

  unfoldable pub next_parent_link : Slot → Res (Option BlockId)
  next_parent_link slot =
      let lo = add_u64 slot.period 1 in
      let hi = add_u64 slot.period linkage_lookaround in link_loop slot.thread (hi + 1 - lo) lo

  -- The rounds go down: the next period to look at is `rounds - 1` above `lo`.
  unfoldable pub prev_loop : ℕ → ℕ → ℕ → Res (Option BlockId)
  prev_loop thread lo zero = ok none
  prev_loop thread lo (suc rounds) = do
    row ← read_slot (lo + rounds) thread
    elim (final_of row) [ some bid ↦ ok (some bid) | none ↦ prev_loop thread lo rounds ]

  unfoldable pub prev_final_block : Slot → Res (Option BlockId)
  prev_final_block slot =
      let lo = slot.period - linkage_lookaround in prev_loop slot.thread lo (slot.period - lo)

  unfoldable pub anchor_loop : ℕ → ℕ → ℕ → Option BlockId → Res (Option BlockId)
  anchor_loop thread zero p prev = ok none
  anchor_loop thread (suc rounds) p prev = do
    row ← read_slot p thread
    elim (final_of row) [
      | none ↦ anchor_loop thread rounds (suc p) prev
      | some bid ↦ do
        body ← read_block bid
        elim (broken_link thread prev body) [
          | some par ↦ ok (some par)
          | none ↦ anchor_loop thread rounds (suc p) (some bid)
        ]
    ]

  unfoldable pub block_before : Slot → Verdict → Res (Option BlockId)
  block_before slot miss = prev_final_block slot
  block_before slot (block b) = ok (some b)

  unfoldable pub dead_fork_anchor : Slot → Verdict → Res (Option BlockId)
  unfolding block_before
  dead_fork_anchor slot local = do
    prev ← block_before slot local
    let lo = add_u64 slot.period 1
    let hi = add_u64 slot.period linkage_lookaround
    anchor_loop slot.thread (hi + 1 - lo) lo prev

  unfoldable pub reach_loop : ℕ → BlockId → ℕ → BlockId → Res Bool
  reach_loop thread target zero cur = ok false
  reach_loop thread target (suc rounds) cur = elim (id_eq cur target) [
    | true ↦ ok true
    | false ↦ do
      body ← read_block cur
      elim (parent_of thread body) [
        | none ↦ ok false
        | some par ↦ reach_loop thread target rounds par
      ]
  ]

  unfoldable pub reachable_via_parents : BlockId → BlockId → ℕ → Res Bool
  reachable_via_parents anchor target thread = reach_loop thread target 64 anchor

  unfoldable pub dead_among : List BlockId → Res Bool
  dead_among [] = ok false
  dead_among (parent ∷ rest) = do
    body ← read_block parent
    elim body [
      | none ↦ dead_among rest
      | some pb ↦ do
        row ← read_slot pb.slot.period pb.slot.thread
        elim (dead_by parent row) [ true ↦ ok true | false ↦ dead_among rest ]
    ]

  unfoldable pub block_has_dead_parent : StoredBlock → Res Bool
  block_has_dead_parent b = dead_among b.parents

  unfoldable pub arbitrate_in_dead_fork : Slot → Verdict → Verdict → BlockId → Res Arbitration
  arbitrate_in_dead_fork slot (block x) miss anchor = ok adopt_peer
  arbitrate_in_dead_fork slot miss miss anchor = ok keep_local
  arbitrate_in_dead_fork slot local (block y) anchor = if id_eq y anchor then ok adopt_peer else (do
    reached ← reachable_via_parents anchor y slot.thread
    ok (if reached then adopt_peer else inconclusive))

  -- The first test: the peer's body is the block of its verdict, and is built on a dead parent.
  unfoldable pub peer_block_dead : Verdict → Option StoredBlock → Res Bool
  peer_block_dead miss body = ok false
  peer_block_dead (block y) none = ok false
  peer_block_dead (block y) (some pb) = if id_eq pb.id y then block_has_dead_parent pb else ok false

  unfoldable pub local_block_dead : Verdict → Res Bool
  local_block_dead miss = ok false
  local_block_dead (block x) = do
    body ← read_block x
    elim body [ none ↦ ok false | some lb ↦ block_has_dead_parent lb ]

  -- What the next block of the thread says by itself.
  unfoldable pub immediate : Slot → Verdict → Verdict → BlockId → Res (Option Arbitration)
  immediate slot (block x) (block y) next =
      ok (if id_eq next y then some adopt_peer else if id_eq next x then some keep_local else none)
  immediate slot miss (block y) next = ok (if id_eq next y then some adopt_peer else none)
  immediate slot (block x) miss next = if id_eq next x then ok (some keep_local) else (do
    before ← prev_final_block slot
    ok (if option_eq before (some next) then some adopt_peer else none))
  immediate slot miss miss next = ok (some keep_local)

  -- What is left to decide when our chain ahead is searched for a break.
  unfoldable pub unless_fork : Slot → Verdict → Verdict → Arbitration → Res Arbitration
  unless_fork slot local peer otherwise = do
    anchor ← dead_fork_anchor slot local
    elim anchor [ some a ↦ arbitrate_in_dead_fork slot local peer a | none ↦ ok otherwise ]

  unfoldable pub conclude : Slot → Verdict → Verdict → Option Arbitration → Res Arbitration
  conclude slot local peer (some adopt_peer) = ok adopt_peer
  conclude slot local peer (some inconclusive) = ok inconclusive
  conclude slot local peer (some keep_local) = unless_fork slot local peer keep_local
  conclude slot local peer none = unless_fork slot local peer inconclusive

  unfoldable pub by_linkage : Slot → Verdict → Verdict → Res Arbitration
  by_linkage slot local peer = do
    link ← next_parent_link slot
    elim link [
      | none ↦ ok inconclusive
      | some next ↦ do now ← immediate slot local peer next; conclude slot local peer now
    ]

  unfoldable pub arbitrate_verdicts :
      Slot → Verdict → Verdict → Option StoredBlock → Res Arbitration
  arbitrate_verdicts slot local peer peer_block =
      if verdict_eq local peer then ok keep_local else (do
        peer_dead ← peer_block_dead peer peer_block
        if peer_dead then ok keep_local else do
          local_dead ← local_block_dead local
          if local_dead then ok adopt_peer else by_linkage slot local peer)
