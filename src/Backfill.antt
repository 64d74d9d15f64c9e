-- ===== src/Backfill.antt =====
-- massa-indexer/src/peer/backfill.rs: which slots the backfill walker asks peers for, and which
-- parts of them. A duration is its number of milliseconds. The walk itself, its sleeps and the
-- calls to peers are not modelled.
pub mod Request
pub mod Converged
mod Tests
use massa_history.Base.{
  ℕ, ◌-◌, Bool, true, false, not, ◌&&◌, ◌||◌, Option, none, some, List, [], ◌∷◌, leb, if◌then◌else◌,
}
use massa_history.Model.{SlotState, SlotStatus, StreamsExpected, all_streams}

-- The protobuf message: the parts of a slot that are asked for.
pub record FinalSlotParts : Type 0 where
  pub block : Bool
  pub exec_output : Bool
  pub transfers : Bool

pub record BackfillConfig : Type 0 where
  pub rate_limit : ℕ
  pub wrap_pause : ℕ
  pub idle_pause : ℕ
  pub expected_streams : StreamsExpected
  pub parts : FinalSlotParts
  pub thread_count : ℕ
  pub range_periods : ℕ
  pub range_limit : ℕ
  pub range_sparse_threshold : ℕ
  pub apply_pause : ℕ
  pub apply_bandwidth : ℕ
  pub stale_candidate_periods : ℕ
  pub recent_incomplete_periods : ℕ
  pub recheck_ranges : List (ℕ × ℕ)
  pub max_remote_head_lead : ℕ
  pub recheck_sweeps : ℕ

abbrev pub all_parts : FinalSlotParts
all_parts = record { block = true; exec_output = true; transfers = true }

abbrev pub default_config : BackfillConfig
default_config = record {
  rate_limit = 20;
  wrap_pause = 30_000;
  idle_pause = 5_000;
  expected_streams = all_streams;
  parts = all_parts;
  thread_count = 32;
  range_periods = 16;
  range_limit = 512;
  range_sparse_threshold = 24;
  apply_pause = 2;
  apply_bandwidth = 2_000_000;
  stale_candidate_periods = 64;
  recent_incomplete_periods = 1_350;
  recheck_ranges = [];
  max_remote_head_lead = 50_000;
  recheck_sweeps = 3;
}

pub record SweepCtx : Type 0 where
  pub head : ℕ
  pub recheck_ranges : List (ℕ × ℕ)

unfoldable pub in_ranges : List (ℕ × ℕ) → ℕ → Bool
in_ranges [] period = false
in_ranges ((lo, hi) ∷ rest) period = (leb lo period && leb period hi) || in_ranges rest period

unfoldable pub in_recheck : SweepCtx → ℕ → Bool
in_recheck sweep period = in_ranges sweep.recheck_ranges period

pub data FetchReason : Type 0 where
  gap stale_candidate suspicious_miss recent_incomplete recheck : FetchReason

-- The parts of `enabled` streams that peers can be asked for.
abbrev pub enabled_parts : StreamsExpected → FinalSlotParts → FinalSlotParts
enabled_parts enabled requestable = record {
  block = enabled.filled_blocks && requestable.block;
  exec_output = enabled.slot_execution_outputs && requestable.exec_output;
  transfers = enabled.transfers && requestable.transfers;
}

unfoldable pub all_enabled : StreamsExpected → FinalSlotParts → Option FinalSlotParts
all_enabled enabled requestable =
    let parts = enabled_parts enabled requestable in
    if parts.block || (parts.exec_output || parts.transfers) then some parts else none

-- `.map(|p| (p, reason))`
abbrev because : FetchReason → Option FinalSlotParts → Option (FinalSlotParts × FetchReason)
because reason none = none
because reason (some p) = some (p, reason)

-- The last test of a FINAL row.
unfoldable pub missing_parts : SlotState → BackfillConfig → Option (FinalSlotParts × FetchReason)
missing_parts s cfg =
    let enabled = cfg.expected_streams in
    let requestable = cfg.parts in
    let c = s.completeness in
    let exec =
      (enabled.slot_execution_outputs && requestable.exec_output) && not c.exec_output_final in
    let transfers = (enabled.transfers && requestable.transfers) && not c.transfers_stored in
    if exec || transfers
    then some
        (record { block = false; exec_output = exec; transfers = transfers }, recent_incomplete)
    else none

-- `is_empty` on a vector.
abbrev pub is_empty {ℓ} : {A : Type ℓ} → List A → Bool
is_empty [] = true
is_empty (x ∷ xs) = false

unfoldable pub no_candidates : SlotState → Bool
no_candidates s = is_empty s.candidate_block_ids

unfoldable pub final_needs :
    SlotState → BackfillConfig → SweepCtx → ℕ → Option (FinalSlotParts × FetchReason)
final_needs s cfg sweep age =
    let all = all_enabled cfg.expected_streams cfg.parts in
    if in_recheck sweep s.slot.period
    then because recheck all
    else if not s.is_miss && not s.completeness.block_body_stored
    then because gap all
    else if s.is_miss && not (no_candidates s)
    then because suspicious_miss all
    else if leb age cfg.recent_incomplete_periods
    then missing_parts s cfg
    else none

by_status :
    SlotStatus → SlotState → BackfillConfig → SweepCtx → ℕ → Option (FinalSlotParts × FetchReason)
by_status SlotStatus.unknown s cfg sweep age =
    because gap (all_enabled cfg.expected_streams cfg.parts)
by_status SlotStatus.candidate s cfg sweep age =
    if leb cfg.stale_candidate_periods age
    then because stale_candidate (all_enabled cfg.expected_streams cfg.parts)
    else none
by_status SlotStatus.final s cfg sweep age = final_needs s cfg sweep age

unfoldable pub needs_fetch :
    Option SlotState → BackfillConfig → SweepCtx → Option (FinalSlotParts × FetchReason)
unfolding by_status
needs_fetch none cfg sweep = because gap (all_enabled cfg.expected_streams cfg.parts)
needs_fetch (some s) cfg sweep = by_status s.status s cfg sweep (sweep.head - s.slot.period)
