-- ===== src/Backfill/Request.antt =====
-- What `needs_fetch` of massa-indexer/src/peer/backfill.rs asks for, and why.
use massa_history.Base.{
  ◌-◌, ◌≤◌, Bool, true, false, not, ◌&&◌, ◌||◌, ◌≡◌, ◌≢◌, refl, inl, inr, Option, none, some, [],
  arith, Bool-cases, Option-cases, leb, ap, ◌∙◌,
}
use massa_history.Model.{SlotState, SlotStatus}
use massa_history.Backfill.{
  FinalSlotParts, BackfillConfig, SweepCtx, FetchReason, gap, stale_candidate, suspicious_miss,
  recent_incomplete, recheck, in_recheck, all_enabled, missing_parts, no_candidates, final_needs,
  by_status, needs_fetch, because, is_empty,
}

-- Every part asked for is one that the operator enabled and that peers can be asked for, and some
-- part is asked for.
pub record Asks (cfg : BackfillConfig) (p : FinalSlotParts) : Type 0 where
  pub block :
      p.block ≡ true → (cfg.expected_streams.filled_blocks ≡ true) × (cfg.parts.block ≡ true)
  pub exec_output :
      p.exec_output ≡ true
      → (cfg.expected_streams.slot_execution_outputs ≡ true) × (cfg.parts.exec_output ≡ true)
  pub transfers :
      p.transfers ≡ true → (cfg.expected_streams.transfers ≡ true) × (cfg.parts.transfers ≡ true)
  pub something : (p.block || (p.exec_output || p.transfers)) ≡ true

all_enabled-Asks :
    (cfg : BackfillConfig) (p : FinalSlotParts)
    → all_enabled cfg.expected_streams cfg.parts ≡ some p
    → Asks cfg p
unfolding all_enabled
all_enabled-Asks cfg p e = record {
  block = λ b. ground arith;
  exec_output = λ b. ground arith;
  transfers = λ b. ground arith;
  something = ground arith;
}

-- Of the parts asked for, the row has none.
pub record AreMissing (s : SlotState) (p : FinalSlotParts) : Type 0 where
  pub block : p.block ≡ false
  pub exec_output : p.exec_output ≡ true → s.completeness.exec_output_final ≡ false
  pub transfers : p.transfers ≡ true → s.completeness.transfers_stored ≡ false

missing_parts-Asks :
    (s : SlotState) (cfg : BackfillConfig) (p : FinalSlotParts) (r : FetchReason)
    → missing_parts s cfg ≡ some (p, r)
    → Asks cfg p × AreMissing s p × (r ≡ recent_incomplete)
unfolding missing_parts
missing_parts-Asks s cfg p r e = (
  record {
    block = λ b. ground arith;
    exec_output = λ b. ground arith;
    transfers = λ b. ground arith;
    something = ground arith;
  },
  record { block = ground arith; exec_output = λ b. ground arith; transfers = λ b. ground arith },
  ground arith,
)

because-Asks :
    (cfg : BackfillConfig) (p : FinalSlotParts) (why r : FetchReason)
    → because why (all_enabled cfg.expected_streams cfg.parts) ≡ some (p, r)
    → Asks cfg p × (r ≡ why)
because-Asks cfg p why r e = elim (Option-cases (all_enabled cfg.expected_streams cfg.parts)) [
  | inl nothing ↦ cc (rw nothing at e)
  | inr (parts, is) ↦
      let same : parts ≡ p = cc (rw is at e) in
      (all_enabled-Asks cfg p (is ∙ ap some same), cc (rw is at e))
]

-- What a row must be like for each reason to be given.
pub data Why (cfg : BackfillConfig) (sweep : SweepCtx) (p : FinalSlotParts)
    : Option SlotState → FetchReason → Type 0 where
  no_row : Why cfg sweep p none gap
  stub : (s : SlotState) → s.status ≡ SlotStatus.unknown → Why cfg sweep p (some s) gap
  stale :
      (s : SlotState)
      → s.status ≡ SlotStatus.candidate
      → cfg.stale_candidate_periods ≤ sweep.head - s.slot.period
      → Why cfg sweep p (some s) stale_candidate
  ordered :
      (s : SlotState)
      → s.status ≡ SlotStatus.final
      → in_recheck sweep s.slot.period ≡ true
      → Why cfg sweep p (some s) recheck
  no_body :
      (s : SlotState)
      → s.status ≡ SlotStatus.final
      → s.is_miss ≡ false
      → s.completeness.block_body_stored ≡ false
      → Why cfg sweep p (some s) gap
  contested :
      (s : SlotState)
      → s.status ≡ SlotStatus.final
      → s.is_miss ≡ true
      → s.candidate_block_ids ≢ []
      → Why cfg sweep p (some s) suspicious_miss
  recent :
      (s : SlotState)
      → s.status ≡ SlotStatus.final
      → sweep.head - s.slot.period ≤ cfg.recent_incomplete_periods
      → AreMissing s p
      → Why cfg sweep p (some s) recent_incomplete

no_candidates-false : (s : SlotState) → no_candidates s ≡ false → s.candidate_block_ids ≢ []
unfolding no_candidates
no_candidates-false s e h = cc (e, ap is_empty h)

abbrev contested_test : SlotState → Bool
contested_test s = s.is_miss && not (no_candidates s)

abbrev bodyless_test : SlotState → Bool
bodyless_test s = not s.is_miss && not s.completeness.block_body_stored

module _ (s : SlotState) (cfg : BackfillConfig) (sweep : SweepCtx) (p : FinalSlotParts)
    (r : FetchReason) where
  final_needs-ok :
      s.status ≡ SlotStatus.final
      → final_needs s cfg sweep (sweep.head - s.slot.period) ≡ some (p, r)
      → Asks cfg p × Why cfg sweep p (some s) r
  unfolding final_needs
  final_needs-ok fin e = elim (Bool-cases (in_recheck sweep s.slot.period)) [
    | inl forced ↦
        let (asks, is) = because-Asks cfg p recheck r (rw forced at e) in
        (asks, rw is (ordered s fin forced))
    | inr free ↦ elim (Bool-cases (bodyless_test s)) [
      | inl bare ↦
          let (asks, is) = because-Asks cfg p gap r (rw (free, bare) at e) in
          (asks, rw is (no_body s fin (ground arith) (ground arith)))
      | inr held ↦ elim (Bool-cases (contested_test s)) [
        | inl odd ↦
            let (asks, is) = because-Asks cfg p suspicious_miss r (rw (free, held, odd) at e) in
            (asks, rw is (contested s fin (ground arith) (no_candidates-false s (ground arith))))
        | inr settled ↦
            elim (Bool-cases (leb (sweep.head - s.slot.period) cfg.recent_incomplete_periods)) [
              | inl young ↦
                  let (asks, lacks, is) =
                    missing_parts-Asks s cfg p r (rw (free, held, settled, young) at e) in
                  (asks, rw is (recent s fin (ground arith) lacks))
              | inr old ↦ cc (rw (free, held, settled, old) at e)
            ]
      ]
    ]
  ]

  candidate_needs-ok :
      s.status ≡ SlotStatus.candidate
      → by_status SlotStatus.candidate s cfg sweep (sweep.head - s.slot.period) ≡ some (p, r)
      → Asks cfg p × Why cfg sweep p (some s) r
  unfolding by_status
  candidate_needs-ok is_candidate e =
      elim (Bool-cases (leb cfg.stale_candidate_periods (sweep.head - s.slot.period))) [
        | inl old ↦
            let (asks, is) = because-Asks cfg p stale_candidate r (rw old at e) in
            (asks, rw is (stale s is_candidate (ground arith)))
        | inr young ↦ cc (rw young at e)
      ]

  by_status-ok :
      (status : SlotStatus)
      → s.status ≡ status
      → by_status status s cfg sweep (sweep.head - s.slot.period) ≡ some (p, r)
      → Asks cfg p × Why cfg sweep p (some s) r
  unfolding by_status
  by_status-ok SlotStatus.unknown is_unknown e =
      let (asks, is) = because-Asks cfg p gap r e in (asks, rw is (stub s is_unknown))
  by_status-ok SlotStatus.candidate is_candidate e = candidate_needs-ok is_candidate e
  by_status-ok SlotStatus.final fin e = final_needs-ok fin e

-- What `needs_fetch` asks for is enabled and available and is never nothing, and the row is as the
-- reason that it gives says; where that is that the row is recent and incomplete, the row has none
-- of the parts asked for.
pub needs_fetch_sound :
    (row : Option SlotState) (cfg : BackfillConfig) (sweep : SweepCtx) (p : FinalSlotParts)
    (r : FetchReason)
    → needs_fetch row cfg sweep ≡ some (p, r)
    → Asks cfg p × Why cfg sweep p row r
unfolding needs_fetch
needs_fetch_sound none cfg sweep p r e =
    let (asks, is) = because-Asks cfg p gap r e in (asks, rw is no_row)
needs_fetch_sound (some s) cfg sweep p r e = by_status-ok s cfg sweep p r s.status refl e
