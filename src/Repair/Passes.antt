-- ===== src/Repair/Passes.antt =====
-- massa-indexer/src/repair.rs: the two passes over a range of periods, as what they do in order. A pass
-- that is stopped, by a closed channel or with the program, has done a first part of it. Periods
-- stay below 2 ^ 64 - 1, where `to_period + 1` does not overflow.
use massa_history.Base.{
  ℕ, zero, suc, ◌+◌, ◌-◌, ◌%◌, Option, none, some, List, [], ◌∷◌, ◌++◌, ◌==◌, leb, ltb,
  if◌then◌else◌,
}

-- A slot is scanned, with what it sends accepted, or the next period is written to the metadata.
pub data Act : Type 0 where
  scanned : (period thread : ℕ) → Act
  checkpoint : (next : ℕ) → Act

-- `for thread in 0..thread_count`: the threads from `thread` on.
unfoldable pub scans : ℕ → ℕ → ℕ → List Act
scans period thread zero = []
scans period thread (suc left) = scanned period thread ∷ scans period (thread + 1) left

-- Every 64 periods.
abbrev pub marks : ℕ → List Act
marks period = if period % 64 == 0 then checkpoint (period + 1) ∷ [] else []

-- `while period <= to_period`, for so many periods, and the last checkpoint.
unfoldable pub ascending : ℕ → ℕ → ℕ → List Act
ascending threads period zero = checkpoint period ∷ []
ascending threads period (suc left) =
    scans period 0 threads ++ (marks period ++ ascending threads (period + 1) left)

-- `stored.unwrap_or(from_period).max(from_period)`
unfoldable pub start_of : ℕ → Option ℕ → ℕ
start_of from_period none = from_period
start_of from_period (some stored) = if leb from_period stored then stored else from_period

-- A run of `run_reconstruct_transfers` to its end.
unfoldable pub reconstruct_run : ℕ → ℕ → ℕ → Option ℕ → List Act
reconstruct_run threads from_period to_period stored =
    let start = start_of from_period stored in
    if ltb to_period start then [] else ascending threads start (to_period + 1 - start)

-- What a part of a run leaves in the metadata.
unfoldable pub last_checkpoint : Option ℕ → List Act → Option ℕ
last_checkpoint stored [] = stored
last_checkpoint stored (scanned p t ∷ rest) = last_checkpoint stored rest
last_checkpoint stored (checkpoint next ∷ rest) = last_checkpoint (some next) rest
