-- ===== src/Ingest/Lanes.antt =====
-- massa-indexer/src/ingest.rs: the order in which the writer takes events.
use massa_history.Base.{
  ℕ, zero, suc, ◌+◌, ◌<◌, Bool, true, ◌≡◌, refl, Option, none, some, List, [], ◌∷◌, ◌++◌, length,
  arith,
}
use massa_history.Db.{Db}
use massa_history.Ingest.Messages.{Wire}
use massa_history.Ingest.Worker.{
  Event, handle, EventRx, Ingest, stopped, recv_lane, both_retired, live_turn, bulk_turn, step, run,
}

abbrev pub lane : List Event → Bool → Option EventRx
lane waiting closed = some (record { waiting = waiting; closed = closed })

-- Events handled in order, at the turns from `turn` on.
abbrev pub handled_from : Wire → (ℕ → ℕ) → ℕ → List Event → Db → Db
handled_from wire clock turn [] db = db
handled_from wire clock turn (ev ∷ rest) db =
    handled_from wire clock (turn + 1) rest (handle wire (clock turn) ev db)

module _ (wire : Wire) (clock : ℕ → ℕ) where
  -- The writer's state at its end.
  Ended : ℕ → Ingest → Db → Type 0
  Ended rounds w db =
      (turn : ℕ) × (run wire clock rounds w
        ≡ stopped (record { db = db; live_rx = none; bulk_rx = none; turn = turn }))

  retired-Ended :
      (rounds : ℕ) (db : Db) (turn : ℕ)
      → 0 < rounds
      → Ended rounds (record { db = db; live_rx = none; bulk_rx = none; turn = turn }) db
  unfolding Ended run step both_retired
  retired-Ended zero db turn h = absurd (omega arith)
  retired-Ended (suc rounds) db turn h = (turn, refl)

  bulk-Ended :
      (bulk : List Event) (rounds : ℕ) (db : Db) (turn : ℕ)
      → length bulk + 1 < rounds
      → Ended rounds
          (record { db = db; live_rx = none; bulk_rx = lane bulk true; turn = turn })
          (handled_from wire clock turn bulk db)
  unfolding Ended run step both_retired recv_lane live_turn bulk_turn
  bulk-Ended bulk zero db turn h = absurd (omega arith)
  bulk-Ended [] (suc rounds) db turn h = retired-Ended rounds db turn (omega arith)
  bulk-Ended (ev ∷ rest) (suc rounds) db turn h =
      bulk-Ended rest rounds (handle wire (clock turn) ev db) (turn + 1) (omega arith)

  -- With every sender gone, a writer that is given more turns than there are events and two besides
  -- stops: it has handled each live event in order and then each bulk event in order.
  pub closed_lanes_drain :
      (live bulk : List Event) (rounds : ℕ) (db : Db) (turn : ℕ)
      → length live + length bulk + 2 < rounds
      → (last : ℕ) × (run wire clock rounds
            (record { db = db; live_rx = lane live true; bulk_rx = lane bulk true; turn = turn })
          ≡ stopped (record {
            db = handled_from wire clock turn (live ++ bulk) db;
            live_rx = none;
            bulk_rx = none;
            turn = last;
          }))
  unfolding Ended run step both_retired recv_lane live_turn bulk_turn
  closed_lanes_drain live bulk zero db turn h = absurd (omega arith)
  closed_lanes_drain [] bulk (suc rounds) db turn h = bulk-Ended bulk rounds db turn (omega arith)
  closed_lanes_drain (ev ∷ rest) bulk (suc rounds) db turn h =
      closed_lanes_drain rest bulk rounds (handle wire (clock turn) ev db) (turn + 1) (omega arith)
