-- ===== src/Ingest/Worker.antt =====
-- massa-indexer/src/ingest.rs: the single writer, which takes events from two channels. A channel of
-- tokio holds the events that were sent and tells when every sender is gone; `clock` stands for
-- the time at each turn.
use massa_history.Base.{
  ℕ, zero, suc, ◌+◌, Bool, true, false, Option, none, some, List, [], ◌∷◌, if◌then◌else◌,
}
use massa_history.Db.{Db, broadcast, heartbeat}
use massa_history.Patch.{FinalSlotResponse}
use massa_history.Patch.Apply.{apply_peer_patch}
use massa_history.Patch.Legacy.{apply_legacy_patch}
use massa_history.Patch.Forced.{apply_forced_verdict}
use massa_history.Ingest.Messages.{
  FilledBlock, SlotExecutionOutput, NewTransfersInfoServerResponse, Wire,
}
use massa_history.Ingest.Blocks.{handle_block}
use massa_history.Ingest.Exec.{handle_exec}
use massa_history.Ingest.Transfers.{handle_transfers}

pub data Event : Type 0 where
  block : FilledBlock → Event
  exec : SlotExecutionOutput → Event
  transfers : NewTransfersInfoServerResponse → Event
  peer_patch legacy_patch forced_verdict : FinalSlotResponse → Event
  tick : Event

-- An error is logged, and what was written before it stays.
unfoldable pub handle : Wire → ℕ → Event → Db → Db
handle wire now_ms (block fb) db = (handle_block wire now_ms fb db).1
handle wire now_ms (exec out) db = (handle_exec wire now_ms out db).1
handle wire now_ms (transfers resp) db = (handle_transfers wire.libs now_ms resp db).1
handle wire now_ms (peer_patch resp) db = (apply_peer_patch wire.libs resp now_ms db).1
handle wire now_ms (legacy_patch resp) db = (apply_legacy_patch wire.libs resp now_ms db).1
handle wire now_ms (forced_verdict resp) db = (apply_forced_verdict wire.libs resp now_ms db).1
handle wire now_ms tick db = (broadcast (heartbeat now_ms) db).1

-- A channel's end: what waits in it, and whether its senders are gone.
pub record EventRx : Type 0 where
  pub waiting : List Event
  pub closed : Bool

pub record Ingest : Type 0 where
  pub db : Db
  pub live_rx : Option EventRx
  pub bulk_rx : Option EventRx
  pub turn : ℕ

-- What polling a lane tells: an event and the rest, the end, or nothing yet.
pub data Poll : Type 0 where
  ready : Event → EventRx → Poll
  drained : Poll
  pending : Poll

unfoldable pub recv_lane : Option EventRx → Poll
recv_lane none = pending
recv_lane (some rx) = elim rx.waiting [
  | ev ∷ rest ↦ ready ev (record rx { waiting = rest })
  | [] ↦ if rx.closed then drained else pending
]

-- A turn of the worker: it stops, it sleeps until something is sent, or it goes on.
pub data Turn : Type 0 where
  stopped sleeps went_on : Ingest → Turn

module _ (wire : Wire) (clock : ℕ → ℕ) where
  abbrev handled : Event → Ingest → Ingest
  handled ev w = record w { db = handle wire (clock w.turn) ev w.db; turn = w.turn + 1 }

  unfoldable pub bulk_turn : Ingest → Poll → Turn
  bulk_turn w (ready ev rest) = went_on (record (handled ev w) { bulk_rx = some rest })
  bulk_turn w drained = went_on (record w { bulk_rx = none })
  bulk_turn w pending = sleeps w

  unfoldable pub live_turn : Ingest → Poll → Turn
  unfolding bulk_turn
  live_turn w (ready ev rest) = went_on (record (handled ev w) { live_rx = some rest })
  live_turn w drained = went_on (record w { live_rx = none })
  live_turn w pending = bulk_turn w (recv_lane w.bulk_rx)

  unfoldable pub both_retired : Option EventRx → Option EventRx → Bool
  both_retired none none = true
  both_retired _ _ = false

  -- The live lane first: `biased` polls the branches in order.
  unfoldable pub step : Ingest → Turn
  unfolding live_turn both_retired
  step w = if both_retired w.live_rx w.bulk_rx then stopped w else live_turn w (recv_lane w.live_rx)

  -- `while self.step().await {}`, for at most so many turns and while nothing more is sent.
  unfoldable pub run : ℕ → Ingest → Turn
  run zero w = went_on w
  run (suc rounds) w = elim (step w) [
    | stopped last ↦ stopped last
    | sleeps now ↦ sleeps now
    | went_on next ↦ run rounds next
  ]
