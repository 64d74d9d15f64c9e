-- ===== src/Ingest/Live.antt =====
-- massa-indexer/src/ingest.rs: any number of the node's events, one after another.
use massa_history.Base.{ℕ, Bool, true, false, ◌≡◌, refl, List, [], ◌∷◌, All}
use massa_history.Db.{Db, broadcast, heartbeat}
use massa_history.Patch.Placed.{WellPlaced}
use massa_history.Ingest.Messages.{Wire}
use massa_history.Ingest.Rows.{rows_pass}
use massa_history.Ingest.Placed.{events_keep_rows_placed}
use massa_history.Ingest.Moves.{view, Moves, stays, Moves-trans}
use massa_history.Ingest.Refines.{keeps-Allowed}
use massa_history.Ingest.Verdict.{handle_block-From, handle_transfers-From}
use massa_history.Ingest.VerdictExec.{handle_exec-From}
use massa_history.Ingest.Worker.{
  Event, block, exec, transfers, peer_patch, legacy_patch, forced_verdict, tick, handle,
}

-- What comes on the live lane.
abbrev pub is_live : Event → Bool
is_live (block fb) = true
is_live (exec out) = true
is_live (transfers resp) = true
is_live (peer_patch resp) = false
is_live (legacy_patch resp) = false
is_live (forced_verdict resp) = false
is_live tick = true

-- Events with the times at which they are handled.
abbrev pub handle_all : Wire → List (ℕ × Event) → Db → Db
handle_all wire [] db = db
handle_all wire ((now_ms, ev) ∷ rest) db = handle_all wire rest (handle wire now_ms ev db)

abbrev pub AllLive : List (ℕ × Event) → Type 0
AllLive events = All (λ e. is_live e.1 ≡ true) events

module _ (wire : Wire) where
  one_refines :
      (now_ms : ℕ) (ev : Event) (db : Db)
      → WellPlaced db
      → is_live ev ≡ true
      → (p t : ℕ) → Moves (view (db.slots p t)) (view ((handle wire now_ms ev db).slots p t))
  unfolding handle
  one_refines now_ms (block fb) db w l = handle_block-From db.slots w wire now_ms fb db refl
  one_refines now_ms (exec out) db w l = handle_exec-From db.slots w wire now_ms out db refl
  one_refines now_ms (transfers resp) db w l =
      handle_transfers-From db.slots w wire.libs now_ms resp db refl
  one_refines now_ms (peer_patch resp) db w l = cc l
  one_refines now_ms (legacy_patch resp) db w l = cc l
  one_refines now_ms (forced_verdict resp) db w l = cc l
  one_refines now_ms tick db w l =
      keeps-Allowed (broadcast (heartbeat now_ms)) (rows_pass.told (heartbeat now_ms)) db

  -- In a store whose slot rows stand under their own slots, whatever the node's events are that are
  -- handled one after another, every slot moves as `Moves` allows: from nothing to a candidate,
  -- from either to one verdict, and from a verdict without a trail to the same with one.
  pub live_events_refine :
      (events : List (ℕ × Event)) (db : Db)
      → WellPlaced db
      → AllLive events
      → (p t : ℕ) → Moves (view (db.slots p t)) (view ((handle_all wire events db).slots p t))
  live_events_refine [] db w l p t = stays
  live_events_refine ((now_ms, ev) ∷ rest) db w (l, more) p t =
      Moves-trans (one_refines now_ms ev db w l p t) (
        live_events_refine rest (handle wire now_ms ev db)
          (events_keep_rows_placed wire now_ms ev db w) more p t)
