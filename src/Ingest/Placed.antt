-- ===== src/Ingest/Placed.antt =====
-- massa-indexer/src/ingest.rs: each slot row stands under its own slot, whatever event is handled.
use massa_history.Base.{ℕ, ap, sym, ◌∙◌}
use massa_history.Db.{Db}
use massa_history.Patch.Placed.{WellPlaced, write_slot-Preserves, broadcast-Preserves}
use massa_history.Patch.PlacedAll.{patches_keep_rows_placed}
use massa_history.Ingest.Messages.{Wire}
use massa_history.Ingest.Frame.{Passes}
use massa_history.Ingest.Rows.{passes_by_rows}
use massa_history.Ingest.Handlers.{handle_block-Along, handle_exec-Along, handle_transfers-Along}
use massa_history.Ingest.Worker.{
  Event, block, exec, transfers, peer_patch, legacy_patch, forced_verdict, tick, handle,
}

abbrev PlacementKept : Db → Db → Type 0
PlacementKept a b = WellPlaced a → WellPlaced b

pub placement_passes : Passes PlacementKept
placement_passes =
    passes_by_rows PlacementKept (λ a b e w p t row had. w p t row (ap (λ m. m p t) (sym e) ∙ had))
      λ a b c f g w. g (f w)

-- A store in which each slot row stands under its own slot is such a store after any event is
-- handled, from the node or from the bulk lane, also where its handler fails.
pub events_keep_rows_placed :
    (wire : Wire) (now_ms : ℕ) (ev : Event) (db : Db)
    → WellPlaced db
    → WellPlaced (handle wire now_ms ev db)
unfolding handle
events_keep_rows_placed wire now_ms (block fb) db =
    handle_block-Along placement_passes write_slot-Preserves wire now_ms fb db
events_keep_rows_placed wire now_ms (exec out) db =
    handle_exec-Along placement_passes write_slot-Preserves wire now_ms out db
events_keep_rows_placed wire now_ms (transfers resp) db =
    handle_transfers-Along placement_passes write_slot-Preserves wire.libs now_ms resp db
events_keep_rows_placed wire now_ms (peer_patch resp) db =
    λ w. (patches_keep_rows_placed wire.libs resp now_ms db w).0
events_keep_rows_placed wire now_ms (legacy_patch resp) db =
    λ w. (patches_keep_rows_placed wire.libs resp now_ms db w).1
events_keep_rows_placed wire now_ms (forced_verdict resp) db =
    λ w. (patches_keep_rows_placed wire.libs resp now_ms db w).2
events_keep_rows_placed wire now_ms tick db = broadcast-Preserves _ db
