-- ===== src/Ingest/Settles.antt =====
-- massa-indexer/src/ingest.rs: a FINAL execution output settles its slot, once.
use massa_history.Base.{
  ℕ, Bool, true, false, not, ◌&&◌, ◌≡◌, refl, sym, ap, ap₂, subst, Option, none, some,
  if◌then◌else◌,
}
use massa_history.Base.Result.{ok}
use massa_history.Model.{Slot, SlotState, SlotStatus}
use massa_history.Db.{Db, write_slot, read_slot, broadcast, slot_updated, slot_final}
use massa_history.Db.Frame.{>>=-Stable}
use massa_history.Patch.{or_fresh, touched}
use massa_history.Patch.Apply.{is_final, trails_differ}
use massa_history.Patch.Parts.{ensure_parent_stub, is_some}
use massa_history.Patch.Placed.{WellPlaced}
use massa_history.Ingest.Rows.{rows_pass}
use massa_history.Ingest.Messages.{
  ExecutionOutput, ExecutionOutputStatus, SlotExecutionOutput, PbSlot, Wire,
}
use massa_history.Ingest.Decode.{slot_from_pb}
use massa_history.Ingest.Total.{
  replace_events-Total, exec_ops-Total, exec_pool-Total, exec_heads-Total,
}
use massa_history.Ingest.Exec.{
  trail_of, node_agrees, exec_row, with_count, with_ops, verdict_row, replace_events, exec_ops,
  exec_pool, exec_heads, exec_tail, exec_on_open, exec_on_final, complete_final_exec_from_node,
  completes, when, exec_slot, exec_as, handle_exec,
}
use massa_history.Ingest.Reach.{
  Here, Reaches, Total-then, then-Stable, write-Reaches, same-Here, parent-Here,
}

slot_ext : (a b : Slot) → a.period ≡ b.period → a.thread ≡ b.thread → a ≡ b
slot_ext a b e f = ap₂ (λ p t. record { period = p; thread = t }) e f

-- What the node's FINAL output says of its slot.
abbrev pub SettledAs : ExecutionOutput → SlotState → Type 0
SettledAs exec row =
    (row.status ≡ SlotStatus.final)
    × (row.completeness.exec_output_final ≡ true)
    × (row.is_miss ≡ not (is_some exec.block_id))

-- A FINAL output of a slot.
abbrev pub final_output : ExecutionOutput → PbSlot → SlotExecutionOutput
final_output exec s = record {
  status = ExecutionOutputStatus.final;
  execution_output = some (record exec { slot = some s });
}

and_false : (a b c d : Bool) → d ≡ true → (a && (b && (c && not d))) ≡ false
and_false false b c d e = refl
and_false true false c d e = refl
and_false true true false d e = refl
and_false true true true d e = ap not e

module _ (wire : Wire) (exec : ExecutionOutput) (now_ms : ℕ) (slot : Slot) where
  tail-Reaches :
      (now : SlotState)
      → now.slot ≡ slot
      → SettledAs exec now
      → Reaches slot (SettledAs exec) (exec_tail wire true slot exec now_ms now)
  unfolding exec_tail with_ops
  tail-Reaches now at q =
      Total-then slot (SettledAs exec) (exec_ops wire.libs.b58 exec.state_changes true) _
        (exec_ops-Total wire.libs.b58 exec.state_changes true)
        λ ids.
          let last = touched now_ms (with_ops ids now) in
          Total-then slot (SettledAs exec) (exec_pool wire.libs slot exec.state_changes now_ms) _
            (exec_pool-Total wire.libs slot now_ms exec.state_changes)
            λ _.
              then-Stable slot (SettledAs exec) (write_slot last) _
                (write-Reaches slot (SettledAs exec) last at q)
                λ _.
                  >>=-Stable (Here slot (SettledAs exec)) (ensure_parent_stub slot now_ms) _
                    (parent-Here slot (SettledAs exec) slot now_ms)
                    λ _.
                      >>=-Stable (Here slot (SettledAs exec)) (broadcast (slot_final last)) _
                        (same-Here slot (SettledAs exec) (broadcast (slot_final last))
                          (rows_pass.told (slot_final last)))
                        λ _.
                          same-Here slot (SettledAs exec) (broadcast (slot_updated last))
                            (rows_pass.told (slot_updated last))

  on_open-Reaches :
      (row : SlotState)
      → row.slot ≡ slot
      → Reaches slot (SettledAs exec) (exec_on_open wire true slot row exec now_ms)
  unfolding exec_on_open verdict_row exec_row
  on_open-Reaches row at =
      Total-then slot (SettledAs exec) (replace_events wire slot SlotStatus.final exec.events) _
        (replace_events-Total wire slot SlotStatus.final exec.events)
        λ count.
          let now =
            verdict_row wire.libs.b58 true exec (with_count count (exec_row true exec row)) in
          Total-then slot (SettledAs exec) (exec_heads true slot now) _
            (exec_heads-Total true slot now) λ _. tail-Reaches now at (refl, refl, refl)

  -- The row that is read, and not FINAL, is the slot's own.
  slot_settles :
      (db : Db)
      → WellPlaced db
      → is_final (or_fresh slot now_ms (db.slots slot.period slot.thread)).status ≡ false
      → Here slot (SettledAs exec) (exec_slot wire true slot exec now_ms db).1
  unfolding exec_slot read_slot Reaches or_fresh
  slot_settles db w e = by_test (is_final row.status) e
    where
      row : SlotState
      row = or_fresh slot now_ms (db.slots slot.period slot.thread)

      own_slot :
          (found : Option SlotState)
          → db.slots slot.period slot.thread ≡ found
          → (or_fresh slot now_ms found).slot ≡ slot
      own_slot none e = refl
      own_slot (some r) e =
          let (ep, et) = w slot.period slot.thread r e in slot_ext r.slot slot ep et

      by_test :
          (c : Bool)
          → c ≡ false
          → Here slot
              (SettledAs exec)
              ((if c
                  then exec_on_final wire true row exec now_ms
                  else exec_on_open wire true slot row exec now_ms)
                db).1
      by_test true e = cc e
      by_test false e = on_open-Reaches row (own_slot (db.slots slot.period slot.thread) refl) db

  ignored_row :
      (final : Bool) (db : Db) (row : SlotState) (c : Bool)
      → c ≡ true
      → completes wire.libs.b58 final row exec ≡ false
      → ((if c
            then exec_on_final wire final row exec now_ms
            else exec_on_open wire final slot row exec now_ms)
          db)
        ≡ (ok tt, db)
  unfolding exec_on_final
  ignored_row final db row true e f =
      ap (λ b. when b (complete_final_exec_from_node wire row exec now_ms) db) f
  ignored_row final db row false e f = cc e

  -- A settled slot is left alone.
  settled_ignored :
      (final : Bool) (db : Db) (row : SlotState)
      → db.slots slot.period slot.thread ≡ some row
      → row.status ≡ SlotStatus.final
      → row.completeness.exec_output_final ≡ true
      → exec_slot wire final slot exec now_ms db ≡ (ok tt, db)
  unfolding exec_slot read_slot or_fresh completes
  settled_ignored final db row at st fin =
      subst
        (λ found.
          (if is_final (or_fresh slot now_ms found).status
              then exec_on_final wire final (or_fresh slot now_ms found) exec now_ms
              else exec_on_open wire final slot (or_fresh slot now_ms found) exec now_ms)
            db
          ≡ (ok tt, db))
        (sym at)
        (ignored_row final db row (is_final row.status) (ap is_final st) (
          and_false final
            (not (trails_differ row.execution_trail_hash (trail_of exec.state_changes)))
            (node_agrees wire.libs.b58 exec row) row.completeness.exec_output_final fin))

module _ (wire : Wire) (exec : ExecutionOutput) (s : PbSlot) (now_ms : ℕ) (db : Db) where
  -- In a store whose slot rows stand under their own slots, a FINAL output of a slot that is not FINAL
  -- yet leaves the slot FINAL with its exec part settled, and a miss exactly if the output names
  -- no block.
  pub final_exec_settles :
      WellPlaced db
      → is_final
          (or_fresh
            (slot_from_pb s)
            now_ms
            (db.slots (slot_from_pb s).period (slot_from_pb s).thread)).status
        ≡ false
      → (row : SlotState) × ((handle_exec wire now_ms (final_output exec s) db).1.slots
            (slot_from_pb s).period
            (slot_from_pb s).thread
          ≡ some row)
        × SettledAs (record exec { slot = some s }) row
  unfolding handle_exec exec_as
  final_exec_settles w e =
      slot_settles wire (record exec { slot = some s }) now_ms (slot_from_pb s) db w e

  -- The same output a second time, at whatever time, changes nothing, under the same conditions.
  pub repeated_final_exec_is_ignored :
      (later : ℕ)
      → WellPlaced db
      → is_final
          (or_fresh
            (slot_from_pb s)
            now_ms
            (db.slots (slot_from_pb s).period (slot_from_pb s).thread)).status
        ≡ false
      → handle_exec wire later
          (final_output exec s)
          (handle_exec wire now_ms (final_output exec s) db).1
        ≡ (ok tt, (handle_exec wire now_ms (final_output exec s) db).1)
  unfolding handle_exec exec_as
  repeated_final_exec_is_ignored later w e =
      let (row, at, (status, settled, _)) = final_exec_settles w e in
      settled_ignored wire (record exec { slot = some s }) later (slot_from_pb s) true
        (handle_exec wire now_ms (final_output exec s) db).1 row at status settled
