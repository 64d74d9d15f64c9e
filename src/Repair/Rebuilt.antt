-- ===== src/Repair/Rebuilt.antt =====
-- massa-indexer/src/repair.rs: what stands in a patch that was rebuilt, and what it leaves when it is
-- applied.
use massa_history.Base.{
  ℕ, ◌%◌, ◌^◌, Bool, true, false, not, ◌||◌, ◌≡◌, refl, ap, ◌∙◌, subst, Option, none, some, List,
  [], ◌∷◌, get_elem?, ltb, some_injective, if◌then◌else◌, arith,
}
use massa_history.Base.Result.{ok}
use massa_history.Ids.{Text, BlockId, OperationId}
use massa_history.Model.{Slot, SlotState}
use massa_history.Model.Operations.{StoredOperation}
use massa_history.Model.Transfers.{StoredTransfer}
use massa_history.Backfill.{is_empty}
use massa_history.Db.{Db, Libs}
use massa_history.Patch.{FinalSlotResponse, PatchOutcome}
use massa_history.Patch.Apply.{is_final}
use massa_history.Patch.Legacy.{apply_legacy_patch}
use massa_history.Patch.Outcome.{start}
use massa_history.Patch.Archive.{Unchanged, legacy_claims_no_more}
use massa_history.Repair.{
  ReconstructConfig, slot_timestamp_ms, rebuilt_rows, nothing_lacks, rebuilt_with, rebuilt_for,
  reconstruct_slot, rebuilt_response,
}
use massa_history.Repair.Payments.{
  Pays, IsPayment, PaidBy, transaction_row-IsPayment, rows-PaidBy, Holds, payment_has_row,
}

found-is_empty :
    {A : Type 0} (xs : List A) (i : ℕ) (x : A) → get_elem? xs i ≡ some x → is_empty xs ≡ false
found-is_empty [] i x e = cc e
found-is_empty (y ∷ ys) i x e = refl

module _ (db : Db) (cfg : ReconstructConfig) (slot : Slot) where
  first_rows :
      (block_id : Text) (ids : List OperationId) (i : ℕ) (shipped : Option StoredTransfer)
      → get_elem? (rebuilt_rows db slot block_id (slot_timestamp_ms cfg slot) 0 ids) i
        ≡ some shipped
      → (t : StoredTransfer) × (shipped ≡ some t)
        × PaidBy db slot block_id (slot_timestamp_ms cfg slot) ids (i % 2 ^ 32) t
  first_rows block_id ids i shipped h =
      let ts = slot_timestamp_ms cfg slot in
      let (t, e, p) = rows-PaidBy db slot block_id ts ids 0 i (omega arith) shipped h in
      (t, e, subst (λ n. PaidBy db slot block_id ts ids n t) (omega arith) p)

  -- What is true of every rebuilt patch.
  abbrev Rebuilt : List OperationId → FinalSlotResponse → Type 0
  Rebuilt ids resp =
      (resp.final_known ≡ true)
      × (resp.thread ≡ slot.thread)
      × ((i : ℕ) (shipped : Option StoredTransfer)
          → get_elem? resp.transfers i ≡ some shipped
          → (t : StoredTransfer) × (shipped ≡ some t)
            × PaidBy db slot resp.final_block_id (slot_timestamp_ms cfg slot) ids (i % 2 ^ 32) t)

  -- A slot that a repair is for.
  abbrev pub Lacking : SlotState → Type 0
  Lacking state =
      (is_final state.status ≡ true)
      × (state.is_miss ≡ false)
      × (state.completeness.transfers_stored ≡ false)

  with-Rebuilt :
      (state : SlotState) (b : Option BlockId) (resp : FinalSlotResponse)
      → rebuilt_with db cfg slot state b ≡ some resp
      → Rebuilt state.executed_op_ids resp
  unfolding rebuilt_with
  with-Rebuilt state none resp e = cc e
  with-Rebuilt state (some b) resp e =
      let rows = rebuilt_rows db slot b.text (slot_timestamp_ms cfg slot) 0 state.executed_op_ids in
      by_rows rows (is_empty rows)
        (refl, refl, λ i shipped h. first_rows b.text state.executed_op_ids i shipped h) e
    where
      by_rows :
          (rows : List (Option StoredTransfer)) (none_left : Bool)
          → Rebuilt state.executed_op_ids (rebuilt_response slot b rows)
          → (if none_left then none else some (rebuilt_response slot b rows)) ≡ some resp
          → Rebuilt state.executed_op_ids resp
      by_rows rows true r f = cc f
      by_rows rows false r f = subst (λ q. Rebuilt state.executed_op_ids q) (some_injective f) r

  lacking :
      (state : SlotState) (f m t e : Bool)
      → is_final state.status ≡ f
      → state.is_miss ≡ m
      → state.completeness.transfers_stored ≡ t
      → (not f || (m || (t || e))) ≡ false
      → Lacking state
  lacking state true false false e ef em et h = (ef, em, et)
  lacking state false m t e ef em et h = cc h
  lacking state true true t e ef em et h = cc h
  lacking state true false true e ef em et h = cc h

  for-Rebuilt :
      (found : Option SlotState) (resp : FinalSlotResponse)
      → rebuilt_for db cfg slot found ≡ some resp
      → (state : SlotState) × (found ≡ some state)
        × Lacking state
        × Rebuilt state.executed_op_ids resp
  unfolding rebuilt_for nothing_lacks
  for-Rebuilt none resp e = cc e
  for-Rebuilt (some state) resp e = by_test (nothing_lacks state) refl e
    where
      by_test :
          (c : Bool)
          → nothing_lacks state ≡ c
          → (if c then none else rebuilt_with db cfg slot state state.final_block_id) ≡ some resp
          → (s : SlotState) × (some state ≡ some s) × Lacking s × Rebuilt s.executed_op_ids resp
      by_test true n f = cc f
      by_test false n f = (
        state,
        refl,
        lacking state (is_final state.status) state.is_miss state.completeness.transfers_stored
            (is_empty state.executed_op_ids) refl refl refl n,
        with-Rebuilt state state.final_block_id resp f,
      )

  -- A patch is rebuilt only for a slot that is FINAL, is no miss and lacks its transfers. Each of its
  -- rows is that of a payment: an operation that the slot has executed, a transaction that the
  -- store knows as executed with success, pays somebody something; the row has the slot, the
  -- position as its index (a u32, which wraps), the final block, the slot's time, the operation, its
  -- creator as the payer, its recipient as the payee and its amount in coins.
  pub rebuilt_patch_sound :
      (resp : FinalSlotResponse) (i : ℕ) (shipped : Option StoredTransfer)
      → reconstruct_slot db cfg slot ≡ some resp
      → get_elem? resp.transfers i ≡ some shipped
      → (state : SlotState) × (db.slots slot.period slot.thread ≡ some state)
        × Lacking state
        × ((t : StoredTransfer) × (shipped ≡ some t)
            × PaidBy db slot resp.final_block_id
                (slot_timestamp_ms cfg slot)
                state.executed_op_ids
                (i % 2 ^ 32)
                t)
  unfolding reconstruct_slot
  rebuilt_patch_sound resp i shipped e h =
      let (state, there, lacks, (_, _, all)) =
        for-Rebuilt (db.slots slot.period slot.thread) resp e in
      (state, there, lacks, all i shipped h)

  still_lacks :
      (state : SlotState)
      → Lacking state
      → is_empty state.executed_op_ids ≡ false
      → nothing_lacks state ≡ false
  unfolding nothing_lacks
  still_lacks state (f, m, t) e = rw (f, m, t, e)

  -- For a slot that is FINAL with a block, is no miss and lacks its transfers, and that has executed some
  -- payment, a patch is rebuilt; it has a row for that payment.
  pub executed_op_has_row :
      (state : SlotState) (b : BlockId) (j : ℕ) (id : OperationId) (op : StoredOperation)
      (amount : ℕ) (to : Text)
      → db.slots slot.period slot.thread ≡ some state
      → Lacking state
      → state.final_block_id ≡ some b
      → get_elem? state.executed_op_ids j ≡ some id
      → Pays db id op amount to
      → (resp : FinalSlotResponse) × (reconstruct_slot db cfg slot ≡ some resp)
        × ((i : ℕ) × ((t : StoredTransfer) × (get_elem? resp.transfers i ≡ some (some t))
              × ((n : ℕ) × IsPayment op slot b.text (slot_timestamp_ms cfg slot) n amount to t)))
  unfolding reconstruct_slot rebuilt_for rebuilt_with Holds
  executed_op_has_row state b j id op amount to there lacks block at pays =
      let ts = slot_timestamp_ms cfg slot in
      let rows = rebuilt_rows db slot b.text ts 0 state.executed_op_ids in
      let (i, (n, e)) =
        payment_has_row db slot b.text ts state.executed_op_ids 0 j id op amount to at pays in
      let some_op = found-is_empty state.executed_op_ids j id at in
      let some_row = found-is_empty rows i _ e in
      (
        rebuilt_response slot b rows,
        rw (there, still_lacks state lacks some_op, block, some_row),
        (i, (_, e, (n, transaction_row-IsPayment op slot b.text n ts amount to))),
      )

  -- A rebuilt patch of a slot whose thread fits a byte, if the writer applies it well, to whatever the
  -- store is by then, leaves the slot's row with the trail hash, the count of events and the flags
  -- for execution output and transfers that it had, so that a node's own list still replaces it.
  pub rebuilt_patch_claims_no_more :
      (libs : Libs) (now_ms : ℕ) (later : Db) (resp : FinalSlotResponse) (out : PatchOutcome)
      → ltb slot.thread 256 ≡ true
      → reconstruct_slot db cfg slot ≡ some resp
      → (apply_legacy_patch libs resp now_ms later).0 ≡ ok out
      → Unchanged libs resp now_ms
          (start libs resp now_ms later).row
          (apply_legacy_patch libs resp now_ms later).1
  unfolding reconstruct_slot
  rebuilt_patch_claims_no_more libs now_ms later resp out fits e ran =
      let (_, _, _, (known, thread, _)) = for-Rebuilt (db.slots slot.period slot.thread) resp e in
      legacy_claims_no_more libs resp now_ms later out (ap (λ t. ltb t 256) thread ∙ fits) known ran
