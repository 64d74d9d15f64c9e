-- ===== src/Ingest/Attribution.antt =====
-- massa-indexer/src/ingest.rs: the two passes of `handle_transfers` over the transfers of a slot: the
-- dense indices, and the operations inferred for the transfers that name none.
use massa_history.Base.{
  ℕ, zero, suc, ◌+◌, ◌%◌, ◌^◌, ◌<◌, Bool, true, false, ◌≡◌, refl, sym, ap, ◌∙◌, subst, Option, none,
  some, List, [], ◌∷◌, length, get_elem?, if◌then◌else◌, some_injective, arith, ◌↔◌,
}
use massa_history.Ids.{Text}
use massa_history.Model.{Slot}
use massa_history.Model.Transfers.{StoredTransfer}
use massa_history.Ingest.Messages.{ExecTransferInfo, NewTransfersInfoServerResponse}
use massa_history.Ingest.Decode.{transfer_value, is_zero_value, is_op_child_origin}
use massa_history.Ingest.Transfers.{
  transfer_row, decode_transfers, is_boundary, next_op, or_current, attributed, infer_operations,
  transfer_rows,
}

-- An earlier transfer, nearest first, names the operation, and none between is a boundary.
pub data Governs : List StoredTransfer → Text → Type 0 where
  here :
      {r : StoredTransfer} {earlier : List StoredTransfer} {op : Text}
      → r.operation_id ≡ some op
      → Governs (r ∷ earlier) op
  past :
      {r : StoredTransfer} {earlier : List StoredTransfer} {op : Text}
      → r.operation_id ≡ none
      → is_boundary r ≡ false
      → Governs earlier op
      → Governs (r ∷ earlier) op

-- A transfer belongs to an operation that it names, or to the one in force where it happened.
pub data Owned (earlier : List StoredTransfer) (r : StoredTransfer) (op : Text) : Type 0 where
  named : r.operation_id ≡ some op → Owned earlier r op
  inherited :
      r.operation_id ≡ none
      → is_boundary r ≡ false
      → is_op_child_origin r.origin ≡ true
      → Governs earlier op
      → Owned earlier r op

-- What came earlier, nearest first, put in front.
abbrev pub onto : List StoredTransfer → List StoredTransfer → List StoredTransfer
onto [] rows = rows
onto (x ∷ earlier) rows = onto earlier (x ∷ rows)

in_force : List StoredTransfer → Option Text
in_force [] = none
in_force (r ∷ earlier) = next_op (in_force earlier) r

at_position :
    (earlier rows : List StoredTransfer) (i n : ℕ)
    → n ≡ length earlier + i
    → get_elem? (infer_operations none (onto earlier rows)) n
      ≡ get_elem? (infer_operations (in_force earlier) rows) i
unfolding infer_operations in_force
at_position [] rows i n e =
    let same : n ≡ i = omega arith in ap (get_elem? (infer_operations none rows)) same
at_position (x ∷ earlier) rows i n e = at_position earlier (x ∷ rows) (suc i) n (omega arith)

next_op-Governs :
    (earlier : List StoredTransfer) (r : StoredTransfer) (op : Text) (own : Option Text) (b : Bool)
    → r.operation_id ≡ own
    → is_boundary r ≡ b
    → (in_force earlier ≡ some op → Governs earlier op)
    → elim own [ some o ↦ some o | none ↦ if b then none else in_force earlier ] ≡ some op
    → Governs (r ∷ earlier) op
next_op-Governs earlier r op (some o) b e f ih h = here (e ∙ h)
next_op-Governs earlier r op none true e f ih h = cc h
next_op-Governs earlier r op none false e f ih h = past e f (ih h)

in_force→Governs :
    (earlier : List StoredTransfer) (op : Text) → in_force earlier ≡ some op → Governs earlier op
unfolding in_force next_op
in_force→Governs [] op h = cc h
in_force→Governs (r ∷ earlier) op h =
    next_op-Governs earlier r op r.operation_id (is_boundary r) refl refl
      (in_force→Governs earlier op) h

Governs→in_force :
    (earlier : List StoredTransfer) (op : Text) → Governs earlier op → in_force earlier ≡ some op
unfolding in_force next_op is_boundary
Governs→in_force [] op g = elim g [ ]
Governs→in_force (r ∷ earlier) op (here e) = rw e
Governs→in_force (r ∷ earlier) op (past e b g) = rw (e, b) (Governs→in_force earlier op g)

attributed-Owned :
    (earlier : List StoredTransfer) (r : StoredTransfer) (op : Text) (own : Option Text)
    (b c : Bool)
    → r.operation_id ≡ own
    → is_boundary r ≡ b
    → is_op_child_origin r.origin ≡ c
    → elim own [ some o ↦ some o | none ↦ if b then none else or_current c (in_force earlier) ]
      ≡ some op
    → Owned earlier r op
attributed-Owned earlier r op (some o) b c e f g h = named (e ∙ h)
attributed-Owned earlier r op none true c e f g h = cc h
attributed-Owned earlier r op none false true e f g h =
    inherited e f g (in_force→Governs earlier op h)
attributed-Owned earlier r op none false false e f g h = cc h

Owned-attributed :
    (earlier : List StoredTransfer) (r : StoredTransfer) (op : Text)
    → Owned earlier r op
    → (attributed (in_force earlier) r).operation_id ≡ some op
unfolding attributed
Owned-attributed earlier r op (named e) = rw e
Owned-attributed earlier r op (inherited e f g k) = rw (e, f, g) (Governs→in_force earlier op k)

-- Behind any earlier transfers and before any later ones, a transfer is given an operation exactly if
-- it names it, or if it names none, is no boundary, is of a kind that happens inside an operation,
-- and that operation is the nearest named before it with no boundary between.
pub attribution_iff :
    (earlier : List StoredTransfer) (r : StoredTransfer) (later : List StoredTransfer) (op : Text)
    → (out : StoredTransfer) × (get_elem?
          (infer_operations none (onto earlier (r ∷ later)))
          (length earlier)
        ≡ some out)
      × ((out.operation_id ≡ some op) ↔ Owned earlier r op)
unfolding infer_operations attributed
attribution_iff earlier r later op = (
  attributed (in_force earlier) r,
  at_position earlier (r ∷ later) 0 (length earlier) (omega arith),
  (
    attributed-Owned earlier r op r.operation_id (is_boundary r) (is_op_child_origin r.origin) refl
        refl refl,
    Owned-attributed earlier r op,
  ),
)

-- A row of the second pass has the index and the value of one of the first.
same_place :
    (current : Option Text) (rows : List StoredTransfer) (i : ℕ) (r : StoredTransfer)
    → get_elem? (infer_operations current rows) i ≡ some r
    → (old : StoredTransfer) × (get_elem? rows i ≡ some old)
      × (r.index_in_slot ≡ old.index_in_slot)
      × (r.value ≡ old.value)
unfolding infer_operations attributed
same_place current [] i r e = cc e
same_place current (x ∷ rows) zero r e = (
  x,
  refl,
  ap (λ s. s.index_in_slot) (sym (some_injective e)),
  ap (λ s. s.value) (sym (some_injective e)),
)
same_place current (x ∷ rows) (suc i) r e = same_place (next_op current x) rows i r e

module _ (resp : NewTransfersInfoServerResponse) (slot : Slot) (now_ms : ℕ) where
  Dense : ℕ → ℕ → StoredTransfer → Type 0
  Dense k i r = (r.index_in_slot ≡ k + i) × (is_zero_value r.value ≡ false)

  row_here :
      (k i : ℕ) (t : ExecTransferInfo) (rest : List ExecTransferInfo) (zeroed : Bool)
      (r : StoredTransfer)
      → is_zero_value (transfer_value t.value) ≡ zeroed
      → ((j n : ℕ)
          → n + length rest < 2 ^ 32
          → get_elem? (decode_transfers resp slot now_ms n rest) j ≡ some r
          → Dense n j r)
      → k + suc (length rest) < 2 ^ 32
      → get_elem?
          (if zeroed
            then decode_transfers resp slot now_ms k rest
            else transfer_row resp slot now_ms k t
              ∷ decode_transfers resp slot now_ms ((k + 1) % 2 ^ 32) rest)
          i
        ≡ some r
      → Dense k i r
  unfolding transfer_row Dense
  row_here k i t rest true r z ih h e = ih i k (omega arith) e
  row_here k zero t rest false r z ih h e = (
    ap (λ s. s.index_in_slot) (sym (some_injective e)) ∙ omega arith,
    ap (λ s. is_zero_value s.value) (sym (some_injective e)) ∙ z,
  )
  row_here k (suc i) t rest false r z ih h e =
      let next : (k + 1) % 2 ^ 32 ≡ k + 1 = omega arith in
      let (index, positive) =
        ih i (k + 1) (omega arith)
          (subst (λ n. get_elem? (decode_transfers resp slot now_ms n rest) i ≡ some r) next e) in
      (index ∙ omega arith, positive)

  Dense-from :
      (k : ℕ) (ts : List ExecTransferInfo) (i : ℕ) (r : StoredTransfer)
      → k + length ts < 2 ^ 32
      → get_elem? (decode_transfers resp slot now_ms k ts) i ≡ some r
      → Dense k i r
  unfolding decode_transfers
  Dense-from k [] i r h e = cc e
  Dense-from k (t ∷ rest) i r h e =
      row_here k i t rest (is_zero_value (transfer_value t.value)) r refl
        (λ j n. Dense-from n rest j r) h e

  -- Where fewer than 2 ^ 32 transfers come for a slot, the row at each position has that position as its
  -- index, and no row carries a value of zero.
  pub transfer_indices_dense :
      (i : ℕ) (r : StoredTransfer)
      → length resp.transfers_info < 2 ^ 32
      → get_elem? (transfer_rows resp slot now_ms) i ≡ some r
      → (r.index_in_slot ≡ i) × (is_zero_value r.value ≡ false)
  unfolding transfer_rows Dense
  transfer_indices_dense i r h e =
      let rows = decode_transfers resp slot now_ms 0 resp.transfers_info in
      let (old, at, same_index, same_value) = same_place none rows i r e in
      let (index, positive) = Dense-from 0 resp.transfers_info i old (omega arith) at in
      (same_index ∙ (index ∙ omega arith), ap is_zero_value same_value ∙ positive)
