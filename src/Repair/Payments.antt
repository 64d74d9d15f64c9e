-- ===== src/Repair/Payments.antt =====
-- massa-indexer/src/repair.rs: the rows that `reconstruct_slot` rebuilds, as payments.
use massa_history.Base.{
  ℕ, zero, suc, ◌+◌, ◌<◌, ◌%◌, ◌^◌, Bool, true, false, ◌&&◌, ◌≡◌, refl, sym, ap, ◌∙◌, subst, Option,
  none, some, List, [], ◌∷◌, get_elem?, ◌==◌, some_injective, if◌then◌else◌, arith,
}
use massa_history.Ids.{Text, OperationId, as_bytes}
use massa_history.Model.{Slot}
use massa_history.Model.Operations.{StoredOperation}
use massa_history.Model.Transfers.{StoredTransfer, TransferValue, CoinOrigin}
use massa_history.Db.{Db}
use massa_history.Repair.{
  is_transaction, executed_ok, transaction_row, paid_row, legacy_op_to_transfer, rebuilt_row,
  rebuilt_rows,
}

-- A transaction that the store knows as executed with success, and that pays somebody something.
pub record Pays (db : Db) (id : OperationId) (op : StoredOperation) (amount : ℕ) (to : Text)
    : Type 0 where
  pub stored : db.ops (as_bytes id) ≡ some op
  pub is_payment : is_transaction op.kind ≡ true
  pub succeeded : executed_ok op.final_exec_status ≡ true
  pub amount_is : op.details.amount_nmas ≡ some amount
  pub payee_is : op.details.recipient_address ≡ some to
  pub positive : 0 < amount

-- What the row of a payment says.
pub record IsPayment (op : StoredOperation) (slot : Slot) (block_id : Text) (ts i amount : ℕ)
    (to : Text) (t : StoredTransfer) : Type 0 where
  pub at : t.slot ≡ slot
  pub index : t.index_in_slot ≡ i
  pub in_block : t.block_id ≡ some block_id
  pub time : t.block_timestamp_ms ≡ ts
  pub payer : t.from ≡ some op.creator.text
  pub payee : t.to ≡ some to
  pub paid : t.value ≡ TransferValue.coins amount
  pub why : t.origin ≡ CoinOrigin.op_transaction_coins
  pub of : t.operation_id ≡ some op.id.text
  pub final : t.is_final ≡ true

pub transaction_row-IsPayment :
    (op : StoredOperation) (slot : Slot) (block_id : Text) (i ts amount : ℕ) (to : Text)
    → IsPayment op slot block_id ts i amount to (transaction_row op slot block_id i ts amount to)
unfolding transaction_row
transaction_row-IsPayment op slot block_id i ts amount to = record {
  at = refl;
  index = refl;
  in_block = refl;
  time = refl;
  payer = refl;
  payee = refl;
  paid = refl;
  why = refl;
  of = refl;
  final = refl;
}

-- A row is that of a payment among the operations `ids`.
pub data PaidBy (db : Db) (slot : Slot) (block_id : Text) (ts : ℕ) (ids : List OperationId) (i : ℕ)
    (t : StoredTransfer) : Type 0 where
  paid_by :
      (j : ℕ) (id : OperationId) (op : StoredOperation) (amount : ℕ) (to : Text)
      → get_elem? ids j ≡ some id
      → Pays db id op amount to
      → IsPayment op slot block_id ts i amount to t
      → PaidBy db slot block_id ts ids i t

module _ (db : Db) (slot : Slot) (block_id : Text) (ts : ℕ) where
  paid_row-PaidBy :
      (id : OperationId) (rest : List OperationId) (op : StoredOperation) (i : ℕ) (a : Option ℕ)
      (r : Option Text) (t : StoredTransfer)
      → db.ops (as_bytes id) ≡ some op
      → is_transaction op.kind ≡ true
      → executed_ok op.final_exec_status ≡ true
      → op.details.amount_nmas ≡ a
      → op.details.recipient_address ≡ r
      → paid_row op slot block_id i ts a r ≡ some t
      → PaidBy db slot block_id ts (id ∷ rest) i t
  unfolding paid_row
  paid_row-PaidBy id rest op i none r t e k x ea er h = cc h
  paid_row-PaidBy id rest op i (some a) none t e k x ea er h = cc h
  paid_row-PaidBy id rest op i (some a) (some to) t e k x ea er h = by_amount (a == 0) refl h
    where
      by_amount :
          (z : Bool)
          → (a == 0) ≡ z
          → (if z then none else some (transaction_row op slot block_id i ts a to)) ≡ some t
          → PaidBy db slot block_id ts (id ∷ rest) i t
      by_amount true ez f = cc f
      by_amount false ez f =
          let more : 0 < a = ground arith in
          paid_by 0 id op a to refl
            (record {
              stored = e;
              is_payment = k;
              succeeded = x;
              amount_is = ea;
              payee_is = er;
              positive = more;
            })
            (subst (λ r. IsPayment op slot block_id ts i a to r) (some_injective f)
              (transaction_row-IsPayment op slot block_id i ts a to))

  row-PaidBy :
      (id : OperationId) (rest : List OperationId) (found : Option StoredOperation) (i : ℕ)
      (t : StoredTransfer)
      → db.ops (as_bytes id) ≡ found
      → rebuilt_row found slot block_id i ts ≡ some t
      → PaidBy db slot block_id ts (id ∷ rest) i t
  unfolding rebuilt_row legacy_op_to_transfer
  row-PaidBy id rest none i t e h = cc h
  row-PaidBy id rest (some op) i t e h =
      by_tests (is_transaction op.kind) (executed_ok op.final_exec_status) refl refl h
    where
      by_tests :
          (k x : Bool)
          → is_transaction op.kind ≡ k
          → executed_ok op.final_exec_status ≡ x
          → (if k && x
              then (if k
                  then paid_row op slot block_id i ts op.details.amount_nmas
                      op.details.recipient_address
                  else none)
              else none)
            ≡ some t
          → PaidBy db slot block_id ts (id ∷ rest) i t
      by_tests true true ek ex f = paid_row-PaidBy id rest op i _ _ t e ek ex refl refl f
      by_tests true false ek ex f = cc f
      by_tests false x ek ex f = cc f

  later-PaidBy :
      (id : OperationId) (rest : List OperationId) (i : ℕ) (t : StoredTransfer)
      → PaidBy db slot block_id ts rest i t
      → PaidBy db slot block_id ts (id ∷ rest) i t
  later-PaidBy id rest i t (paid_by j found op amount to at pays says) =
      paid_by (suc j) found op amount to at pays says

  -- The row at each position has that position, as a u32, as its index.
  pub rows-PaidBy :
      (ids : List OperationId) (k i : ℕ)
      → k < 2 ^ 32
      → (shipped : Option StoredTransfer)
      → get_elem? (rebuilt_rows db slot block_id ts k ids) i ≡ some shipped
      → (t : StoredTransfer) × (shipped ≡ some t)
        × PaidBy db slot block_id ts ids ((k + i) % 2 ^ 32) t
  unfolding rebuilt_rows
  rows-PaidBy [] k i small shipped h = cc h
  rows-PaidBy (id ∷ rest) k i small shipped h =
      by_row i (rebuilt_row (db.ops (as_bytes id)) slot block_id k ts)
        (row-PaidBy id rest (db.ops (as_bytes id)) k) (rows-PaidBy rest) h
    where
      by_row :
          (i : ℕ) (found : Option StoredTransfer)
          → ((t : StoredTransfer)
              → db.ops (as_bytes id) ≡ db.ops (as_bytes id)
              → found ≡ some t
              → PaidBy db slot block_id ts (id ∷ rest) k t)
          → ((k i : ℕ)
              → k < 2 ^ 32
              → (s : Option StoredTransfer)
              → get_elem? (rebuilt_rows db slot block_id ts k rest) i ≡ some s
              → (t : StoredTransfer) × (s ≡ some t)
                × PaidBy db slot block_id ts rest ((k + i) % 2 ^ 32) t)
          → get_elem?
              (elim found [
                | none ↦ rebuilt_rows db slot block_id ts k rest
                | some t ↦ some t ∷ rebuilt_rows db slot block_id ts ((k + 1) % 2 ^ 32) rest
              ])
              i
            ≡ some shipped
          → (t : StoredTransfer) × (shipped ≡ some t)
            × PaidBy db slot block_id ts (id ∷ rest) ((k + i) % 2 ^ 32) t
      by_row i none one more f =
          let (u, e, p) = more k i small shipped f in (u, e, later-PaidBy id rest _ u p)
      by_row zero (some t) one more f = (
        t,
        sym (some_injective f),
        subst (λ n. PaidBy db slot block_id ts (id ∷ rest) n t) (omega arith) (one t refl refl),
      )
      by_row (suc i) (some t) one more f =
          let (u, e, p) = more ((k + 1) % 2 ^ 32) i (omega arith) shipped f in
          (
            u,
            e,
            later-PaidBy id rest _ u
                (subst (λ n. PaidBy db slot block_id ts rest n u) (omega arith) p),
          )

  Pays-rebuilt_row :
      (id : OperationId) (op : StoredOperation) (amount : ℕ) (to : Text) (i : ℕ)
      → Pays db id op amount to
      → rebuilt_row (db.ops (as_bytes id)) slot block_id i ts
        ≡ some (transaction_row op slot block_id i ts amount to)
  unfolding rebuilt_row legacy_op_to_transfer paid_row
  Pays-rebuilt_row id op amount to i p =
      let more : (amount == 0) ≡ false = let h = p.positive in ground arith in
      rw (p.stored, p.is_payment, p.succeeded, p.amount_is, p.payee_is, more)

  first_there :
      (found : Option StoredTransfer) (t : StoredTransfer)
      (same later : List (Option StoredTransfer))
      → found ≡ some t
      → get_elem? (elim found [ none ↦ same | some u ↦ some u ∷ later ]) 0 ≡ some (some t)
  first_there none t same later e = cc e
  first_there (some u) t same later e = ap some e

  -- One of the rows, at some index.
  unfoldable pub Holds : (ℕ → StoredTransfer) → List (Option StoredTransfer) → Type 0
  Holds row rows = (i : ℕ) × ((n : ℕ) × (get_elem? rows i ≡ some (some (row n))))

  rest_there :
      (row : ℕ → StoredTransfer) (found : Option StoredTransfer)
      (same later : List (Option StoredTransfer))
      → Holds row same
      → Holds row later
      → Holds row (elim found [ none ↦ same | some u ↦ some u ∷ later ])
  unfolding Holds
  rest_there row none same later h k = h
  rest_there row (some u) same later h (i, (n, e)) = (suc i, (n, e))

  -- Each payment has its row.
  pub payment_has_row :
      (ids : List OperationId) (k j : ℕ) (id : OperationId) (op : StoredOperation) (amount : ℕ)
      (to : Text)
      → get_elem? ids j ≡ some id
      → Pays db id op amount to
      → Holds
          (λ n. transaction_row op slot block_id n ts amount to)
          (rebuilt_rows db slot block_id ts k ids)
  unfolding rebuilt_rows Holds
  payment_has_row [] k j id op amount to at p = cc at
  payment_has_row (first ∷ rest) k zero id op amount to at p =
      let is =
        ap (λ x. rebuilt_row (db.ops (as_bytes x)) slot block_id k ts) (some_injective at)
        ∙ Pays-rebuilt_row id op amount to k p in
      (0, (k, first_there (rebuilt_row (db.ops (as_bytes first)) slot block_id k ts) _ _ _ is))
  payment_has_row (first ∷ rest) k (suc j) id op amount to at p =
      rest_there (λ n. transaction_row op slot block_id n ts amount to)
        (rebuilt_row (db.ops (as_bytes first)) slot block_id k ts) _ _
        (payment_has_row rest k j id op amount to at p)
        (payment_has_row rest ((k + 1) % 2 ^ 32) j id op amount to at p)
