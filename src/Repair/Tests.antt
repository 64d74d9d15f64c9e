-- ===== src/Repair/Tests.antt =====
-- Runs of massa-indexer/src/repair.rs: one slot whose transaction is rebuilt, and stopped passes.
use massa_history.Base.{
  ℕ, true, false, get_elem?, Any, ◌≡◌, refl, none, some, [], ◌∷◌, ◌++◌, take, ◌%◌, ◌^◌, ◌==◌,
  if◌then◌else◌, arith,
}
use massa_history.Base.Result.{ok}
use massa_history.Ids.{OperationId, bytes_eq, as_bytes}
use massa_history.Model.{Slot, SlotState, ExecStatus}
use massa_history.Model.Operations.{StoredOperation, OperationKind}
use massa_history.Model.Transfers.{StoredTransfer}
use massa_history.Db.{Db, Libs, read_slot, read_last_final_slot, write_slot, broadcast}
use massa_history.Patch.{FinalSlotResponse, PatchOutcome, no_outcome, or_fresh, named_block, holds}
use massa_history.Patch.Archive.{Unchanged}
use massa_history.Patch.Legacy.{
  apply_legacy_patch, legacy_slot, legacy_verdict, legacy_block, legacy_miss, legacy_ops,
  legacy_transfers,
}
use massa_history.Patch.Outcome.{start}
use massa_history.Patch.Samples.{libs, ours, empty_db, final_row, key_of}
use massa_history.Repair.{
  ReconstructConfig, slot_timestamp_ms, transaction_row, paid_row, legacy_op_to_transfer,
  rebuilt_row, rebuilt_rows, nothing_lacks, rebuilt_with, rebuilt_for, reconstruct_slot,
  rebuilt_response, slot_lacks_parts, lacks,
}
use massa_history.Repair.Passes.{reconstruct_run, last_checkpoint}
use massa_history.Repair.Rebuilt.{
  Lacking, rebuilt_patch_sound, executed_op_has_row, rebuilt_patch_claims_no_more,
}
use massa_history.Repair.Resume.{Scanned, no_slot_is_skipped}
use massa_history.Repair.Windows.{pull_run, pull_checkpoint}
use massa_history.Repair.Needy.{PullPartsConfig, requests, Lacks, Asks, every_lacking_slot_is_asked}
use massa_history.Repair.Payments.{Pays, IsPayment, PaidBy}

no_slot_is_skipped_example : Scanned 66 1 (
    take 100 (reconstruct_run 2 10 80 none)
    ++ reconstruct_run 2 10 80 (last_checkpoint none (take 100 (reconstruct_run 2 10 80 none))))
no_slot_is_skipped_example =
    no_slot_is_skipped 2 10 80 100 66 1 (omega arith) (omega arith) (omega arith)

abbrev paid_id : OperationId
paid_id = record { key = key_of 7; text = b'O' ∷ key_of 7 }

-- A payment of 5.
abbrev paid_op : StoredOperation
paid_op = record {
  id = paid_id;
  creator = record { key = key_of 8; text = b'A' ∷ b'8' ∷ [] };
  target = none;
  kind = OperationKind.transaction;
  expire_period = 20;
  fee_nmas = 1;
  thread = 0;
  inclusions = [];
  candidate_exec_status = none;
  final_exec_status = some ExecStatus.ok;
  details = record {
    amount_nmas = some 5;
    recipient_address = some (b'A' ∷ b'9' ∷ []);
    roll_count = none;
    target_address = none;
    target_function = none;
    parameter_hex = none;
    parameter_len = none;
    coins_nmas = none;
    max_gas = none;
    bytecode_hex = none;
    bytecode_size = none;
    max_coins_nmas = none;
    datastore = [];
    datastore_keys = none;
  };
  signature = [];
  content_creator_pub_key = [];
  serialized_size = 0;
  raw_signed_op_b64 = [];
  first_seen_ts_ms = 0;
}

abbrev executed_row : SlotState
executed_row = record (final_row 10 ours) { executed_op_ids = paid_id ∷ [] }

abbrev executed_db : Db
executed_db = record empty_db {
  slots = λ p t. if p == 10 then some executed_row else none;
  ops = λ k. if bytes_eq k (as_bytes paid_id) then some paid_op else none;
}

abbrev cfg : ReconstructConfig
cfg = record {
  from_period = 1;
  to_period = 20;
  thread_count = 2;
  genesis_timestamp_ms = 1000;
  t0_ms = 16;
}

abbrev at : Slot
at = record { period = 10; thread = 0 }

abbrev payment : StoredTransfer
payment = transaction_row paid_op at ours.text 0 1160 5 (b'A' ∷ b'9' ∷ [])

abbrev rebuilt : FinalSlotResponse
rebuilt = rebuilt_response at ours (some payment ∷ [])

ran_rebuilt : reconstruct_slot executed_db cfg at ≡ some rebuilt
unfolding reconstruct_slot rebuilt_for nothing_lacks rebuilt_with rebuilt_rows rebuilt_row
    legacy_op_to_transfer paid_row transaction_row slot_timestamp_ms as_bytes bytes_eq
ran_rebuilt = refl

rebuilt_patch_sound_example :
    (state : SlotState) × (executed_db.slots 10 0 ≡ some state)
    × Lacking executed_db cfg at state
    × ((t : StoredTransfer) × (some payment ≡ some t)
        × PaidBy executed_db at ours.text
            (slot_timestamp_ms cfg at)
            state.executed_op_ids
            (0 % 2 ^ 32)
            t)
rebuilt_patch_sound_example =
    rebuilt_patch_sound executed_db cfg at rebuilt 0 (some payment) ran_rebuilt refl

paid_op-Pays : Pays executed_db paid_id paid_op 5 (b'A' ∷ b'9' ∷ [])
unfolding as_bytes bytes_eq
paid_op-Pays = record {
  stored = refl;
  is_payment = refl;
  succeeded = refl;
  amount_is = refl;
  payee_is = refl;
  positive = omega arith;
}

executed_op_has_row_example :
    (resp : FinalSlotResponse) × (reconstruct_slot executed_db cfg at ≡ some resp)
    × ((i : ℕ) × ((t : StoredTransfer) × (get_elem? resp.transfers i ≡ some (some t))
          × ((n : ℕ) × IsPayment paid_op at ours.text
                (slot_timestamp_ms cfg at)
                n
                5
                (b'A' ∷ b'9' ∷ [])
                t)))
executed_op_has_row_example =
    executed_op_has_row executed_db cfg at executed_row ours 0 paid_id paid_op 5 (b'A' ∷ b'9' ∷ [])
      refl (refl, refl, refl) refl refl paid_op-Pays

abbrev pull : PullPartsConfig
pull = record {
  from_period = 5;
  to_period = 20;
  parts = record { block = false; exec_output = false; transfers = true };
  thread_count = 2;
  require_sc_ops = false;
}

executed-Lacks : Lacks pull 10 0 executed_db
unfolding slot_lacks_parts lacks
executed-Lacks = refl

every_lacking_slot_is_asked_example : Any (Asks pull 10 0 4) (
    requests pull
      (λ turn. executed_db)
      0
      (take 1 (pull_run 4 5 20 none)
        ++ pull_run 4 5 20 (pull_checkpoint none (take 1 (pull_run 4 5 20 none)))))
every_lacking_slot_is_asked_example =
    every_lacking_slot_is_asked pull 10 0 4 1 (λ turn. executed_db) (omega arith) (omega arith)
      (omega arith) λ turn. executed-Lacks

abbrev paid_out : PatchOutcome
paid_out = record no_outcome { transfers_applied = true }

ran_paid : (apply_legacy_patch libs rebuilt 7 executed_db).0 ≡ ok paid_out
unfolding apply_legacy_patch legacy_slot read_slot legacy_verdict or_fresh
    massa_history.Patch.Apply.note_last_final legacy_block legacy_transfers
    massa_history.Patch.Parts.write_transfers massa_history.Patch.Parts.decoded_rows
    massa_history.Db.Events.write_transfer legacy_ops legacy_miss write_slot
    massa_history.Patch.Parts.ensure_parent_stub broadcast
ran_paid = refl

rebuilt_patch_claims_no_more_example :
    Unchanged libs rebuilt 7
      (start libs rebuilt 7 executed_db).row
      (apply_legacy_patch libs rebuilt 7 executed_db).1
rebuilt_patch_claims_no_more_example =
    rebuilt_patch_claims_no_more executed_db cfg at libs 7 executed_db rebuilt paid_out refl
      ran_rebuilt ran_paid
