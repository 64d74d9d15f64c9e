-- ===== src/Patch/Samples.antt =====
-- Stores and responses for tests: slot (10, 0) is unknown, or FINAL with the block `ours`, and the final
-- block of (11, 0) names `theirs`. The stand-in for base58-check is the identity on byte strings.
use massa_history.Base.{ℕ, true, false, refl, none, some, List, [], ◌∷◌, ◌==◌, if◌then◌else◌}
use massa_history.Bytes.{Bytes}
use massa_history.Ids.{Base58, BlockId, bytes_eq}
use massa_history.Model.{SlotState, SlotStatus, BlockStatus, fresh}
use massa_history.Model.Rows.{StoredBlock, StoredEndorsement}
use massa_history.Db.{Db, Libs}
use massa_history.Patch.{FinalSlotResponse}

abbrev pub plain : Base58
plain = record { encode = λ bs. bs; decode = λ s. some s; decode-encode = λ bs _. refl }

abbrev pub libs : Libs
libs = record { b58 = plain; utf8 = λ s. s; hex_decode = λ s. some s; sha256_json = λ d. [] }

abbrev pub key_of : ℕ → Bytes
key_of n =
    0 ∷ n ∷ n ∷ n ∷ n ∷ n ∷ n ∷ n ∷ n ∷ n ∷ n ∷ n ∷ n ∷ n ∷ n ∷ n ∷ n ∷ n ∷ n ∷ n ∷ n ∷ n ∷ n ∷ n
    ∷ n ∷ n ∷ n ∷ n ∷ n ∷ n ∷ n ∷ n ∷ n ∷ []

abbrev pub name : ℕ → BlockId
name n = record { key = key_of n; text = b'B' ∷ key_of n }

abbrev pub ours : BlockId
ours = name 1

abbrev pub theirs : BlockId
theirs = name 2

abbrev pub later : BlockId
later = name 3

abbrev pub body_of : BlockId → ℕ → List BlockId → StoredBlock
body_of id period parents = record {
  id = id;
  slot = record { period = period; thread = 0 };
  creator = record { key = []; text = [] };
  parents = parents;
  operation_ids = [];
  endorsements = [];
  endorsement_ids = [];
  denunciations = [];
  current_version = 0;
  announced_version = none;
  operations_hash = [];
  signature = [];
  content_creator_pub_key = [];
  serialized_size = 0;
  raw_signed_header_b64 = [];
  status = BlockStatus.final;
  first_seen_ts_ms = 0;
}

abbrev pub no_id : StoredEndorsement
no_id = record {
  id = [];
  slot = record { period = 10; thread = 0 };
  index = 0;
  endorsed_block_id = [];
  content_creator_pub_key = [];
  content_creator_address = record { key = []; text = [] };
  signature = [];
  serialized_size = 0;
  included_block_id = [];
  included_slot = record { period = 10; thread = 0 };
  first_seen_ts_ms = 0;
}

abbrev pub final_row : ℕ → BlockId → SlotState
final_row period b =
    let s : SlotState = fresh (record { period = period; thread = 0 }) 0 in
    record s { status = SlotStatus.final; final_block_id = some b }

abbrev pub empty_db : Db
empty_db = record {
  slots = λ p t. none;
  last_final_slot = some (record { period = 5; thread = 0 });
  last_candidate_slot = none;
  blocks = λ k. none;
  ops = λ k. none;
  endorsements = λ k. none;
  denunciations = λ k. none;
  sc_events = [];
  transfers = [];
  async_msgs = λ k. none;
  deferred_calls = λ k. none;
  index = λ c k. false;
  sent = [];
}

abbrev pub disputed_db : Db
disputed_db = record empty_db {
  slots = λ p t.
      if p == 10
      then some (final_row 10 ours)
      else if p == 11
      then some (final_row 11 later)
      else none;
  blocks = λ k. if bytes_eq k (key_of 3) then some (body_of later 11 (theirs ∷ [])) else none;
}

abbrev pub answer : BlockId → FinalSlotResponse
answer b = record {
  period = 10;
  thread = 0;
  final_known = true;
  is_miss = false;
  execution_trail_hash = b'h' ∷ [];
  block = none;
  operations = [];
  endorsements = [];
  sc_events = [];
  executed_op_ids = [];
  sc_event_count = 0;
  async_msgs = [];
  transfers = [];
  deferred_calls = [];
  final_block_id = b.text;
  completeness_known = false;
  has_block_body = false;
  has_exec_output = false;
  has_transfers = false;
  parts = none;
}
