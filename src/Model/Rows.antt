-- ===== src/Model/Rows.antt =====
-- massa-indexer/src/model.rs: endorsements, denunciations, blocks and the metadata.
use massa_history.Base.{ℕ, Option, List}
use massa_history.Ids.{Text, BlockId, OperationId, Address}
use massa_history.Model.{Slot, BlockStatus}

pub record StoredEndorsement : Type 0 where
  pub id : Text
  pub slot : Slot
  pub index : ℕ
  pub endorsed_block_id : Text
  pub content_creator_pub_key : Text
  pub content_creator_address : Address
  pub signature : Text
  pub serialized_size : ℕ
  pub included_block_id : Text
  pub included_slot : Slot
  pub first_seen_ts_ms : ℕ

pub data StoredDenunciation : Type 0 where
  block_header :
      (public_key : Text) (slot : Slot) (hash_1 hash_2 signature_1 signature_2 : Text)
      → StoredDenunciation
  endorsement :
      (public_key : Text) (slot : Slot) (index : ℕ) (hash_1 hash_2 signature_1 signature_2 : Text)
      → StoredDenunciation
  address : (address_denounced : Text) (slot : Slot) (slashed_nmas : ℕ) → StoredDenunciation
  unknown : StoredDenunciation

pub record StoredBlock : Type 0 where
  pub id : BlockId
  pub slot : Slot
  pub creator : Address
  pub parents : List BlockId
  pub operation_ids : List OperationId
  pub endorsements : List StoredEndorsement
  pub endorsement_ids : List Text
  pub denunciations : List StoredDenunciation
  pub current_version : ℕ
  pub announced_version : Option ℕ
  pub operations_hash : Text
  pub signature : Text
  pub content_creator_pub_key : Text
  pub serialized_size : ℕ
  pub raw_signed_header_b64 : Text
  pub status : BlockStatus
  pub first_seen_ts_ms : ℕ

pub record MetaRow : Type 0 where
  pub network : Text
  pub genesis_timestamp_ms : ℕ
  pub t0_ms : ℕ
  pub thread_count : ℕ
  pub last_final_slot : Option Slot
  pub last_candidate_slot : Option Slot
  pub build_version : Text
  pub created_at_ms : ℕ
  pub updated_at_ms : ℕ

pub record StoredDenunciationEntry : Type 0 where
  pub hash : Text
  pub slot : Slot
  pub kind : Text
  pub denounced_addr : Option Address
  pub denunciation : StoredDenunciation
  pub included_block_id : Option BlockId
  pub included_slot : Option Slot
  pub first_seen_ts_ms : ℕ
