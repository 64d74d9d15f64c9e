-- ===== src/Error.antt =====
-- massa-indexer/src/error.rs: the error of the whole crate. The errors of other crates are kept as
-- their texts.
use massa_history.Base.Result.{Result}
use massa_history.Ids.{Text}

pub data Error : Type 0 where
  config db proto_decode proto_encode grpc_transport grpc_status io : Text → Error
  network_mismatch : (db cfg : Text) → Error
  not_found : Error
  bad_request other : Text → Error

-- `crate::Result`
abbrev pub Res : Type 0 → Type 0
Res A = Result Error A
