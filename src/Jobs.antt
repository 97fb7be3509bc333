-- ===== src/Jobs.antt =====
-- operator/runer/src/api/msg.rs and error.rs: what the dispatcher and the operator exchange.
pub mod Work
pub mod Dispatch
mod Tests
use aos_operator.Shared.{ℕ, List}
use aos_operator.Shared.Text.{Text}
use aos_operator.Shared.TextMap.{TextMap}
use aos_operator.Shared.Decimal.{ParseIntError}
use aos_operator.Hub.{VerifyHubError}
use aos_operator.Vrf.Reply.{VrfReply}
use aos_operator.Websocket.{WsError}

-- The texts of foreign errors are left out.
pub data OperatorError : Type 0 where
  custom_error : Text → OperatorError
  op_setup_register : OperatorError
  op_connect_tee_error : Text → OperatorError
  op_send_prompt_error : Text → OperatorError
  op_decode_signer_key_error : OperatorError
  op_new_vrf_range_contract_error : OperatorError
  op_get_vrf_range_contract_error : Text → OperatorError
  op_vrf_material_error : OperatorError
  op_channel_error : OperatorError
  op_unsupported_tag_error : Text → OperatorError
  op_io_error : OperatorError
  op_verify_hub_error : VerifyHubError → OperatorError
  op_timeout_error : Text → OperatorError
  op_json_error : OperatorError
  op_ws_error : WsError → OperatorError
  op_parse_int_error : ParseIntError → OperatorError
  op_from_hex_error : OperatorError

-- `Double` is `f64`.
pub record JobParams (Double : Type 0) : Type 0 where
  pub temperature : Double
  pub top_p : Double
  pub max_tokens : ℕ  -- u64

pub record Job (Double : Type 0) : Type 0 where
  pub model : Text
  pub prompt : Text
  pub tag : Text
  pub params : JobParams Double

pub record DispatchJobParam (Double : Type 0) : Type 0 where
  pub user : Text
  pub seed : Text
  pub tag : Text
  pub position : Text
  pub signature : Text
  pub clock : TextMap Text
  pub job_id : Text
  pub job : Job Double

-- `DispatchJobRequest(Vec<DispatchJobParam>)`
abbrev pub DispatchJobRequest : Type 0 → Type 0
DispatchJobRequest Double = List (DispatchJobParam Double)

-- `JobResultParam`; a `JobResultRequest` is a list of them, here always of one.
pub record JobResultParam : Type 0 where
  pub user : Text
  pub job_id : Text
  pub result : Text
  pub vrf : VrfReply
  pub tag : Text
  pub clock : TextMap Text
  pub operator : Text
  pub signature : Text

pub record ConnectParam : Type 0 where
  pub operator : Text
  pub workers : List Text
  pub hash : Text
  pub signature : Text

pub record WsResponse : Type 0 where
  pub code : ℕ  -- u16
  pub message : Text
