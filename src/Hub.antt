-- ===== src/Hub.antt =====
-- operator/verify_hub: the server that forwards questions to workers and waits for their answers.
pub mod Channels
pub mod Handlers
mod Tests
use aos_operator.Shared.{ℕ, Bool, List}
use aos_operator.Shared.Text.{Text}

-- verify_hub/src/tee/model.rs; `Float` is `f32`.
pub record WorkerStatus : Type 0 where
  pub model_names : List Text
  pub speed : ℕ  -- u16
  pub queue_length : ℕ  -- u16

pub record Operator : Type 0 where
  pub worker_name : Text
  pub check_heart_beat : Bool
  pub worker_status : WorkerStatus
  pub multimodal : Bool

pub record Params (Float : Type 0) : Type 0 where
  pub temperature : Float
  pub top_p : Float
  pub max_tokens : ℕ  -- u16

pub record OperatorReq (Float : Type 0) : Type 0 where
  pub request_id : Text
  pub node_id : Text
  pub model : Text
  pub prompt : Text
  pub prompt_hash : Text
  pub signature : Text
  pub params : Params Float

pub record AnswerReq : Type 0 where
  pub request_id : Text
  pub node_id : Text
  pub model : Text
  pub prompt : Text
  pub answer : Text
  pub attestation : Text
  pub attest_signature : Text
  pub elapsed : ℕ  -- i32, as its 32 bits

pub record HeartBeatReq : Type 0 where
  pub worker_name : Text
  pub queue_length : ℕ  -- u16

-- verify_hub/src/opml/model.rs
pub record OpmlRequest : Type 0 where
  pub model : Text
  pub prompt : Text
  pub req_id : Text
  pub callback : Text

pub record OpmlAnswer : Type 0 where
  pub req_id : Text
  pub node_id : Text
  pub model : Text
  pub prompt : Text
  pub answer : Text
  pub state_root : Text

-- verify_hub/src/error.rs
pub data VerifyHubError : Type 0 where
  send_opml_request_error : Text → VerifyHubError
  channel_closed_error : VerifyHubError
  request_timeout_error : VerifyHubError
