-- ===== src/Jobs/Work.antt =====
-- operator/runer/src/api/msg_handler.rs: the work on one job.
pub mod Polling
pub mod Clocks
pub mod Range
pub mod Outcomes
pub mod Status
use aos_operator.Shared.{
  ℕ, zero, suc, ◌%◌, ◌+◌, Bool, true, false, Option, none, some, List, [], ◌∷◌, ◌++◌, Outcome, ok,
  err, panic, ◌>>=◌, ok_or, unwrap, map_err, not, ltb, leb, ◌==◌, if◌then◌else◌, length, drop,
}
use aos_operator.Shared.Text.{Text, codes, text_eq}
use aos_operator.Shared.TextMap.{TextMap}
use aos_operator.Shared.Machine.{Profile, u32_mod, u64_mod, sub_word}
use aos_operator.Shared.Decimal.{parse_u32, to_string}
use aos_operator.Shared.Hex.{HexCrates}
use aos_operator.Hub.{
  VerifyHubError, request_timeout_error, send_opml_request_error, channel_closed_error, OpmlRequest,
  OpmlAnswer, OperatorReq, AnswerReq,
}
use aos_operator.Vrf.Reply.{VrfReply, default_reply}
use aos_operator.Jobs.{
  OperatorError, custom_error, op_unsupported_tag_error, op_verify_hub_error, op_timeout_error,
  op_json_error, op_parse_int_error, op_from_hex_error, DispatchJobParam, DispatchJobRequest,
  JobResultParam,
}

abbrev pub retry_limit : ℕ
retry_limit = 600

-- The loop that waits for a worker, with `left` attempts left; `status n` is what the `n`-th
-- request for the worker's status returns, `none` for an error, which is only logged. Both jobs give the same text on a time-out.
unfoldable pub poll_answer : {S : Type 0} → (S → Bool) → Option S → Bool
poll_answer ready (some v) = ready v
poll_answer ready none = false

unfoldable pub poll_from :
    {S : Type 0} → (S → Bool) → (ℕ → Option S) → ℕ → ℕ → Outcome OperatorError ℕ
poll_from ready status zero n = err (op_timeout_error (codes "opml question timeout"))
poll_from ready status (suc left) n =
    let later = poll_from ready status left (suc n) in
    if poll_answer ready (status n) then ok n else later

unfoldable pub poll : {S : Type 0} → (S → Bool) → (ℕ → Option S) → Outcome OperatorError ℕ
poll ready status = poll_from ready status retry_limit 0

-- `pop` of the entries in the order of their iteration.
unfoldable pub last_entry : TextMap Text → Option (Text × Text)
last_entry [] = none
last_entry (entry ∷ []) = some entry
last_entry (entry ∷ other ∷ rest) = last_entry (other ∷ rest)

-- `checked_add(1)` of a `u32`
checked_add_1 : ℕ → Option ℕ
checked_add_1 n = if ltb (n + 1) u32_mod then some (n + 1) else none

-- The clock of a result: one entry of the job's clock, its value raised by one.
unfoldable pub result_clock : Text → TextMap Text → Outcome OperatorError (TextMap Text)
unfolding checked_add_1
result_clock missing clock = do
  (clk_id, clk_val) ← ok_or (last_entry clock) (custom_error missing)
  n ← map_err op_parse_int_error (parse_u32 clk_val)
  m ← ok_or (checked_add_1 n) (custom_error (codes "checked_add error"))
  ok ((clk_id, to_string m) ∷ [])

-- The one `JobResultParam` of a result.
unfoldable pub job_result_param :
    Text → Text → Text → Text → VrfReply → TextMap Text → JobResultParam
job_result_param user job_id tag result vrf clock = record {
  user = user;
  job_id = job_id;
  result = result;
  vrf = vrf;
  tag = tag;
  clock = clock;
  operator = [];
  signature = [];
}

-- The `match` on the answer of a question handler.
unfoldable pub hub_error : Text → VerifyHubError → OperatorError
hub_error timeout request_timeout_error = op_timeout_error timeout
hub_error timeout channel_closed_error = op_verify_hub_error channel_closed_error
hub_error timeout (send_opml_request_error e) = op_verify_hub_error (send_opml_request_error e)

unfoldable pub opml_ready : Text → Bool
opml_ready status = text_eq status (codes "0")

unfoldable pub tee_ready : ℕ → Bool
tee_ready status = ltb 0 status

-- `max_tokens as u16`
unfoldable pub as_u16 : ℕ → ℕ
as_u16 n = n % 65536

-- What the jobs use of the outside: the workers' status, fresh ids, the hub's question handlers,
-- and the casts of floats.
pub record Workers (Double Float : Type 0) : Type 0 where
  pub opml_status : ℕ → Option Text
  pub tee_status : ℕ → Option ℕ
  pub new_uuid : Text
  pub opml_question_handler : OpmlRequest → Outcome VerifyHubError OpmlAnswer
  pub tee_question_handler : OperatorReq Float → Outcome VerifyHubError AnswerReq
  pub as_f32 : Double → Float

module _ {Double Float : Type 0} (workers : Workers Double Float) where
  open workers use {
    opml_status, tee_status, new_uuid, opml_question_handler, tee_question_handler, as_f32,
  }

  unfoldable pub do_opml_job :
      Text → Text → Text → Text → Text → Text → TextMap Text → Outcome OperatorError JobResultParam
  do_opml_job model prompt user job_id tag callback clock = do
    attempts ← poll opml_ready opml_status
    worker_result ← map_err (hub_error (codes "opml question timeout")) (
        opml_question_handler
          (record { model = model; prompt = prompt; req_id = new_uuid; callback = callback }))
    clock' ← result_clock (codes "opml clock value missing") clock
    ok (job_result_param user job_id tag worker_result.answer default_reply clock')

  unfoldable pub do_tee_job :
      Text
      → Text
      → Text
      → Text
      → Text
      → Double
      → Double
      → ℕ
      → TextMap Text
      → Outcome OperatorError JobResultParam
  do_tee_job model prompt user job_id tag temperature top_p max_tokens clock = do
    attempts ← poll tee_ready tee_status
    worker_result ← map_err (hub_error (codes "tee question timeout")) (
        tee_question_handler (record {
          request_id = new_uuid;
          node_id = [];
          model = model;
          prompt = prompt;
          prompt_hash = [];
          signature = [];
          params = record {
            temperature = as_f32 temperature;
            top_p = as_f32 top_p;
            max_tokens = as_u16 max_tokens;
          };
        }))
    clock' ← result_clock (codes "tee clock value missing") clock
    ok (job_result_param user job_id tag worker_result.answer default_reply clock')

  -- The first two branches of `do_job`, which do not ask a worker.
  unsupported : Text → Text → Text
  unsupported node_type tag =
      codes "unsupported worker type, need " ++ (node_type ++ (codes ", got " ++ tag))

  by_tag : Bool → Bool → Text → DispatchJobParam Double → Outcome OperatorError JobResultParam
  by_tag true tee callback_url params =
      do_opml_job params.job.model params.job.prompt params.user params.job_id params.tag
        callback_url params.clock
  by_tag false true callback_url params =
      do_tee_job params.job.model params.job.prompt params.user params.job_id params.tag
        params.job.params.temperature params.job.params.top_p params.job.params.max_tokens
        params.clock
  by_tag false false callback_url params = err (op_unsupported_tag_error params.job.tag)

  answer_job :
      Bool
      → Bool
      → Text
      → Text
      → VrfReply
      → DispatchJobParam Double
      → Outcome OperatorError JobResultParam
  answer_job false selected node_type callback_url vrf params = do
    clock' ← result_clock (codes "Clock value missing") params.clock
    ok (
        job_result_param params.user params.job_id params.tag (unsupported node_type params.job.tag)
          vrf clock')
  answer_job true false node_type callback_url vrf params = do
    clock' ← result_clock (codes "Clock value missing") params.clock
    ok (job_result_param params.user params.job_id params.tag [] vrf clock')
  answer_job true true node_type callback_url vrf params =
      by_tag (text_eq params.job.tag (codes "opml")) (text_eq params.job.tag (codes "tee"))
        callback_url params

  -- The value `res` of `do_job`, once the VRF is computed.
  unfoldable pub job_answer :
      Text → Text → VrfReply → DispatchJobParam Double → Outcome OperatorError JobResultParam
  unfolding answer_job by_tag unsupported
  job_answer node_type callback_url vrf params =
      answer_job (text_eq params.job.tag node_type) vrf.selected node_type callback_url vrf params
