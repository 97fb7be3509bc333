-- ===== src/Jobs/Tests.antt =====
-- The theorems on jobs at concrete jobs.
use aos_operator.Shared.{
  ℕ, ◌+◌, ◌*◌, ◌-◌, ◌/◌, ◌<◌, ◌≡◌, refl, ◌⊎◌, true, false, Option, some, none, [], ◌∷◌, ◌++◌,
  replicate, ok, err, ltb, ◌==◌, if◌then◌else◌, ◌&&◌, arith, length,
}
use aos_operator.Shared.Text.{Text, codes, text_eq}
use aos_operator.Shared.Machine.{u32_mod, checked}
use aos_operator.Shared.Hex.{all_hexdigits}
use aos_operator.Shared.Decimal.{to_string, digits, parse_u32, parse_from, parse_digit}
use aos_operator.Config.{OperatorConfig, validate_addr}
use aos_operator.Config.Sample.{config_of}
use aos_operator.Vrf.Reply.{VrfReply, default_reply}
use aos_operator.Vrf.Instance.{toy_hex}
use aos_operator.Hub.{OpmlAnswer, AnswerReq}
use aos_operator.Queue.{RedisMessage}
use aos_operator.Jobs.{
  custom_error, op_timeout_error, op_from_hex_error, DispatchJobParam, DispatchJobRequest,
  JobResultParam,
}
use aos_operator.Jobs.Work.{
  Workers, poll, poll_answer, retry_limit, tee_ready, result_clock, last_entry, job_answer,
  job_result_param,
}
use aos_operator.Jobs.Work.Polling.{Busy, poll_first}
use aos_operator.Jobs.Work.Clocks.{result_clock-append}
use aos_operator.Jobs.Work.Outcomes.{ResultOf, job_answer-ResultOf}
use aos_operator.Jobs.Work.Range.{Doubles, VrfEnvironment}
use aos_operator.Jobs.Dispatch.Unprefixed.{computing, do_job_unprefixed}
use aos_operator.Jobs.Dispatch.{
  Node, Environment, goes_on, do_job, acknowledge, handle_message, handle_dispatchjobs,
}
use aos_operator.Jobs.Dispatch.Acknowledge.{Progress, handle_dispatchjobs_acks}
use aos_operator.Jobs.Dispatch.Connection.{Setup}

-- An error, a busy worker, and then a ready one.
abbrev statuses : ℕ → Option ℕ
statuses n = if n == 2 then some 1 else if n == 1 then some 0 else none

poll_first_example :
    ((k : ℕ) × (k < retry_limit)
      × (poll_answer tee_ready (statuses k) ≡ true)
      × Busy tee_ready statuses 0 k
      × (poll tee_ready statuses ≡ ok k))
    ⊎ (Busy tee_ready statuses 0 retry_limit
        × (poll tee_ready statuses ≡ err (op_timeout_error (codes "opml question timeout"))))
poll_first_example = poll_first tee_ready statuses

result_clock-append_example :
    result_clock (codes "missing") ((codes "1", codes "7") ∷ (codes "2", to_string 41) ∷ []) ≡ (
      if ltb (41 + 1) u32_mod
      then ok ((codes "2", to_string (41 + 1)) ∷ [])
      else err (custom_error (codes "checked_add error")))
result_clock-append_example =
    result_clock-append (codes "missing") ((codes "1", codes "7") ∷ []) (codes "2") 41 (omega arith)

abbrev opml_told : OpmlAnswer
opml_told = record {
  req_id = codes "u";
  node_id = [];
  model = codes "m";
  prompt = codes "p";
  answer = codes "42";
  state_root = [];
}

abbrev tee_told : AnswerReq
tee_told = record {
  request_id = codes "u";
  node_id = [];
  model = codes "m";
  prompt = codes "p";
  answer = codes "43";
  attestation = [];
  attest_signature = [];
  elapsed = 0;
}

abbrev workers : Workers ℕ ℕ
workers = record {
  opml_status = λ n. some (codes "0");
  tee_status = statuses;
  new_uuid = codes "u";
  opml_question_handler = λ r. ok opml_told;
  tee_question_handler = λ r. ok tee_told;
  as_f32 = λ x. x;
}

abbrev job_for : Text → DispatchJobParam ℕ
job_for tag = record {
  user = codes "ann";
  seed = [];
  tag = codes "suspicion";
  position = codes "before";
  signature = [];
  clock = (codes "1", codes "7") ∷ [];
  job_id = codes "j1";
  job = record {
    model = codes "m";
    prompt = codes "p";
    tag = tag;
    params = record { temperature = 1; top_p = 1; max_tokens = 100 };
  };
}

abbrev selected_reply : VrfReply
selected_reply = record {
  selected = true;
  vrf_prompt_hash = codes "h";
  vrf_random_value = codes "r";
  vrf_verify_pubkey = codes "k";
  vrf_proof = codes "p";
}

abbrev passed_over : VrfReply
passed_over = record selected_reply { selected = false }

abbrev passed_result : JobResultParam
passed_result =
    job_result_param (codes "ann") (codes "j1") (codes "suspicion") [] passed_over
      ((codes "1", codes "8") ∷ [])

-- A job that this operator is not selected for: an empty result with the VRF reply.
passed_run :
    job_answer workers (codes "opml") (codes "cb") passed_over (job_for (codes "opml"))
    ≡ ok passed_result
unfolding job_answer result_clock last_entry text_eq parse_u32 parse_from parse_digit to_string
    digits
passed_run = refl

job_answer-ResultOf_example :
    ResultOf
      (job_for (codes "opml"))
      (if text_eq (codes "opml") (codes "opml") && false then default_reply else passed_over)
      passed_result
job_answer-ResultOf_example =
    job_answer-ResultOf workers (codes "opml") (codes "cb") passed_over (job_for (codes "opml"))
      passed_result passed_run

abbrev plain_config : OperatorConfig
plain_config = config_of (replicate 40 b'a') (codes "0x" ++ replicate 64 b'b')

abbrev doubles : Doubles
doubles = record {
  Double = ℕ;
  from_u64 = λ n. n;
  to_u64 = λ n. n;
  plus = λ a b. a + b;
  minus = λ a b. a - b;
  times = λ a b. a * b / 100;
  three_hundredths = 3;
  one_tenth = 10;
}

abbrev vrf_environment : VrfEnvironment
vrf_environment = record {
  range_of = λ addr. ok (100, 200);
  max_range = none;
  sha512 = λ t. t;
  run_vrf = λ hash precision threshold. ok selected_reply;
}

digits_40 : all_hexdigits (replicate 40 b'a') ≡ true
unfolding all_hexdigits
digits_40 = refl

digits_64 : all_hexdigits (replicate 64 b'b') ≡ true
unfolding all_hexdigits
digits_64 = refl

abbrev setup : Setup ℕ ℕ
setup = record { from_slice = λ bytes. some 1; socket_addr = λ t. some 2 }

-- Messages are numbers of jobs for the OPML worker.
abbrev requests : ℕ → DispatchJobRequest ℕ
requests n = replicate n (job_for (codes "opml"))

abbrev pub environment : Environment ℕ ℕ ℕ
environment = record {
  config = plain_config;
  has_hub_state = true;
  compute_vrf = λ tag position prompt. ok selected_reply;
  workers = workers;
  from_str = λ t. if text_eq t (codes "bad") then none else some (codes "1", length t);
  from_value = λ n. some (requests n);
  clock_to_string = λ c. some (codes "clock");
}

abbrev pub start : Node
start = record { acknowledged = []; stored = []; sent = [] }

abbrev unprefixed_env : Environment ℕ ℕ ℕ
unprefixed_env = computing doubles toy_hex checked vrf_environment environment

do_job_unprefixed_example :
    (validate_addr (replicate 40 b'a') ≡ true)
    × (do_job unprefixed_env (requests 1) start ≡ (err op_from_hex_error, start))
    × (handle_message unprefixed_env (record { id = codes "1-0"; data_text = codes "j" }) start
        ≡ (goes_on, acknowledge unprefixed_env (codes "1-0") start))
unfolding text_eq
do_job_unprefixed_example =
    do_job_unprefixed doubles toy_hex checked vrf_environment environment (job_for (codes "opml"))
      [] (record { id = codes "1-0"; data_text = codes "j" }) (codes "1") 1 start refl digits_40
      refl refl refl

abbrev message : Text → Text → RedisMessage
message id t = record { id = id; data_text = t }

handle_dispatchjobs_acks_example :
    Progress environment
      (message (codes "1-0") (codes "bad") ∷ message (codes "2-0") (codes "j") ∷ [])
      start
      (handle_dispatchjobs environment
        (message (codes "1-0") (codes "bad") ∷ message (codes "2-0") (codes "j") ∷ [])
        start)
handle_dispatchjobs_acks_example =
    handle_dispatchjobs_acks environment
      (message (codes "1-0") (codes "bad") ∷ message (codes "2-0") (codes "j") ∷ []) start refl
