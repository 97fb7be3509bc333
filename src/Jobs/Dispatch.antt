-- ===== src/Jobs/Dispatch.antt =====
-- operator/runer/src/api/msg_handler.rs: `do_job`, the loop over queued messages, and the
-- connection to the dispatcher with its retries; storage.rs: `sinker_job`.
pub mod Acknowledge
pub mod Connection
pub mod Rounds
pub mod Tasks
pub mod Ordering
pub mod Interleaving
pub mod Unprefixed
mod Tests
use aos_operator.Shared.{
  ℕ, suc, ◌+◌, ◌^◌, Bool, true, false, Option, none, some, List, [], ◌∷◌, Outcome, ok, err, panic,
  ◌>>=◌, ok_or, unwrap, ltb, if◌then◌else◌,
}
use aos_operator.Shared.Text.{Text, codes, text_eq}
use aos_operator.Shared.TextMap.{TextMap}
use aos_operator.Shared.Hex.{HexCrates}
use aos_operator.Config.{OperatorConfig}
use aos_operator.Queue.{RedisMessage}
use aos_operator.Vrf.Reply.{VrfReply}
use aos_operator.Jobs.{
  OperatorError, custom_error, op_json_error, DispatchJobParam, DispatchJobRequest, JobResultParam,
}
use aos_operator.Jobs.Work.{Workers, job_answer}

-- The row that `sinker_job` hands to the database.
pub record StoredJob : Type 0 where
  pub username : Text
  pub job_id : Text
  pub result : Text
  pub tag : Text
  pub clock : Text
  pub operator : Text
  pub signature : Text

-- What the loop has done so far, the latest first: ids acknowledged, rows handed to the
-- database, results sent.
pub record Node : Type 0 where
  pub acknowledged : List Text
  pub stored : List StoredJob
  pub sent : List JobResultParam

-- `sinker_job`; an error of the database is only logged.
unfoldable pub sinker_job : Text → Text → Text → Text → Text → Node → Node
sinker_job job_id username result tag clock node = record node {
  stored =
      record {
        username = username;
        job_id = job_id;
        result = result;
        tag = tag;
        clock = clock;
        operator = [];
        signature = [];
      }
      ∷ node.stored;
}

-- What the loop uses: the configuration, whether the hub's state is set, the VRF of this
-- operator for a tag, a position and a prompt, the workers, and `serde_json`.
pub record Environment (Double Float Value : Type 0) : Type 0 where
  pub config : OperatorConfig
  pub has_hub_state : Bool
  pub compute_vrf : Text → Text → Text → Outcome OperatorError VrfReply
  pub workers : Workers Double Float
  pub from_str : Text → Option (Text × Value)
  pub from_value : Value → Option (DispatchJobRequest Double)
  pub clock_to_string : TextMap Text → Option Text

-- How the handling of a message ends: the loop goes on, or its task dies in a panic.
pub data Handled : Type 0 where
  goes_on died : Handled

module _ {Double Float Value : Type 0} (env : Environment Double Float Value) where
  open env use {config, has_hub_state, compute_vrf, workers, from_str, from_value, clock_to_string}

  -- `do_job` up to the storage: the result, and its clock as text. Only the first job of the
  -- request is looked at.
  unfoldable pub job_work :
      DispatchJobRequest Double → Outcome OperatorError (JobResultParam × Text)
  job_work msg = do
    state ←
        ok_or (if has_hub_state then some tt else none)
          (custom_error (codes "SharedState clone error"))
    params ← (unwrap (elim msg [ [] ↦ none | p ∷ rest ↦ some p ]))
    vrf_result ← compute_vrf params.tag params.position params.job.prompt
    res ← job_answer workers config.node.node_type config.net.callback_url vrf_result params
    clock ← ok_or (clock_to_string res.clock) op_json_error
    ok (res, clock)

  -- The rest of `do_job`: an error of `job_result` is only logged.
  job_done :
      Outcome OperatorError (JobResultParam × Text) → Node → Outcome OperatorError (Unit {0}) × Node
  job_done (ok (res, clock)) node =
      let node' = sinker_job res.job_id res.user res.result res.tag clock node in
      (ok tt, record node' { sent = res ∷ node'.sent })
  job_done (err e) node = (err e, node)
  job_done panic node = (panic, node)

  unfoldable pub do_job : DispatchJobRequest Double → Node → Outcome OperatorError (Unit {0}) × Node
  unfolding job_done
  do_job msg node = job_done (job_work msg) node

  -- `queue.acknowledge`; its error is only logged.
  unfoldable pub acknowledge : Text → Node → Node
  acknowledge id node = record node { acknowledged = id ∷ node.acknowledged }

  -- An error of the job is logged, and the message acknowledged all the same.
  job_handled : Text → Outcome OperatorError (Unit {0}) × Node → Handled × Node
  job_handled id (ok r, node) = (goes_on, acknowledge id node)
  job_handled id (err e, node) = (goes_on, acknowledge id node)
  job_handled id (panic, node) = (died, node)

  parsed_handled : Text → Option (DispatchJobRequest Double) → Node → Handled × Node
  unfolding job_handled
  parsed_handled id none node = (goes_on, acknowledge id node)
  parsed_handled id (some job) node = job_handled id (do_job job node)

  text_handled : Text → Option (Text × Value) → Node → Handled × Node
  unfolding parsed_handled
  text_handled id none node = (goes_on, acknowledge id node)
  text_handled id (some (request_id, msg)) node = parsed_handled id (from_value msg) node

  -- The body of the loop over the consumed messages.
  unfoldable pub handle_message : RedisMessage → Node → Handled × Node
  unfolding text_handled
  handle_message m node = text_handled m.id (from_str m.data_text) node

  then_rest : Handled × Node → (Node → Handled × Node) → Handled × Node
  then_rest (goes_on, node) rest = rest node
  then_rest (died, node) rest = (died, node)

  -- `handle_dispatchjobs`, on the messages that `consume` gives.
  unfoldable pub handle_dispatchjobs : List RedisMessage → Node → Handled × Node
  unfolding then_rest
  handle_dispatchjobs [] node = (goes_on, node)
  handle_dispatchjobs (m ∷ msgs) node =
      then_rest (handle_message m node) (λ node'. handle_dispatchjobs msgs node')
