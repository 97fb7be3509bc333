-- ===== src/Jobs/Dispatch/Unprefixed.antt =====
-- operator/runer/src/api/msg_handler.rs: jobs of an operator whose node id has no `0x`.
use aos_operator.Shared.{◌≡◌, refl, true, some, ◌∷◌, err, length}
use aos_operator.Shared.Text.{Text}
use aos_operator.Shared.Machine.{Profile}
use aos_operator.Shared.Hex.{HexCrates, all_hexdigits}
use aos_operator.Config.{validate_addr}
use aos_operator.Queue.{RedisMessage}
use aos_operator.Jobs.{op_from_hex_error, DispatchJobParam, DispatchJobRequest}
use aos_operator.Jobs.Work.Range.{Doubles, VrfEnvironment, compute_vrf, compute_vrf_unprefixed}
use aos_operator.Jobs.Dispatch.{
  Node, Environment, goes_on, do_job, job_work, acknowledge, handle_message,
}

module _ (doubles : Doubles) (crates : HexCrates) {Double Float Value : Type 0} (p : Profile)
    (vrf : VrfEnvironment) where
  -- The jobs of an operator that computes its VRF with `compute_vrf`, of its own configuration.
  abbrev pub computing : Environment Double Float Value → Environment Double Float Value
  computing env = record env {
    compute_vrf =
        λ tag position prompt. compute_vrf doubles crates p env.config vrf tag position prompt;
  }

  -- With a node id of 40 hexadecimal digits without `0x`, which the validation of the configuration
  -- accepts, every job fails once the state of the hub is set: `do_job` ends in `OPFromHexError` with
  -- nothing stored and nothing sent, and a message that carries such a job is acknowledged all the
  -- same.
  pub do_job_unprefixed :
      (env : Environment Double Float Value) (params : DispatchJobParam Double)
      (rest : DispatchJobRequest Double) (m : RedisMessage) (request_id : Text) (msg : Value)
      (node : Node)
      → length env.config.node.node_id ≡ 40
      → all_hexdigits env.config.node.node_id ≡ true
      → env.has_hub_state ≡ true
      → env.from_str m.data_text ≡ some (request_id, msg)
      → env.from_value msg ≡ some (params ∷ rest)
      → (validate_addr env.config.node.node_id ≡ true)
        × (do_job (computing env) (params ∷ rest) node ≡ (err op_from_hex_error, node))
        × (handle_message (computing env) m node ≡ (goes_on, acknowledge (computing env) m.id node))
  unfolding do_job job_work handle_message
  do_job_unprefixed env params rest m request_id msg node len hex hub parsed job =
      let fails =
        compute_vrf_unprefixed doubles crates p env.config vrf params.tag params.position
          params.job.prompt len hex in
      (fails.0, rw (hub, fails.1) refl, rw (parsed, job, hub, fails.1) refl)
