-- ===== src/Jobs/Work/Outcomes.antt =====
-- What the result of a job keeps of the job and of its VRF reply.
use mathlib.Core.Path.{subst}
use aos_operator.Shared.{
  ℕ, [], ◌≡◌, refl, Bool, true, false, ok, err, ◌>>=◌, ◌&&◌, if◌then◌else◌, Outcome, panic, map_err,
}
use aos_operator.Shared.Text.{Text, codes, text_eq}
use aos_operator.Shared.TextMap.{TextMap}
use aos_operator.Hub.{OpmlAnswer, AnswerReq}
use aos_operator.Vrf.Reply.{VrfReply, default_reply}
use aos_operator.Jobs.{OperatorError, DispatchJobParam, JobResultParam}
use aos_operator.Jobs.Work.{
  Workers, job_result_param, job_answer, answer_job, by_tag, do_opml_job, do_tee_job, unsupported,
  poll, opml_ready, tee_ready, hub_error, as_u16, result_clock,
}

-- A result for the job `params` with the VRF reply `vrf`.
abbrev pub ResultOf :
    {Double : Type 0} → DispatchJobParam Double → VrfReply → JobResultParam → Type 0
ResultOf params vrf res =
    (res.user ≡ params.user)
    × (res.job_id ≡ params.job_id)
    × (res.tag ≡ params.tag)
    × (res.vrf ≡ vrf)
    × (res.operator ≡ [])
    × (res.signature ≡ [])

module _ {Double Float : Type 0} (workers : Workers Double Float) where
  made :
      (params : DispatchJobParam Double) (vrf : VrfReply) (result : Text) (clock : TextMap Text)
      (res : JobResultParam)
      → ◌≡◌ {A = Outcome OperatorError JobResultParam}
          (ok (job_result_param params.user params.job_id params.tag result vrf clock))
          (ok res)
      → ResultOf params vrf res
  unfolding job_result_param
  made params vrf result clock res e =
      let same : job_result_param params.user params.job_id params.tag result vrf clock ≡ res =
        cc in
      subst (λ r. ResultOf params vrf r) same (refl, refl, refl, refl, refl, refl)

  -- The end of every branch: the clock, and the result with it.
  cleared :
      (c : Outcome OperatorError (TextMap Text)) (params : DispatchJobParam Double) (vrf : VrfReply)
      (result : Text) (res : JobResultParam)
      → (c >>= λ clock. ok (job_result_param params.user params.job_id params.tag result vrf clock))
        ≡ ok res
      → ResultOf params vrf res
  cleared (ok clock) params vrf result res e = made params vrf result clock res e
  cleared (err x) params vrf result res e = absurd cc
  cleared panic params vrf result res e = absurd cc

  -- The worker's answer before it.
  worked :
      {A : Type 0} (text : A → Text) (m : Outcome OperatorError ℕ) (r : Outcome OperatorError A)
      (c : Outcome OperatorError (TextMap Text)) (params : DispatchJobParam Double)
      (res : JobResultParam)
      → (m >>= λ n. r >>= λ a. c >>= λ clock.
          ok (job_result_param params.user params.job_id params.tag (text a) default_reply clock))
        ≡ ok res
      → ResultOf params default_reply res
  worked text (ok n) (ok a) c params res e = cleared c params default_reply (text a) res e
  worked text (ok n) (err x) c params res e = absurd cc
  worked text (ok n) panic c params res e = absurd cc
  worked text (err x) r c params res e = absurd cc
  worked text panic r c params res e = absurd cc

  opml-ResultOf :
      (url : Text) (params : DispatchJobParam Double) (res : JobResultParam)
      → do_opml_job workers params.job.model params.job.prompt params.user params.job_id params.tag
          url params.clock
        ≡ ok res
      → ResultOf params default_reply res
  unfolding do_opml_job
  opml-ResultOf url params res e =
      worked (λ (a : OpmlAnswer). a.answer) (poll opml_ready workers.opml_status)
        (map_err (hub_error (codes "opml question timeout")) (
          workers.opml_question_handler (record {
            model = params.job.model;
            prompt = params.job.prompt;
            req_id = workers.new_uuid;
            callback = url;
          })))
        (result_clock (codes "opml clock value missing") params.clock) params res e

  tee-ResultOf :
      (params : DispatchJobParam Double) (res : JobResultParam)
      → do_tee_job workers params.job.model params.job.prompt params.user params.job_id params.tag
          params.job.params.temperature params.job.params.top_p params.job.params.max_tokens
          params.clock
        ≡ ok res
      → ResultOf params default_reply res
  unfolding do_tee_job
  tee-ResultOf params res e =
      worked (λ (a : AnswerReq). a.answer) (poll tee_ready workers.tee_status)
        (map_err (hub_error (codes "tee question timeout")) (
          workers.tee_question_handler (record {
            request_id = workers.new_uuid;
            node_id = [];
            model = params.job.model;
            prompt = params.job.prompt;
            prompt_hash = [];
            signature = [];
            params = record {
              temperature = workers.as_f32 params.job.params.temperature;
              top_p = workers.as_f32 params.job.params.top_p;
              max_tokens = as_u16 params.job.params.max_tokens;
            };
          })))
        (result_clock (codes "tee clock value missing") params.clock) params res e

  by_tag-ResultOf :
      (opml tee : Bool) (url : Text) (params : DispatchJobParam Double) (res : JobResultParam)
      → by_tag workers opml tee url params ≡ ok res
      → ResultOf params default_reply res
  unfolding by_tag
  by_tag-ResultOf true tee url params res e = opml-ResultOf url params res e
  by_tag-ResultOf false true url params res e = tee-ResultOf params res e
  by_tag-ResultOf false false url params res e = absurd cc

  answer_job-ResultOf :
      (same selected : Bool) (node_type url : Text) (vrf : VrfReply)
      (params : DispatchJobParam Double) (res : JobResultParam)
      → answer_job workers same selected node_type url vrf params ≡ ok res
      → ResultOf params (if same && selected then default_reply else vrf) res
  unfolding answer_job
  answer_job-ResultOf false selected node_type url vrf params res e =
      cleared (result_clock (codes "Clock value missing") params.clock) params vrf
        (unsupported workers node_type params.job.tag) res e
  answer_job-ResultOf true false node_type url vrf params res e =
      cleared (result_clock (codes "Clock value missing") params.clock) params vrf [] res e
  answer_job-ResultOf true true node_type url vrf params res e =
      by_tag-ResultOf _ _ url params res e

  -- Whichever branch a job takes, its result names the job's user, id and tag and is neither
  -- signed nor names an operator; it carries the computed VRF reply if the job is of another type
  -- or not selected for, and the empty default reply if a worker answered it.
  pub job_answer-ResultOf :
      (node_type url : Text) (vrf : VrfReply) (params : DispatchJobParam Double)
      (res : JobResultParam)
      → job_answer workers node_type url vrf params ≡ ok res
      → ResultOf params
          (if text_eq params.job.tag node_type && vrf.selected then default_reply else vrf)
          res
  unfolding job_answer
  job_answer-ResultOf node_type url vrf params res e =
      answer_job-ResultOf (text_eq params.job.tag node_type) vrf.selected node_type url vrf params
        res e
