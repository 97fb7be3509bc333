-- ===== src/Jobs/Dispatch/Acknowledge.antt =====
-- Which messages the loop acknowledges.
use aos_operator.Shared.{
  ◌≡◌, refl, ap, ◌∙◌, ◌⊎◌, inl, inr, true, Option, none, some, List, [], ◌∷◌, ◌++◌, Outcome, ok,
  err, panic, length, suc,
}
use aos_operator.Shared.Text.{Text}
use aos_operator.Queue.{RedisMessage}
use aos_operator.Jobs.{OperatorError, DispatchJobRequest, JobResultParam}
use aos_operator.Jobs.Dispatch.{
  Node, Environment, Handled, goes_on, died, job_work, job_done, do_job, acknowledge, sinker_job,
  job_handled, parsed_handled, text_handled, handle_message, handle_dispatchjobs, then_rest,
}

-- The ids of the messages, the last first.
abbrev pub ids_back : List RedisMessage → List Text → List Text
ids_back [] acks = acks
ids_back (m ∷ msgs) acks = ids_back msgs (m.id ∷ acks)

-- As many rows are stored as results are sent, beyond what was there before.
abbrev pub Balanced : Node → Type 0
Balanced node = length node.stored ≡ length node.sent

module _ {Double Float Value : Type 0} (env : Environment Double Float Value) where
  -- One message: acknowledged once and the loop goes on, or not at all and the task dies.
  Once : Text → Node → Handled × Node → Type 0
  Once id node r =
      ((r.0 ≡ goes_on) × (r.1.acknowledged ≡ id ∷ node.acknowledged) × Balanced r.1)
      ⊎ ((r.0 ≡ died) × (r.1.acknowledged ≡ node.acknowledged) × Balanced r.1)

  done_acks :
      (r : Outcome OperatorError (JobResultParam × Text)) (node : Node)
      → Balanced node
      → ((job_done env r node).1.acknowledged ≡ node.acknowledged)
        × Balanced (job_done env r node).1
  unfolding job_done sinker_job
  done_acks (ok (res, clock)) node b = (refl, ap suc b)
  done_acks (err e) node b = (refl, b)
  done_acks panic node b = (refl, b)

  handled-Once :
      (id : Text) (acks : List Text) (r : Outcome OperatorError (Unit {0})) (node node' : Node)
      → (node'.acknowledged ≡ node.acknowledged)
      → Balanced node'
      → Once id node (job_handled env id (r, node'))
  unfolding Once job_handled acknowledge
  handled-Once id acks (ok x) node node' e b = inl (refl, ap (λ l. id ∷ l) e, b)
  handled-Once id acks (err x) node node' e b = inl (refl, ap (λ l. id ∷ l) e, b)
  handled-Once id acks panic node node' e b = inr (refl, e, b)

  parsed-Once :
      (id : Text) (job : Option (DispatchJobRequest Double)) (node : Node)
      → Balanced node
      → Once id node (parsed_handled env id job node)
  unfolding parsed_handled Once acknowledge do_job
  parsed-Once id none node b = inl (refl, refl, b)
  parsed-Once id (some job) node b =
      let done = done_acks (job_work env job) node b in
      handled-Once id [] (do_job env job node).0 node (do_job env job node).1 done.0 done.1

  text-Once :
      (id : Text) (text : Option (Text × Value)) (node : Node)
      → Balanced node
      → Once id node (text_handled env id text node)
  unfolding text_handled Once acknowledge
  text-Once id none node b = inl (refl, refl, b)
  text-Once id (some (request_id, msg)) node b = parsed-Once id (env.from_value msg) node b

  message-Once :
      (m : RedisMessage) (node : Node) → Balanced node → Once m.id node (handle_message env m node)
  unfolding handle_message
  message-Once m node b = text-Once m.id (env.from_str m.data_text) node b

  -- What `handle_dispatchjobs` has done on `msgs` when it ends in `r`.
  abbrev pub Progress : List RedisMessage → Node → Handled × Node → Type 0
  Progress msgs node r =
      (handled : List RedisMessage) × (rest : List RedisMessage) × (msgs ≡ handled ++ rest)
      × (r.1.acknowledged ≡ ids_back handled node.acknowledged)
      × Balanced r.1
      × (((r.0 ≡ goes_on) × (rest ≡ []))
          ⊎ ((r.0 ≡ died)
              × ((m : RedisMessage) × (later : List RedisMessage) × (rest ≡ m ∷ later))))

  then-Progress :
      (m : RedisMessage) (msgs : List RedisMessage) (node : Node) (r : Handled × Node)
      (rest : Node → Handled × Node)
      → Once m.id node r
      → ((node' : Node) → Balanced node' → Progress msgs node' (rest node'))
      → Progress (m ∷ msgs) node (then_rest env r rest)
  unfolding Once then_rest
  then-Progress m msgs node (goes_on, node') rest (inl (e, acks, b)) ih =
      let (handled, left, split, done, balanced, how) = ih node' b in
      (m ∷ handled, left, ap (λ l. m ∷ l) split, done ∙ ap (ids_back handled) acks, balanced, how)
  then-Progress m msgs node (goes_on, node') rest (inr (e, acks, b)) ih = absurd cc
  then-Progress m msgs node (died, node') rest (inl (e, acks, b)) ih = absurd cc
  then-Progress m msgs node (died, node') rest (inr (e, acks, b)) ih =
      ([], m ∷ msgs, refl, acks, b, inr (refl, (m, msgs, refl)))

  -- The messages are handled in order, and each message that is handled is acknowledged exactly
  -- once, whether it could be parsed or not and whether its job succeeded or failed; a result is
  -- handed to the database for each one that is sent. Either all messages are handled, or the task dies at a
  -- message and neither it nor a later one is acknowledged.
  pub handle_dispatchjobs_acks :
      (msgs : List RedisMessage) (node : Node)
      → Balanced node
      → Progress msgs node (handle_dispatchjobs env msgs node)
  unfolding handle_dispatchjobs
  handle_dispatchjobs_acks [] node b = ([], [], refl, refl, b, inl (refl, refl))
  handle_dispatchjobs_acks (m ∷ msgs) node b =
      then-Progress m msgs node (handle_message env m node) (λ n. handle_dispatchjobs env msgs n)
        (message-Once m node b) (λ n balanced. handle_dispatchjobs_acks msgs n balanced)

  job_work_empty : env.has_hub_state ≡ true → job_work env [] ≡ panic
  unfolding job_work
  job_work_empty hub = rw hub refl

  -- A message with an empty list of jobs kills the task, once the hub's state is set: it is not
  -- acknowledged and changes nothing, so the next task meets it again.
  pub handle_message_empty :
      (m : RedisMessage) (node : Node) (request_id : Text) (msg : Value)
      → env.from_str m.data_text ≡ some (request_id, msg)
      → env.from_value msg ≡ some []
      → env.has_hub_state ≡ true
      → handle_message env m node ≡ (died, node)
  unfolding handle_message text_handled parsed_handled do_job job_done job_handled
  handle_message_empty m node request_id msg read empty_ hub =
      ap (λ t. text_handled env m.id t node) read
      ∙ ap (λ j. parsed_handled env m.id j node) empty_
      ∙ ap (λ w. job_handled env m.id (job_done env w node)) (job_work_empty hub)
