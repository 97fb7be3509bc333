-- ===== src/Jobs/Dispatch/Interleaving.antt =====
-- operator/runer/src/api/msg_handler.rs: the task that receives and the task that works on the queue,
-- which handle_connection runs at the same time on one stream.
use aos_operator.Shared.{◌≡◌, ap, ◌∙◌, true, false, List, [], ◌∷◌, drop, All}
use aos_operator.Shared.Text.{Text}
use aos_operator.Queue.{RedisStream}
use aos_operator.Queue.Fifo.{Fifo}
use aos_operator.Queue.Refinement.{Holds}
use aos_operator.Jobs.Dispatch.{Node, Environment, Handled, goes_on, died}
use aos_operator.Jobs.Dispatch.Rounds.{
  Links, World, rounds, rounds-Served, cleared, served, Survives, handled_all,
}
use aos_operator.Jobs.Dispatch.Tasks.{
  Arrival, TaskState, listening, returned, panicked, Inbox, receive,
}
use aos_operator.Jobs.Dispatch.Tasks.Receiving.{IsOpen, arrived, with_id, receive_answers}
use aos_operator.Jobs.Dispatch.Ordering.{Good, JobIs, arrived-Good, drop_one-Good}

-- A message comes, or the loop over the queue makes a round. A message that comes during a round is
-- taken as coming after it.
pub data Move : Type 0 where
  arrives : Arrival → Move
  works : Links → Move

module _ (redis : RedisStream) {Double Float Value : Type 0}
    (env : Environment Double Float Value) where
  open redis use {Stream}

  -- The two tasks, what they share and what they did.
  pub record Tasks : Type 0 where
    pub stream : Stream
    pub node : Node
    pub answered_ids : List Text
    pub receiver : TaskState
    pub worker : Handled

  after_arrival : TaskState × Inbox redis → Tasks → Tasks
  after_arrival (state, (s, ids)) t = record t { stream = s; answered_ids = ids; receiver = state }

  -- A task that ended does nothing more.
  arrive : TaskState → Arrival → Tasks → Tasks
  unfolding after_arrival
  arrive listening a t = after_arrival (receive redis (a ∷ []) (t.stream, t.answered_ids)) t
  arrive returned a t = t
  arrive panicked a t = t

  after_round : Handled × World redis env → Tasks → Tasks
  after_round (state, (s, node)) t = record t { stream = s; node = node; worker = state }

  work : Handled → Links → Tasks → Tasks
  unfolding after_round
  work goes_on l t = after_round (rounds redis env (l ∷ []) (t.stream, t.node)) t
  work died l t = t

  unfoldable pub move : Move → Tasks → Tasks
  unfolding arrive work
  move (arrives a) t = arrive t.receiver a t
  move (works l) t = work t.worker l t

  unfoldable pub moves : List Move → Tasks → Tasks
  moves [] t = t
  moves (m ∷ ms) t = moves ms (move m t)

  -- What the moves do to the queue, to the node and to the answers.
  pub record Promise : Type 0 where
    pub queue : Fifo
    pub done : Node
    pub answers : List Text

  abbrev pub promised_move : Move → Promise → Promise
  promised_move (arrives a) p = record p {
    queue = arrived a.received a p.queue;
    answers = with_id a.received p.answers;
  }
  promised_move (works l) p = record p {
    queue = record p.queue { waiting = drop (cleared (l ∷ [])) p.queue.waiting };
    done = handled_all env (served (l ∷ []) p.queue.waiting) p.done;
  }

  abbrev pub promised : List Move → Promise → Promise
  promised [] p = p
  promised (m ∷ ms) p = promised ms (promised_move m p)

  -- The connection holds, and the job that comes, if one comes, does not kill the task.
  abbrev pub IsFair : Move → Type 0
  IsFair (arrives a) = IsOpen a × JobIs (Survives env) a.now a.text
  IsFair (works l) = Unit

  abbrev pub Keeps : Tasks → Promise → Type 0
  Keeps t p =
      (t.receiver ≡ listening)
      × (t.worker ≡ goes_on)
      × Holds redis t.stream p.queue
      × (t.node ≡ p.done)
      × (t.answered_ids ≡ p.answers)

  arrive-Keeps :
      (a : Arrival) (t : Tasks) (p : Promise)
      → IsOpen a
      → Keeps t p
      → Keeps (move (arrives a) t) (promised_move (arrives a) p)
  unfolding move arrive after_arrival
  arrive-Keeps a t p opened (receiving, working, h, node, ids) =
      let run = receive_answers redis (a ∷ []) t.stream t.answered_ids p.queue (opened, tt) h in
      rw receiving (run.0, working, run.1, node, run.2 ∙ ap (λ i. with_id a.received i) ids)

  work-Keeps :
      (l : Links) (t : Tasks) (p : Promise)
      → Good (Survives env) p.queue
      → Keeps t p
      → Keeps (move (works l) t) (promised_move (works l) p)
  unfolding move work after_round
  work-Keeps l t p good (receiving, working, h, node, ids) =
      let run =
        rounds-Served redis env (l ∷ []) t.stream t.node p.queue.latest p.queue.waiting h good.0.0
          good.1 in
      rw working (
        receiving,
        run.0,
        run.1,
        run.2 ∙ ap (λ n. handled_all env (served (l ∷ []) p.queue.waiting) n) node,
        ids,
      )

  moved-Good :
      (m : Move) (p : Promise)
      → IsFair m
      → Good (Survives env) p.queue
      → Good (Survives env) (promised_move m p).queue
  moved-Good (arrives a) p fair good = arrived-Good (Survives env) a.received a p.queue fair.1 good
  moved-Good (works (true, true)) p fair good =
      drop_one-Good (Survives env) p.queue.latest p.queue.waiting good
  moved-Good (works (true, false)) p fair good = good
  moved-Good (works (false, ack)) p fair good = good

  -- In whatever order messages come and the loop makes its rounds, on a connection that holds and with
  -- jobs that do not kill the task, both tasks go on, and what they share is what a queue in the order
  -- of arrival promises: every request is answered, each job that came later than all before it and
  -- could be written waits behind the others, each round that reads handles the first waiting job, and
  -- takes it off the queue if its acknowledgement reaches Redis.
  pub moves_keep :
      (ms : List Move) (t : Tasks) (p : Promise)
      → All IsFair ms
      → Good (Survives env) p.queue
      → Keeps t p
      → Keeps (moves ms t) (promised ms p)
  unfolding moves
  moves_keep [] t p fair good k = k
  moves_keep (arrives a ∷ ms) t p fair good k =
      moves_keep ms (move (arrives a) t) (promised_move (arrives a) p) fair.1
        (moved-Good (arrives a) p fair.0 good) (arrive-Keeps a t p fair.0.0 k)
  moves_keep (works l ∷ ms) t p fair good k =
      moves_keep ms (move (works l) t) (promised_move (works l) p) fair.1
        (moved-Good (works l) p fair.0 good) (work-Keeps l t p good k)
