-- ===== src/Jobs/Dispatch/Tasks/Receiving.antt =====
-- What becomes of the jobs that are received.
use aos_operator.Shared.{
  ℕ, ◌≡◌, refl, Bool, true, false, Option, none, some, List, [], ◌∷◌, Outcome, ok, err, panic,
  if◌then◌else◌, All, Bool-cases, inl, inr,
}
use aos_operator.Shared.Text.{Text, codes, text_eq}
use aos_operator.Queue.{RedisStream, RedisQueueError, ms_id, new_message, produce}
use aos_operator.Queue.Fifo.{Fifo, push}
use aos_operator.Queue.Refinement.{Holds, produce-Holds}
use aos_operator.Jobs.Dispatch.Tasks.{
  Received, signal, request, broken, Arrival, TaskState, Inbox, listening, add_queue_req,
  queue_message, produced_as, by_method, answered, receive_one, receive,
}

-- The queue after a job that comes at `now`, unless it could not be written or sent.
abbrev pub queued : Option ℕ → Option Text → Bool → Fifo → Fifo
queued (some ms) (some text) true q = (push ms text q).1
queued _ _ _ q = q

abbrev pub arrived : Received → Arrival → Fifo → Fifo
arrived signal a q = q
arrived broken a q = q
arrived (request id method) a q =
    if text_eq method (codes "dispatch_job") then queued a.now a.text a.link q else q

abbrev pub all_arrived : List Arrival → Fifo → Fifo
all_arrived [] q = q
all_arrived (a ∷ as') q = all_arrived as' (arrived a.received a q)

-- The ids of the requests, the latest first.
abbrev pub with_id : Received → List Text → List Text
with_id signal ids = ids
with_id broken ids = ids
with_id (request id method) ids = id ∷ ids

abbrev pub requested : List Arrival → List Text → List Text
requested [] ids = ids
requested (a ∷ as') ids = requested as' (with_id a.received ids)

abbrev pub IsOpenFor : Received → Type 0
IsOpenFor signal = Unit
IsOpenFor broken = ⊥
IsOpenFor (request id method) = Unit

-- The connection holds.
abbrev pub IsOpen : Arrival → Type 0
IsOpen a = (a.responds ≡ true) × IsOpenFor a.received

module _ (redis : RedisStream) where
  produced_as-stream :
      (r : Outcome RedisQueueError (Unit {0}) × redis.Stream) → (produced_as redis r).1 ≡ r.1
  unfolding produced_as
  produced_as-stream (ok u, s) = refl
  produced_as-stream (err e, s) = refl
  produced_as-stream (panic, s) = refl

  add_queue_req_refines :
      (now : Option ℕ) (text : Option Text) (link : Bool) (s : redis.Stream) (q : Fifo)
      → Holds redis s q
      → Holds redis (add_queue_req redis now text link s).1 (queued now text link q)
  unfolding add_queue_req queue_message new_message produce
  add_queue_req_refines none text link s q h = h
  add_queue_req_refines (some ms) none link s q h = h
  add_queue_req_refines (some ms) (some text) false s q h =
      rw (produced_as-stream (produce redis false (record { id = ms_id ms; data_text = text }) s)) h
  add_queue_req_refines (some ms) (some text) true s q h =
      rw (produced_as-stream (produce redis true (record { id = ms_id ms; data_text = text }) s))
        (produce-Holds redis ms text s q h)

  by_method_refines :
      (id method : Text) (a : Arrival) (s : redis.Stream) (q : Fifo)
      → Holds redis s q
      → Holds redis (by_method redis method a s) (arrived (request id method) a q)
  unfolding by_method
  by_method_refines id method a s q h = elim (Bool-cases (text_eq method (codes "dispatch_job"))) [
    | inl job ↦ rw job (add_queue_req_refines a.now a.text a.link s q h)
    | inr other ↦ rw other h
  ]

  -- How a connection that holds leaves the task, the queue and the answers.
  abbrev Keeps : List Arrival → Fifo → List Text → TaskState × Inbox redis → Type 0
  Keeps as' q ids (state, (s, ids')) =
      (state ≡ listening) × Holds redis s (all_arrived as' q) × (ids' ≡ requested as' ids)

  one-Keeps :
      (r : Received) (a : Arrival) (as' : List Arrival) (s : redis.Stream) (q : Fifo)
      (ids : List Text)
      → IsOpenFor r
      → a.responds ≡ true
      → Holds redis s q
      → ((s' : redis.Stream) (q' : Fifo) (ids' : List Text)
          → Holds redis s' q'
          → Keeps as' q' ids' (receive redis as' (s', ids')))
      → Keeps as'
          (arrived r a q)
          (with_id r ids)
          (receive_one redis r a (s, ids) (λ w. receive redis as' w))
  unfolding receive_one answered
  one-Keeps signal a as' s q ids opened responds h rest = rest s q ids h
  one-Keeps broken a as' s q ids opened responds h rest = absurd opened
  one-Keeps (request id method) a as' s q ids opened responds h rest = rw responds (
      rest (by_method redis method a s) (arrived (request id method) a q) (id ∷ ids)
        (by_method_refines id method a s q h))

  -- While the connection holds, the task answers every request with success, in order and whatever
  -- its method, and goes on. The queue then holds the jobs of the requests `dispatch_job` that came
  -- in a later millisecond than all jobs before them and could be written; the other jobs are lost,
  -- although they were answered in the same way.
  pub receive_answers :
      (as' : List Arrival) (s : redis.Stream) (ids : List Text) (q : Fifo)
      → All IsOpen as'
      → Holds redis s q
      → let r = receive redis as' (s, ids) in
        (r.0 ≡ listening) × Holds redis r.1.0 (all_arrived as' q) × (r.1.1 ≡ requested as' ids)
  unfolding receive
  receive_answers [] s ids q opened h = (refl, h, refl)
  receive_answers (a ∷ as') s ids q opened h =
      one-Keeps a.received a as' s q ids opened.0.1 opened.0.0 h
        (λ s' q' ids' h'. receive_answers as' s' ids' q' opened.1 h')
