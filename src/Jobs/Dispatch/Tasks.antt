-- ===== src/Jobs/Dispatch/Tasks.antt =====
-- operator/runer/src/api/msg_handler.rs: the requests to the dispatcher, the task that receives
-- jobs, and the connections and tasks of `handle_connection`.
pub mod Receiving
pub mod Serving
pub mod Reconnecting
use aos_operator.Shared.{
  ℕ, suc, ◌==◌, ◌||◌, Bool, true, false, Option, none, some, List, [], ◌∷◌, Outcome, ok, err, panic,
  ◌>>=◌, ok_or, map_err, if◌then◌else◌,
}
use aos_operator.Shared.Text.{Text, codes, text_eq}
use aos_operator.Shared.Hex.{HexCrates}
use aos_operator.Config.{NodeConfig, OperatorConfig}
use aos_operator.Websocket.{WsError}
use aos_operator.Queue.{RedisMessage, RedisQueueError, RedisStream, new_message, produce}
use aos_operator.Jobs.{
  OperatorError, custom_error, op_json_error, op_ws_error, ConnectParam, JobResultParam, WsResponse,
}
use aos_operator.Jobs.Dispatch.Connection.{Setup, prepare, failed_attempt}

-- What the two requests use: `request_timeout` with a number of seconds, and `serde_json`.
pub record Dispatcher (Value : Type 0) : Type 0 where
  pub request_timeout : Text → Value → ℕ → Outcome WsError Value
  pub connect_json : List ConnectParam → Value
  pub from_value : Value → Option WsResponse

-- What is awaited of a request, read as a `WsResponse`.
abbrev pub responded :
    {Value : Type 0} → Dispatcher Value → Outcome WsError Value → Outcome OperatorError WsResponse
responded dispatcher asked = do
  res ← map_err op_ws_error asked
  ok_or (dispatcher.from_value res) op_json_error

-- `connect_dispatcher`; the response is only logged, whatever its code.
unfoldable pub connect_dispatcher :
    {Value : Type 0} → Dispatcher Value → NodeConfig → Outcome OperatorError (Unit {0})
connect_dispatcher dispatcher node = do
  let param : ConnectParam = record {
    operator = node.node_id;
    workers = node.node_type ∷ [];
    hash = [];
    signature = [];
  }
  response ←
      responded dispatcher
        (dispatcher.request_timeout (codes "connect") (dispatcher.connect_json (param ∷ [])) 5)
  ok tt

-- `job_result`
unfoldable pub job_result :
    {Value : Type 0} → Dispatcher Value → Value → Outcome OperatorError (Unit {0})
job_result dispatcher msg = do
  response ← responded dispatcher (dispatcher.request_timeout (codes "job_result") msg 50)
  ok tt

-- What `receiver.recv` brings.
pub data Received : Type 0 where
  signal : Received
  request : Text → Text → Received  -- its id and its method
  broken : Received

-- A message, the milliseconds and the JSON text of `(id, params)` when it is queued, whether the
-- command reaches Redis, and whether the response can be sent.
pub record Arrival : Type 0 where
  pub received : Received
  pub now : Option ℕ
  pub text : Option Text
  pub link : Bool
  pub responds : Bool

-- How the receiving task stands.
pub data TaskState : Type 0 where
  listening returned panicked : TaskState

module _ (redis : RedisStream) where
  open redis use {Stream}

  produced_as :
      Outcome RedisQueueError (Unit {0}) × Stream → Outcome OperatorError (Unit {0}) × Stream
  produced_as (ok u, s) = (ok tt, s)
  produced_as (err e, s) = (err (custom_error (codes "redis queue produce error")), s)
  produced_as (panic, s) = (panic, s)

  queue_message :
      Bool
      → Outcome RedisQueueError RedisMessage
      → Stream
      → Outcome OperatorError (Unit {0}) × Stream
  unfolding produced_as
  queue_message link (ok redis_msg) s = produced_as (produce redis link redis_msg s)
  queue_message link (err e) s = (err (custom_error (codes "redis msg new error")), s)
  queue_message link panic s = (panic, s)

  unfoldable pub add_queue_req :
      Option ℕ → Option Text → Bool → Stream → Outcome OperatorError (Unit {0}) × Stream
  unfolding queue_message
  add_queue_req now text link s = queue_message link (new_message now text) s

  -- The method of a request; the result of `add_queue_req` is dropped.
  by_method : Text → Arrival → Stream → Stream
  by_method method a s =
      if text_eq method (codes "dispatch_job") then (add_queue_req a.now a.text a.link s).1 else s

  -- The stream, and the ids of the requests that were answered with success, the latest first.
  abbrev pub Inbox : Type 0
  Inbox = Stream × List Text

  answered : Bool → Text → Inbox → (Inbox → TaskState × Inbox) → TaskState × Inbox
  answered true id (s, ids) rest = rest (s, id ∷ ids)
  answered false id (s, ids) rest = (returned, (s, ids))

  receive_one : Received → Arrival → Inbox → (Inbox → TaskState × Inbox) → TaskState × Inbox
  unfolding by_method answered
  receive_one signal a w rest = rest w
  receive_one (request id method) a (s, ids) rest =
      answered a.responds id (by_method method a s, ids) rest
  receive_one broken a w rest = (panicked, w)

  -- The task `r_task`, on the messages that come.
  unfoldable pub receive : List Arrival → Inbox → TaskState × Inbox
  unfolding receive_one
  receive [] w = (listening, w)
  receive (a ∷ as') w = receive_one a.received a w (λ w'. receive as' w')

-- Where the loop of `handle_connection` is: it awaits the attempt to connect, the request
-- `connect_dispatcher` on the new connection, or the first of the two tasks to end.
pub data Phase : Type 0 where
  connecting greeting serving : Phase
  ended : Outcome OperatorError (Unit {0}) → Phase

-- The loop, how many connections it has made, and the tasks that run: those that receive and those
-- that work on the queue, each under the number of its connection.
pub record Connection : Type 0 where
  pub phase : Phase
  pub retry_count : ℕ
  pub made : ℕ
  pub receivers : List ℕ
  pub workers : List ℕ

abbrev pub start : Connection
start = record { phase = connecting; retry_count = 0; made = 0; receivers = []; workers = [] }

-- What may happen: to the loop, and to the tasks of any connection.
pub data Happening : Type 0 where
  connect_failed connected : Happening
  greeted : Outcome OperatorError (Unit {0}) → Happening
  receiver_ends : ℕ → Happening
  worker_returns worker_panics : ℕ → Happening

unfoldable pub has : ℕ → List ℕ → Bool
has n [] = false
has n (k ∷ ks) = (n == k) || has n ks

unfoldable pub without : ℕ → List ℕ → List ℕ
without n [] = []
without n (k ∷ ks) = let rest = without n ks in if n == k then rest else k ∷ rest

module _ (crates : HexCrates) {Key Address : Type 0} (setup : Setup Key Address)
    (config : OperatorConfig) where
  next_turn : Outcome OperatorError (Key × Address) → Connection → Connection
  next_turn (ok u) c = record c { phase = connecting }
  next_turn (err e) c = record c { phase = ended (err e) }
  next_turn panic c = record c { phase = ended panic }

  -- The loop begins again.
  unfoldable pub turn : Connection → Connection
  unfolding next_turn
  turn c = next_turn (prepare crates setup config) c

  -- `connect_dispatcher` has ended; the receiving task may have ended before it.
  welcomed : Outcome OperatorError (Unit {0}) → Connection → Connection
  welcomed (ok u) c =
      let c1 = record c { phase = serving; workers = c.made ∷ c.workers } in
      if has c.made c.receivers then c1 else turn c1
  welcomed (err e) c = record c { phase = ended (ok tt) }
  welcomed panic c = record c { phase = ended panic }

  -- A task of connection `n` has ended, without or with a panic of the task that works on the
  -- queue. The other task goes on: a `JoinHandle` that is dropped detaches its task.
  task_ended : Phase → ℕ → Connection → Connection
  task_ended serving n c = if n == c.made then turn c else c
  task_ended _ n c = c

  worker_panicked : Phase → ℕ → Connection → Connection
  worker_panicked serving n c = if n == c.made then record c { phase = ended (ok tt) } else c
  worker_panicked _ n c = c

  happens : Happening → Phase → Connection → Connection
  unfolding welcomed task_ended worker_panicked
  happens connect_failed connecting c =
      turn (record c { retry_count = (failed_attempt c.retry_count).0 })
  happens connected connecting c = record c {
    phase = greeting;
    retry_count = 0;
    made = suc c.made;
    receivers = suc c.made ∷ c.receivers;
  }
  happens (greeted answer) greeting c = welcomed answer c
  happens (receiver_ends n) phase c =
      task_ended phase n (record c { receivers = without n c.receivers })
  happens (worker_returns n) phase c =
      task_ended phase n (record c { workers = without n c.workers })
  happens (worker_panics n) phase c =
      worker_panicked phase n (record c { workers = without n c.workers })
  happens _ _ c = c

  unfoldable pub run : List Happening → Connection → Connection
  unfolding happens
  run [] c = c
  run (h ∷ hs) c = run hs (happens h c.phase c)

  -- Whether the queue can be opened, and what happens then.
  unfoldable pub handle_connection : Bool → List Happening → Connection
  handle_connection opened hs =
      if opened
      then run hs (turn start)
      else record start { phase = ended (err (custom_error (codes "redis init error"))) }
