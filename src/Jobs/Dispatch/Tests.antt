-- ===== src/Jobs/Dispatch/Tests.antt =====
-- The queue's loop and the tasks at concrete jobs.
use aos_operator.Shared.{
  ℕ, ◌<◌, ◌≡◌, refl, true, false, some, List, [], ◌∷◌, ◌++◌, ok, replicate, arith,
}
use aos_operator.Shared.Hex.{all_hexdigits}
use aos_operator.Config.{OperatorConfig}
use aos_operator.Config.Sample.{config_of}
use aos_operator.Vrf.Instance.{toy_hex}
use aos_operator.Shared.Text.{Text, codes, text_eq}
use aos_operator.Queue.Fifo.{Fifo}
use aos_operator.Queue.Instance.{toy_redis, ToyStream}
use aos_operator.Jobs.Tests.{environment, start}
use aos_operator.Jobs.Dispatch.{goes_on, handle_message, do_job, job_work}
use aos_operator.Jobs.Work.{
  job_answer, do_opml_job, poll, poll_from, poll_answer, opml_ready, result_clock, last_entry,
}
use aos_operator.Shared.Decimal.{parse_u32}
use aos_operator.Jobs.Dispatch.Rounds.{Links, rounds, rounds_drain, Survives, served, handled_all}
use aos_operator.Jobs.Dispatch.Connection.{Setup, prepare, failed_attempt}
use aos_operator.Jobs.Dispatch.Tasks.{
  Arrival, signal, request, listening, serving, Connection, Happening, connect_failed, connected,
  greeted, receiver_ends, worker_panics, has, without, turn, run, handle_connection,
}
use aos_operator.Jobs.Dispatch.Interleaving.{
  Move, arrives, works, Promise, promised, Keeps, moves, moves_keep,
}
use aos_operator.Jobs.Dispatch.Interleaving
use aos_operator.Jobs.Dispatch.Tasks.Reconnecting.{worker_ends, workers_side_by_side}

abbrev jobs : Fifo
jobs = record { latest = 18; waiting = (17, codes "bad") ∷ (18, codes "j") ∷ [] }

abbrev stream : ToyStream
stream = (18, (17, codes "bad") ∷ (18, codes "j") ∷ [])

bad-Survives : Survives environment (17, codes "bad")
unfolding handle_message text_eq
bad-Survives node = refl

job-Survives : Survives environment (18, codes "j")
unfolding handle_message text_eq do_job job_work job_answer do_opml_job poll poll_from poll_answer
    opml_ready result_clock last_entry parse_u32
job-Survives node = refl

-- A read that fails, and an acknowledgement that fails.
abbrev fates : List Links
fates = (false, true) ∷ (true, false) ∷ (true, true) ∷ (true, true) ∷ []

rounds_drain_example :
    let r = rounds toy_redis environment fates (stream, start) in
    (r.0 ≡ goes_on)
    × (toy_redis.entries r.1.0 ≡ [])
    × (r.1.1 ≡ handled_all environment (served fates jobs.waiting) start)
rounds_drain_example =
    rounds_drain toy_redis environment fates stream start jobs (refl, refl)
      ((omega arith, tt), (tt, tt)) (bad-Survives, (job-Survives, tt)) (omega arith)

abbrev job_at : ℕ → Text → Arrival
job_at ms id = record {
  received = request id (codes "dispatch_job");
  now = some ms;
  text = some (codes "j");
  link = true;
  responds = true;
}

abbrev arrivals : List Arrival
arrivals =
    record (job_at 1 []) { received = signal }
    ∷ job_at 18 (codes "lost")
    ∷ job_at 19 (codes "kept")
    ∷ []

abbrev config : OperatorConfig
config = config_of (codes "node") (replicate 64 b'b')

abbrev setup : Setup ℕ ℕ
setup = record { from_slice = λ bytes. some 1; socket_addr = λ t. some 2 }

-- After an attempt that failed, a connection is made and serves; its receiving task ends; the next
-- connection serves, and a task that is not there is said to panic.
abbrev before : List Happening
before = connect_failed ∷ connected ∷ greeted (ok tt) ∷ []

abbrev after : List Happening
after = connected ∷ greeted (ok tt) ∷ worker_panics 7 ∷ []

abbrev first_served : Connection
first_served = record {
  phase = serving;
  retry_count = 0;
  made = 1;
  receivers = 1 ∷ [];
  workers = 1 ∷ [];
}

abbrev second_served : Connection
second_served = record {
  phase = serving;
  retry_count = 0;
  made = 2;
  receivers = 2 ∷ [];
  workers = 2 ∷ 1 ∷ [];
}

first_run : handle_connection toy_hex setup config true before ≡ first_served
unfolding handle_connection run turn has failed_attempt prepare all_hexdigits
first_run = refl

second_run :
    handle_connection toy_hex setup config true (before ++ receiver_ends 1 ∷ after) ≡ second_served
unfolding handle_connection run turn has without failed_attempt prepare all_hexdigits
second_run = refl

first_stays : worker_ends 1 after ≡ false
unfolding worker_ends
first_stays = refl

workers_side_by_side_example :
    (has 1 second_served.workers ≡ true) × (has 2 second_served.workers ≡ true) × (1 < 2)
workers_side_by_side_example =
    workers_side_by_side toy_hex setup config before after first_served second_served first_run
      second_run refl first_stays refl

next-Survives : Survives environment (19, codes "j")
unfolding handle_message text_eq do_job job_work job_answer do_opml_job poll poll_from poll_answer
    opml_ready result_clock last_entry parse_u32
next-Survives node = refl

-- A job comes between two rounds, and one that is not later than the last.
abbrev mixed : List Move
mixed =
    works (true, true)
    ∷ arrives (job_at 19 (codes "kept"))
    ∷ works (true, false)
    ∷ arrives (job_at 18 (codes "lost"))
    ∷ works (true, true)
    ∷ []

abbrev both : Interleaving.Tasks toy_redis environment
both = record {
  stream = stream;
  node = start;
  answered_ids = [];
  receiver = listening;
  worker = goes_on;
}

abbrev at_first : Promise toy_redis environment
at_first = record { queue = jobs; done = start; answers = [] }

moves_keep_example :
    Keeps toy_redis environment
      (moves toy_redis environment mixed both)
      (promised toy_redis environment mixed at_first)
moves_keep_example =
    moves_keep toy_redis environment mixed both at_first
      (tt, (((refl, tt), next-Survives), (tt, (((refl, tt), job-Survives), (tt, tt)))))
      (
        (((omega arith, tt), (tt, tt)), (omega arith, (omega arith, tt))),
        (bad-Survives, (job-Survives, tt)),
      )
      (refl, refl, (refl, refl), refl, refl)
