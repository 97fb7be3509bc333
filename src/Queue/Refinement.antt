-- ===== src/Queue/Refinement.antt =====
-- The queue on Redis against the queue that it stands for.
use mathlib.Core.Path.{subst}
use aos_operator.Shared.{
  ℕ, ◌≡◌, refl, ap, ap₂, ◌∙◌, Bool, true, false, inl, inr, some, List, [], ◌∷◌, ◌++◌, map, Outcome,
  ok, err, panic, ltb, ltb→lt, take, arith, Bool-cases, Option-cases, All,
}
use aos_operator.Shared.Text.{Text, text_eq}
use aos_operator.Queue.{
  RedisMessage, RedisQueueError, Entry, RedisStream, ms_id, without, messages_of, added, produce,
  consume, acknowledge_message,
}
use aos_operator.Queue.Fifo.{
  Fifo, Call, produced, consumed, acknowledged_id, Reply, done, failed, messages, push, pushed,
  front, remove, removed, call, calls,
}

abbrev pub entry_of : ℕ × Text → Entry
entry_of (ms, text) = record { entry_id = ms_id ms; data_field = some text }

pub map-append_one :
    (xs : List (ℕ × Text)) (x : ℕ × Text)
    → map entry_of xs ++ entry_of x ∷ [] ≡ map entry_of (xs ++ x ∷ [])
map-append_one [] x = refl
map-append_one (y ∷ ys) x = ap (λ t. entry_of y ∷ t) (map-append_one ys x)

pub without-map :
    (id : Text) (xs : List (ℕ × Text)) → without id (map entry_of xs) ≡ map entry_of (remove id xs)
unfolding remove
without-map id [] = refl
without-map id ((ms, text) ∷ xs) = elim (Bool-cases (text_eq id (ms_id ms))) [
  | inl same ↦ rw same (without-map id xs)
  | inr other ↦ rw other (ap (λ t. entry_of (ms, text) ∷ t) (without-map id xs))
]

module _ (redis : RedisStream) where
  open redis use {Stream, entries, last_ms}

  -- The stream holds the jobs of the queue.
  abbrev pub Holds : Stream → Fifo → Type 0
  Holds s q = (entries s ≡ map entry_of q.waiting) × (last_ms s ≡ q.latest)

  abbrev replied : Outcome RedisQueueError (Unit {0}) × Stream → Reply × Stream
  replied (ok u, s) = (done, s)
  replied (err e, s) = (failed, s)
  replied (panic, s) = (failed, s)

  abbrev read : Outcome RedisQueueError (List RedisMessage) → Reply
  read (ok ms) = messages ms
  read (err e) = failed
  read panic = failed

  -- A call of the code, with its reply.
  unfoldable pub queue_call : Call → Stream → Reply × Stream
  queue_call (produced link ms text) s =
      replied (produce redis link (record { id = ms_id ms; data_text = text }) s)
  queue_call (consumed link) s = (read (consume redis link s), s)
  queue_call (acknowledged_id link id) s = replied (acknowledge_message redis link id s)

  unfoldable pub queue_calls : List Call → Stream → List Reply × Stream
  queue_calls [] s = ([], s)
  queue_calls (c ∷ cs) s =
      let (r, s') = queue_call c s in let (rs, s'') = queue_calls cs s' in (r ∷ rs, s'')

  messages-front : (xs : List (ℕ × Text)) → messages_of (take 1 (map entry_of xs)) ≡ front xs
  unfolding messages_of front
  messages-front [] = refl
  messages-front ((ms, text) ∷ xs) = refl

  abbrev Agrees : Reply × Stream → Reply × Fifo → Type 0
  Agrees (r, s) (r', q) = (r ≡ r') × Holds s q

  pub produce_refines :
      (ms : ℕ) (text : Text) (s : Stream) (q : Fifo)
      → Holds s q
      → Agrees
          (queue_call (produced true ms text) s)
          (call redis.canonical (produced true ms text) q)
  unfolding queue_call call produce added push
  produce_refines ms text s q h = elim (Bool-cases (ltb q.latest ms)) [
    | inl later ↦
        let (s', added, es, l) = redis.xadd_later ms text s (rw h.1 (ltb→lt q.latest ms later)) in
        rw (later, added)
          (
            refl,
            (
              es
                  ∙ ap (λ t. t ++ entry_of (ms, text) ∷ []) h.0
                  ∙ map-append_one q.waiting (ms, text),
              l,
            ),
          )
    | inr early ↦
        let refused = redis.xadd_refused ms text s (rw h.1 (ground arith)) in
        rw (early, refused) (refl, h)
  ]

  replied-stream : (r : Outcome RedisQueueError (Unit {0}) × Stream) → (replied r).1 ≡ r.1
  replied-stream (ok u, s) = refl
  replied-stream (err e, s) = refl
  replied-stream (panic, s) = refl

  pushed-fifo : (r : Bool × Fifo) → (pushed r).1 ≡ r.1
  pushed-fifo (true, q) = refl
  pushed-fifo (false, q) = refl

  pub produce-Holds :
      (ms : ℕ) (text : Text) (s : Stream) (q : Fifo)
      → Holds s q
      → Holds
          (produce redis true (record { id = ms_id ms; data_text = text }) s).1
          (push ms text q).1
  unfolding queue_call call
  produce-Holds ms text s q h =
      rw
        (
          ← replied-stream (produce redis true (record { id = ms_id ms; data_text = text }) s),
          ← pushed-fifo (push ms text q),
        )
        (produce_refines ms text s q h).1

  pub consume-front :
      (s : Stream) (q : Fifo) → Holds s q → consume redis true s ≡ ok (front q.waiting)
  unfolding consume
  consume-front s q h =
      ap ok (ap messages_of (redis.xread_lem 1 s ∙ ap (take 1) h.0) ∙ messages-front q.waiting)

  pub acknowledge_refines :
      (id : Text) (s : Stream) (q : Fifo)
      → Holds s q
      → Agrees
          (queue_call (acknowledged_id true id) s)
          (call redis.canonical (acknowledged_id true id) q)
  unfolding queue_call call acknowledge_message added removed
  acknowledge_refines id s q h = elim (Option-cases (redis.canonical id)) [
    | inl malformed ↦ rw (malformed, redis.xdel_refused id s malformed) (refl, h)
    | inr (full, named) ↦
        let (s', deleted, es, l) = redis.xdel_lem id full s named in
        rw (named, deleted)
          (refl, (es ∙ ap (without full) h.0 ∙ without-map full q.waiting, l ∙ h.1))
  ]

  -- The id of the first job is one that the stream wrote.
  first-canonical :
      (ms : ℕ) (text : Text) (rest : List (ℕ × Text)) (s : Stream)
      → entries s ≡ map entry_of ((ms, text) ∷ rest)
      → redis.canonical (ms_id ms) ≡ some (ms_id ms)
  first-canonical ms text rest s h =
      (subst (λ es. All (λ (e : Entry). redis.canonical e.entry_id ≡ some e.entry_id) es) h
        (redis.entries-canonical s)).0

  pub acknowledge_first :
      (latest ms : ℕ) (text : Text) (rest : List (ℕ × Text)) (s : Stream)
      → Holds s (record { latest = latest; waiting = (ms, text) ∷ rest })
      → Holds
          (acknowledge_message redis true (ms_id ms) s).1
          (record { latest = latest; waiting = remove (ms_id ms) ((ms, text) ∷ rest) })
  unfolding acknowledge_message added
  acknowledge_first latest ms text rest s h =
      let named = first-canonical ms text rest s h.0 in
      let (s', deleted, es, l) = redis.xdel_lem (ms_id ms) (ms_id ms) s named in
      rw deleted
        (es ∙ ap (without (ms_id ms)) h.0 ∙ without-map (ms_id ms) ((ms, text) ∷ rest), l ∙ h.1)

  pub call_refines :
      (c : Call) (s : Stream) (q : Fifo)
      → Holds s q
      → Agrees (queue_call c s) (call redis.canonical c q)
  unfolding queue_call call produce consume acknowledge_message
  call_refines (produced true ms text) s q h = produce_refines ms text s q h
  call_refines (produced false ms text) s q h = (refl, h)
  call_refines (consumed true) s q h = (ap read (consume-front s q h), h)
  call_refines (consumed false) s q h = (refl, h)
  call_refines (acknowledged_id true id) s q h = acknowledge_refines id s q h
  call_refines (acknowledged_id false id) s q h = (refl, h)

  -- No sequence of `produce`, `consume` and `acknowledge`, commands that fail included, tells the
  -- queue on a Redis stream from a queue that keeps the jobs in the order of their milliseconds,
  -- shows its first job until that is removed by its id, refuses a job that is not later than all
  -- before it, and fails on an id that is malformed: the replies are the same, and the stream holds
  -- the jobs of the queue again.
  pub queue_calls_refine :
      (cs : List Call) (s : Stream) (q : Fifo)
      → Holds s q
      → ((queue_calls cs s).0 ≡ (calls redis.canonical cs q).0)
        × Holds (queue_calls cs s).1 (calls redis.canonical cs q).1
  unfolding queue_calls calls
  queue_calls_refine [] s q h = (refl, h)
  queue_calls_refine (c ∷ cs) s q h =
      let one = call_refines c s q h in
      let rest = queue_calls_refine cs (queue_call c s).1 (call redis.canonical c q).1 one.1 in
      (ap₂ ◌∷◌ one.0 rest.0, rest.1)
