-- ===== src/Jobs/Dispatch/Ordering.antt =====
-- The queue of jobs stays in order, whatever arrives.
use aos_operator.Shared.{
  ℕ, ◌≤◌, ◌<◌, Bool, true, false, Option, some, none, List, [], ◌∷◌, ◌++◌, drop, All, All-append,
  arith, ltb, ltb→lt, Bool-cases, inl, inr,
}
use aos_operator.Shared.Text.{Text, codes, text_eq}
use aos_operator.Queue.Fifo.{Fifo, push}
use aos_operator.Jobs.Dispatch.Rounds.{Increasing}
use aos_operator.Jobs.Dispatch.Tasks.{Received, signal, request, broken, Arrival}
use aos_operator.Jobs.Dispatch.Tasks.Receiving.{arrived, queued}

-- The jobs came at increasing times, none after `latest`.
abbrev pub Ordered : Fifo → Type 0
Ordered q = Increasing q.waiting × All (λ (job : ℕ × Text). job.0 ≤ q.latest) q.waiting

le_weaken :
    (n m : ℕ) (jobs : List (ℕ × Text))
    → n ≤ m
    → All (λ (job : ℕ × Text). job.0 ≤ n) jobs
    → All (λ (job : ℕ × Text). job.0 ≤ m) jobs
le_weaken n m [] le h = tt
le_weaken n m (job ∷ jobs) le h = (omega (arith, h.0), le_weaken n m jobs le h.1)

Increasing-append :
    (n ms : ℕ) (text : Text) (jobs : List (ℕ × Text))
    → n < ms
    → Increasing jobs
    → All (λ (job : ℕ × Text). job.0 ≤ n) jobs
    → Increasing (jobs ++ (ms, text) ∷ [])
Increasing-append n ms text [] lt inc le = (tt, tt)
Increasing-append n ms text ((m, t) ∷ jobs) lt inc le = (
  All-append (λ (later : ℕ × Text). m < later.0) jobs ((ms, text) ∷ []) inc.0
      (omega (arith, le.0), tt),
  Increasing-append n ms text jobs lt inc.1 le.1,
)

push-Ordered : (ms : ℕ) (text : Text) (q : Fifo) → Ordered q → Ordered (push ms text q).1
unfolding push
push-Ordered ms text q h = elim (Bool-cases (ltb q.latest ms)) [
  | inr early ↦ rw early h
  | inl later ↦
      let lt = ltb→lt q.latest ms later in
      rw later (
        Increasing-append q.latest ms text q.waiting lt h.0 h.1,
        All-append (λ (job : ℕ × Text). job.0 ≤ ms) q.waiting ((ms, text) ∷ [])
            (le_weaken q.latest ms q.waiting (omega arith) h.1) (omega arith, tt),
      )
]

push-All {κ} :
    (P : ℕ × Text → Type κ) (ms : ℕ) (text : Text) (q : Fifo)
    → All P q.waiting
    → P (ms, text)
    → All P (push ms text q).1.waiting
unfolding push
push-All P ms text q h p = elim (Bool-cases (ltb q.latest ms)) [
  | inr early ↦ rw early h
  | inl later ↦ rw later (All-append P q.waiting ((ms, text) ∷ []) h (p, tt))
]

-- The job of an arrival, if there is one, has the property.
abbrev pub JobIs {κ} : (ℕ × Text → Type κ) → Option ℕ → Option Text → Type κ
JobIs P none text = Unit
JobIs P (some ms) none = Unit
JobIs P (some ms) (some text) = P (ms, text)

-- A queue in order, of jobs with the property.
abbrev pub Good {κ} : (ℕ × Text → Type κ) → Fifo → Type κ
Good P q = Ordered q × All P q.waiting

queued-Good {κ} :
    (P : ℕ × Text → Type κ) (now : Option ℕ) (text : Option Text) (link : Bool) (q : Fifo)
    → JobIs P now text
    → Good P q
    → Good P (queued now text link q)
queued-Good P none text link q job h = h
queued-Good P (some ms) none link q job h = h
queued-Good P (some ms) (some text) false q job h = h
queued-Good P (some ms) (some text) true q job h =
    (push-Ordered ms text q h.0, push-All P ms text q h.1 job)

pub arrived-Good {κ} :
    (P : ℕ × Text → Type κ) (r : Received) (a : Arrival) (q : Fifo)
    → JobIs P a.now a.text
    → Good P q
    → Good P (arrived r a q)
arrived-Good P signal a q job h = h
arrived-Good P broken a q job h = h
arrived-Good P (request id method) a q job h =
    elim (Bool-cases (text_eq method (codes "dispatch_job"))) [
      | inl dispatched ↦ rw dispatched (queued-Good P a.now a.text a.link q job h)
      | inr other ↦ rw other h
    ]

pub drop_one-Good {κ} :
    (P : ℕ × Text → Type κ) (latest : ℕ) (waiting : List (ℕ × Text))
    → Good P (record { latest = latest; waiting = waiting })
    → Good P (record { latest = latest; waiting = drop 1 waiting })
drop_one-Good P latest [] h = h
drop_one-Good P latest (job ∷ jobs) h = ((h.0.0.1, h.0.1.1), h.1.1)
