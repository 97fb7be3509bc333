-- ===== src/Jobs/Dispatch/Rounds.antt =====
-- operator/runer/src/api/msg_handler.rs: the endless loop of `handle_dispatchjobs` over the queue
-- on Redis, one round after the other.
use mathlib.Core.List.{append_cancel_right}
use aos_operator.Shared.{
  ℕ, zero, suc, ◌<◌, ◌≤◌, ◌≡◌, refl, ap, ◌∙◌, Bool, true, false, inl, inr, List, [], ◌∷◌, ◌++◌, map,
  Outcome, ok, err, panic, drop, length, All, arith, Bool-cases,
}
use aos_operator.Shared.Text.{Text, codes, text_eq, text_eq_refl, eq_of_text_eq}
use aos_operator.Shared.Decimal.{to_string, to_string-injective}
use aos_operator.Queue.{
  RedisMessage, RedisQueueError, RedisStream, ms_id, consume, acknowledge_message,
}
use aos_operator.Queue.Fifo.{Fifo, front, remove}
use aos_operator.Queue.Refinement.{Holds, consume-front, acknowledge_first, entry_of}
use aos_operator.Jobs.Dispatch.{Node, Environment, Handled, goes_on, died, handle_message}

-- How the commands of a round fare: whether XREAD, and whether XDEL, reaches Redis.
abbrev pub Links : Type 0
Links = Bool × Bool

-- The rounds that take a job off the queue.
abbrev pub cleared : List Links → ℕ
cleared [] = 0
cleared ((true, true) ∷ ls) = suc (cleared ls)
cleared ((true, false) ∷ ls) = cleared ls
cleared ((false, ack) ∷ ls) = cleared ls

-- The messages that the rounds handle: the first one that waits, again if it stays.
abbrev pub served : List Links → List (ℕ × Text) → List RedisMessage
served [] waiting = []
served ((true, true) ∷ ls) waiting = front waiting ++ served ls (drop 1 waiting)
served ((true, false) ∷ ls) waiting = front waiting ++ served ls waiting
served ((false, ack) ∷ ls) waiting = served ls waiting

abbrev pub Increasing : List (ℕ × Text) → Type 0
Increasing [] = Unit
Increasing ((ms, text) ∷ rest) = All (λ (later : ℕ × Text). ms < later.0) rest × Increasing rest

ms_id-injective : (m n : ℕ) → ms_id m ≡ ms_id n → m ≡ n
unfolding ms_id
ms_id-injective m n h =
    to_string-injective m n (append_cancel_right (to_string m) (to_string n) (codes "-0") h)

ms_id-ne : (m n : ℕ) → m < n → text_eq (ms_id m) (ms_id n) ≡ false
ms_id-ne m n h = elim (Bool-cases (text_eq (ms_id m) (ms_id n))) [
  | inl same ↦
      let e = ms_id-injective m n (eq_of_text_eq (ms_id m) (ms_id n) same) in absurd (omega arith)
  | inr other ↦ other
]

remove_later :
    (ms : ℕ) (rest : List (ℕ × Text))
    → All (λ (later : ℕ × Text). ms < later.0) rest
    → remove (ms_id ms) rest ≡ rest
unfolding remove
remove_later ms [] h = refl
remove_later ms ((n, text) ∷ rest) h =
    rw (ms_id-ne ms n h.0) (ap (λ t. (n, text) ∷ t) (remove_later ms rest h.1))

remove_first :
    (ms : ℕ) (text : Text) (rest : List (ℕ × Text))
    → Increasing ((ms, text) ∷ rest)
    → remove (ms_id ms) ((ms, text) ∷ rest) ≡ rest
unfolding remove
remove_first ms text rest h = rw (text_eq_refl (ms_id ms)) (remove_later ms rest h.0)

drop-nil : (n : ℕ) → drop {A = ℕ × Text} n [] ≡ []
drop-nil zero = refl
drop-nil (suc n) = refl

drop_all : (n : ℕ) (xs : List (ℕ × Text)) → length xs ≤ n → drop n xs ≡ []
drop_all zero [] h = refl
drop_all zero (x ∷ xs) h = absurd (omega arith)
drop_all (suc n) [] h = refl
drop_all (suc n) (x ∷ xs) h = drop_all n xs (omega arith)

module _ {Double Float Value : Type 0} (env : Environment Double Float Value) where
  abbrev pub handled_all : List RedisMessage → Node → Node
  handled_all [] node = node
  handled_all (m ∷ ms) node = handled_all ms (handle_message env m node).1

  -- No job kills the task.
  abbrev pub Survives : ℕ × Text → Type 0
  Survives (ms, text) =
      (node : Node)
      → (handle_message env (record { id = ms_id ms; data_text = text }) node).0 ≡ goes_on

module _ (redis : RedisStream) {Double Float Value : Type 0}
    (env : Environment Double Float Value) where
  open redis use {Stream}

  -- What a round works on: the stream, and what the loop has done.
  abbrev pub World : Type 0
  World = Stream × Node

  -- Where handling a message goes on, it has called `acknowledge` once, whose error is only logged.
  queue_acknowledged : Bool → Text → Handled × Node → Stream → Handled × World
  queue_acknowledged link id (goes_on, node) s =
      (goes_on, ((acknowledge_message redis link id s).1, node))
  queue_acknowledged link id (died, node) s = (died, (s, node))

  then_round : Handled × World → (World → Handled × World) → Handled × World
  then_round (goes_on, w) rest = rest w
  then_round (died, w) rest = (died, w)

  handle_consumed : Bool → List RedisMessage → World → Handled × World
  unfolding queue_acknowledged then_round
  handle_consumed link [] w = (goes_on, w)
  handle_consumed link (m ∷ ms) (s, node) =
      then_round (queue_acknowledged link m.id (handle_message env m node) s)
        (λ w. handle_consumed link ms w)

  consumed_handled : Bool → Outcome RedisQueueError (List RedisMessage) → World → Handled × World
  unfolding handle_consumed
  consumed_handled link (ok msgs) w = handle_consumed link msgs w
  consumed_handled link (err e) w = (goes_on, w)
  consumed_handled link panic w = (died, w)

  -- One round of the loop; after an error of `consume` it only sleeps.
  unfoldable pub round : Links → World → Handled × World
  unfolding consumed_handled
  round (read, ack) (s, node) = consumed_handled ack (consume redis read s) (s, node)

  unfoldable pub rounds : List Links → World → Handled × World
  unfolding then_round
  rounds [] w = (goes_on, w)
  rounds (l ∷ ls) w = then_round (round l w) (λ w'. rounds ls w')

  -- What `rounds` comes to.
  abbrev Served : List Links → World → Fifo → Handled × World → Type 0
  Served ls w q r =
      (r.0 ≡ goes_on)
      × Holds redis r.1.0 (record q { waiting = drop (cleared ls) q.waiting })
      × (r.1.1 ≡ handled_all env (served ls q.waiting) w.1)

  survived :
      (m : RedisMessage) (node : Node)
      → (handle_message env m node).0 ≡ goes_on
      → handle_message env m node ≡ (goes_on, (handle_message env m node).1)
  survived m node h = ap (λ t. (t, (handle_message env m node).1)) h

  round_empty :
      (ack : Bool) (s : Stream) (node : Node) (latest : ℕ)
      → Holds redis s (record { latest = latest; waiting = [] })
      → round (true, ack) (s, node) ≡ (goes_on, (s, node))
  unfolding round front
  round_empty ack s node latest h =
      rw (consume-front redis s (record { latest = latest; waiting = [] }) h) refl

  round_unread :
      (ack : Bool) (s : Stream) (node : Node) → round (false, ack) (s, node) ≡ (goes_on, (s, node))
  unfolding round consume
  round_unread ack s node = refl

  round_first :
      (ack : Bool) (s : Stream) (node : Node) (latest ms : ℕ) (text : Text) (rest : List (ℕ × Text))
      → Holds redis s (record { latest = latest; waiting = (ms, text) ∷ rest })
      → Survives env (ms, text)
      → round (true, ack) (s, node) ≡ (
        goes_on,
        (
          (acknowledge_message redis ack (ms_id ms) s).1,
          (handle_message env (record { id = ms_id ms; data_text = text }) node).1,
        ),
      )
  unfolding round front
  round_first ack s node latest ms text rest h survives =
      let m : RedisMessage = record { id = ms_id ms; data_text = text } in
      rw
        (
          consume-front redis s (record { latest = latest; waiting = (ms, text) ∷ rest }) h,
          survived m node (survives node),
        )
        refl

  pub rounds-Served :
      (ls : List Links) (s : Stream) (node : Node) (latest : ℕ) (waiting : List (ℕ × Text))
      → Holds redis s (record { latest = latest; waiting = waiting })
      → Increasing waiting
      → All (Survives env) waiting
      → Served ls (s, node) (record { latest = latest; waiting = waiting }) (rounds ls (s, node))
  unfolding rounds front acknowledge_message
  rounds-Served [] s node latest waiting h inc live = (refl, h, refl)
  rounds-Served ((false, ack) ∷ ls) s node latest waiting h inc live =
      rw (round_unread ack s node) (rounds-Served ls s node latest waiting h inc live)
  rounds-Served ((true, true) ∷ ls) s node latest [] h inc live =
      let ih = rounds-Served ls s node latest [] h inc live in
      rw (round_empty true s node latest h)
        (ih.0, (ih.1.0 ∙ ap (map entry_of) (drop-nil (cleared ls)), ih.1.1), ih.2)
  rounds-Served ((true, false) ∷ ls) s node latest [] h inc live =
      rw (round_empty false s node latest h) (rounds-Served ls s node latest [] h inc live)
  rounds-Served ((true, true) ∷ ls) s node latest ((ms, text) ∷ rest) h inc live =
      let m : RedisMessage = record { id = ms_id ms; data_text = text } in
      let left = acknowledge_first redis latest ms text rest s h in
      let left' : Holds redis (acknowledge_message redis true (ms_id ms) s).1
          (record { latest = latest; waiting = rest }) =
        rw (← remove_first ms text rest inc) left in
      rw (round_first true s node latest ms text rest h live.0) (
        rounds-Served ls (acknowledge_message redis true (ms_id ms) s).1
          (handle_message env m node).1 latest rest left' inc.1 live.1)
  rounds-Served ((true, false) ∷ ls) s node latest ((ms, text) ∷ rest) h inc live =
      let m : RedisMessage = record { id = ms_id ms; data_text = text } in
      rw (round_first false s node latest ms text rest h live.0)
        (rounds-Served ls s (handle_message env m node).1 latest ((ms, text) ∷ rest) h inc live)

  -- A queue whose jobs came at increasing times and do not kill the task is worked off: after as many
  -- rounds that read and acknowledge as there are jobs, among any rounds that fail, the stream is
  -- empty and the loop goes on. What it has done is the handling of the first waiting job in each
  -- round that reads: each job once, in order, and again where its acknowledgement failed.
  pub rounds_drain :
      (ls : List Links) (s : Stream) (node : Node) (q : Fifo)
      → Holds redis s q
      → Increasing q.waiting
      → All (Survives env) q.waiting
      → length q.waiting ≤ cleared ls
      → let r = rounds ls (s, node) in
        (r.0 ≡ goes_on)
        × (redis.entries r.1.0 ≡ [])
        × (r.1.1 ≡ handled_all env (served ls q.waiting) node)
  rounds_drain ls s node q h inc live enough =
      let run = rounds-Served ls s node q.latest q.waiting h inc live in
      (run.0, run.1.0 ∙ ap (map entry_of) (drop_all (cleared ls) q.waiting enough), run.2)
