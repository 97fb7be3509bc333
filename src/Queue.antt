-- ===== src/Queue.antt =====
-- operator/runer/src/queue/msg_queue.rs: the queue of jobs, on a stream of Redis.
pub mod Fifo
pub mod Refinement
pub mod Instance
mod Tests
use aos_operator.Shared.{
  ℕ, ◌+◌, ◌<◌, ◌≤◌, ◌≡◌, Bool, true, false, Option, none, some, List, [], ◌∷◌, ◌++◌, Outcome, ok,
  err, ◌>>=◌, ok_or, if◌then◌else◌, take, All,
}
use aos_operator.Shared.Text.{Text, codes, text_eq}
use aos_operator.Shared.Decimal.{to_string}

pub record RedisMessage : Type 0 where
  pub id : Text
  pub data_text : Text

pub data RedisQueueError : Type 0 where
  redis_error json_error time_error : RedisQueueError

-- An entry of a stream: its id, and its field `data`, if it has one.
pub record Entry : Type 0 where
  pub entry_id : Text
  pub data_field : Option Text

-- The id of the first entry of a millisecond.
unfoldable pub ms_id : ℕ → Text
ms_id ms = to_string ms ++ codes "-0"

-- The entries that another id than `id` names.
abbrev pub without : Text → List Entry → List Entry
without id [] = []
without id (e ∷ es) = if text_eq id e.entry_id then without id es else e ∷ without id es

-- What is used of a Redis stream: XADD with an id, XREAD with a count from 0 on, and XDEL.
pub record RedisStream : Type 1 where
  pub Stream : Type 0
  pub entries : Stream → List Entry
  -- The milliseconds of the greatest id that the stream has ever had.
  pub last_ms : Stream → ℕ
  pub xadd : Text → Text → Stream → Option Stream
  pub xread : ℕ → Stream → List Entry
  pub xdel : Text → Stream → Option Stream
  -- The id that a text names, as XREAD writes it, unless the text is malformed.
  pub canonical : Text → Option Text
  pub entries-canonical :
      (s : Stream) → All (λ (e : Entry). canonical e.entry_id ≡ some e.entry_id) (entries s)
  -- An id has to be greater than all before it.
  pub xadd_later :
      (ms : ℕ) (text : Text) (s : Stream)
      → last_ms s < ms
      → (s' : Stream) × (xadd (ms_id ms) text s ≡ some s')
        × (entries s' ≡ entries s ++ record { entry_id = ms_id ms; data_field = some text } ∷ [])
        × (last_ms s' ≡ ms)
  pub xadd_refused :
      (ms : ℕ) (text : Text) (s : Stream) → ms ≤ last_ms s → xadd (ms_id ms) text s ≡ none
  pub xread_lem : (n : ℕ) (s : Stream) → xread n s ≡ take n (entries s)
  pub xdel_lem :
      (id full : Text) (s : Stream)
      → canonical id ≡ some full
      → (s' : Stream) × (xdel id s ≡ some s')
        × (entries s' ≡ without full (entries s))
        × (last_ms s' ≡ last_ms s)
  pub xdel_refused : (id : Text) (s : Stream) → canonical id ≡ none → xdel id s ≡ none

-- `RedisMessage::new`, given the milliseconds since 1970, unless the clock is before that, and the
-- data as JSON, unless that fails.
unfoldable pub new_message : Option ℕ → Option Text → Outcome RedisQueueError RedisMessage
new_message now text = do
  ms ← ok_or now time_error
  data_text ← ok_or text json_error
  ok (record { id = ms_id ms; data_text = data_text })

-- The closure of `filter_map` in `consume`.
unfoldable pub messages_of : List Entry → List RedisMessage
messages_of [] = []
messages_of (e ∷ es) =
    let rest = messages_of es in
    elim e.data_field [
      | none ↦ rest
      | some text ↦ record { id = e.entry_id; data_text = text } ∷ rest
    ]

module _ (redis : RedisStream) where
  open redis use {Stream, xadd, xread, xdel}

  -- What a command that may fail comes to.
  added : Option Stream → Stream → Outcome RedisQueueError (Unit {0}) × Stream
  added none s = (err redis_error, s)
  added (some s') s = (ok tt, s')

  -- `produce`; a command that does not reach Redis (`link` is false) fails and does nothing.
  unfoldable pub produce :
      Bool → RedisMessage → Stream → Outcome RedisQueueError (Unit {0}) × Stream
  unfolding added
  produce link message s =
      if link then added (xadd message.id message.data_text s) s else (err redis_error, s)

  -- `consume`, of at most one entry; it leaves the stream alone
  unfoldable pub consume : Bool → Stream → Outcome RedisQueueError (List RedisMessage)
  consume link s = if link then ok (messages_of (xread 1 s)) else err redis_error

  -- `acknowledge`
  unfoldable pub acknowledge_message :
      Bool → Text → Stream → Outcome RedisQueueError (Unit {0}) × Stream
  unfolding added
  acknowledge_message link message_id s =
      if link then added (xdel message_id s) s else (err redis_error, s)
