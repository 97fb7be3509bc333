-- ===== src/Queue/Fifo.antt =====
-- The queue that a stream of Redis stands for: jobs with the milliseconds at which they came, the
-- oldest first.
use aos_operator.Shared.{
  ℕ, Bool, true, false, Option, none, some, List, [], ◌∷◌, ◌++◌, ltb, if◌then◌else◌,
}
use aos_operator.Shared.Text.{Text, text_eq}
use aos_operator.Queue.{RedisMessage, ms_id}

pub record Fifo : Type 0 where
  pub latest : ℕ
  pub waiting : List (ℕ × Text)

-- A job that does not come after all before it is refused.
unfoldable pub push : ℕ → Text → Fifo → Bool × Fifo
push ms text q =
    if ltb q.latest ms
    then (true, record { latest = ms; waiting = q.waiting ++ (ms, text) ∷ [] })
    else (false, q)

unfoldable pub front : List (ℕ × Text) → List RedisMessage
front [] = []
front ((ms, text) ∷ rest) = record { id = ms_id ms; data_text = text } ∷ []

unfoldable pub remove : Text → List (ℕ × Text) → List (ℕ × Text)
remove id [] = []
remove id ((ms, text) ∷ rest) =
    if text_eq id (ms_id ms) then remove id rest else (ms, text) ∷ remove id rest

-- The calls of a client; `link` tells whether the command reaches Redis.
pub data Call : Type 0 where
  produced : Bool → ℕ → Text → Call
  consumed : Bool → Call
  acknowledged_id : Bool → Text → Call

pub data Reply : Type 0 where
  done failed : Reply
  messages : List RedisMessage → Reply

abbrev pub pushed : Bool × Fifo → Reply × Fifo
pushed (true, q) = (done, q)
pushed (false, q) = (failed, q)

-- What an id removes, in full, if it is one.
unfoldable pub removed : Option Text → Fifo → Reply × Fifo
removed none q = (failed, q)
removed (some id) q = (done, record q { waiting = remove id q.waiting })

-- `canonical` tells which id a text names, if it is not malformed.
unfoldable pub call : (Text → Option Text) → Call → Fifo → Reply × Fifo
call canonical (produced true ms text) q = pushed (push ms text q)
call canonical (produced false ms text) q = (failed, q)
call canonical (consumed true) q = (messages (front q.waiting), q)
call canonical (consumed false) q = (failed, q)
call canonical (acknowledged_id true id) q = removed (canonical id) q
call canonical (acknowledged_id false id) q = (failed, q)

unfoldable pub calls : (Text → Option Text) → List Call → Fifo → List Reply × Fifo
calls canonical [] q = ([], q)
calls canonical (c ∷ cs) q =
    let (r, q') = call canonical c q in let (rs, q'') = calls canonical cs q' in (r ∷ rs, q'')
