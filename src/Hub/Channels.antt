-- ===== src/Hub/Channels.antt =====
-- The channels of operator/verify_hub: an `mpsc::channel(1)` for each question that waits, its
-- sender in a map under the request's id. Questions to TEE workers and to OPML servers both use
-- them.
pub mod Routing
pub mod Ownership
use aos_operator.Shared.{ℕ, suc, Bool, true, false, Option, none, some, [], ◌==◌, if◌then◌else◌}
use aos_operator.Shared.Text.{Text}
use aos_operator.Shared.TextMap.{TextMap, get, insert, remove}

-- A channel for one answer, and the variables of the handler that holds its receiver.
pub record Channel (Answer : Type 0) : Type 0 where
  pub request_id : Text
  pub queue : Option Answer
  pub has_sender : Bool
  pub has_receiver : Bool

-- The map of senders, which are the numbers of their channels.
pub record Channels (Answer : Type 0) : Type 0 where
  pub senders : TextMap ℕ
  pub channel : ℕ → Channel Answer
  pub made : ℕ

-- What `tx.send(answer).await` does: a full channel blocks the callback, which holds the lock of
-- the server.
pub data Sending : Type 0 where
  no_channel sent receiver_gone blocked : Sending

-- What the handler's `timeout(600 s, rx.recv())` gives.
pub data Received (Answer : Type 0) : Type 0 where
  pending : Received Answer
  answered : Answer → Received Answer
  closed elapsed : Received Answer

module _ {Answer : Type 0} where
  abbrev no_one : Channel Answer
  no_one = record { request_id = []; queue = none; has_sender = false; has_receiver = false }

  unfoldable pub empty : Channels Answer
  empty = record { senders = []; channel = λ _. no_one; made = 0 }

  abbrev pub set : ℕ → Channel Answer → (ℕ → Channel Answer) → ℕ → Channel Answer
  set h c channel j = if j == h then c else channel j

  abbrev pub without_sender : Channel Answer → Channel Answer
  without_sender c = record c { has_sender = false }

  -- A sender that the map no longer holds is dropped.
  unfoldable pub drop_sender : Option ℕ → (ℕ → Channel Answer) → ℕ → Channel Answer
  drop_sender none channel = channel
  drop_sender (some h) channel = set h (without_sender (channel h)) channel

  -- `mpsc::channel(1)` and `insert(request_id, tx)`
  unfoldable pub register : Text → Channels Answer → Channels Answer
  register id st = record {
    senders = insert id st.made st.senders;
    channel =
        set st.made
          (record { request_id = id; queue = none; has_sender = true; has_receiver = true })
          (drop_sender (get id st.senders) st.channel);
    made = suc st.made;
  }

  -- `send` on a channel of one place
  unfoldable pub sending : Channel Answer → Sending
  sending c =
      if c.has_receiver then (elim c.queue [ none ↦ sent | some _ ↦ blocked ]) else receiver_gone

  pub queued : Sending → Answer → Channel Answer → Channel Answer
  queued sent a c = record c { queue = some a }
  queued no_channel a c = c
  queued receiver_gone a c = c
  queued blocked a c = c

  pub send_to : Option ℕ → Answer → Channels Answer → Sending × Channels Answer
  unfolding queued
  send_to none a st = (no_channel, st)
  send_to (some h) a st =
      let c = st.channel h in
      (sending c, record st { channel = set h (queued (sending c) a c) st.channel })

  -- A callback with an answer for the request `id`.
  unfoldable pub callback : Text → Answer → Channels Answer → Sending × Channels Answer
  unfolding send_to
  callback id a st = send_to (get id st.senders) a st

  -- The receiver's side: what is queued comes first, then the loss of the sender, then the timer.
  unfoldable pub receive : Bool → Channel Answer → Received Answer
  receive late c = elim c.queue [
    | some a ↦ answered a
    | none ↦ if c.has_sender then (if late then elapsed else pending) else closed
  ]

  -- The handler ends, and its receiver with it.
  unfoldable pub drop_receiver : ℕ → Channels Answer → Channels Answer
  drop_receiver h st = record st {
    channel = set h (record (st.channel h) { queue = none; has_receiver = false }) st.channel;
  }

  -- `remove(&request_id)`
  unfoldable pub unregister : Text → Channels Answer → Channels Answer
  unregister id st = record st {
    senders = remove id st.senders;
    channel = drop_sender (get id st.senders) st.channel;
  }
