-- ===== src/Websocket/Core.antt =====
-- crates/websocket/src/lib.rs: the state of a connection, and its operations.
pub mod Delivery
pub mod Invariant
pub mod RoundTrip
pub mod Settled
pub mod Unverified
use aos_operator.Shared.{
  ℕ, suc, Bool, true, false, Option, none, some, List, [], ◌∷◌, Outcome, ok, err, panic, ◌>>=◌,
  ◌==◌, if◌then◌else◌,
}
use aos_operator.Shared.Text.{Text}
use aos_operator.Shared.TextMap.{TextMap, get, insert, remove}
use aos_operator.Websocket.{
  WsError, json_error, tungstenite_error, elapsed_error, channel_error, websocket_closed,
  receiver_closed, received_close_frame, unexpected_raw_frame, connection_closed, WireMessage,
  WireCrates, Frame, text, binary, ping, pong, close_frame, raw_frame, broken, ReceiveMessage,
  request, try_from_bytes, request_message, response_message, received_request, issued_id,
}

-- What a caller finds in its `oneshot` channel.
pub data Slot (Value : Type 0) : Type 0 where
  waiting : Slot Value
  delivered : Value → Slot Value
  refused : WsError → Slot Value
  sender_dropped : Slot Value

-- `WsCoreSync`. The channels are numbered in the order in which they are made, and a sender in
-- the callback map is the number of its channel. The id counter is one for the whole process.
pub record State (Value : Type 0) : Type 0 where
  pub is_open : Bool
  pub callback : TextMap ℕ
  pub slots : ℕ → Slot Value
  pub channels : ℕ
  pub issued : ℕ
  pub sent : List Frame

-- How an awaited `send` ends.
pub data SendResult : Type 0 where
  done failed timed_out : SendResult

module _ {Value : Type 0} where
  abbrev pub set_slot : ℕ → Slot Value → (ℕ → Slot Value) → ℕ → Slot Value
  set_slot h s slots j = if j == h then s else slots j

  -- A sender that is dropped without a value.
  unfoldable pub drop_sender : Option ℕ → (ℕ → Slot Value) → ℕ → Slot Value
  drop_sender none slots = slots
  drop_sender (some h) slots = set_slot h sender_dropped slots

  -- `split`, in a process that has issued some ids
  unfoldable pub split : ℕ → State Value
  split issued = record {
    is_open = true;
    callback = [];
    slots = λ _. sender_dropped;
    channels = 0;
    issued = issued;
    sent = [];
  }

  -- `CallbackMap::insert` of the sender of a new channel
  unfoldable pub insert_callback : Text → State Value → State Value
  insert_callback id st = record st {
    callback = insert id st.channels st.callback;
    slots = set_slot st.channels waiting (drop_sender (get id st.callback) st.slots);
    channels = suc st.channels;
  }

  -- `Drop for D`
  unfoldable pub drop_callback : Text → State Value → State Value
  drop_callback id st = record st {
    callback = remove id st.callback;
    slots = drop_sender (get id st.callback) st.slots;
  }

  -- The loop over `drain()` in `CallbackMap::close`
  unfoldable pub drain : TextMap ℕ → (ℕ → Slot Value) → ℕ → Slot Value
  drain [] slots = slots
  drain ((id, h) ∷ m) slots = drain m (set_slot h (refused connection_closed) slots)

  -- `WsCoreSync::close`
  unfoldable pub close : State Value → State Value
  close st =
      if st.is_open
      then record st { is_open = false; callback = []; slots = drain st.callback st.slots }
      else st

  -- `close_if_err`, on the result of an operation and the state that it left
  unfoldable pub close_if_err :
      {R : Type 0} → Outcome WsError R × State Value → Outcome WsError R × State Value
  close_if_err (ok r, st) = (ok r, st)
  close_if_err (err e, st) = (err e, close st)
  close_if_err (panic, st) = (panic, st)

  -- `WsCoreSync::exec`
  unfoldable pub exec :
      {R : Type 0}
      → (State Value → Outcome WsError R × State Value)
      → State Value
      → Outcome WsError R × State Value
  exec c st = if st.is_open then close_if_err (c st) else (err websocket_closed, st)

  -- `send(frame).await?` inside a `timeout`
  unfoldable pub send : Frame → SendResult → State Value → Outcome WsError (Unit {0}) × State Value
  send frame done st = (ok tt, record st { sent = frame ∷ st.sent })
  send frame failed st = (err tungstenite_error, st)
  send frame timed_out st = (err elapsed_error, st)

  -- The last lines of `request_timeout`: what the caller gets of its channel `h` when it stops
  -- waiting, at the time-out if nothing came; the drop helper then runs.
  unfoldable pub response : Slot Value → Outcome WsError Value
  response waiting = err elapsed_error
  response (delivered v) = ok v
  response (refused e) = err e
  response sender_dropped = err channel_error

  unfoldable pub finish_request : Text → ℕ → State Value → Outcome WsError Value × State Value
  finish_request id h st = (response (st.slots h), drop_callback id st)

  -- The sender is used if the message has a result, and dropped otherwise.
  unfoldable pub answer : ℕ → Option Value → (ℕ → Slot Value) → ℕ → Slot Value
  answer h none slots = set_slot h sender_dropped slots
  answer h (some data') slots = set_slot h (delivered data') slots

  unfoldable pub deliver_to : Option ℕ → WireMessage Value → State Value → State Value
  deliver_to none recvd st = st
  deliver_to (some h) recvd st = record st {
    callback = remove recvd.id st.callback;
    slots = answer h recvd.result st.slots;
  }

  -- What `recv_inner` does with a message without a method.
  unfoldable pub deliver : WireMessage Value → State Value → State Value
  unfolding deliver_to
  deliver recvd st = deliver_to (get recvd.id st.callback) recvd st

module _ {Value : Type 0} (crates : WireCrates Value) (signer : crates.signing.Key) where
  -- `request_timeout` up to the registration of the callback, for an open connection: the message
  -- and the channel.
  registered :
      Text → Outcome WsError Text → State Value → Outcome WsError (Text × Text × ℕ) × State Value
  registered id (ok s) st = (ok (s, id, st.channels), insert_callback id st)
  registered id (err e) st = (err e, st)
  registered id panic st = (panic, st)

  unfoldable pub begin_request :
      Text → Value → State Value → Outcome WsError (Text × Text × ℕ) × State Value
  unfolding registered
  begin_request f s st =
      if st.is_open
      then (let id = issued_id st.issued in
          registered id (request_message crates id f s signer)
            (record st { issued = suc st.issued }))
      else (err websocket_closed, st)

  -- The message is sent; on an error the drop helper runs, and the connection is closed.
  dropped_if_err :
      Text → Outcome WsError (Unit {0}) × State Value → Outcome WsError (Unit {0}) × State Value
  dropped_if_err id (ok r, st) = (ok r, st)
  dropped_if_err id (err e, st) = (err e, drop_callback id st)
  dropped_if_err id (panic, st) = (panic, st)

  unfoldable pub send_request :
      Text → Text → SendResult → State Value → Outcome WsError (Unit {0}) × State Value
  unfolding dropped_if_err
  send_request s id r st = close_if_err (dropped_if_err id (send (text s) r st))

  -- `WebsocketRespond::respond`
  send_outcome :
      Outcome WsError Text → SendResult → State Value → Outcome WsError (Unit {0}) × State Value
  send_outcome (ok s) r st = send (text s) r st
  send_outcome (err e) r st = (err e, st)
  send_outcome panic r st = (panic, st)

  unfoldable pub respond :
      Text → Value → SendResult → State Value → Outcome WsError (Unit {0}) × State Value
  unfolding send_outcome
  respond id s r st = exec (send_outcome (response_message crates id s signer) r) st

  -- The message of a text or binary frame.
  with_request :
      Outcome WsError (ReceiveMessage Value)
      → State Value
      → Outcome WsError (Option (ReceiveMessage Value)) × State Value
  with_request r st = (r >>= λ m. ok (some m), st)

  read_message :
      Option Text
      → WireMessage Value
      → State Value
      → Outcome WsError (Option (ReceiveMessage Value)) × State Value
  unfolding with_request
  read_message none recvd st = (ok none, deliver recvd st)
  read_message (some meth) recvd st = with_request (received_request crates recvd meth) st

  received :
      Outcome WsError (WireMessage Value)
      → State Value
      → Outcome WsError (Option (ReceiveMessage Value)) × State Value
  unfolding read_message
  received (ok recvd) st = read_message recvd.method recvd st
  received (err e) st = (err e, st)
  received panic st = (panic, st)

  ponged :
      Outcome WsError (Unit {0}) × State Value
      → Outcome WsError (Option (ReceiveMessage Value)) × State Value
  ponged (r, st) = (r >>= λ _. ok none, st)

  -- One turn of the loop of `recv_inner`, inside `exec`; the answer to a ping is not on a timer.
  unfoldable pub recv_frame :
      SendResult
      → Frame
      → State Value
      → Outcome WsError (Option (ReceiveMessage Value)) × State Value
  unfolding received ponged
  recv_frame r (text s) st = received (try_from_bytes crates s) st
  recv_frame r (binary b) st = received (try_from_bytes crates b) st
  recv_frame r (ping b) st = ponged (send (pong b) r st)
  recv_frame r (pong b) st = (ok none, st)
  recv_frame r close_frame st = (err received_close_frame, st)
  recv_frame r raw_frame st = (err unexpected_raw_frame, st)
  recv_frame r broken st = (err tungstenite_error, st)

  recv_next :
      Outcome WsError (Option (ReceiveMessage Value)) × State Value
      → (State Value → Outcome WsError (ReceiveMessage Value) × State Value)
      → Outcome WsError (ReceiveMessage Value) × State Value
  recv_next (ok (some m), st) again = (ok m, st)
  recv_next (ok none, st) again = again st
  recv_next (err e, st) again = (err e, st)
  recv_next (panic, st) again = (panic, st)

  -- `recv_inner`, on the frames that are still to come; the end of the stream is an error.
  unfoldable pub recv_inner :
      List (SendResult × Frame) → State Value → Outcome WsError (ReceiveMessage Value) × State Value
  unfolding recv_next
  recv_inner [] st = exec (λ st. (err receiver_closed, st)) st
  recv_inner ((r, frame) ∷ frames) st =
      recv_next (exec (recv_frame r frame) st) (λ st'. recv_inner frames st')
