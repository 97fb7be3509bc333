-- ===== src/Websocket/Core/Settled.antt =====
-- The steps of a connection as a relation: its invariant holds throughout, and what a caller
-- finds in its channel never changes again.
use mathlib.Core.Path.{subst}
use aos_operator.Shared.{
  ℕ, suc, ◌<◌, ◌≡◌, ◌≢◌, refl, sym, true, Option, none, some, List, ◌∷◌, Outcome, ok, err, panic,
  if-true, if-false, Bool-cases, inl, inr,
}
use aos_operator.Shared.Text.{Text}
use aos_operator.Websocket.{
  WsError, WireMessage, WireCrates, Frame, text, binary, ping, pong, close_frame, raw_frame, broken,
  try_from_bytes, issued_id,
}
use aos_operator.Websocket.Core.{
  waiting, State, SendResult, done, failed, timed_out, split, exec, close_if_err, recv_frame,
  received, read_message, with_request, ponged, begin_request, registered, send_request,
  dropped_if_err, respond, send_outcome, finish_request, send,
}
use aos_operator.Websocket.Core.Invariant.{
  Inv, Good, refl-Good, trans-Good, deliver-Good, drop_callback-Good, close-Good,
  insert_callback-Good, Unique,
}
use aos_operator.Websocket.Core.Delivery.{held}

module _ {Value : Type 0} where
  sent-Good :
      (st : State Value) (frames : List Frame) → Inv st → Good st (record st { sent = frames })
  sent-Good st frames i = (
    record { waits = i.waits; unique = i.unique; closed = i.closed },
    record { grows = λ h x. x; settled = λ h x y. refl },
  )

  issued-Good : (st : State Value) (n : ℕ) → Inv st → Good st (record st { issued = n })
  issued-Good st n i = (
    record { waits = i.waits; unique = i.unique; closed = i.closed },
    record { grows = λ h x. x; settled = λ h x y. refl },
  )

  send-Good :
      (frame : Frame) (r : SendResult) (st : State Value) → Inv st → Good st (send frame r st).1
  unfolding send
  send-Good frame done st i = sent-Good st (frame ∷ st.sent) i
  send-Good frame failed st i = refl-Good st i
  send-Good frame timed_out st i = refl-Good st i

  transfer :
      {R : Type 0} {st : State Value} {p q : Outcome WsError R × State Value}
      → p ≡ q
      → Good st p.1
      → Good st q.1
  transfer {st = st} e g = subst (λ (x : Outcome WsError _ × State Value). Good st x.1) e g

  close_if_err-Good :
      {R : Type 0} (st : State Value) (p : Outcome WsError R × State Value)
      → Good st p.1
      → Good st (close_if_err p).1
  unfolding close_if_err
  close_if_err-Good st (ok r, st') g = g
  close_if_err-Good st (err e, st') g = trans-Good g (close-Good st' g.0)
  close_if_err-Good st (panic, st') g = g

  exec-Good :
      {R : Type 0} (c : State Value → Outcome WsError R × State Value) (st : State Value)
      → Inv st
      → Good st (c st).1
      → Good st (exec c st).1
  unfolding exec
  exec-Good c st i g = elim (Bool-cases st.is_open) [
    | inl e ↦ transfer (sym (if-true _ _ e)) (close_if_err-Good st (c st) g)
    | inr e ↦ transfer (sym (if-false _ _ e)) (refl-Good st i)
  ]

-- What can happen on a connection: a call's part that runs at once, or an id issued elsewhere in
-- the process.
pub data Event (Value : Type 0) : Type 0 where
  begins : Text → Value → Event Value
  sends : Text → Text → SendResult → Event Value
  finishes : Text → ℕ → Event Value
  responds : Text → Value → SendResult → Event Value
  receives : SendResult → Frame → Event Value
  elsewhere : Event Value

module _ {Value : Type 0} (crates : WireCrates Value) (signer : crates.signing.Key) where
  unfoldable pub step : Event Value → State Value → State Value
  step (begins f s) st = (begin_request crates signer f s st).1
  step (sends s id r) st = (send_request crates signer s id r st).1
  step (finishes id h) st = (finish_request id h st).1
  step (responds id s r) st = (respond crates signer id s r st).1
  step (receives r frame) st = (exec (recv_frame crates signer r frame) st).1
  step elsewhere st = record st { issued = suc st.issued }

  -- The states that a connection reaches.
  pub data Reach : State Value → Type 0 where
    start : (issued : ℕ) → Reach (split issued)
    next : (st : State Value) (e : Event Value) → Reach st → Reach (step e st)

  registered-Good :
      (id : Text) (m : Outcome WsError Text) (st : State Value)
      → st.is_open ≡ true
      → Inv st
      → Good st (registered crates signer id m st).1
  unfolding registered
  registered-Good id (ok s) st e i = insert_callback-Good id st e i
  registered-Good id (err x) st e i = refl-Good st i
  registered-Good id panic st e i = refl-Good st i

  begin-Good :
      (f : Text) (s : Value) (st : State Value)
      → Inv st
      → Good st (begin_request crates signer f s st).1
  unfolding begin_request
  begin-Good f s st i = elim (Bool-cases st.is_open) [
    | inl e ↦
        let bumped = issued-Good st (suc st.issued) i in
        transfer (sym (if-true _ _ e))
          (trans-Good bumped (registered-Good (issued_id st.issued) _ _ e bumped.0))
    | inr e ↦ transfer (sym (if-false _ _ e)) (refl-Good st i)
  ]

  dropped_if_err-Good :
      (id : Text) (st : State Value) (p : Outcome WsError (Unit {0}) × State Value)
      → Good st p.1
      → Good st (dropped_if_err crates signer id p).1
  unfolding dropped_if_err
  dropped_if_err-Good id st (ok r, st') g = g
  dropped_if_err-Good id st (err e, st') g = trans-Good g (drop_callback-Good id st' g.0)
  dropped_if_err-Good id st (panic, st') g = g

  send_outcome-Good :
      (m : Outcome WsError Text) (r : SendResult) (st : State Value)
      → Inv st
      → Good st (send_outcome crates signer m r st).1
  unfolding send_outcome
  send_outcome-Good (ok s) r st i = send-Good (text s) r st i
  send_outcome-Good (err e) r st i = refl-Good st i
  send_outcome-Good panic r st i = refl-Good st i

  read_message-Good :
      (method : Option Text) (recvd : WireMessage Value) (st : State Value)
      → Inv st
      → Good st (read_message crates signer method recvd st).1
  unfolding read_message with_request
  read_message-Good none recvd st i = deliver-Good recvd st i
  read_message-Good (some meth) recvd st i = refl-Good st i

  received-Good :
      (m : Outcome WsError (WireMessage Value)) (st : State Value)
      → Inv st
      → Good st (received crates signer m st).1
  unfolding received
  received-Good (ok recvd) st i = read_message-Good recvd.method recvd st i
  received-Good (err e) st i = refl-Good st i
  received-Good panic st i = refl-Good st i

  recv_frame-Good :
      (r : SendResult) (frame : Frame) (st : State Value)
      → Inv st
      → Good st (recv_frame crates signer r frame st).1
  unfolding recv_frame ponged
  recv_frame-Good r (text s) st i = received-Good (try_from_bytes crates s) st i
  recv_frame-Good r (binary b) st i = received-Good (try_from_bytes crates b) st i
  recv_frame-Good r (ping b) st i = send-Good (pong b) r st i
  recv_frame-Good r (pong b) st i = refl-Good st i
  recv_frame-Good r close_frame st i = refl-Good st i
  recv_frame-Good r raw_frame st i = refl-Good st i
  recv_frame-Good r broken st i = refl-Good st i

  step-Good : (e : Event Value) (st : State Value) → Inv st → Good st (step e st)
  unfolding step send_request respond finish_request
  step-Good (begins f s) st i = begin-Good f s st i
  step-Good (sends s id r) st i =
      close_if_err-Good st _ (dropped_if_err-Good id st _ (send-Good (text s) r st i))
  step-Good (finishes id h) st i = drop_callback-Good id st i
  step-Good (responds id s r) st i = exec-Good _ st i (send_outcome-Good _ r st i)
  step-Good (receives r frame) st i = exec-Good _ st i (recv_frame-Good r frame st i)
  step-Good elsewhere st i = issued-Good st (suc st.issued) i

  -- In every state that a connection reaches, the senders in the map are those of different
  -- channels that exist and still wait, and the map of a closed connection is empty.
  pub Reach-Inv : (st : State Value) → Reach st → Inv st
  unfolding split held Unique
  Reach-Inv st (start issued) = record { waits = λ h x. absurd cc; unique = tt; closed = λ x. refl }
  Reach-Inv st (next st' e r) = (step-Good e st' (Reach-Inv st' r)).0

  -- Once a channel of a connection has settled, with a response, with an error or by the loss of
  -- its sender, no step changes what its caller finds there.
  pub step-settled :
      (st : State Value) (e : Event Value) (h : ℕ)
      → Reach st
      → h < st.channels
      → st.slots h ≢ waiting
      → (step e st).slots h ≡ st.slots h
  step-settled st e h r old settled = (step-Good e st (Reach-Inv st r)).1.settled h old settled
