-- ===== src/Hub/Handlers/Waiting.antt =====
-- A question from its arrival to its answer.
use aos_operator.Shared.{
  ℕ, ◌≡◌, refl, ap, ◌∙◌, Bool, true, false, Option, none, some, ok, err, ◌==◌, ==_refl, suc, arith,
  if◌then◌else◌, if-true, ◌||◌,
}
use aos_operator.Shared.Text.{Text, text_eq, text_eq_refl}
use aos_operator.Shared.TextMap.{get, insert, get-insert}
use aos_operator.Hub.{
  Operator, OperatorReq, AnswerReq, HeartBeatReq, OpmlRequest, OpmlAnswer, request_timeout_error,
}
use aos_operator.Hub.Channels.{
  Channels, Sending, sent, no_channel, drop_sender, pending, closed, elapsed, register, callback,
  receive, drop_receiver, unregister,
}
use aos_operator.Hub.Channels.Routing.{callback-receive, callback_missing}
use aos_operator.Hub.Handlers.{
  Server, Posted, tee_question, tee_wait, tee_callback, tee_outcome, opml_question, opml_wait,
  opml_callback, success, register_worker, add_worker, opml_outcome, receive_heart_beat, is_some,
}

some_or :
    {A : Type 0} (b : Bool) (a : A) (o : Option A)
    → is_some (if b then some a else o) ≡ (b || is_some o)
unfolding is_some
some_or true a o = refl
some_or false a o = refl

-- A worker is known to the heart beat exactly if it was known before or has just registered.
pub heart_beat-register :
    (op : Operator) (req : HeartBeatReq) (server : Server)
    → (receive_heart_beat req (register_worker op server).1).0
      ≡ (text_eq req.worker_name op.worker_name || (receive_heart_beat req server).0)
unfolding receive_heart_beat register_worker add_worker
heart_beat-register op req server =
    ap is_some (get-insert req.worker_name op.worker_name op server.tee_operator_collections)
    ∙ some_or (text_eq req.worker_name op.worker_name) op _

-- The channel of a question that has just come.
fresh :
    {Answer : Type 0} (id : Text) (st : Channels Answer)
    → (get id (register id st).senders ≡ some st.made)
      × (((register id st).channel st.made).has_receiver ≡ true)
      × (((register id st).channel st.made).queue ≡ none)
unfolding register
fresh id st = (
  get-insert id id st.made st.senders ∙ if-true _ _ (text_eq_refl id),
  rw (==_refl st.made) refl,
  rw (==_refl st.made) refl,
)

fresh_receive :
    {Answer : Type 0} (id : Text) (st : Channels Answer) (late : Bool)
    → receive late ((register id st).channel st.made) ≡ (if late then elapsed else pending)
unfolding register receive
fresh_receive id st late = rw (==_refl st.made) refl

-- The channel of a question whose id is registered again has lost its sender.
superseded :
    {Answer : Type 0} (id : Text) (st : Channels Answer) (late : Bool)
    → receive late ((register id (register id st)).channel st.made) ≡ closed
unfolding register receive drop_sender
superseded id st late =
    let other : (st.made == suc st.made) ≡ false = ground arith in
    let found : get id (insert id st.made st.senders) ≡ some st.made =
      get-insert id id st.made st.senders ∙ if-true _ _ (text_eq_refl id) in
    rw (other, found, ==_refl st.made) refl

-- So has, once that question's handler has removed the id, the one that took its place.
removed :
    {Answer : Type 0} (id : Text) (st : Channels Answer) (late : Bool)
    → let two = register id (register id st) in
      receive late (
        (drop_receiver st.made (unregister (two.channel st.made).request_id two)).channel
          (suc st.made))
      ≡ closed
unfolding register receive drop_sender drop_receiver unregister
removed id st late =
    let below : (st.made == suc st.made) ≡ false = ground arith in
    let above : (suc st.made == st.made) ≡ false = ground arith in
    let one = insert id st.made st.senders in
    let found : get id one ≡ some st.made =
      get-insert id id st.made st.senders ∙ if-true _ _ (text_eq_refl id) in
    let found' : get id (insert id (suc st.made) one) ≡ some (suc st.made) =
      get-insert id id (suc st.made) one ∙ if-true _ _ (text_eq_refl id) in
    rw (below, above, found, ==_refl st.made, found', ==_refl (suc st.made)) refl

-- A TEE question whose answer comes while it waits returns that answer, whether or not the task
-- could be sent to the worker, and even if its time has run out meanwhile.
pub tee_question-answer :
    {Float : Type 0} (posted : Posted) (op_req : OperatorReq Float) (a : AnswerReq)
    (server : Server) (late : Bool)
    → op_req.request_id ≡ a.request_id
    → let asked = tee_question posted op_req server in
      ((tee_callback a asked.1).0 ≡ sent)
      × ((tee_wait late asked.0 (tee_callback a asked.1).1).0 ≡ some (ok a))
unfolding tee_question tee_callback tee_wait tee_outcome
tee_question-answer posted op_req a server late same =
    let st = server.tee_channels in
    let f = fresh a.request_id st in
    let got =
      callback-receive a.request_id a a (register a.request_id st) st.made 0 late f.0 f.1 f.2 in
    let after = record server {
      tee_channels = (callback a.request_id a (register a.request_id st)).1;
    } in
    rw same (got.0, ap (λ r. (tee_outcome r st.made after).0) got.1)

-- An OPML question whose task was sent, and whose answer comes while it waits, returns that
-- answer, even if its time has run out meanwhile.
pub opml_question-answer :
    (opml_request : OpmlRequest) (a : OpmlAnswer) (server : Server) (late : Bool)
    → opml_request.req_id ≡ a.req_id
    → let asked = opml_question success opml_request server in
      let h = server.opml_channels.made in
      (asked.0 ≡ ok h)
      × ((opml_callback a asked.1).0 ≡ sent)
      × ((opml_wait late h (opml_callback a asked.1).1).0 ≡ some (ok a))
unfolding opml_question opml_callback opml_wait opml_outcome
opml_question-answer opml_request a server late same =
    let st = server.opml_channels in
    let f = fresh a.req_id st in
    let got = callback-receive a.req_id a a (register a.req_id st) st.made 0 late f.0 f.1 f.2 in
    let after = record server { opml_channels = (callback a.req_id a (register a.req_id st)).1 } in
    rw same (refl, got.0, ap (λ r. (opml_outcome r st.made after).0) got.1)

opml_callback_lost :
    (a : OpmlAnswer) (server : Server)
    → get a.req_id server.opml_channels.senders ≡ none
    → opml_callback a server ≡ (no_channel, server)
unfolding opml_callback
opml_callback_lost a server none_ =
    ap (λ (r : Sending × Channels OpmlAnswer). (r.0, record server { opml_channels = r.1 }))
      (callback_missing a.req_id a server.opml_channels none_)

-- An answer that comes after the task was sent and before the channel is in the map is lost: it
-- leaves the server as it was, and the question, if no other answer comes, times out.
pub opml_early_answer :
    (opml_request : OpmlRequest) (a : OpmlAnswer) (server : Server)
    → get a.req_id server.opml_channels.senders ≡ none
    → let asked = opml_question success opml_request (opml_callback a server).1 in
      ((opml_callback a server).0 ≡ no_channel)
      × ((opml_wait false server.opml_channels.made asked.1).0 ≡ none)
      × ((opml_wait true server.opml_channels.made asked.1).0 ≡ some (err request_timeout_error))
unfolding opml_question opml_wait opml_outcome
opml_early_answer opml_request a server none_ =
    let st = server.opml_channels in
    let h = st.made in
    let asked = record server { opml_channels = register opml_request.req_id st } in
    rw (opml_callback_lost a server none_) (
      refl,
      ap (λ r. (opml_outcome r h asked).0) (fresh_receive opml_request.req_id st false),
      ap (λ r. (opml_outcome r h asked).0) (fresh_receive opml_request.req_id st true),
    )

-- The state once a handler that failed has cleaned up.
gave_up : ℕ → Server → Server
gave_up h server = record server {
  tee_channels =
      drop_receiver h (unregister (server.tee_channels.channel h).request_id server.tee_channels);
}

tee_wait_closed :
    (late : Bool) (h : ℕ) (server : Server)
    → receive late (server.tee_channels.channel h) ≡ closed
    → tee_wait late h server ≡ (some (err request_timeout_error), gave_up h server)
unfolding tee_wait tee_outcome gave_up
tee_wait_closed late h server e = ap (λ r. tee_outcome r h server) e

gave_up-second :
    (id : Text) (server : Server) (late : Bool)
    → let st = server.tee_channels in
      let left = gave_up st.made (record server { tee_channels = register id (register id st) }) in
      receive late (left.tee_channels.channel (register id st).made) ≡ closed
unfolding gave_up register
gave_up-second id server late = removed id server.tee_channels late

-- A second TEE question under the id of one that waits takes the first one's place in the map:
-- the first handler fails at once, and by removing the id it makes the second one fail too.
pub tee_question-twice :
    {Float : Type 0} (p q : Posted) (first second : OperatorReq Float) (server : Server)
    (late : Bool)
    → second.request_id ≡ first.request_id
    → let one = tee_question p first server in
      let two = tee_question q second one.1 in
      let failed = tee_wait late one.0 two.1 in
      (failed.0 ≡ some (err request_timeout_error))
      × ((tee_wait late two.0 failed.1).0 ≡ some (err request_timeout_error))
unfolding tee_question
tee_question-twice p q first second server late same =
    let id = first.request_id in
    let st = server.tee_channels in
    let asked = record server { tee_channels = register id (register id st) } in
    let first_fails = tee_wait_closed late st.made asked (superseded id st late) in
    let second_fails =
      tee_wait_closed late (register id st).made (gave_up st.made asked)
        (gave_up-second id server late) in
    rw (same, first_fails) (refl, ap (λ x. x.0) second_fails)
