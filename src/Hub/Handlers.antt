-- ===== src/Hub/Handlers.antt =====
-- operator/verify_hub/src/server/server.rs, tee/handler.rs and opml/handler.rs: the server's state
-- and its handlers, each cut at the points where it waits.
pub mod Waiting
use aos_operator.Shared.{
  ℕ, Bool, true, false, Option, none, some, List, [], Outcome, ok, err, if◌then◌else◌,
}
use aos_operator.Shared.Text.{Text, codes}
use aos_operator.Shared.TextMap.{TextMap, get, insert}
use aos_operator.Hub.{
  WorkerStatus, Operator, OperatorReq, AnswerReq, HeartBeatReq, OpmlRequest, OpmlAnswer,
  VerifyHubError, send_opml_request_error, request_timeout_error,
}
use aos_operator.Hub.Channels.{
  Channel, Channels, Sending, Received, pending, answered, closed, elapsed, empty, register,
  callback, receive, drop_receiver, unregister,
}

-- `Server`, less its signing key, which no handler uses.
pub record Server : Type 0 where
  pub tee_operator_collections : TextMap Operator
  pub tee_channels : Channels AnswerReq
  pub opml_channels : Channels OpmlAnswer

unfoldable pub new : Server
new = record { tee_operator_collections = []; tee_channels = empty; opml_channels = empty }

-- `Server::add_worker`
unfoldable pub add_worker : Text → Bool → WorkerStatus → Bool → Server → Server
add_worker worker_name check_heart_beat worker_status multimodal self = record self {
  tee_operator_collections =
      insert worker_name
        (record {
          worker_name = worker_name;
          check_heart_beat = check_heart_beat;
          worker_status = worker_status;
          multimodal = multimodal;
        })
        self.tee_operator_collections;
}

-- The code of the response, always 200.
unfoldable pub register_worker : Operator → Server → ℕ × Server
register_worker req server =
    (200, add_worker req.worker_name req.check_heart_beat req.worker_status req.multimodal server)

is_some : {A : Type 0} → Option A → Bool
is_some none = false
is_some (some a) = true

-- `HeartBeatResp { exist }`; the queue length of the request is not stored.
unfoldable pub receive_heart_beat : HeartBeatReq → Server → Bool × Server
unfolding is_some
receive_heart_beat req server =
    (is_some (get req.worker_name server.tee_operator_collections), server)

-- Whether an HTTP request got through: an error of the client, or a status that is no success.
pub data Posted : Type 0 where
  success : Posted
  failure : Text → Posted

-- `tee_question_handler` up to where it waits, given how `send_tee_inductive_task` ended, which
-- it does not look at: the number of its channel.
unfoldable pub tee_question : {Float : Type 0} → Posted → OperatorReq Float → Server → ℕ × Server
tee_question posted op_req server = (
  server.tee_channels.made,
  record server { tee_channels = register op_req.request_id server.tee_channels },
)

-- What the handler makes of what it received; `none` while it waits.
tee_outcome : Received AnswerReq → ℕ → Server → Option (Outcome VerifyHubError AnswerReq) × Server
tee_outcome pending h server = (none, server)
tee_outcome (answered a) h server =
    (some (ok a), record server { tee_channels = drop_receiver h server.tee_channels })
tee_outcome closed h server = (
  some (err request_timeout_error),
  record server {
    tee_channels =
        drop_receiver h (unregister (server.tee_channels.channel h).request_id server.tee_channels);
  },
)
tee_outcome elapsed h server = (
  some (err request_timeout_error),
  record server {
    tee_channels =
        drop_receiver h (unregister (server.tee_channels.channel h).request_id server.tee_channels);
  },
)

-- The rest of `tee_question_handler`, for the handler of channel `h`, its 600 seconds over or not.
unfoldable pub tee_wait : Bool → ℕ → Server → Option (Outcome VerifyHubError AnswerReq) × Server
unfolding tee_outcome
tee_wait late h server = tee_outcome (receive late (server.tee_channels.channel h)) h server

-- `tee_callback`: the response's code is 200 whatever came of the answer, unless it blocks.
unfoldable pub tee_callback : AnswerReq → Server → Sending × Server
tee_callback req server =
    let r = callback req.request_id req server.tee_channels in
    (r.0, record server { tee_channels = r.1 })

-- `opml_question_handler` up to where it waits: without a success it ends.
unfoldable pub opml_question : Posted → OpmlRequest → Server → Outcome VerifyHubError ℕ × Server
opml_question (failure e) opml_request server = (err (send_opml_request_error e), server)
opml_question success opml_request server = (
  ok server.opml_channels.made,
  record server { opml_channels = register opml_request.req_id server.opml_channels },
)

opml_outcome :
    Received OpmlAnswer → ℕ → Server → Option (Outcome VerifyHubError OpmlAnswer) × Server
opml_outcome pending h server = (none, server)
opml_outcome (answered a) h server =
    (some (ok a), record server { opml_channels = drop_receiver h server.opml_channels })
opml_outcome closed h server = (
  some (err request_timeout_error),
  record server { opml_channels = drop_receiver h server.opml_channels },
)
opml_outcome elapsed h server = (
  some (err request_timeout_error),
  record server { opml_channels = drop_receiver h server.opml_channels },
)

-- The rest of `opml_question_handler`; the channel stays in the map when the time is over.
unfoldable pub opml_wait : Bool → ℕ → Server → Option (Outcome VerifyHubError OpmlAnswer) × Server
unfolding opml_outcome
opml_wait late h server = opml_outcome (receive late (server.opml_channels.channel h)) h server

unfoldable pub opml_callback : OpmlAnswer → Server → Sending × Server
opml_callback req server =
    let r = callback req.req_id req server.opml_channels in
    (r.0, record server { opml_channels = r.1 })
