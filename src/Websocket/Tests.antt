-- ===== src/Websocket/Tests.antt =====
-- The connection's theorems at a concrete connection.
use aos_operator.Shared.{
  ℕ, ◌<◌, ◌≡◌, ◌≢◌, refl, true, false, some, none, [], ◌∷◌, ok, err, panic, if◌then◌else◌, arith,
}
use aos_operator.Shared.Text.{Text, codes, text_eq}
use aos_operator.Shared.TextMap.{get, insert, remove}
use aos_operator.Signer.{verify_signature, sign_message, generate_hash_str}
use aos_operator.Websocket.{
  WsError, WireMessage, text, request, unsigned_request, unsigned_response, request_message,
  response_message, signed, issued_id, read_option, channel_error, connection_closed,
  websocket_closed,
}
use aos_operator.Websocket.Instance.{toy_crates, enc, null_text, from_text-enc}
use aos_operator.Websocket.Core.{
  waiting, State, done, split, close, begin_request, recv_inner, recv_frame, respond,
  finish_request,
}
use aos_operator.Shared.Decimal.{to_string, digits}
use aos_operator.Signer.Instance.{made}
use aos_operator.Websocket.Core.{drop_callback, drop_sender, insert_callback}
use aos_operator.Websocket.Core.Delivery.{held, answered, recv_response, close_lem}
use aos_operator.Websocket.Core.RoundTrip.{request-respond}
use aos_operator.Websocket.Core.Settled.{
  receives, begins, finishes, step, Reach, start, next, step-settled,
}
use aos_operator.Websocket.Core.Unverified.{recv_unverified}

-- Request 9 is registered on channel 0, request 10 on channel 1.
abbrev two_requests : State Text
two_requests = record {
  is_open = true;
  callback = (codes "10", 1) ∷ (codes "9", 0) ∷ [];
  slots = λ h. waiting;
  channels = 2;
  issued = 11;
  sent = [];
}

abbrev reply : WireMessage Text
reply = record (unsigned_response toy_crates (codes "10") (codes "ok")) {
  hash = codes "h";
  signature = codes "s";
}

recv_response_example :
    let after = recv_frame toy_crates 5 done (text (enc reply)) two_requests in
    (after.0 ≡ ok none)
    × (after.1.slots 1 ≡ answered (get reply.id two_requests.callback) reply.result 1 waiting)
    × (get (codes "9") after.1.callback
        ≡ (if text_eq (codes "9") reply.id then none else get (codes "9") two_requests.callback))
    × ((after.1.is_open ≡ true) × (after.1.sent ≡ []))
unfolding read_option null_text
recv_response_example =
    recv_response toy_crates 5 done (enc reply) reply two_requests 1 (codes "9")
      (from_text-enc reply (enc reply) refl) refl

registered_9 : get (codes "9") two_requests.callback ≡ some 0
unfolding get text_eq
registered_9 = refl

free_7 : held 7 two_requests.callback ≡ false
unfolding held
free_7 = refl

close_lem_example :
    ((finish_request (codes "9") 0 (close two_requests)).0 ≡ err connection_closed)
    × ((close two_requests).slots 7 ≡ waiting)
    × ((close two_requests).callback ≡ [])
    × (close (close two_requests) ≡ close two_requests)
    × (begin_request toy_crates 5 (codes "f") (codes "v") (close two_requests)
        ≡ (err websocket_closed, close two_requests))
close_lem_example =
    close_lem toy_crates 5 (codes "f") (codes "v") two_requests (codes "9") 0 7 refl registered_9
      free_7

abbrev client : State Text
client = split 1

-- The text that key `key` makes of an unsigned message.
abbrev signed_text : ℕ → WireMessage Text → Text
signed_text key m = enc (record m { hash = enc m; signature = key ∷ enc m })

abbrev asked : Text
asked = signed_text 5 (unsigned_request toy_crates (issued_id 1) (codes "f") (codes "v"))

abbrev told : Text
told = signed_text 8 (unsigned_response toy_crates (issued_id 1) (codes "ok"))

asked_made : request_message toy_crates (issued_id 1) (codes "f") (codes "v") 5 ≡ ok asked
unfolding request_message signed sign_message generate_hash_str
asked_made = refl

told_made : response_message toy_crates (issued_id 1) (codes "ok") 8 ≡ ok told
unfolding response_message signed sign_message generate_hash_str
told_made = refl

request-respond_example :
    let begun = begin_request toy_crates 5 (codes "f") (codes "v") (split 1) in
    (begun.0 ≡ ok (asked, issued_id 1, 0))
    × (recv_inner toy_crates 8 ((done, text asked) ∷ []) two_requests ≡ (
      (if null_text (codes "v") then panic else ok (request (issued_id 1) (codes "f") (codes "v"))),
      two_requests,
    ))
    × (respond toy_crates 8 (issued_id 1) (codes "ok") done two_requests
        ≡ (ok tt, record two_requests { sent = text told ∷ [] }))
    × ((finish_request (issued_id 1) 0 (recv_frame toy_crates 5 done (text told) begun.1).1).0
        ≡ (if null_text (codes "ok") then err channel_error else ok (codes "ok")))
unfolding split
request-respond_example =
    request-respond toy_crates 5 8 (codes "f") (codes "v") (codes "ok") (split 1) two_requests asked
      told refl refl refl refl asked_made told_made

-- A request is begun and its sender is lost when the caller gives up.
abbrev given_up : State Text
given_up =
    step toy_crates 5 (finishes (issued_id 1) 0)
      (step toy_crates 5 (begins (codes "f") (codes "v")) (split 1))

given_up-Reach : Reach toy_crates 5 given_up
given_up-Reach =
    next _ (finishes (issued_id 1) 0) (next _ (begins (codes "f") (codes "v")) (start 1))

begun_channel : 0 < given_up.channels
unfolding step finish_request drop_callback begin_request request_message signed sign_message
    generate_hash_str split get remove insert drop_sender insert_callback text_eq issued_id
    to_string digits
begun_channel = omega arith

begun_settled : given_up.slots 0 ≢ waiting
unfolding step finish_request drop_callback begin_request request_message signed sign_message
    generate_hash_str split get remove insert drop_sender insert_callback text_eq issued_id
    to_string digits
begun_settled = λ e. cc

step-settled_example :
    (step toy_crates 5 (receives done (text told)) given_up).slots 0 ≡ given_up.slots 0
step-settled_example =
    step-settled toy_crates 5 given_up (receives done (text told)) 0 given_up-Reach begun_channel
      begun_settled

-- A request that claims an address which is not that of the key that signed it.
abbrev forged : WireMessage Text
forged = record (unsigned_request toy_crates (codes "1") (codes "f") (codes "v")) {
  hash = codes "h";
  signature = 6 ∷ enc (unsigned_request toy_crates (codes "1") (codes "f") (codes "v"));
}

forged_invalid :
    verify_signature toy_crates.signing {E = WsError} forged.address
      (record forged { hash = []; signature = [] })
      forged.signature
    ≡ ok false
unfolding verify_signature text_eq
forged_invalid =
    rw (made 6 (enc (unsigned_request toy_crates (codes "1") (codes "f") (codes "v")))) refl

recv_unverified_example :
    recv_frame toy_crates 8 done (text (enc forged)) (split 1)
    ≡ (ok (some (request (codes "1") (codes "f") (codes "v"))), split 1)
unfolding generate_hash_str read_option null_text
recv_unverified_example =
    recv_unverified toy_crates 8 done (enc forged) (codes "f") _ forged false (split 1)
      (from_text-enc forged (enc forged) refl) refl forged_invalid refl
