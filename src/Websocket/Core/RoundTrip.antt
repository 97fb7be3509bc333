-- ===== src/Websocket/Core/RoundTrip.antt =====
-- A request that one end makes is received by the other, and the response comes back.
use aos_operator.Shared.{
  ℕ, ◌≡◌, refl, ap, ◌∙◌, if-true, if◌then◌else◌, suc, Bool, true, false, some, none, [], ◌∷◌,
  Outcome, ok, err, panic, >>=-eq-ok, ==_refl, Option, Bool-cases, inl, inr,
}
use aos_operator.Shared.Text.{Text, text_eq_refl}
use aos_operator.Shared.TextMap.{get, get-insert}
use aos_operator.Signer.{sign_message, generate_hash_str, verify_signature}
use aos_operator.Signer.Recovery.{verify-sign}
use aos_operator.Websocket.{
  WsError, WireMessage, WireCrates, ReceiveMessage, text, request, channel_error, try_from_bytes,
  signed, json_result, read_option, as_read, all_exact, unsigned_request, unsigned_response,
  request_message, response_message, received_request, issued_id,
}
use aos_operator.Websocket.Core.{
  State, done, exec, close_if_err, recv_frame, recv_inner, begin_request, respond, finish_request,
  response, insert_callback, registered, send, send_outcome, recv_next,
}
use aos_operator.Websocket.Core.Delivery.{deliver_lem}

json_result-ok : {A : Type 0} (o : Option A) {a : A} → json_result o ≡ ok a → o ≡ some a
unfolding json_result
json_result-ok none h = cc
json_result-ok (some b) h = cc

module _ {Value : Type 0} (crates : WireCrates Value) where
  open crates use {signing, from_slice, from_slice-to_json, to_vec-as_read, is_null, exact}

  -- What is read back from a signed message.
  signed-read :
      (key : signing.Key) (m : WireMessage Value) (t : Text)
      → all_exact exact m.params ≡ true
      → all_exact exact m.result ≡ true
      → signed crates key m ≡ ok t
      → (hash : Text) × (sig : Text) × (generate_hash_str signing {E = WsError} m ≡ ok hash)
        × (sign_message signing {E = WsError} key m ≡ ok sig)
        × (from_slice t ≡ some (as_read is_null (record m { hash = hash; signature = sig })))
  unfolding signed
  signed-read key m t ep er h =
      let (hash, eh, h1) = >>=-eq-ok _ _ h in
      let (sig, es, h2) = >>=-eq-ok _ _ h1 in
      (hash, sig, eh, es, from_slice-to_json _ t ep er (json_result-ok _ h2))

  -- The signature and the hash do not see what reading changes.
  verify-as_read :
      (address : Text) (m : WireMessage Value) (sig : Text)
      → verify_signature signing {E = WsError} address (as_read is_null m) sig
        ≡ verify_signature signing address m sig
  unfolding verify_signature
  verify-as_read address m sig = rw (to_vec-as_read m) refl

  hash-as_read :
      (m : WireMessage Value)
      → generate_hash_str signing {E = WsError} (as_read is_null m) ≡ generate_hash_str signing m
  unfolding generate_hash_str
  hash-as_read m = rw (to_vec-as_read m) refl

  -- A request is accepted whoever signed it; parameters that are `null` are missing.
  received_made :
      (key : signing.Key) (id f : Text) (s : Value) (hash sig : Text)
      → generate_hash_str signing {E = WsError} (unsigned_request crates id f s) ≡ ok hash
      → sign_message signing {E = WsError} key (unsigned_request crates id f s) ≡ ok sig
      → received_request crates
          (as_read is_null
            (record (unsigned_request crates id f s) { hash = hash; signature = sig }))
          f
        ≡ (if is_null s then panic else ok (request id f s))
  unfolding received_request read_option
  received_made key id f s hash sig eh es =
      let m = unsigned_request crates id f s in
      let v = verify-as_read m.address m sig ∙ verify-sign signing key m sig m.address es in
      let g = hash-as_read m ∙ eh in
      elim (Bool-cases (is_null s)) [ inl e ↦ rw (v, g, e) refl | inr e ↦ rw (v, g, e) refl ]

  -- Receiving the text of a request that some key signed.
  recv_made :
      (key signer : signing.Key) (id f : Text) (s : Value) (frame : Text) (st : State Value)
      → exact s ≡ true
      → request_message crates id f s key ≡ ok frame
      → recv_frame crates signer done (text frame) st
        ≡ ((if is_null s then panic else ok (some (request id f s))), st)
  unfolding request_message recv_frame try_from_bytes all_exact
  recv_made key signer id f s frame st es made =
      let m = unsigned_request crates id f s in
      let (hash, sig, eh, esig, read) = signed-read key m frame es refl made in
      let r = received_made key id f s hash sig eh esig in
      elim (Bool-cases (is_null s)) [ inl e ↦ rw (read, r, e) refl | inr e ↦ rw (read, r, e) refl ]

  returned :
      (signer : signing.Key) (b : Bool) (m : ReceiveMessage Value) (st : State Value)
      (again : State Value → Outcome WsError (ReceiveMessage Value) × State Value)
      → recv_next crates signer (close_if_err ((if b then panic else ok (some m)), st)) again
        ≡ ((if b then panic else ok m), st)
  unfolding close_if_err recv_next
  returned signer true m st again = refl
  returned signer false m st again = refl

  recv_made_loop :
      (key signer : signing.Key) (id f : Text) (s : Value) (frame : Text) (st : State Value)
      → st.is_open ≡ true
      → exact s ≡ true
      → request_message crates id f s key ≡ ok frame
      → recv_inner crates signer ((done, text frame) ∷ []) st
        ≡ ((if is_null s then panic else ok (request id f s)), st)
  unfolding recv_inner exec
  recv_made_loop key signer id f s frame st open_ es made =
      ap (λ x. recv_next crates signer x (λ st'. recv_inner crates signer [] st'))
        (if-true _ _ open_ ∙ ap close_if_err (recv_made key signer id f s frame st es made))
      ∙ returned signer (is_null s) (request id f s) st _

  -- Receiving the text of a response that some key signed, for a registered request.
  finish_made :
      (key signer : signing.Key) (id : Text) (v : Value) (h : ℕ) (t : Text) (st : State Value)
      → exact v ≡ true
      → response_message crates id v key ≡ ok t
      → get id st.callback ≡ some h
      → (finish_request id h (recv_frame crates signer done (text t) st).1).0
        ≡ (if is_null v then err channel_error else ok v)
  unfolding response_message recv_frame try_from_bytes finish_request response all_exact read_option
  finish_made key signer id v h t st ev made reg =
      let (hash, sig, eh, es, read) =
        signed-read key (unsigned_response crates id v) t refl ev made in
      let recvd =
        as_read is_null (record (unsigned_response crates id v) { hash = hash; signature = sig }) in
      let d = (deliver_lem recvd st h id).0 in
      elim (Bool-cases (is_null v)) [
        | inl e ↦ rw (read, d, reg, e, ==_refl h) refl
        | inr e ↦ rw (read, d, reg, e, ==_refl h) refl
      ]

  -- A request that a peer makes on an open connection, with a value that JSON keeps, is received as
  -- the same method and parameters under its id, whatever key signed it, but the receiver panics if
  -- the parameters are `null`; an answer under that id, with a value that JSON keeps, is sent on an
  -- open connection; and the peer, on receiving it, ends the request with the answer's value, but
  -- with a channel error if that is `null`.
  pub request-respond :
      (mine theirs : signing.Key) (f : Text) (s v : Value) (client server : State Value)
      (frame t : Text)
      → client.is_open ≡ true
      → server.is_open ≡ true
      → exact s ≡ true
      → exact v ≡ true
      → request_message crates (issued_id client.issued) f s mine ≡ ok frame
      → response_message crates (issued_id client.issued) v theirs ≡ ok t
      → let id = issued_id client.issued in
        let begun = begin_request crates mine f s client in
        (begun.0 ≡ ok (frame, id, client.channels))
        × (recv_inner crates theirs ((done, text frame) ∷ []) server
            ≡ ((if is_null s then panic else ok (request id f s)), server))
        × (respond crates theirs id v done server
            ≡ (ok tt, record server { sent = text t ∷ server.sent }))
        × ((finish_request id client.channels (recv_frame crates mine done (text t) begun.1).1).0
            ≡ (if is_null v then err channel_error else ok v))
  unfolding begin_request insert_callback respond exec close_if_err send
  request-respond mine theirs f s v client server frame t open_c open_s es ev made answered_ =
      let id = issued_id client.issued in
      let begun : begin_request crates mine f s client ≡ (
        ok (frame, id, client.channels),
        insert_callback id (record client { issued = suc client.issued }),
      ) =
        if-true _ _ open_c
        ∙ ap (λ x. registered crates mine id x (record client { issued = suc client.issued }))
            made in
      let reg : get id (insert_callback id (record client { issued = suc client.issued })).callback
          ≡ some client.channels =
        rw (get-insert id id client.channels client.callback, text_eq_refl id) refl in
      rw begun (
        refl,
        recv_made_loop mine theirs id f s frame server open_s es made,
        if-true _ _ open_s
            ∙ ap (λ x. close_if_err (send_outcome crates theirs x done server)) answered_,
        finish_made theirs mine id v client.channels t _ ev answered_ reg,
      )
