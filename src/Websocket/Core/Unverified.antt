-- ===== src/Websocket/Core/Unverified.antt =====
-- What `recv_inner` makes of a request whatever its signature says.
use aos_operator.Shared.{◌≡◌, refl, ap, ◌∙◌, Bool, [], Option, none, some, ok, unwrap, ◌>>=◌}
use aos_operator.Shared.Text.{Text}
use aos_operator.Signer.{generate_hash_str, verify_signature}
use aos_operator.Websocket.{
  WsError, WireMessage, WireCrates, text, request, try_from_bytes, json_result, received_request,
}
use aos_operator.Websocket.Core.{
  State, SendResult, recv_frame, received, read_message, with_request,
}

module _ {Value : Type 0} (crates : WireCrates Value) (signer : crates.signing.Key) where
  -- The request, once both its hash and the answer of the check are there.
  returned :
      (meth hashstr : Text) (recvd : WireMessage Value) (is_valid : Bool)
      → verify_signature crates.signing {E = WsError} recvd.address
          (record recvd { hash = []; signature = [] })
          recvd.signature
        ≡ ok is_valid
      → generate_hash_str crates.signing {E = WsError} (record recvd { hash = []; signature = [] })
        ≡ ok hashstr
      → received_request crates recvd meth
        ≡ (unwrap recvd.params >>= λ params. ok (request recvd.id meth params))
  unfolding received_request
  returned meth hashstr recvd is_valid verified hashed = rw (verified, hashed) refl

  wrapped :
      (id meth : Text) (params : Option Value) (st : State Value)
      → with_request crates signer (unwrap params >>= λ v. ok (request id meth v)) st
        ≡ ((unwrap params >>= λ v. ok (some (request id meth v))), st)
  unfolding with_request
  wrapped id meth none st = refl
  wrapped id meth (some v) st = refl

  -- A message with a method is received as a request in which the answer of the signature check
  -- does not occur: valid or not, the request is returned; and without parameters the receiver
  -- panics. The connection's state is unchanged.
  pub recv_unverified :
      (r : SendResult) (t meth hashstr : Text) (recvd : WireMessage Value) (is_valid : Bool)
      (st : State Value)
      → crates.from_slice t ≡ some recvd
      → recvd.method ≡ some meth
      → verify_signature crates.signing {E = WsError} recvd.address
          (record recvd { hash = []; signature = [] })
          recvd.signature
        ≡ ok is_valid
      → generate_hash_str crates.signing {E = WsError} (record recvd { hash = []; signature = [] })
        ≡ ok hashstr
      → recv_frame crates signer r (text t) st
        ≡ ((unwrap recvd.params >>= λ params. ok (some (request recvd.id meth params))), st)
  unfolding recv_frame try_from_bytes read_message received
  recv_unverified r t meth hashstr recvd is_valid st read plain verified hashed =
      ap (λ x. received crates signer x st) (ap json_result read)
      ∙ ap (λ m. read_message crates signer m recvd st) plain
      ∙ ap (λ x. with_request crates signer x st)
          (returned meth hashstr recvd is_valid verified hashed)
      ∙ wrapped recvd.id meth recvd.params st
