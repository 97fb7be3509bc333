-- ===== src/Websocket/Core/Delivery.antt =====
-- Where a response goes, and what closing a connection tells the callers.
use aos_operator.Shared.{
  ℕ, ◌≡◌, refl, ap, ◌∙◌, Bool, true, false, Option, none, some, [], ◌∷◌, ok, err, ◌==◌,
  if◌then◌else◌, ◌||◌, arith, Option-cases, Bool-cases, inl, inr,
}
use aos_operator.Shared.Text.{Text, text_eq, eq_of_text_eq, text_eq_refl}
use aos_operator.Shared.TextMap.{TextMap, get, get-remove}
use aos_operator.Websocket.{
  WireMessage, WireCrates, text, connection_closed, websocket_closed, try_from_bytes, json_result,
}
use aos_operator.Websocket.Core.{
  Slot, delivered, refused, sender_dropped, State, SendResult, set_slot, drain, close, deliver,
  read_message, received, deliver_to, answer, recv_frame, finish_request, response, begin_request,
}

-- Some sender of the map is that of channel `h`.
unfoldable pub held : ℕ → TextMap ℕ → Bool
held h [] = false
held h ((id, k) ∷ m) = (h == k) || held h m

pub get-held : (id : Text) (m : TextMap ℕ) (h : ℕ) → get id m ≡ some h → held h m ≡ true
unfolding held get
get-held id [] h e = cc
get-held id ((k, j) ∷ m) h e = ground (arith, get-held id m h)

missing :
    (other id : Text) (m : TextMap ℕ)
    → get id m ≡ none
    → get other m ≡ (if text_eq other id then none else get other m)
missing other id m h = elim (Bool-cases (text_eq other id)) [
  | inl e ↦ rw (eq_of_text_eq other id e) (rw (text_eq_refl id) h)
  | inr e ↦ rw e refl
]

module _ {Value : Type 0} where
  pub drain-held :
      (m : TextMap ℕ) (slots : ℕ → Slot Value) (j : ℕ)
      → drain m slots j ≡ (if held j m then refused connection_closed else slots j)
  unfolding drain held
  drain-held [] slots j = refl
  drain-held ((id, h) ∷ m) slots j =
      let ih = drain-held m (set_slot h (refused connection_closed) slots) j in
      elim (Bool-cases (held j m)) [
        | inl e ↦ elim (Bool-cases (j == h)) [
          | inl f ↦ rw (ih, e, f) refl
          | inr f ↦ rw (ih, e, f) refl
        ]
        | inr e ↦ elim (Bool-cases (j == h)) [
          | inl f ↦ rw (ih, e, f) refl
          | inr f ↦ rw (ih, e, f) refl
        ]
      ]

  -- What becomes of the slot of channel `j` when a response arrives for the sender `found`.
  abbrev pub answered : Option ℕ → Option Value → ℕ → Slot Value → Slot Value
  answered none result j s = s
  answered (some h) none j s = if j == h then sender_dropped else s
  answered (some h) (some v) j s = if j == h then delivered v else s

  answer-answered :
      (h : ℕ) (result : Option Value) (slots : ℕ → Slot Value) (j : ℕ)
      → answer h result slots j ≡ answered (some h) result j (slots j)
  unfolding answer
  answer-answered h none slots j = refl
  answer-answered h (some v) slots j = refl

  pub deliver_lem :
      (recvd : WireMessage Value) (st : State Value) (j : ℕ) (other : Text)
      → ((deliver recvd st).slots j
          ≡ answered (get recvd.id st.callback) recvd.result j (st.slots j))
        × (get other (deliver recvd st).callback
            ≡ (if text_eq other recvd.id then none else get other st.callback))
        × (((deliver recvd st).is_open ≡ st.is_open) × ((deliver recvd st).sent ≡ st.sent))
  unfolding deliver deliver_to
  deliver_lem recvd st j other = elim (Option-cases (get recvd.id st.callback)) [
    | inl miss ↦ rw (miss, deliver_to) (refl, missing other recvd.id st.callback miss, (refl, refl))
    | inr (h, e) ↦
        rw (e, deliver_to)
          (
            answer-answered h recvd.result st.slots j,
            get-remove other recvd.id st.callback,
            (refl, refl),
          )
  ]

module _ {Value : Type 0} (crates : WireCrates Value) (signer : crates.signing.Key) where
  pub recv_plain :
      (r : SendResult) (t : Text) (recvd : WireMessage Value) (st : State Value)
      → crates.from_slice t ≡ some recvd
      → recvd.method ≡ none
      → recv_frame crates signer r (text t) st ≡ (ok none, deliver recvd st)
  unfolding recv_frame try_from_bytes read_message
  recv_plain r t recvd st read plain =
      ap (λ x. received crates signer x st) (ap json_result read)
      ∙ ap (λ m. read_message crates signer m recvd st) plain

  -- A message without a method settles the request that is registered under its id, with the
  -- result it carries, and takes that id out of the map; a message under an unknown id changes
  -- nothing. No other channel and no other id is touched, and the receiver goes on.
  pub recv_response :
      (r : SendResult) (t : Text) (recvd : WireMessage Value) (st : State Value) (j : ℕ)
      (other : Text)
      → crates.from_slice t ≡ some recvd
      → recvd.method ≡ none
      → let after = recv_frame crates signer r (text t) st in
        (after.0 ≡ ok none)
        × (after.1.slots j ≡ answered (get recvd.id st.callback) recvd.result j (st.slots j))
        × (get other after.1.callback
            ≡ (if text_eq other recvd.id then none else get other st.callback))
        × ((after.1.is_open ≡ st.is_open) × (after.1.sent ≡ st.sent))
  recv_response r t recvd st j other read plain =
      let lem = deliver_lem recvd st j other in
      rw (recv_plain r t recvd st read plain) (refl, lem.0, lem.1, lem.2)

  -- Closing an open connection refuses every registered request with `ConnectionClosed` and
  -- leaves the other channels alone; the map is then empty, closing again does nothing, and a new
  -- request is refused without taking an id.
  pub close_lem :
      (f : Text) (s : Value) (st : State Value) (id : Text) (h j : ℕ)
      → st.is_open ≡ true
      → get id st.callback ≡ some h
      → held j st.callback ≡ false
      → ((finish_request id h (close st)).0 ≡ err connection_closed)
        × ((close st).slots j ≡ st.slots j)
        × ((close st).callback ≡ [])
        × (close (close st) ≡ close st)
        × (begin_request crates signer f s (close st) ≡ (err websocket_closed, close st))
  unfolding close finish_request begin_request response
  close_lem f s st id h j open_ reg free =
      let mine = drain-held st.callback st.slots h in
      let other = drain-held st.callback st.slots j in
      let found = get-held id st.callback h reg in
      rw open_ (rw (mine, found) refl, rw (other, free) refl, refl, refl, refl)
