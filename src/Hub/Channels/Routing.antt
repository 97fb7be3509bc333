-- ===== src/Hub/Channels/Routing.antt =====
-- Which handler an answer reaches.
use aos_operator.Shared.{
  ℕ, ◌≡◌, refl, ap, ◌∙◌, Bool, true, Option, none, some, ◌==◌, ==_iff, ==_refl, if◌then◌else◌,
  if-true, Bool-cases, inl, inr,
}
use aos_operator.Shared.Text.{Text}
use aos_operator.Shared.TextMap.{get}
use aos_operator.Hub.Channels.{
  no_channel, Channel, Channels, Sending, sent, blocked, answered, set, sending, queued, send_to,
  callback, receive,
}

module _ {Answer : Type 0} where
  -- What a callback does to the channel `j`, if it finds the sender of the channel `found`.
  pub reached : Option ℕ → Answer → ℕ → Channel Answer → Channel Answer
  reached none a j c = c
  reached (some h) a j c = if j == h then queued (sending c) a c else c

  pub send_to-reached :
      (found : Option ℕ) (a : Answer) (st : Channels Answer) (j : ℕ)
      → (send_to found a st).1.channel j ≡ reached found a j (st.channel j)
  unfolding send_to reached
  send_to-reached none a st j = refl
  send_to-reached (some h) a st j = elim (Bool-cases (j == h)) [
    | inl e ↦ let q : j ≡ h = (==_iff j h).0 e in rw q (rw (==_refl h) refl)
    | inr e ↦ rw e refl
  ]

  pub send_to-senders :
      (found : Option ℕ) (a : Answer) (st : Channels Answer)
      → (send_to found a st).1.senders ≡ st.senders
  unfolding send_to
  send_to-senders none a st = refl
  send_to-senders (some h) a st = refl

  sending_idle : (c : Channel Answer) → c.has_receiver ≡ true → c.queue ≡ none → sending c ≡ sent
  unfolding sending
  sending_idle c alive empty_ =
      if-true _ _ alive
      ∙ ap (λ q. elim q as (λ _. Sending) [ none ↦ sent | some _ ↦ blocked ]) empty_

  sending_full :
      (c : Channel Answer) (a : Answer)
      → c.has_receiver ≡ true
      → sending (record c { queue = some a }) ≡ blocked
  unfolding sending
  sending_full c a alive = if-true _ _ alive

  -- The state after a callback that found the sender of `h`.
  after_send : Sending → ℕ → Answer → Channels Answer → Sending × Channels Answer
  after_send s h a st = (s, record st { channel = set h (queued s a (st.channel h)) st.channel })

  callback-after_send :
      (id : Text) (a : Answer) (st : Channels Answer) (h : ℕ) (s : Sending)
      → get id st.senders ≡ some h
      → sending (st.channel h) ≡ s
      → callback id a st ≡ after_send s h a st
  unfolding callback send_to after_send
  callback-after_send id a st h s reg e =
      ap (λ f. send_to f a st) reg ∙ ap (λ x. after_send x h a st) e

  set-own : (h j : ℕ) (channel : ℕ → Channel Answer) → set h (channel h) channel j ≡ channel j
  set-own h j channel = elim (Bool-cases (j == h)) [
    | inl e ↦ let q : j ≡ h = (==_iff j h).0 e in rw q (rw (==_refl h) refl)
    | inr e ↦ rw e refl
  ]

  -- An answer to a question that waits with an empty channel is sent: the handler that waits for
  -- it receives it, even if its time has run out, no other channel changes, and the map keeps the
  -- sender. A second answer then blocks its callback and changes no channel.
  pub callback-receive :
      (id : Text) (a b : Answer) (st : Channels Answer) (h j : ℕ) (late : Bool)
      → get id st.senders ≡ some h
      → (st.channel h).has_receiver ≡ true
      → (st.channel h).queue ≡ none
      → let after = callback id a st in
        (after.0 ≡ sent)
        × (receive late (after.1.channel h) ≡ answered a)
        × (after.1.channel j
            ≡ (if j == h then record (st.channel h) { queue = some a } else st.channel j))
        × (after.1.senders ≡ st.senders)
        × ((callback id b after.1).0 ≡ blocked)
        × ((callback id b after.1).1.channel j ≡ after.1.channel j)
  unfolding receive after_send queued
  callback-receive id a b st h j late reg alive empty_ =
      let first =
        callback-after_send id a st h sent reg (sending_idle (st.channel h) alive empty_) in
      let st' = (after_send sent h a st).1 in
      let full : sending (st'.channel h) ≡ blocked =
        rw (==_refl h) (sending_full (st.channel h) a alive) in
      let second = callback-after_send id b st' h blocked reg full in
      rw (first, second) (refl, rw (==_refl h) refl, refl, refl, refl, set-own h j st'.channel)

  -- An answer under an id that is not registered.
  pub callback_missing :
      (id : Text) (a : Answer) (st : Channels Answer)
      → get id st.senders ≡ none
      → callback id a st ≡ (no_channel, st)
  unfolding callback send_to
  callback_missing id a st e = ap (λ f. send_to f a st) e
