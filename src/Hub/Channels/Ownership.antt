-- ===== src/Hub/Channels/Ownership.antt =====
-- A handler receives only answers to its own request.
use mathlib.Core.Path.{subst}
use aos_operator.Shared.{
  ℕ, suc, ◌<◌, ◌≡◌, refl, ap, sym, ◌∙◌, Bool, true, false, Option, none, some, ◌==◌, ==_iff,
  ==_refl, if◌then◌else◌, if-true, if-false, Bool-cases, inl, inr, arith,
}
use aos_operator.Shared.Text.{Text, text_eq, eq_of_text_eq}
use aos_operator.Shared.TextMap.{get, insert, get-insert, get-remove}
use aos_operator.Hub.Channels.{
  Channel, Channels, Sending, no_channel, sent, receiver_gone, blocked, Received, pending, answered,
  closed, elapsed, set, empty, register, sending, queued, send_to, callback, receive, drop_receiver,
  unregister, drop_sender,
}

module _ {Answer : Type 0} (id_of : Answer → Text) where
  -- Some step of the server on the channels: a question comes, an answer comes under the id that
  -- it names, a handler stops waiting, a sender is removed.
  pub data Step : Channels Answer → Channels Answer → Type 0 where
    registers : (id : Text) (st : Channels Answer) → Step st (register id st)
    calls_back : (a : Answer) (st : Channels Answer) → Step st (callback (id_of a) a st).1
    ends : (h : ℕ) (st : Channels Answer) → Step st (drop_receiver h st)
    unregisters : (id : Text) (st : Channels Answer) → Step st (unregister id st)

  pub data Reach : Channels Answer → Type 0 where
    start : Reach empty
    next : (st st' : Channels Answer) → Reach st → Step st st' → Reach st'

  -- What a channel holds is an answer to the request it was made for, and the map has each sender
  -- under the id of that request.
  pub record Own (st : Channels Answer) : Type 0 where
    pub queue_own :
        (h : ℕ) (a : Answer) → (st.channel h).queue ≡ some a → id_of a ≡ (st.channel h).request_id
    pub map_own :
        (id : Text) (h : ℕ)
        → get id st.senders ≡ some h
        → ((st.channel h).request_id ≡ id) × (h < st.made)

  dropped_same :
      (found : Option ℕ) (channel : ℕ → Channel Answer) (j : ℕ)
      → ((drop_sender found channel j).request_id ≡ (channel j).request_id)
        × ((drop_sender found channel j).queue ≡ (channel j).queue)
  unfolding drop_sender
  dropped_same none channel j = (refl, refl)
  dropped_same (some h) channel j = elim (Bool-cases (j == h)) [
    | inl e ↦ let q : j ≡ h = (==_iff j h).0 e in rw q (rw (==_refl h) (refl, refl))
    | inr e ↦ rw e (refl, refl)
  ]

  -- A property of the channel `j` once channel `h` is `c`.
  set-case :
      (P : Channel Answer → Type 0) (h : ℕ) (c : Channel Answer) (channel : ℕ → Channel Answer)
      (j : ℕ)
      → (j ≡ h → P c)
      → ((j == h) ≡ false → P (channel j))
      → P (set h c channel j)
  set-case P h c channel j here elsewhere = elim (Bool-cases (j == h)) [
    | inl e ↦ subst P (sym (if-true _ _ e)) (here ((==_iff j h).0 e))
    | inr e ↦ subst P (sym (if-false _ _ e)) (elsewhere e)
  ]

  -- The two parts of the invariant, for one channel.
  Holds : Answer → Channel Answer → Type 0
  Holds a c = c.queue ≡ some a → id_of a ≡ c.request_id

  Names : Text → Channel Answer → Type 0
  Names id c = c.request_id ≡ id

  dropped-Holds :
      (st : Channels Answer) (found : Option ℕ) (a : Answer) (j : ℕ)
      → Own st
      → Holds a (drop_sender found st.channel j)
  unfolding Holds
  dropped-Holds st found a j own e =
      let same = dropped_same found st.channel j in own.queue_own j a (sym same.1 ∙ e) ∙ sym same.0

  registered :
      (id id' : Text) (st : Channels Answer) (h : ℕ)
      → Own st
      → get id' (insert id st.made st.senders) ≡ some h
      → Names id' ((register id st).channel h) × (h < suc st.made)
  unfolding register Names
  registered id id' st h own e =
      let new : Channel Answer = record {
        request_id = id;
        queue = none;
        has_sender = true;
        has_receiver = true;
      } in
      let rest = drop_sender (get id st.senders) st.channel in
      let found = sym (get-insert id' id st.made st.senders) ∙ e in
      elim (Bool-cases (text_eq id' id)) [
        | inl t ↦
            let own_number : some st.made ≡ some h = sym (if-true _ _ t) ∙ found in
            let number : st.made ≡ h = cc in
            (
              set-case (Names id') st.made new rest h (λ q. sym (eq_of_text_eq id' id t))
                  (λ n. absurd (ground arith)),
              omega arith,
            )
        | inr t ↦
            let old = own.map_own id' h (sym (if-false _ _ t) ∙ found) in
            (
              set-case (Names id') st.made new rest h (λ q. absurd (omega (arith, old.1)))
                  (λ n. (dropped_same (get id st.senders) st.channel h).0 ∙ old.0),
              omega (arith, old.1),
            )
      ]

  register-Own : (id : Text) (st : Channels Answer) → Own st → Own (register id st)
  unfolding register Holds Names
  register-Own id st own = record {
    queue_own = λ h a e.
        set-case (Holds a) st.made
          (record { request_id = id; queue = none; has_sender = true; has_receiver = true })
          (drop_sender (get id st.senders) st.channel) h (λ q x. absurd cc)
          (λ n. dropped-Holds st (get id st.senders) a h own) e;
    map_own = λ id' h e. registered id id' st h own e;
  }

  queued-Holds :
      (s : Sending) (a b : Answer) (c : Channel Answer)
      → id_of a ≡ c.request_id
      → Holds b c
      → Holds b (queued s a c)
  unfolding queued Holds
  queued-Holds sent a b c mine old e = let same : a ≡ b = cc in rw (← same) mine
  queued-Holds no_channel a b c mine old e = old e
  queued-Holds receiver_gone a b c mine old e = old e
  queued-Holds blocked a b c mine old e = old e

  queued-Names :
      (s : Sending) (a : Answer) (id : Text) (c : Channel Answer)
      → Names id c
      → Names id (queued s a c)
  unfolding queued Names
  queued-Names sent a id c e = e
  queued-Names no_channel a id c e = e
  queued-Names receiver_gone a id c e = e
  queued-Names blocked a id c e = e

  callback-Own : (a : Answer) (st : Channels Answer) → Own st → Own (callback (id_of a) a st).1
  unfolding callback send_to Holds Names
  callback-Own a st own = go (get (id_of a) st.senders) refl
    where
      go : (found : Option ℕ) → get (id_of a) st.senders ≡ found → Own (send_to found a st).1
      go none e = record { queue_own = own.queue_own; map_own = own.map_own }
      go (some h) e =
          let c = st.channel h in
          let mine = sym (own.map_own (id_of a) h e).0 in
          record {
            queue_own = λ j b x.
                set-case (Holds b) h (queued (sending c) a c) st.channel j
                  (λ q. queued-Holds (sending c) a b c mine (own.queue_own h b))
                  (λ n. own.queue_own j b) x;
            map_own = λ id j x. (
              set-case (Names id) h (queued (sending c) a c) st.channel j
                  (λ q. queued-Names (sending c) a id c (rw (← q) (own.map_own id j x).0))
                  (λ n. (own.map_own id j x).0),
              (own.map_own id j x).1,
            );
          }

  drop_receiver-Own : (h : ℕ) (st : Channels Answer) → Own st → Own (drop_receiver h st)
  unfolding drop_receiver Holds Names
  drop_receiver-Own h st own =
      let gone = record (st.channel h) { queue = none; has_receiver = false } in
      record {
        queue_own = λ j a e.
            set-case (Holds a) h gone st.channel j (λ q x. absurd cc) (λ n. own.queue_own j a) e;
        map_own = λ id j e. (
          set-case (Names id) h gone st.channel j (λ q. rw (← q) (own.map_own id j e).0)
              (λ n. (own.map_own id j e).0),
          (own.map_own id j e).1,
        );
      }

  unregister-Own : (id : Text) (st : Channels Answer) → Own st → Own (unregister id st)
  unfolding unregister Holds
  unregister-Own id st own = record {
    queue_own = λ j a e. dropped-Holds st (get id st.senders) a j own e;
    map_own = λ id' j e.
        let found = sym (get-remove id' id st.senders) ∙ e in
        let old = own.map_own id' j (still (text_eq id' id) found) in
        ((dropped_same (get id st.senders) st.channel j).0 ∙ old.0, old.1);
  }
    where
      still : (b : Bool) {o : Option ℕ} {j : ℕ} → (if b then none else o) ≡ some j → o ≡ some j
      still true e = absurd cc
      still false e = e

  Step-Own : (st st' : Channels Answer) → Own st → Step st st' → Own st'
  Step-Own _ _ own (registers id st) = register-Own id st own
  Step-Own _ _ own (calls_back a st) = callback-Own a st own
  Step-Own _ _ own (ends h st) = drop_receiver-Own h st own
  Step-Own _ _ own (unregisters id st) = unregister-Own id st own

  pub Reach-Own : (st : Channels Answer) → Reach st → Own st
  unfolding empty get
  Reach-Own _ start = record { queue_own = λ h a e. absurd cc; map_own = λ id h e. absurd cc }
  Reach-Own _ (next old st r s) = Step-Own old st (Reach-Own old r) s

  nothing :
      (b late : Bool) (a : Answer)
      → (if b then (if late then elapsed else pending) else closed) ≡ answered a
      → ⊥
  nothing true true a e = cc
  nothing true false a e = cc
  nothing false late a e = cc

  received-queue :
      (late : Bool) (c : Channel Answer) (a : Answer)
      → receive late c ≡ answered a
      → c.queue ≡ some a
  unfolding receive
  received-queue late c a got = go c.queue got
    where
      go :
          (q : Option Answer)
          → (elim q as (λ _. Received Answer) [
            | some b ↦ answered b
            | none ↦ if c.has_sender then (if late then elapsed else pending) else closed
          ])
            ≡ answered a
          → q ≡ some a
      go none e = absurd (nothing c.has_sender late a e)
      go (some b) e = let same : b ≡ a = cc in ap some same

  -- However questions, answers, time-outs and removals follow each other, with request ids used
  -- again or not: what a handler receives is an answer to the request that it handles.
  pub receive-own :
      (st : Channels Answer) (h : ℕ) (late : Bool) (a : Answer)
      → Reach st
      → receive late (st.channel h) ≡ answered a
      → id_of a ≡ (st.channel h).request_id
  receive-own st h late a r got =
      (Reach-Own st r).queue_own h a (received-queue late (st.channel h) a got)
