-- ===== src/Websocket/Core/Invariant.antt =====
-- The steps of a connection, its invariant, and that a channel settles once.
use mathlib.Core.Path.{subst}
use aos_operator.Shared.{
  ℕ, ◌<◌, ◌≡◌, ◌≢◌, refl, ap, sym, ◌∙◌, true, false, Option, none, some, [], ◌∷◌, ◌==◌, ==_iff,
  if-true, if-false, arith, Bool-cases, inl, inr,
}
use aos_operator.Shared.Text.{Text, text_eq}
use aos_operator.Shared.TextMap.{TextMap, get, insert, remove}
use aos_operator.Websocket.{WireMessage}
use aos_operator.Websocket.Core.{
  Slot, waiting, sender_dropped, delivered, State, set_slot, drop_sender, drain, close, deliver,
  deliver_to, answer, insert_callback, drop_callback,
}
use aos_operator.Websocket.Core.Delivery.{held, get-held, drain-held}

-- No channel stands in the map twice.
unfoldable pub Unique : TextMap ℕ → Type 0
Unique [] = Unit
Unique ((id, h) ∷ m) = (held h m ≡ false) × Unique m

held-remove : (h : ℕ) (id : Text) (m : TextMap ℕ) → held h m ≡ false → held h (remove id m) ≡ false
unfolding held remove
held-remove h id [] e = e
held-remove h id ((k, j) ∷ m) e = ground (arith, held-remove h id m)

held_before : (h : ℕ) (id : Text) (m : TextMap ℕ) → held h (remove id m) ≡ true → held h m ≡ true
held_before h id m e = elim (Bool-cases (held h m)) [
  | inl f ↦ f
  | inr f ↦ let g = held-remove h id m f in absurd cc
]

Unique-remove : (id : Text) (m : TextMap ℕ) → Unique m → Unique (remove id m)
unfolding Unique remove
Unique-remove id [] u = tt
Unique-remove id ((k, j) ∷ m) u = elim (Bool-cases (text_eq id k)) [
  | inl e ↦ rw e (Unique-remove id m u.1)
  | inr e ↦ rw e (held-remove j id m u.0, Unique-remove id m u.1)
]

-- A sender that is taken out is held no more.
taken :
    (id : Text) (m : TextMap ℕ) (h : ℕ)
    → Unique m
    → get id m ≡ some h
    → held h (remove id m) ≡ false
unfolding Unique held remove get
taken id [] h u e = cc
taken id ((k, j) ∷ m) h u e = ground (arith, held-remove h id m, get-held id m h, taken id m h)

module _ {Value : Type 0} where
  -- Every sender in the map is that of a channel that exists and waits, no two senders are of the
  -- same channel, and the map of a closed connection is empty.
  pub record Inv (st : State Value) : Type 0 where
    pub waits : (h : ℕ) → held h st.callback ≡ true → (st.slots h ≡ waiting) × (h < st.channels)
    pub unique : Unique st.callback
    pub closed : st.is_open ≡ false → st.callback ≡ []

  -- A step that leaves settled channels settled: what it does to each channel that exists.
  pub record Keeps (st st' : State Value) : Type 0 where
    pub grows : (h : ℕ) → h < st.channels → h < st'.channels
    pub settled : (h : ℕ) → h < st.channels → st.slots h ≢ waiting → st'.slots h ≡ st.slots h

  abbrev pub Good : State Value → State Value → Type 0
  Good st st' = Inv st' × Keeps st st'

  pub refl-Good : (st : State Value) → Inv st → Good st st
  refl-Good st i = (i, record { grows = λ h x. x; settled = λ h x y. refl })

  pub trans-Good : {a b c : State Value} → Good a b → Good b c → Good a c
  trans-Good p q = (
    q.0,
    record {
      grows = λ h x. q.1.grows h (p.1.grows h x);
      settled = λ h x y.
          let e = p.1.settled h x y in q.1.settled h (p.1.grows h x) (λ w. y (sym e ∙ w)) ∙ e;
    },
  )

  -- Taking a sender out and settling its channel.
  settle-Good :
      (st : State Value) (id : Text) (h : ℕ) (s : Slot Value)
      → get id st.callback ≡ some h
      → Inv st
      → Good st (record st { callback = remove id st.callback; slots = set_slot h s st.slots })
  unfolding remove
  settle-Good st id h s e i = (
    record {
      waits = λ j x. elim (Bool-cases (j == h)) [
        | inl f ↦
            let same = (==_iff j h).0 f in let gone = taken id st.callback h i.unique e in absurd cc
        | inr f ↦ rw f (i.waits j (held_before j id st.callback x))
      ];
      unique = Unique-remove id st.callback i.unique;
      closed = λ x. ap (remove id) (i.closed x);
    },
    record {
      grows = λ j x. x;
      settled = λ j x y. elim (Bool-cases (j == h)) [
        | inl f ↦
            let same = (==_iff j h).0 f in
            let wait = (i.waits h (get-held id st.callback h e)).0 in absurd (y (rw same wait))
        | inr f ↦ rw f refl
      ];
    },
  )

  remove-Good :
      (st : State Value) (id : Text)
      → Inv st
      → Good st (record st { callback = remove id st.callback })
  unfolding remove
  remove-Good st id i = (
    record {
      waits = λ j x. i.waits j (held_before j id st.callback x);
      unique = Unique-remove id st.callback i.unique;
      closed = λ x. ap (remove id) (i.closed x);
    },
    record { grows = λ j x. x; settled = λ j x y. refl },
  )

  -- What a response does to the channel.
  settlement : Option Value → Slot Value
  settlement none = sender_dropped
  settlement (some v) = delivered v

  answer-settlement :
      (h : ℕ) (result : Option Value) (slots : ℕ → Slot Value)
      → answer h result slots ≡ set_slot h (settlement result) slots
  unfolding answer settlement
  answer-settlement h none slots = refl
  answer-settlement h (some v) slots = refl

  pub deliver-Good :
      (recvd : WireMessage Value) (st : State Value) → Inv st → Good st (deliver recvd st)
  unfolding deliver deliver_to
  deliver-Good recvd st i = go (get recvd.id st.callback) refl
    where
      go :
          (found : Option ℕ)
          → get recvd.id st.callback ≡ found
          → Good st (deliver_to found recvd st)
      go none e = refl-Good st i
      go (some h) e =
          subst (λ x. Good st (record st { callback = remove recvd.id st.callback; slots = x }))
            (sym (answer-settlement h recvd.result st.slots))
            (settle-Good st recvd.id h (settlement recvd.result) e i)

  pub drop_callback-Good : (id : Text) (st : State Value) → Inv st → Good st (drop_callback id st)
  unfolding drop_callback drop_sender
  drop_callback-Good id st i = go (get id st.callback) refl
    where
      go :
          (found : Option ℕ)
          → get id st.callback ≡ found
          → Good st
              (record st { callback = remove id st.callback; slots = drop_sender found st.slots })
      go none e = remove-Good st id i
      go (some h) e = settle-Good st id h sender_dropped e i

  closed-Good :
      (st : State Value)
      → Inv st
      → Good st (record st { is_open = false; callback = []; slots = drain st.callback st.slots })
  unfolding held Unique
  closed-Good st i = (
    record { waits = λ h x. absurd cc; unique = tt; closed = λ x. refl },
    record {
      grows = λ h x. x;
      settled = λ h x y. elim (Bool-cases (held h st.callback)) [
        | inl e ↦ absurd (y (i.waits h e).0)
        | inr e ↦ drain-held st.callback st.slots h ∙ if-false _ _ e
      ];
    },
  )

  pub close-Good : (st : State Value) → Inv st → Good st (close st)
  unfolding close
  close-Good st i = elim (Bool-cases st.is_open) [
    | inl e ↦ subst (λ x. Good st x) (sym (if-true _ _ e)) (closed-Good st i)
    | inr e ↦ subst (λ x. Good st x) (sym (if-false _ _ e)) (refl-Good st i)
  ]

  pub insert_callback-Good :
      (id : Text) (st : State Value) → st.is_open ≡ true → Inv st → Good st (insert_callback id st)
  unfolding insert_callback drop_callback insert held Unique
  insert_callback-Good id st open_ i =
      let dropped = drop_callback-Good id st i in
      let free : held st.channels (remove id st.callback) ≡ false =
        elim (Bool-cases (held st.channels (remove id st.callback))) [
          | inl e ↦ absurd (omega (arith, (dropped.0.waits st.channels e).1))
          | inr e ↦ e
        ] in
      (
        record {
          waits = λ j x. elim (Bool-cases (j == st.channels)) [
            | inl e ↦
                let q : j ≡ st.channels = (==_iff j st.channels).0 e in rw e (refl, omega arith)
            | inr e ↦
                let old : held j (remove id st.callback) ≡ true = rw e at x in
                let w = dropped.0.waits j old in rw e (w.0, omega (arith, w.1))
          ];
          unique = (free, dropped.0.unique);
          closed = λ x. absurd cc;
        },
        record {
          grows = λ j x. omega arith;
          settled = λ j x y.
              let ne : (j == st.channels) ≡ false = ground arith in
              if-false _ _ ne ∙ dropped.1.settled j x y;
        },
      )
