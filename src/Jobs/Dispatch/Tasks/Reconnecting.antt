-- ===== src/Jobs/Dispatch/Tasks/Reconnecting.antt =====
-- operator/runer/src/api/msg_handler.rs: the tasks that lost connections leave behind.
use mathlib.Core.Path.{subst}
use aos_operator.Shared.{
  ℕ, ◌==◌, ◌||◌, ◌<◌, ◌≤◌, ◌≡◌, refl, ap, sym, ◌∙◌, Bool, true, false, List, [], ◌∷◌, ◌++◌, Outcome,
  ok, err, panic, ==_refl, Bool-cases, inl, inr, arith,
}
use aos_operator.Shared.Hex.{HexCrates}
use aos_operator.Config.{OperatorConfig}
use aos_operator.Jobs.{OperatorError}
use aos_operator.Jobs.Dispatch.Connection.{Setup, prepare}
use aos_operator.Jobs.Dispatch.Tasks.{
  Phase, connecting, greeting, serving, ended, Connection, start, Happening, connect_failed,
  connected, greeted, receiver_ends, worker_returns, worker_panics, has, without, next_turn, turn,
  welcomed, task_ended, worker_panicked, happens, run, handle_connection,
}
use aos_operator.Jobs.Dispatch.Tasks.Serving.{
  Served, Serves, turn-Serves, at, has-without, has-cons, run-Serves,
}

-- Whether the task of connection `k` that works on the queue ends.
unfoldable pub worker_ends : ℕ → List Happening → Bool
worker_ends k [] = false
worker_ends k (worker_returns n ∷ hs) = (n == k) || worker_ends k hs
worker_ends k (worker_panics n ∷ hs) = (n == k) || worker_ends k hs
worker_ends k (_ ∷ hs) = worker_ends k hs

-- Connection `k` is over.
Over : Phase → ℕ → ℕ → Type 0
Over connecting k made = k ≤ made
Over greeting k made = k < made
Over serving k made = k < made
Over (ended r) k made = k ≤ made

-- Its task works on the queue, and it is over.
Leftover : ℕ → Connection → Type 0
Leftover k c = (has k c.workers ≡ true) × Over c.phase k c.made

or_left_false : (a b : Bool) → (a || b) ≡ false → a ≡ false
or_left_false false b e = refl
or_left_false true b e = cc

worker_ends_head :
    (k : ℕ) (h : Happening) (hs : List Happening)
    → worker_ends k (h ∷ hs) ≡ false
    → (worker_ends k (h ∷ []) ≡ false) × (worker_ends k hs ≡ false)
unfolding worker_ends
worker_ends_head k connect_failed hs e = (refl, e)
worker_ends_head k connected hs e = (refl, e)
worker_ends_head k (greeted a) hs e = (refl, e)
worker_ends_head k (receiver_ends n) hs e = (refl, e)
worker_ends_head k (worker_returns n) hs e = ground arith
worker_ends_head k (worker_panics n) hs e = ground arith

module _ (crates : HexCrates) {Key Address : Type 0} (setup : Setup Key Address)
    (config : OperatorConfig) where
  next_turn-Leftover :
      (o : Outcome OperatorError (Key × Address)) (k : ℕ) (c : Connection)
      → has k c.workers ≡ true
      → k ≤ c.made
      → Leftover k (next_turn crates setup config o c)
  unfolding next_turn Leftover Over
  next_turn-Leftover (ok u) k c h le = (h, le)
  next_turn-Leftover (err e) k c h le = (h, le)
  next_turn-Leftover panic k c h le = (h, le)

  turn-Leftover :
      (k : ℕ) (c : Connection)
      → has k c.workers ≡ true
      → k ≤ c.made
      → Leftover k (turn crates setup config c)
  unfolding turn
  turn-Leftover k c h le = next_turn-Leftover (prepare crates setup config) k c h le

  welcomed-Leftover :
      (answer : Outcome OperatorError (Unit {0})) (k : ℕ) (c : Connection)
      → has k c.workers ≡ true
      → k < c.made
      → Leftover k (welcomed crates setup config answer c)
  unfolding welcomed Leftover Over
  welcomed-Leftover (ok u) k c h lt =
      let h1 = has-cons k c.made c.workers h in
      elim (Bool-cases (has c.made c.receivers)) [
        | inl e ↦ rw e (h1, lt)
        | inr e ↦ rw e (
            turn-Leftover k (record c { phase = serving; workers = c.made ∷ c.workers }) h1
              (omega arith))
      ]
  welcomed-Leftover (err e) k c h lt = (h, omega arith)
  welcomed-Leftover panic k c h lt = (h, omega arith)

  task_ended-Leftover :
      (p : Phase) (k n count made : ℕ) (rs ws : List ℕ)
      → has k ws ≡ true
      → Over p k made
      → Leftover k (task_ended crates setup config p n (at p count made rs ws))
  unfolding task_ended Leftover Over
  task_ended-Leftover connecting k n count made rs ws h le = (h, le)
  task_ended-Leftover greeting k n count made rs ws h lt = (h, lt)
  task_ended-Leftover serving k n count made rs ws h lt = elim (Bool-cases (n == made)) [
    | inl e ↦ rw e (turn-Leftover k (at serving count made rs ws) h (omega arith))
    | inr e ↦ rw e (h, lt)
  ]
  task_ended-Leftover (ended r) k n count made rs ws h le = (h, le)

  worker_panicked-Leftover :
      (p : Phase) (k n count made : ℕ) (rs ws : List ℕ)
      → has k ws ≡ true
      → Over p k made
      → Leftover k (worker_panicked crates setup config p n (at p count made rs ws))
  unfolding worker_panicked Leftover Over
  worker_panicked-Leftover connecting k n count made rs ws h le = (h, le)
  worker_panicked-Leftover greeting k n count made rs ws h lt = (h, lt)
  worker_panicked-Leftover serving k n count made rs ws h lt = elim (Bool-cases (n == made)) [
    | inl e ↦ rw e (h, omega arith)
    | inr e ↦ rw e (h, lt)
  ]
  worker_panicked-Leftover (ended r) k n count made rs ws h le = (h, le)

  happens-Leftover :
      (h : Happening) (p : Phase) (k count made : ℕ) (rs ws : List ℕ)
      → worker_ends k (h ∷ []) ≡ false
      → has k ws ≡ true
      → Over p k made
      → Leftover k (happens crates setup config h p (at p count made rs ws))
  unfolding happens worker_ends Leftover Over
  happens-Leftover connect_failed connecting k count made rs ws e w o = turn-Leftover k _ w o
  happens-Leftover connect_failed greeting k count made rs ws e w o = (w, o)
  happens-Leftover connect_failed serving k count made rs ws e w o = (w, o)
  happens-Leftover connect_failed (ended r) k count made rs ws e w o = (w, o)
  happens-Leftover connected connecting k count made rs ws e w o = (w, omega arith)
  happens-Leftover connected greeting k count made rs ws e w o = (w, o)
  happens-Leftover connected serving k count made rs ws e w o = (w, o)
  happens-Leftover connected (ended r) k count made rs ws e w o = (w, o)
  happens-Leftover (greeted a) connecting k count made rs ws e w o = (w, o)
  happens-Leftover (greeted a) greeting k count made rs ws e w o = welcomed-Leftover a k _ w o
  happens-Leftover (greeted a) serving k count made rs ws e w o = (w, o)
  happens-Leftover (greeted a) (ended r) k count made rs ws e w o = (w, o)
  happens-Leftover (receiver_ends n) p k count made rs ws e w o =
      task_ended-Leftover p k n count made (without n rs) ws w o
  happens-Leftover (worker_returns n) p k count made rs ws e w o =
      task_ended-Leftover p k n count made rs (without n ws)
        (has-without k n ws (or_left_false (n == k) false e) w) o
  happens-Leftover (worker_panics n) p k count made rs ws e w o =
      worker_panicked-Leftover p k n count made rs (without n ws)
        (has-without k n ws (or_left_false (n == k) false e) w) o

  -- The task of a connection that is over goes on, unless it ends by itself.
  run-Leftover :
      (hs : List Happening) (k : ℕ) (c : Connection)
      → worker_ends k hs ≡ false
      → Leftover k c
      → Leftover k (run crates setup config hs c)
  unfolding run Leftover
  run-Leftover [] k c e l = l
  run-Leftover (h ∷ hs) k c e (w, o) =
      let (first, rest) = worker_ends_head k h hs e in
      run-Leftover hs k (happens crates setup config h c.phase c) rest
        (happens-Leftover h c.phase k c.retry_count c.made c.receivers c.workers first w o)

  -- A connection that serves and whose receiving task ends leaves its other task behind.
  left_behind :
      (count made : ℕ) (rs ws : List ℕ) (after : List Happening)
      → has made ws ≡ true
      → worker_ends made after ≡ false
      → Leftover made
          (run crates setup config (receiver_ends made ∷ after) (at serving count made rs ws))
  unfolding run happens task_ended
  left_behind count made rs ws after w e = rw (==_refl made) (
      run-Leftover after made _ e
        (turn-Leftover made (at serving count made (without made rs) ws) w (omega arith)))

  run-append :
      (hs hs' : List Happening) (c : Connection)
      → run crates setup config (hs ++ hs') c
        ≡ run crates setup config hs' (run crates setup config hs c)
  unfolding run
  run-append [] hs' c = refl
  run-append (h ∷ hs) hs' c = run-append hs hs' (happens crates setup config h c.phase c)

  left_last :
      (c : Connection) (after : List Happening)
      → Serves crates setup config c
      → c.phase ≡ serving
      → worker_ends c.made after ≡ false
      → Leftover c.made (run crates setup config (receiver_ends c.made ∷ after) c)
  unfolding Served
  left_last c after s p e =
      let same : at serving c.retry_count c.made c.receivers c.workers ≡ c =
        ap (λ q. at q c.retry_count c.made c.receivers c.workers) (sym p) in
      let w = subst (λ q. Served q c.made c.workers) p s in
      subst (λ d. Leftover c.made (run crates setup config (receiver_ends c.made ∷ after) d)) same
        (left_behind c.retry_count c.made c.receivers c.workers after w e)

  serving_both :
      (k : ℕ) (last : Connection)
      → Serves crates setup config last
      → Leftover k last
      → last.phase ≡ serving
      → (has k last.workers ≡ true) × (has last.made last.workers ≡ true) × (k < last.made)
  unfolding Leftover Over Served
  serving_both k last s (w, o) p =
      (w, subst (λ q. Served q last.made last.workers) p s, subst (λ q. Over q k last.made) p o)

  -- When the receiving task of a connection that serves ends, the connection's task that works on
  -- the queue stays: if it does not end by itself, whatever happens to the loop and to the other
  -- tasks, then once the loop serves a connection again, two different tasks work on the queue, this
  -- one and that of the later connection.
  pub workers_side_by_side :
      (before after : List Happening) (c last : Connection)
      → handle_connection crates setup config true before ≡ c
      → handle_connection crates setup config true (before ++ receiver_ends c.made ∷ after) ≡ last
      → c.phase ≡ serving
      → worker_ends c.made after ≡ false
      → last.phase ≡ serving
      → (has c.made last.workers ≡ true)
        × (has last.made last.workers ≡ true)
        × (c.made < last.made)
  unfolding handle_connection
  workers_side_by_side before after c last ec el p e q =
      let first = turn crates setup config start in
      let sc =
        run-Serves crates setup config before first (turn-Serves crates setup config start) in
      let s = subst (λ d. Serves crates setup config d) ec sc in
      let go : run crates setup config (receiver_ends c.made ∷ after) c ≡ last =
        subst (λ d. run crates setup config (receiver_ends c.made ∷ after) d ≡ last) ec
          (sym (run-append before (receiver_ends c.made ∷ after) first) ∙ el) in
      let sl =
        subst (λ d. Serves crates setup config d) go
          (run-Serves crates setup config (receiver_ends c.made ∷ after) c s) in
      let l = subst (λ d. Leftover c.made d) go (left_last c after s p e) in
      serving_both c.made last sl l q
