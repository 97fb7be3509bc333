-- ===== src/Jobs/Dispatch/Tasks/Serving.antt =====
-- operator/runer/src/api/msg_handler.rs: while a connection of `handle_connection` serves, its task
-- works on the queue.
use aos_operator.Shared.{
  ℕ, ◌==◌, ◌≡◌, refl, true, false, List, [], ◌∷◌, Outcome, ok, err, panic, ==_refl, Bool-cases, inl,
  inr, arith,
}
use aos_operator.Shared.Hex.{HexCrates}
use aos_operator.Config.{OperatorConfig}
use aos_operator.Jobs.{OperatorError}
use aos_operator.Jobs.Dispatch.Connection.{Setup, prepare}
use aos_operator.Jobs.Dispatch.Tasks.{
  Phase, connecting, greeting, serving, ended, Connection, Happening, connect_failed, connected,
  greeted, receiver_ends, worker_returns, worker_panics, has, without, next_turn, turn, welcomed,
  task_ended, worker_panicked, happens, run,
}

-- While a connection serves, its task works on the queue.
unfoldable pub Served : Phase → ℕ → List ℕ → Type 0
Served serving made workers = has made workers ≡ true
Served _ made workers = Unit

pub has-without :
    (k n : ℕ) (ks : List ℕ) → (n == k) ≡ false → has k ks ≡ true → has k (without n ks) ≡ true
unfolding has without
has-without k n [] e h = cc
has-without k n (j ∷ ks) e h = ground (arith, has-without k n ks e)

pub has-cons : (k n : ℕ) (ks : List ℕ) → has k ks ≡ true → has k (n ∷ ks) ≡ true
unfolding has
has-cons k n ks h = ground arith

pub has_first : (n : ℕ) (ks : List ℕ) → has n (n ∷ ks) ≡ true
unfolding has
has_first n ks = rw (==_refl n) refl

abbrev pub at : Phase → ℕ → ℕ → List ℕ → List ℕ → Connection
at phase count made receivers workers = record {
  phase = phase;
  retry_count = count;
  made = made;
  receivers = receivers;
  workers = workers;
}

module _ (crates : HexCrates) {Key Address : Type 0} (setup : Setup Key Address)
    (config : OperatorConfig) where
  abbrev pub Serves : Connection → Type 0
  Serves c = Served c.phase c.made c.workers

  next_turn-Serves :
      (o : Outcome OperatorError (Key × Address)) (c : Connection)
      → Serves (next_turn crates setup config o c)
  unfolding next_turn Served
  next_turn-Serves (ok u) c = tt
  next_turn-Serves (err e) c = tt
  next_turn-Serves panic c = tt

  pub turn-Serves : (c : Connection) → Serves (turn crates setup config c)
  unfolding turn
  turn-Serves c = next_turn-Serves (prepare crates setup config) c

  welcomed-Serves :
      (answer : Outcome OperatorError (Unit {0})) (c : Connection)
      → Serves (welcomed crates setup config answer c)
  unfolding welcomed Served
  welcomed-Serves (ok u) c = elim (Bool-cases (has c.made c.receivers)) [
    | inl e ↦ rw e (has_first c.made c.workers)
    | inr e ↦ rw e (turn-Serves _)
  ]
  welcomed-Serves (err e) c = tt
  welcomed-Serves panic c = tt

  task_ended-Serves :
      (p : Phase) (n count made : ℕ) (rs ws : List ℕ)
      → ((n == made) ≡ false → Served p made ws)
      → Serves (task_ended crates setup config p n (at p count made rs ws))
  unfolding task_ended Served
  task_ended-Serves connecting n count made rs ws h = tt
  task_ended-Serves greeting n count made rs ws h = tt
  task_ended-Serves serving n count made rs ws h = elim (Bool-cases (n == made)) [
    | inl e ↦ rw e (turn-Serves (at serving count made rs ws))
    | inr e ↦ rw e (h e)
  ]
  task_ended-Serves (ended r) n count made rs ws h = tt

  worker_panicked-Serves :
      (p : Phase) (n count made : ℕ) (rs ws : List ℕ)
      → ((n == made) ≡ false → Served p made ws)
      → Serves (worker_panicked crates setup config p n (at p count made rs ws))
  unfolding worker_panicked Served
  worker_panicked-Serves connecting n count made rs ws h = tt
  worker_panicked-Serves greeting n count made rs ws h = tt
  worker_panicked-Serves serving n count made rs ws h = elim (Bool-cases (n == made)) [
    | inl e ↦ rw e tt
    | inr e ↦ rw e (h e)
  ]
  worker_panicked-Serves (ended r) n count made rs ws h = tt

  -- A task that works on the queue and is not that of the connection that serves has ended.
  Served-without :
      (p : Phase) (n made : ℕ) (ws : List ℕ)
      → Served p made ws
      → (n == made) ≡ false
      → Served p made (without n ws)
  unfolding Served
  Served-without connecting n made ws h e = tt
  Served-without greeting n made ws h e = tt
  Served-without serving n made ws h e = has-without made n ws e h
  Served-without (ended r) n made ws h e = tt

  happens-Serves :
      (h : Happening) (p : Phase) (count made : ℕ) (rs ws : List ℕ)
      → Served p made ws
      → Serves (happens crates setup config h p (at p count made rs ws))
  unfolding happens Served
  happens-Serves connect_failed connecting count made rs ws s = turn-Serves _
  happens-Serves connect_failed greeting count made rs ws s = s
  happens-Serves connect_failed serving count made rs ws s = s
  happens-Serves connect_failed (ended r) count made rs ws s = s
  happens-Serves connected connecting count made rs ws s = tt
  happens-Serves connected greeting count made rs ws s = s
  happens-Serves connected serving count made rs ws s = s
  happens-Serves connected (ended r) count made rs ws s = s
  happens-Serves (greeted a) connecting count made rs ws s = s
  happens-Serves (greeted a) greeting count made rs ws s = welcomed-Serves a _
  happens-Serves (greeted a) serving count made rs ws s = s
  happens-Serves (greeted a) (ended r) count made rs ws s = s
  happens-Serves (receiver_ends n) p count made rs ws s =
      task_ended-Serves p n count made (without n rs) ws (λ e. s)
  happens-Serves (worker_returns n) p count made rs ws s =
      task_ended-Serves p n count made rs (without n ws) (Served-without p n made ws s)
  happens-Serves (worker_panics n) p count made rs ws s =
      worker_panicked-Serves p n count made rs (without n ws) (Served-without p n made ws s)

  pub run-Serves :
      (hs : List Happening) (c : Connection) → Serves c → Serves (run crates setup config hs c)
  unfolding run
  run-Serves [] c s = s
  run-Serves (h ∷ hs) c s =
      run-Serves hs (happens crates setup config h c.phase c)
        (happens-Serves h c.phase c.retry_count c.made c.receivers c.workers s)
