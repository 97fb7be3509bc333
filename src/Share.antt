-- ===== src/Share.antt =====
-- crates/tools/src/rw_share.rs: a shared value whose readers and writers give up in the end.
pub mod Waiting
use aos_operator.Shared.{ℕ, ◌+◌, ◌≤◌, ◌≡◌, Option, none, some, List, [], ◌∷◌, Outcome, ok, panic}

-- The ways to ask for the lock.
pub data Access : Type 0 where
  fair_read recursive_read write : Access

-- What is used of `parking_lot::RwLock`, in milliseconds: an attempt that begins at `now` has the
-- lock at a time before its timeout is over, or fails when it is over.
pub record Lock : Type 0 where
  pub try_for : Access → ℕ → ℕ → Option ℕ
  pub try_for_lem :
      (a : Access) (now timeout at : ℕ)
      → try_for a now timeout ≡ some at
      → (now ≤ at) × (at ≤ now + timeout)

abbrev pub Attempt : Type 0
Attempt = Access × ℕ

abbrev pub read_attempts : List Attempt
read_attempts =
    (fair_read, 100) ∷ (fair_read, 30000) ∷ (recursive_read, 60000) ∷ (recursive_read, 180000) ∷ []

abbrev pub write_attempts : List Attempt
write_attempts = (write, 100) ∷ (write, 120000) ∷ (write, 180000) ∷ []

module _ (lock : Lock) where
  open lock use {try_for}

  -- `Option::or_else`
  abbrev pub or_else : Option ℕ → Option ℕ → Option ℕ
  or_else none later = later
  or_else (some at) later = some at

  -- The attempts one after the other: the time at which one has the lock.
  unfoldable pub acquire : List Attempt → ℕ → Option ℕ
  acquire [] now = none
  acquire ((a, timeout) ∷ attempts) now =
      let later = acquire attempts (now + timeout) in or_else (try_for a now timeout) later

  module _ {T R : Type 0} where
    abbrev pub shared : (T → R) → T → Option ℕ → Outcome ⊥ (R × ℕ)
    shared f t none = panic
    shared f t (some at) = ok (f t, at)

    -- `share_ref`, with the time at which `f` is called; no lock is a panic.
    unfoldable pub share_ref : (T → R) → T → ℕ → Outcome ⊥ (R × ℕ)
    share_ref f t now = shared f t (acquire read_attempts now)

    abbrev pub changed : (T → R × T) → T → Option ℕ → Outcome ⊥ (R × T × ℕ)
    changed f t none = panic
    changed f t (some at) = let (r, t') = f t in ok (r, t', at)

    -- `share_mut`, with the new value
    unfoldable pub share_mut : (T → R × T) → T → ℕ → Outcome ⊥ (R × T × ℕ)
    share_mut f t now = changed f t (acquire write_attempts now)
