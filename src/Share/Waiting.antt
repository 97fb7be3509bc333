-- ===== src/Share/Waiting.antt =====
-- How long a reader or a writer waits.
use aos_operator.Shared.{
  ℕ, ◌+◌, ◌≤◌, ◌≡◌, refl, ◌⊎◌, inl, inr, none, some, List, [], ◌∷◌, ok, panic, Option-cases, arith,
}
use aos_operator.Share.{Lock, Attempt, read_attempts, write_attempts, acquire, share_ref, share_mut}

abbrev pub total : List Attempt → ℕ
total [] = 0
total ((a, timeout) ∷ attempts) = timeout + total attempts

module _ (lock : Lock) where
  open lock use {try_for, try_for_lem}

  -- Every attempt failed, each when the one before it had.
  abbrev pub AllFail : List Attempt → ℕ → Type 0
  AllFail [] now = Unit
  AllFail ((a, timeout) ∷ attempts) now =
      (try_for a now timeout ≡ none) × AllFail attempts (now + timeout)

  acquire_lem :
      (attempts : List Attempt) (now : ℕ)
      → ((acquire lock attempts now ≡ none) × AllFail attempts now)
        ⊎ ((at : ℕ) × (acquire lock attempts now ≡ some at)
            × (now ≤ at)
            × (at ≤ now + total attempts))
  unfolding acquire
  acquire_lem [] now = inl (refl, tt)
  acquire_lem ((a, timeout) ∷ attempts) now = elim (Option-cases (try_for a now timeout)) [
    | inr (at, had) ↦
        let bound = try_for_lem a now timeout at had in
        inr (at, rw had refl, bound.0, omega (arith, bound.1))
    | inl failed ↦ elim (acquire_lem attempts (now + timeout)) [
      | inl (none', all) ↦ inl (rw failed none', (failed, all))
      | inr (at, had, low, high) ↦ inr (at, rw failed had, omega (arith, low), omega (arith, high))
    ]
  ]

  -- A reader calls its function within 270.1 seconds, and a writer within 300.1; if not, each of
  -- its attempts failed, the next one begun when the last was over, and it panics.
  pub share_waits :
      {T R : Type 0} (f : T → R) (g : T → R × T) (t : T) (now : ℕ)
      → (((share_ref lock f t now ≡ panic) × AllFail read_attempts now)
          ⊎ ((at : ℕ) × (share_ref lock f t now ≡ ok (f t, at)) × (now ≤ at) × (at ≤ now + 270100)))
        × (((share_mut lock g t now ≡ panic) × AllFail write_attempts now)
            ⊎ ((at : ℕ) × (share_mut lock g t now ≡ ok ((g t).0, (g t).1, at))
                × (now ≤ at)
                × (at ≤ now + 300100)))
  unfolding share_ref share_mut
  share_waits f g t now = (
    elim (acquire_lem read_attempts now) [
      | inl (none_left, all) ↦ inl (rw none_left refl, all)
      | inr (at, had, low, high) ↦ inr (at, rw had refl, low, omega (arith, high))
    ],
    elim (acquire_lem write_attempts now) [
      | inl (none_left, all) ↦ inl (rw none_left refl, all)
      | inr (at, had, low, high) ↦ inr (at, rw had refl, low, omega (arith, high))
    ],
  )
