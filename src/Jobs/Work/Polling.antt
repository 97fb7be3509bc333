-- ===== src/Jobs/Work/Polling.antt =====
-- When a job gets a worker, and when it gives up.
use aos_operator.Shared.{
  ℕ, zero, suc, ◌+◌, ◌<◌, ◌≤◌, ◌≡◌, refl, ◌⊎◌, inl, inr, Bool, true, false, Option, ok, err,
  if-true, if-false, Bool-cases, ◌==◌, ==_iff, arith, ◌∙◌,
}
use aos_operator.Shared.Text.{codes}
use aos_operator.Jobs.{op_timeout_error}
use aos_operator.Jobs.Work.{poll_answer, poll_from, poll, retry_limit}

module _ {S : Type 0} (ready : S → Bool) (status : ℕ → Option S) where
  -- The attempts from `n` up to `m`, `m` not included, found no worker ready.
  abbrev pub Busy : ℕ → ℕ → Type 0
  Busy n m = (k : ℕ) → n ≤ k → k < m → poll_answer ready (status k) ≡ false

  poll_from_lem :
      (left n : ℕ)
      → ((k : ℕ) × (k < n + left)
          × (poll_answer ready (status k) ≡ true)
          × Busy n k
          × (poll_from ready status left n ≡ ok k))
        ⊎ (Busy n (n + left)
            × (poll_from ready status left n
                ≡ err (op_timeout_error (codes "opml question timeout"))))
  unfolding poll_from
  poll_from_lem zero n = inr ((λ k h l. absurd (omega arith)), refl)
  poll_from_lem (suc left) n = elim (Bool-cases (poll_answer ready (status n))) [
    | inl e ↦ inl (n, omega arith, e, (λ k h l. absurd (omega arith)), if-true _ _ e)
    | inr e ↦ elim (poll_from_lem left (suc n)) [
      | inl (k, below, good, busy, found) ↦
          inl (k, omega arith, good, earlier k e busy, if-false _ _ e ∙ found)
      | inr (busy, over) ↦ inr (later e busy, if-false _ _ e ∙ over)
    ]
  ]
    where
      earlier : (m : ℕ) → poll_answer ready (status n) ≡ false → Busy (suc n) m → Busy n m
      earlier m e busy k h l = elim (Bool-cases (k == n)) [
        | inl q ↦ rw ((==_iff k n).0 q) e
        | inr q ↦ busy k (ground arith) l
      ]

      later :
          poll_answer ready (status n) ≡ false → Busy (suc n) (suc n + left) → Busy n (n + suc left)
      later e busy k h l = earlier (suc n + left) e busy k h (omega arith)

  -- A job asks for its worker's status at most 600 times. It goes on at the first answer that
  -- says that the worker is ready, errors counting as attempts, and otherwise times out.
  pub poll_first :
      ((k : ℕ) × (k < retry_limit)
        × (poll_answer ready (status k) ≡ true)
        × Busy 0 k
        × (poll ready status ≡ ok k))
      ⊎ (Busy 0 retry_limit
          × (poll ready status ≡ err (op_timeout_error (codes "opml question timeout"))))
  unfolding poll
  poll_first = poll_from_lem retry_limit 0
