-- ===== src/Vrf/Ecvrf/Completeness.antt =====
-- An honest proof is found and verifies.
use native.Mathlib.Decide.{ℕ_discrete}
use aos_operator.Shared.{
  ℕ, zero, suc, ◌+◌, ◌≤◌, ◌<◌, ◌≡◌, none, some, ok, inl, inr, arith, Option-cases, ap, ◌∙◌,
}
use aos_operator.Shared.Machine.{Profile, add_word_fits}
use aos_operator.Vrf.Curve.{Curve, Bytes}
use aos_operator.Vrf.Ecvrf.{
  Proof, VrfExpandedPrivateKey, VerifyError, expand, candidate, hash_round, hash_loop,
  hash_to_curve, prove_at, prove, verify_at, verify, and_then,
}

module _ (curve : Curve) where
  open curve use {
    Point, Scalar, basepoint, add, sub, mul, mul_by_cofactor, decompress, scalar_add, scalar_mul,
    verifying_key, InGroup, basepoint-InGroup, cofactor-InGroup, mul-scalar_add, mul-scalar_mul,
    sub-add, scalar_eq-refl,
  }

  -- `p * (k + c * x) - (p * x) * c` is `p * k`.
  response_cancels :
      (p : Point) (k c x : Scalar)
      → InGroup p
      → sub (mul p (scalar_add k (scalar_mul c x))) (mul (mul p x) c) ≡ mul p k
  response_cancels p k c x g =
      rw (mul-scalar_add p k (scalar_mul c x) g, mul-scalar_mul p c x g)
        (sub-add (mul p k) (mul (mul p x) c))

  verify_at-prove_at :
      (key : VrfExpandedPrivateKey curve) (h_point : Point)
      → InGroup h_point
      → verify_at curve (mul basepoint key.key) h_point (prove_at curve key h_point) ≡ ok tt
  unfolding verify_at prove_at
  verify_at-prove_at key h_point g = rw (
    response_cancels basepoint _ _ key.key basepoint-InGroup,
    response_cancels h_point _ _ key.key g,
    scalar_eq-refl,
  )

  module _ (fuel : ℕ) (p : Profile) (public_key alpha : Bytes) (counter : ℕ) where
    round_fits :
        counter < 255
        → hash_round curve p public_key alpha counter
          ≡ ok (candidate curve public_key alpha counter, counter + 1)
    unfolding hash_round
    round_fits h = rw (add_word_fits {E = VerifyError} 256 p counter 1 (omega arith))

    hash_loop_miss :
        counter < 255
        → candidate curve public_key alpha counter ≡ none
        → hash_loop curve (suc fuel) p public_key alpha counter
          ≡ hash_loop curve fuel p public_key alpha (counter + 1)
    unfolding hash_loop
    hash_loop_miss h miss = rw (round_fits h, miss, hash_loop)

    hash_loop_hit :
        {q : Point}
        → counter < 255
        → candidate curve public_key alpha counter ≡ some q
        → hash_loop curve (suc fuel) p public_key alpha counter ≡ some (ok (mul_by_cofactor q))
    unfolding hash_loop
    hash_loop_hit h hit = rw (round_fits h, hit, hash_loop)

  miss-lt :
      (public_key alpha : Bytes) (counter n : ℕ) {point : Point}
      → candidate curve public_key alpha n ≡ some point
      → candidate curve public_key alpha counter ≡ none
      → counter ≤ n
      → counter < n
  miss-lt public_key alpha counter n found miss low = elim (ℕ_discrete counter n) [
    | yes e ↦ let same = ap (candidate curve public_key alpha) e in cc
    | no ne ↦ omega arith
  ]

  -- A counter below 255 whose hash is a point ends the loop, whatever the build does on overflow.
  hash_loop_finds :
      (fuel : ℕ) (public_key alpha : Bytes) (counter n : ℕ) {point : Point}
      → candidate curve public_key alpha n ≡ some point
      → counter ≤ n
      → n < 255
      → n < counter + fuel
      → (h : Point) × InGroup h
        × ((p : Profile) → hash_loop curve fuel p public_key alpha counter ≡ some (ok h))
  hash_loop_finds zero public_key alpha counter n found low small enough = absurd (omega arith)
  hash_loop_finds (suc fuel) public_key alpha counter n found low small enough =
      elim (Option-cases (candidate curve public_key alpha counter)) [
        | inl miss ↦
            let next : counter + 1 ≤ n =
              omega (arith, miss-lt public_key alpha counter n found miss low) in
            let (h, g, e) =
              hash_loop_finds fuel public_key alpha (counter + 1) n found next small
                (omega arith) in
            (h, g, λ p. hash_loop_miss fuel p public_key alpha counter (omega arith) miss ∙ e p)
        | inr (q, hit) ↦ (
          mul_by_cofactor q,
          cofactor-InGroup q,
          λ p. hash_loop_hit fuel p public_key alpha counter (omega arith) hit,
        )
      ]

  -- The proof of a key for a text is found and verifies under the key's public half, if the
  -- public half is the base point times the expanded secret, and one of the first 255 hashes is
  -- a point. This holds for checked builds and for release builds.
  pub verify-prove :
      (p q : Profile) (private_key alpha : Bytes) (n : ℕ) {point : Point}
      → decompress (verifying_key private_key) ≡ some (mul basepoint (expand curve private_key).key)
      → candidate curve (verifying_key private_key) alpha n ≡ some point
      → n < 255
      → (proof : Proof curve) × (prove curve p private_key alpha ≡ some (ok proof))
        × (verify curve q (verifying_key private_key) proof alpha ≡ some (ok tt))
  unfolding prove verify hash_to_curve
  verify-prove p q private_key alpha n public found small =
      let pk = verifying_key private_key in
      let (h, g, e) = hash_loop_finds 256 pk alpha 0 n found (omega arith) small (omega arith) in
      (
        prove_at curve (expand curve private_key) h,
        rw (e p, and_then),
        rw (e q, public, and_then) (ap some (verify_at-prove_at (expand curve private_key) h g)),
      )
