-- ===== src/Signature/Malleability.antt =====
-- The two signatures that differ by the sign of `s`.
use aos_operator.Shared.{
  ℕ, ◌+◌, ◌-◌, ◌*◌, ◌<◌, ◌≤◌, ◌≡◌, refl, ◌⊎◌, inl, inr, true, false, not, Option, none, List, ltb,
  arith, ltb→lt, Bool-cases,
}
use aos_operator.Signature.{Signature, secp256k1n_half, recover_signer, recover_signer_unchecked}

-- The order of the group, which is odd.
abbrev pub secp256k1n : ℕ
secp256k1n = 2 * secp256k1n_half + 1

-- The same signature with `s` and the parity of the point negated: it recovers the same signer.
unfoldable pub negated : Signature → Signature
negated sig = record { r = sig.r; s = secp256k1n - sig.s; odd_y_parity = not sig.odd_y_parity }

module _ {Address : Type 0} (recover : List ℕ → List ℕ → Option Address) (hash : List ℕ) where
  high_refused :
      (sig : Signature) → secp256k1n_half < sig.s → recover_signer recover sig hash ≡ none
  unfolding recover_signer
  high_refused sig h = let high : ltb secp256k1n_half sig.s ≡ true = ground arith in rw high refl

  low_accepted :
      (sig : Signature)
      → sig.s ≤ secp256k1n_half
      → recover_signer recover sig hash ≡ recover_signer_unchecked recover sig hash
  unfolding recover_signer
  low_accepted sig h = let low : ltb secp256k1n_half sig.s ≡ false = ground arith in rw low refl

  -- Of a signature whose `s` is at most the order of the group and of its negation, `recover_signer`
  -- hands exactly one to the recovery of the key, and refuses the other: it hands on the signature
  -- itself if its `s` is at most half of the order, rounded down, and the negation if it is more.
  pub recover_signer-negated :
      (sig : Signature)
      → sig.s ≤ secp256k1n
      → ((sig.s ≤ secp256k1n_half)
          × (recover_signer recover sig hash ≡ recover_signer_unchecked recover sig hash)
          × (recover_signer recover (negated sig) hash ≡ none))
        ⊎ ((secp256k1n_half < sig.s)
            × (recover_signer recover sig hash ≡ none)
            × (recover_signer recover (negated sig) hash
                ≡ recover_signer_unchecked recover (negated sig) hash))
  unfolding negated
  recover_signer-negated sig h = elim (Bool-cases (ltb secp256k1n_half sig.s)) [
    | inl is_high ↦
        let high : secp256k1n_half < sig.s = ltb→lt secp256k1n_half sig.s is_high in
        inr (high, high_refused sig high, low_accepted (negated sig) (omega arith))
    | inr is_low ↦
        let low : sig.s ≤ secp256k1n_half = ground arith in
        inl (low, low_accepted sig low, high_refused (negated sig) (omega arith))
  ]
