-- ===== src/Vrf/Reply/Selection.antt =====
-- Which outputs `run_vrf` selects.
use aos_operator.Shared.{
  ℕ, zero, suc, ◌+◌, ◌-◌, ◌%◌, ◌^◌, ◌≤◌, ◌<◌, ◌≡◌, refl, ok, panic, true, some, [], ◌∷◌, arith, ltb,
  inl, inr, ◌⊎◌, length, take, drop, All, length-drop, ap, ◌∙◌,
}
use aos_operator.Shared.Machine.{Profile, u64_mod, sub_word_fits, sub_word_below}
use aos_operator.Shared.Text.{Text}
use aos_operator.Shared.Hex.{
  HexCrates, IsByte, be_value, hex_value, all_hexdigits, length-encode, all_hexdigits-encode,
  all_hexdigits-drop, hex_value-drop, hex_value-encode,
}
use aos_operator.Vrf.Curve.{Curve, Bytes}
use aos_operator.Vrf.Ecvrf.{Proof, VerifyError, output, to_bytes}
use aos_operator.Vrf.Sampler.{hex_to_biguint, meets_threshold}
use aos_operator.Vrf.Reply.{VrfReply, slice, reply}

take_all : (s : Text) (n : ℕ) → length s ≤ n → take n s ≡ s
take_all [] zero h = refl
take_all [] (suc n) h = refl
take_all (c ∷ s) zero h = elim h [ ]
take_all (c ∷ s) (suc n) h = ap (λ t. c ∷ t) (take_all s n (omega arith))

-- A slice up to the end of a text.
slice_end :
    (s : Text) (start end : ℕ)
    → length s ≡ end
    → start ≤ end
    → slice {E = VerifyError} s start end ≡ ok (drop start s)
unfolding slice
slice_end s start end e h =
    let whole = take_all (drop start s) (end - start) (omega (arith, length-drop start s)) in
    ground (arith, whole)

slice_backwards :
    (s : Text) (start end : ℕ) → end < start → slice {E = VerifyError} s start end ≡ panic
unfolding slice
slice_backwards s start end h = ground arith

nil_of_length : (s : Text) → length s ≡ 0 → s ≡ []
nil_of_length [] h = refl
nil_of_length (c ∷ s) h = absurd (omega arith)

module _ (curve : Curve) (crates : HexCrates) (p : Profile) where
  open crates use {encode, from_str_radix_16, radix-digits, radix-nil}

  -- `hex_to_biguint` on a text of digits that is not empty.
  digits_read :
      (s : Text) → 0 < length s → all_hexdigits s ≡ true → from_str_radix_16 s ≡ some (hex_value s)
  digits_read [] h d = elim h [ ]
  digits_read (c ∷ s) h d = radix-digits c s d

  output-IsByte : (proof : Proof curve) → All IsByte (output curve proof)
  unfolding output
  output-IsByte proof = curve.sha512-IsByte _

  length-random : (proof : Proof curve) → length (encode (output curve proof)) ≡ 128
  unfolding output
  length-random proof = omega (
    arith,
    length-encode crates (output curve proof) (output-IsByte proof),
    curve.length-sha512 (3 ∷ 3 ∷ curve.compress (curve.mul_by_cofactor proof.gamma)),
  )

  -- The reply on a precision between 1 and 128: see `reply_selected`.
  replied : Bytes → Proof curve → Text → ℕ → ℕ → VrfReply
  replied public_key proof hash k threshold = record {
    selected = ltb (be_value (output curve proof) % 16 ^ k) threshold;
    vrf_prompt_hash = hash;
    vrf_random_value = encode (output curve proof);
    vrf_verify_pubkey = encode public_key;
    vrf_proof = encode (to_bytes curve proof);
  }

  -- The number that `run_vrf` reads off the last `k` digits.
  digits_value :
      (proof : Proof curve) (k : ℕ)
      → 1 ≤ k
      → k ≤ 128
      → from_str_radix_16 (drop (128 - k) (encode (output curve proof)))
        ≡ some (be_value (output curve proof) % 16 ^ k)
  digits_value proof k low high =
      let s = encode (output curve proof) in
      let d = all_hexdigits-encode crates (output curve proof) (output-IsByte proof) in
      let len : length (drop (128 - k) s) ≡ k =
        omega (arith, length-drop (128 - k) s, length-random proof) in
      digits_read (drop (128 - k) s) (omega (arith, len)) (all_hexdigits-drop (128 - k) s d)
      ∙ ap some (
          hex_value-drop (128 - k) s d
          ∙ ap (λ n. hex_value s % 16 ^ n) len
          ∙ ap (λ n. n % 16 ^ k)
              (hex_value-encode crates (output curve proof) (output-IsByte proof)))

  reply-replied :
      (public_key : Bytes) (proof : Proof curve) (hash : Text) (k threshold : ℕ)
      → 1 ≤ k
      → k ≤ 128
      → reply curve crates p public_key proof hash k threshold
        ≡ ok (replied public_key proof hash k threshold)
  unfolding reply replied hex_to_biguint meets_threshold
  reply-replied public_key proof hash k threshold low high = rw (
    sub_word_fits {E = VerifyError} u64_mod p 128 k high,
    slice_end (encode (output curve proof)) (128 - k) 128 (length-random proof) (omega arith),
    digits_value proof k low high,
  )

  no_digits : (proof : Proof curve) → drop 128 (encode (output curve proof)) ≡ []
  no_digits proof =
      nil_of_length (drop 128 (encode (output curve proof)))
        (omega (arith, length-drop 128 (encode (output curve proof)), length-random proof))

  reply_no_digits :
      (public_key : Bytes) (proof : Proof curve) (hash : Text) (threshold : ℕ)
      → reply curve crates p public_key proof hash 0 threshold ≡ panic
  unfolding reply hex_to_biguint
  reply_no_digits public_key proof hash threshold = rw (
    sub_word_fits {E = VerifyError} u64_mod p 128 0 (omega arith),
    slice_end (encode (output curve proof)) 128 128 (length-random proof) (omega arith),
    no_digits proof,
    radix-nil,
  )

  reply_too_many :
      (public_key : Bytes) (proof : Proof curve) (hash : Text) (k threshold : ℕ)
      → 128 < k
      → k < u64_mod
      → reply curve crates p public_key proof hash k threshold ≡ panic
  unfolding reply
  reply_too_many public_key proof hash k threshold high word =
      elim (sub_word_below {E = VerifyError} u64_mod p 128 k high word) [
        | inl e ↦ rw e
        | inr e ↦
            rw (
              e,
              slice_backwards (encode (output curve proof)) (128 + u64_mod - k) 128 (omega arith),
            )
      ]

-- For a precision between 1 and 128 `run_vrf` replies, and selects the operator exactly if the
-- last digits of the output, read as a number, are below the threshold.
pub reply_selected :
    (curve : Curve) (crates : HexCrates) (p : Profile) (public_key : Bytes) (proof : Proof curve)
    (hash : Text) (k threshold : ℕ)
    → 1 ≤ k
    → k ≤ 128
    → (r : VrfReply) × (reply curve crates p public_key proof hash k threshold ≡ ok r)
      × (r.selected ≡ ltb (be_value (output curve proof) % 16 ^ k) threshold)
unfolding replied
reply_selected curve crates p public_key proof hash k threshold low high = (
  replied curve crates p public_key proof hash k threshold,
  reply-replied curve crates p public_key proof hash k threshold low high,
  refl,
)

-- Without digits there is no number, and more digits than the output has cannot be cut off: a
-- precision of 0 or above 128 panics, in every build.
pub reply_panics :
    (curve : Curve) (crates : HexCrates) (p : Profile) (public_key : Bytes) (proof : Proof curve)
    (hash : Text) (k threshold : ℕ)
    → k < u64_mod
    → (k ≡ 0) ⊎ (128 < k)
    → reply curve crates p public_key proof hash k threshold ≡ panic
reply_panics curve crates p public_key proof hash k threshold word bad = elim bad [
  | inl e ↦ rw e (reply_no_digits curve crates p public_key proof hash threshold)
  | inr high ↦ reply_too_many curve crates p public_key proof hash k threshold high word
]
