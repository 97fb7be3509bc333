-- ===== src/Vrf/Ecvrf/Encoding.antt =====
-- The 80 bytes of a proof are read back as the proof.
use native.Mathlib.Nat.{pow-suc, pow-zero}
use mathlib.Core.List.{append_assoc}
use aos_operator.Shared.{
  ℕ, zero, suc, ◌^◌, ◌<◌, ◌≡◌, refl, List, [], ◌∷◌, ◌++◌, ok, arith, length, take, drop, replicate,
  All, All-append, All-take, length-append, length-take, take-append_length, drop-append_length,
}
use aos_operator.Shared.Hex.{IsByte}
use aos_operator.Vrf.Curve.{Curve, Bytes, le_value}
use aos_operator.Vrf.Ecvrf.{
  Proof, VrfExpandedPrivateKey, hash_points, prove_at, proof_length, to_bytes, try_from,
}

le_value-zeros : (n : ℕ) (xs : Bytes) → le_value (xs ++ replicate n 0) ≡ le_value xs
le_value-zeros zero [] = refl
le_value-zeros (suc n) [] = omega (arith, le_value-zeros n [])
le_value-zeros n (x ∷ xs) = omega (arith, le_value-zeros n xs)

le_value-lt : (xs : Bytes) → All IsByte xs → le_value xs < 256 ^ length xs
le_value-lt [] h = rw (pow-zero 256) (omega arith)
le_value-lt (x ∷ xs) h = rw (pow-suc 256 (length xs)) (omega (arith, h.0, le_value-lt xs h.1))

le_value-16 : (xs : Bytes) → All IsByte xs → length xs ≡ 16 → le_value xs < 2 ^ 128
le_value-16 xs h e = rw e at (le_value-lt xs h)

module _ (curve : Curve) where
  open curve use {
    Point, Scalar, compress, decompress, decompress-compress, length-compress, scalar_to_bytes,
    from_bytes_mod_order, length-scalar_to_bytes, from_bytes-to_bytes, to_bytes-from_bytes, sha512,
    length-sha512, sha512-IsByte,
  }

  -- The first half of the scalar that bytes of a hash make is those bytes.
  scalar_of_half :
      (x : Bytes)
      → scalar_to_bytes (from_bytes_mod_order (take 16 (sha512 x) ++ replicate 16 0))
        ≡ take 16 (sha512 x) ++ replicate 16 0
  scalar_of_half x =
      let half = take 16 (sha512 x) in
      let len : length half ≡ 16 = omega (arith, length-take 16 (sha512 x), length-sha512 x) in
      let bytes : All IsByte half = All-take IsByte 16 (sha512 x) (sha512-IsByte x) in
      to_bytes-from_bytes (half ++ replicate 16 0)
        (omega (arith, length-append half (replicate 16 0), len))
        (All-append IsByte half (replicate 16 0) bytes (omega arith))
        (omega (arith, le_value-zeros 16 half, le_value-16 half bytes len))

  challenge_read :
      (x : Bytes)
      → let c = from_bytes_mod_order (take 16 (sha512 x) ++ replicate 16 0) in
        from_bytes_mod_order (take 16 (scalar_to_bytes c) ++ replicate 16 0) ≡ c
  challenge_read x = rw (
    scalar_of_half x,
    take-append_length 16 (take 16 (sha512 x)) (replicate 16 0)
        (omega (arith, length-take 16 (sha512 x), length-sha512 x)),
  )

  hash_points_read :
      (points : List Point)
      → from_bytes_mod_order
          (take 16 (scalar_to_bytes (hash_points curve points)) ++ replicate 16 0)
        ≡ hash_points curve points
  unfolding hash_points
  hash_points_read points = challenge_read _

  -- A proof whose challenge fits in 16 bytes.
  try_from-to_bytes_short :
      (proof : Proof curve)
      → from_bytes_mod_order (take 16 (scalar_to_bytes proof.c) ++ replicate 16 0) ≡ proof.c
      → (length (to_bytes curve proof) ≡ 80) × (try_from curve (to_bytes curve proof) ≡ ok proof)
  unfolding to_bytes try_from
  try_from-to_bytes_short proof short =
      let g = compress proof.gamma in
      let c = take 16 (scalar_to_bytes proof.c) in
      let s = scalar_to_bytes proof.s in
      let cl : length c ≡ 16 =
        omega (arith, length-take 16 (scalar_to_bytes proof.c), length-scalar_to_bytes proof.c) in
      let len : length (g ++ (c ++ s)) ≡ 80 = omega (
        arith,
        length-append g (c ++ s),
        length-append c s,
        cl,
        length-compress proof.gamma,
        length-scalar_to_bytes proof.s,
      ) in
      let tail : drop 48 (g ++ (c ++ s)) ≡ s = rw (← append_assoc g c s) (
        drop-append_length 48 (g ++ c) s
          (omega (arith, length-append g c, cl, length-compress proof.gamma))) in
      (
        len,
        rw (
          len,
          take-append_length 32 g (c ++ s) (length-compress proof.gamma),
          drop-append_length 32 g (c ++ s) (length-compress proof.gamma),
          tail,
          take-append_length 16 c s cl,
          short,
          from_bytes-to_bytes proof.s,
          decompress-compress proof.gamma,
        ),
      )

  -- The 80 bytes of a proof that `prove` made are read back as that proof, though they keep only
  -- half of the challenge scalar.
  pub try_from-to_bytes :
      (key : VrfExpandedPrivateKey curve) (h_point : Point)
      → let proof = prove_at curve key h_point in
        (length (to_bytes curve proof) ≡ proof_length)
        × (try_from curve (to_bytes curve proof) ≡ ok proof)
  unfolding prove_at
  try_from-to_bytes key h_point = try_from-to_bytes_short _ (hash_points_read _)
