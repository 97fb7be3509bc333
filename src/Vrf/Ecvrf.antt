-- ===== src/Vrf/Ecvrf.antt =====
-- crates/vrf/src/ecvrf.rs: keys, proofs and outputs.
pub mod Completeness
pub mod Encoding
use aos_operator.Shared.{
  ℕ, zero, suc, ◌+◌, ◌-◌, ◌*◌, ◌/◌, ◌%◌, Bool, true, false, Option, none, some, List, [], ◌∷◌, ◌++◌,
  not, Outcome, ok, err, panic, ◌>>=◌, ok_or, unwrap, ◌==◌, if◌then◌else◌, ltb, leb, length, take,
  drop, replicate,
}
use aos_operator.Shared.Machine.{Profile, add_word}
use aos_operator.Vrf.Curve.{Curve, Bytes}

-- crates/vrf/src/traits.rs
pub data CryptoMaterialError : Type 0 where
  deserialization_error validation_error wrong_length_error : CryptoMaterialError
  canonical_representation_error small_subgroup_error point_not_on_curve_error : CryptoMaterialError

-- The one `Err` of the functions on points: that of `verify`.
pub data VerifyError : Type 0 where
  proof_failed : VerifyError

-- The result of a loop on fuel; `none` means that the fuel ran out.
abbrev pub Fueled : Type 0 → Type 0 → Type 0
Fueled E A = Option (Outcome E A)

abbrev pub and_then : {E A B : Type 0} → Fueled E A → (A → Fueled E B) → Fueled E B
and_then none f = none
and_then (some (ok a)) f = f a
and_then (some (err e)) f = some (err e)
and_then (some panic) f = some panic

abbrev suite : ℕ
suite = 3

abbrev one : ℕ
one = 1

abbrev two : ℕ
two = 2

abbrev three : ℕ
three = 3

abbrev pub output_length : ℕ
output_length = 64

abbrev pub proof_length : ℕ
proof_length = 80

-- The bits of the lowest byte and of the highest byte that make a scalar of 32 bytes a key:
-- `lower[0] &= 248; lower[31] &= 63; lower[31] |= 64`.
clamp_byte : ℕ → ℕ → ℕ
clamp_byte i b = if i == 0 then b - b % 8 else if i == 31 then b % 64 + 64 else b

clamp_from : ℕ → Bytes → Bytes
clamp_from i [] = []
clamp_from i (b ∷ bs) = clamp_byte i b ∷ clamp_from (i + 1) bs

pub clamp : Bytes → Bytes
clamp bs = clamp_from 0 bs

module _ (curve : Curve) where
  open curve use {
    Point, Scalar, basepoint, sub, mul, mul_by_cofactor, is_small_order, compress, decompress,
    scalar_add, scalar_mul, scalar_eq, from_bytes_mod_order, from_bytes_mod_order_wide,
    scalar_to_bytes, sha512, verifying_key,
  }

  -- `VRFPrivateKey` is the 32 bytes of the secret, `VRFPublicKey` those of the verifying key.
  pub record VrfExpandedPrivateKey : Type 0 where
    pub key : Scalar
    pub nonce : Bytes

  pub record Proof : Type 0 where
    pub gamma : Point
    pub c : Scalar
    pub s : Scalar

  compress_all : List Point → Bytes
  compress_all [] = []
  compress_all (p ∷ ps) = compress p ++ compress_all ps

  unfoldable pub hash_points : List Point → Scalar
  unfolding compress_all
  hash_points points =
      from_bytes_mod_order (take 16 (sha512 (suite ∷ two ∷ compress_all points)) ++ replicate 16 0)

  unfoldable pub nonce_generation_bytes : Bytes → Point → Bytes
  nonce_generation_bytes nonce h_point = sha512 (nonce ++ compress h_point)

  -- `From<&VRFPrivateKey> for VRFExpandedPrivateKey`
  unfoldable pub expand : Bytes → VrfExpandedPrivateKey
  expand private_key =
      let hash = sha512 private_key in
      record { key = from_bytes_mod_order (clamp (take 32 hash)); nonce = drop 32 hash }

  -- The candidate point of one round of `hash_to_curve`.
  unfoldable pub candidate : Bytes → Bytes → ℕ → Option Point
  candidate public_key alpha counter =
      decompress (take 32 (sha512 (suite ∷ one ∷ (public_key ++ (alpha ++ counter ∷ [])))))

  -- One round of the loop: the counter, a `u8`, is raised before the loop tests the point.
  pub hash_round : Profile → Bytes → Bytes → ℕ → Outcome VerifyError (Option Point × ℕ)
  hash_round p public_key alpha counter = do
    next ← add_word 256 p counter 1
    ok (candidate public_key alpha counter, next)

  -- The `while` loop, on fuel.
  unfoldable pub hash_loop : ℕ → Profile → Bytes → Bytes → ℕ → Fueled VerifyError Point
  unfolding hash_round
  hash_loop zero p public_key alpha counter = none
  hash_loop (suc fuel) p public_key alpha counter = elim (hash_round p public_key alpha counter) [
    | ok (some point, next) ↦ some (ok (mul_by_cofactor point))
    | ok (none, next) ↦ hash_loop fuel p public_key alpha next
    | err e ↦ some (err e)
    | panic ↦ some panic
  ]

  -- A counter of one byte has 256 values, so further rounds only repeat.
  unfoldable pub hash_to_curve : Profile → Bytes → Bytes → Fueled VerifyError Point
  hash_to_curve p public_key alpha = hash_loop 256 p public_key alpha 0

  -- `VRFExpandedPrivateKey::prove`, on the point that `hash_to_curve` found
  unfoldable pub prove_at : VrfExpandedPrivateKey → Point → Proof
  prove_at self h_point =
      let k_scalar = from_bytes_mod_order_wide (nonce_generation_bytes self.nonce h_point) in
      let gamma = mul h_point self.key in
      let c_scalar =
        hash_points (h_point ∷ gamma ∷ mul basepoint k_scalar ∷ mul h_point k_scalar ∷ []) in
      record { gamma = gamma; c = c_scalar; s = scalar_add k_scalar (scalar_mul c_scalar self.key) }

  -- `VRFPrivateKey::prove`
  unfoldable pub prove : Profile → Bytes → Bytes → Fueled VerifyError Proof
  prove p private_key alpha =
      and_then (hash_to_curve p (verifying_key private_key) alpha)
        λ h_point. some (ok (prove_at (expand private_key) h_point))

  -- The comparison that ends `verify`, on the point that `hash_to_curve` found.
  unfoldable pub verify_at : Point → Point → Proof → Outcome VerifyError (Unit {0})
  verify_at pk_point h_point proof =
      let cprime = hash_points (
        h_point
        ∷ proof.gamma
        ∷ sub (mul basepoint proof.s) (mul pk_point proof.c)
        ∷ sub (mul h_point proof.s) (mul proof.gamma proof.c)
        ∷ []) in
      if scalar_eq proof.c cprime then ok tt else err proof_failed

  -- `VRFPublicKey::verify`
  unfoldable pub verify : Profile → Bytes → Proof → Bytes → Fueled VerifyError (Unit {0})
  verify p public_key proof alpha = and_then (hash_to_curve p public_key alpha) λ h_point.
      some (unwrap (decompress public_key) >>= λ pk_point. verify_at pk_point h_point proof)

  -- `Proof::to_bytes`
  unfoldable pub to_bytes : Proof → Bytes
  to_bytes proof =
      compress proof.gamma ++ (take 16 (scalar_to_bytes proof.c) ++ scalar_to_bytes proof.s)

  -- `TryFrom<&[u8]> for Proof`: the slices panic on a length other than 80, and so does a first
  -- half that is no point.
  unfoldable pub try_from : Bytes → Outcome CryptoMaterialError Proof
  try_from bytes =
      if not (length bytes == proof_length)
      then panic
      else (unwrap (decompress (take 32 bytes)) >>= λ gamma. ok (record {
        gamma = gamma;
        c = from_bytes_mod_order (take 16 (drop 32 bytes) ++ replicate 16 0);
        s = from_bytes_mod_order (drop 48 bytes);
      }))

  -- `From<&Proof> for Output`
  unfoldable pub output : Proof → Bytes
  output proof = sha512 (suite ∷ three ∷ compress (mul_by_cofactor proof.gamma))

  -- `TryFrom<&[u8]> for VRFPublicKey`
  unfoldable pub public_key_try_from : Bytes → Outcome CryptoMaterialError Bytes
  public_key_try_from bytes =
      if not (length bytes == 32)
      then err wrong_length_error
      else (ok_or (decompress bytes) deserialization_error >>= λ point.
          if is_small_order point then err small_subgroup_error else ok (compress point))
