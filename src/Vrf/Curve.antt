-- ===== src/Vrf/Curve.antt =====
-- What crates/vrf uses of `curve25519_dalek`, `ed25519_dalek` and `sha2`: their operations, with
-- the documented laws that the program relies on.
use Prim.Native.Nat.{ℕ, ◌+◌, ◌*◌, ◌^◌, ◌<◌}
use mathlib.Core.Path.{◌≡◌}
use mathlib.Core.Bool.{Bool, true}
use mathlib.Core.List.{List, [], ◌∷◌}
use mathlib.Core.Option.{Option, some}
use aos_operator.Shared.{length, All}
use aos_operator.Shared.Hex.{IsByte}

abbrev pub Bytes : Type 0
Bytes = List ℕ

-- The number that bytes stand for, the first byte the lowest.
abbrev pub le_value : Bytes → ℕ
le_value [] = 0
le_value (b ∷ bs) = b + 256 * le_value bs

-- The order of the group that the base point generates.
abbrev pub group_order : ℕ
group_order = 2 ^ 252 + 27742317777372353535851937790883648493

pub record Curve : Type 1 where
  pub Point : Type 0
  pub Scalar : Type 0
  -- `EdwardsPoint`
  pub basepoint : Point
  pub add : Point → Point → Point
  pub sub : Point → Point → Point
  pub mul : Point → Scalar → Point
  pub mul_by_cofactor : Point → Point
  pub is_small_order : Point → Bool
  pub compress : Point → Bytes
  pub decompress : Bytes → Option Point
  -- `Scalar`
  pub scalar_add : Scalar → Scalar → Scalar
  pub scalar_mul : Scalar → Scalar → Scalar
  pub scalar_eq : Scalar → Scalar → Bool
  pub from_bytes_mod_order : Bytes → Scalar
  pub from_bytes_mod_order_wide : Bytes → Scalar
  pub scalar_to_bytes : Scalar → Bytes
  -- `Sha512`, over all that was fed to it
  pub sha512 : Bytes → Bytes
  -- `SigningKey::from_bytes(secret).verifying_key().as_bytes()`
  pub verifying_key : Bytes → Bytes
  -- A point of the group that the base point generates.
  pub InGroup : Point → Type 0
  pub basepoint-InGroup : InGroup basepoint
  pub cofactor-InGroup : (p : Point) → InGroup (mul_by_cofactor p)
  pub mul-scalar_add :
      (p : Point) (a b : Scalar) → InGroup p → mul p (scalar_add a b) ≡ add (mul p a) (mul p b)
  pub mul-scalar_mul :
      (p : Point) (a b : Scalar) → InGroup p → mul p (scalar_mul a b) ≡ mul (mul p b) a
  pub sub-add : (p q : Point) → sub (add p q) q ≡ p
  pub decompress-compress : (p : Point) → decompress (compress p) ≡ some p
  pub length-compress : (p : Point) → length (compress p) ≡ 32
  pub scalar_eq-refl : (a : Scalar) → scalar_eq a a ≡ true
  pub length-scalar_to_bytes : (a : Scalar) → length (scalar_to_bytes a) ≡ 32
  pub from_bytes-to_bytes : (a : Scalar) → from_bytes_mod_order (scalar_to_bytes a) ≡ a
  pub to_bytes-from_bytes :
      (bs : Bytes)
      → length bs ≡ 32
      → All IsByte bs
      → le_value bs < group_order
      → scalar_to_bytes (from_bytes_mod_order bs) ≡ bs
  pub length-sha512 : (bs : Bytes) → length (sha512 bs) ≡ 64
  pub sha512-IsByte : (bs : Bytes) → All IsByte (sha512 bs)
