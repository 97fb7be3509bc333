-- ===== src/Vrf/Sampler.antt =====
-- crates/vrf/src/sample.rs: the sampler. A `BigUint` is a natural number.
pub mod Threshold
use aos_operator.Shared.{ℕ, ◌*◌, ◌/◌, ◌^◌, Bool, ltb, Outcome, unwrap}
use aos_operator.Shared.Text.{Text}
use aos_operator.Shared.Hex.{HexCrates}

pub record Sampler : Type 0 where
  pub precision : ℕ  -- usize, in bits

unfoldable pub new : ℕ → Sampler
new precision = record { precision = precision }

module _ (crates : HexCrates) where
  open crates use {from_str_radix_16}

  -- `expect("Invalid hex string")`
  unfoldable pub hex_to_biguint : {E : Type 0} → Sampler → Text → Outcome E ℕ
  hex_to_biguint self hex_str = unwrap (from_str_radix_16 hex_str)

-- `to_percent` is `(probability * 100.0) as u64`, on a type of floats.
unfoldable pub calculate_threshold : {F : Type 0} → (F → ℕ) → Sampler → F → ℕ
calculate_threshold to_percent self probability =
    let max_output = 2 ^ self.precision in max_output * to_percent probability / 100

unfoldable pub meets_threshold : Sampler → ℕ → ℕ → Bool
meets_threshold self output threshold = ltb output threshold
