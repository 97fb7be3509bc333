-- ===== src/Vrf/Sampler/Threshold.antt =====
-- The threshold selects its share of the outputs.
use aos_operator.Shared.{ℕ, ◌+◌, ◌*◌, ◌/◌, ◌^◌, ◌≤◌, ◌<◌, ◌≡◌, true, ◌↔◌, arith}
use aos_operator.Vrf.Sampler.{Sampler, calculate_threshold, meets_threshold}

share_bounds : (m k : ℕ) → (m * k / 100 * 100 ≤ m * k) × (m * k < (m * k / 100 + 1) * 100)
share_bounds m k = omega arith

share_le : (m k : ℕ) → k ≤ 100 → m * k / 100 ≤ m
share_le m k h = let p : m * k ≤ m * 100 = grind arith in omega arith

-- The threshold is the whole part of the percentage of all outputs; up to 100 per cent it is at
-- most the number of outputs, an output meets it exactly if it is below it, and a greater
-- percentage does not have a lower threshold.
pub calculate_threshold_share :
    {F : Type 0} (to_percent : F → ℕ) (s : Sampler) (x y : F) (output : ℕ)
    → to_percent x ≤ to_percent y
    → to_percent y ≤ 100
    → let t = calculate_threshold to_percent s x in
      (t * 100 ≤ 2 ^ s.precision * to_percent x)
      × (2 ^ s.precision * to_percent x < (t + 1) * 100)
      × (t ≤ 2 ^ s.precision)
      × ((meets_threshold s output t ≡ true) ↔ (output < t))
      × (t ≤ calculate_threshold to_percent s y)
unfolding calculate_threshold meets_threshold
calculate_threshold_share to_percent s x y output h k =
    let m = 2 ^ s.precision in
    let bounds = share_bounds m (to_percent x) in
    let mono : m * to_percent x ≤ m * to_percent y = grind arith in
    (bounds.0, bounds.1, share_le m (to_percent x) (omega arith), ground arith, omega (arith, mono))
