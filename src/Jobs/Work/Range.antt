-- ===== src/Jobs/Work/Range.antt =====
-- operator/runer/src/api/msg_handler.rs: `compute_vrf`, the range of an operator and its VRF.
use aos_operator.Shared.{
  ℕ, ◌*◌, ◌≡◌, ◌≢◌, refl, true, false, Option, none, some, List, Outcome, ok, err, panic, ◌>>=◌,
  ok_or, if◌then◌else◌, ltb, length, drop, length-drop, arith, inl,
}
use aos_operator.Shared.Text.{Text, codes, text_eq}
use aos_operator.Shared.Machine.{Profile, u64_mod, sub_word}
use aos_operator.Shared.Hex.{HexCrates, all_hexdigits}
use aos_operator.Config.{OperatorConfig, validate_addr}
use aos_operator.Config.Validation.{validate_addr_iff}
use aos_operator.Vrf.Reply.{VrfReply}
use aos_operator.Jobs.{OperatorError, op_from_hex_error, op_unsupported_tag_error}

-- What is used of `f64`: the casts from and to `u64`, and `x ± max * k`.
pub record Doubles : Type 1 where
  pub Double : Type 0
  pub from_u64 : ℕ → Double
  pub to_u64 : Double → ℕ
  pub plus : Double → Double → Double
  pub minus : Double → Double → Double
  pub times : Double → Double → Double
  pub three_hundredths : Double
  pub one_tenth : Double

-- What `compute_vrf` finds in the operator: the contract's answers, SHA-512, and its VRF key.
pub record VrfEnvironment : Type 0 where
  pub range_of : List ℕ → Outcome OperatorError (ℕ × ℕ)
  pub max_range : Option ℕ
  pub sha512 : Text → List ℕ
  pub run_vrf : Text → ℕ → ℕ → Outcome OperatorError VrfReply

-- `&s[2..]`; the ids that pass the validation are ASCII.
unfoldable pub after_two : Text → Outcome OperatorError Text
after_two s = if ltb (length s) 2 then panic else ok (drop 2 s)

or_else : Option ℕ → ℕ
or_else none = 4294967295
or_else (some n) = n

module _ (doubles : Doubles) (crates : HexCrates) where
  open doubles use {Double, from_u64, to_u64, plus, minus, times, three_hundredths, one_tenth}
  open crates use {encode, from_hex}

  -- The range, made wider on both sides by a share `k` of the greatest range.
  widened : Double → Double → Double → Double → ℕ × ℕ
  widened k max start end = (to_u64 (minus start (times max k)), to_u64 (plus end (times max k)))

  malicious_range : Text → Double → Double → Double → Outcome OperatorError (ℕ × ℕ)
  unfolding widened
  malicious_range position max start end =
      if text_eq position (codes "before")
      then ok (widened one_tenth max start end)
      else if text_eq position (codes "after")
      then ok (widened three_hundredths max start end)
      else err (op_unsupported_tag_error position)

  -- The `match` on the tag and the position.
  unfoldable pub adjusted_range :
      Text → Text → Double → Double → Double → Outcome OperatorError (ℕ × ℕ)
  unfolding malicious_range widened
  adjusted_range tag position max start end =
      if text_eq tag (codes "suspicion")
      then ok (widened three_hundredths max start end)
      else if text_eq tag (codes "malicious")
      then malicious_range position max start end
      else ok (to_u64 start, to_u64 end)

  unfoldable pub compute_vrf :
      Profile
      → OperatorConfig
      → VrfEnvironment
      → Text
      → Text
      → Text
      → Outcome OperatorError VrfReply
  unfolding or_else
  compute_vrf p config env tag position prompt = do
    hex_addr ← after_two config.node.node_id
    addr ← ok_or (from_hex 20 hex_addr) op_from_hex_error
    (start, end) ← env.range_of addr
    range ←
        adjusted_range tag position (from_u64 (or_else env.max_range)) (from_u64 start)
          (from_u64 end)
    vrf_threshold ← sub_word u64_mod p range.1 range.0
    env.run_vrf (encode (env.sha512 prompt)) config.chain.vrf_sort_precision vrf_threshold

  -- A node id of 40 hexadecimal digits without `0x`, which the validation of the configuration
  -- accepts, makes every computation of the VRF fail.
  pub compute_vrf_unprefixed :
      (p : Profile) (config : OperatorConfig) (env : VrfEnvironment) (tag position prompt : Text)
      → length config.node.node_id ≡ 40
      → all_hexdigits config.node.node_id ≡ true
      → (validate_addr config.node.node_id ≡ true)
        × (compute_vrf p config env tag position prompt ≡ err op_from_hex_error)
  unfolding compute_vrf after_two
  compute_vrf_unprefixed p config env tag position prompt len hex =
      let short : length (drop 2 config.node.node_id) ≢ 2 * 20 =
        λ e. absurd (omega (arith, len, e, length-drop 2 config.node.node_id)) in
      let long : ltb (length config.node.node_id) 2 ≡ false = ground arith in
      (
        (validate_addr_iff config.node.node_id).1 (config.node.node_id, inl refl, len, hex),
        rw (long, crates.from_hex_length 20 (drop 2 config.node.node_id) short) refl,
      )
