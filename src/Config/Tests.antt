-- ===== src/Config/Tests.antt =====
-- The configuration's theorems at concrete configurations.
use aos_operator.Shared.{
  ◌≡◌, refl, ap, arith, inl, inr, true, false, ok, err, replicate, length, ◌++◌, ◌↔◌,
}
use aos_operator.Shared.Text.{Text, codes}
use aos_operator.Shared.Hex.{all_hexdigits}
use aos_operator.Config.{
  OperatorConfig, illegal_node_id, illegal_signer_key, validate_config, validate_addr, validate_key,
  remove_0x_prefix,
}
use aos_operator.Config.Sample.{config_of}
use aos_operator.Config.Validation.{HexText, validate_config_lem}

-- 40 digits after `0x`.
abbrev good_id : Text
good_id = codes "0x" ++ replicate 40 b'a'

abbrev short_key : Text
short_key = codes "1234"

abbrev config : OperatorConfig
config = config_of good_id short_key

tests_run :
    (validate_addr good_id ≡ true)
    × (validate_key (codes "0x" ++ replicate 64 b'F') ≡ true)
    × (validate_addr (codes "0X" ++ replicate 40 b'a') ≡ false)
    × (validate_config (config_of short_key short_key) ≡ err illegal_node_id)
unfolding validate_addr validate_key validate_config remove_0x_prefix all_hexdigits
tests_run = (refl, refl, refl, refl)

validate_config_example :
    ((validate_config config ≡ ok config)
      ↔ (HexText 40 config.node.node_id × HexText 64 config.node.signer_key))
    × ((validate_config config ≡ err illegal_node_id) ↔ (¬ HexText 40 config.node.node_id))
    × ((validate_config config ≡ err illegal_signer_key)
        ↔ (HexText 40 config.node.node_id × (¬ HexText 64 config.node.signer_key)))
validate_config_example = validate_config_lem config

good_id-HexText : HexText 40 good_id
unfolding all_hexdigits
good_id-HexText = (replicate 40 b'a', inr refl, refl, refl)

short_key-HexText : ¬ HexText 64 short_key
short_key-HexText = λ (digits, form, len, hex). elim form [
  | inl e ↦ absurd (omega (arith, ap length e, len))
  | inr e ↦ absurd (omega (arith, ap length e, len))
]
