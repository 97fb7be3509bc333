-- ===== src/Config/Validation.antt =====
-- Which node ids and signer keys `validate_config` accepts, and how the operator then starts.
use aos_operator.Shared.{
  ℕ, ◌≡◌, refl, ◌↔◌, ◌⊎◌, inl, inr, Option, some, Bool, true, false, [], ◌∷◌, Outcome, ok, err,
  length, ◌==◌, ==_iff, arith, Bool-cases,
}
use aos_operator.Shared.Text.{Text}
use aos_operator.Shared.Hex.{all_hexdigits, is_ascii_hexdigit}
use aos_operator.Config.{
  OperatorConfig, OperatorConfigError, illegal_node_id, illegal_signer_key, remove_0x_prefix,
  validate_addr, validate_key, validate_config, FileRead, contents, load_config, serde_error,
  construct_node_config, panicked,
}

-- A text of `n` hexadecimal digits, with or without `0x` before them.
abbrev pub HexText : ℕ → Text → Type 0
HexText n s =
    (digits : Text) × ((s ≡ digits) ⊎ (s ≡ b'0' ∷ b'x' ∷ digits))
    × (length digits ≡ n)
    × (all_hexdigits digits ≡ true)

-- The test that `validate_addr` and `validate_key` make.
Passes : ℕ → Text → Type 0
Passes n s = (length (remove_0x_prefix s) ≡ n) × (all_hexdigits (remove_0x_prefix s) ≡ true)

removed : (s : Text) → (s ≡ remove_0x_prefix s) ⊎ (s ≡ b'0' ∷ b'x' ∷ remove_0x_prefix s)
unfolding remove_0x_prefix
removed [] = inl refl
removed (a ∷ []) = inl refl
removed (a ∷ b ∷ s) = elim (Bool-cases (a == b'0')) [
  | inl h ↦ elim (Bool-cases (b == b'x')) [
    | inl k ↦
        let ea : a ≡ b'0' = (==_iff a b'0').0 h in
        let eb : b ≡ b'x' = (==_iff b b'x').0 k in inr (rw (ea, eb) refl)
    | inr k ↦ inl (rw (h, k) refl)
  ]
  | inr h ↦ inl (rw h refl)
]

-- The digits of a text without prefix are left as they are, `x` being no digit.
unprefixed : (s : Text) → all_hexdigits s ≡ true → remove_0x_prefix s ≡ s
unfolding remove_0x_prefix all_hexdigits is_ascii_hexdigit
unprefixed [] h = refl
unprefixed (a ∷ []) h = refl
unprefixed (a ∷ b ∷ s) h = ground arith

Passes-HexText : (n : ℕ) (s : Text) → Passes n s ↔ HexText n s
unfolding Passes remove_0x_prefix
Passes-HexText n s = (
  λ h. (remove_0x_prefix s, removed s, h.0, h.1),
  λ (digits, form, len, hex). elim form [
    | inl e ↦ rw e (rw (unprefixed digits hex) (len, hex))
    | inr e ↦ rw e (len, hex)
  ],
)

validate_addr-Passes : (s : Text) → (validate_addr s ≡ true) ↔ Passes 40 s
unfolding validate_addr Passes
validate_addr-Passes s = ground arith

pub validate_addr_iff : (s : Text) → (validate_addr s ≡ true) ↔ HexText 40 s
validate_addr_iff s =
    let test = validate_addr-Passes s in
    let form = Passes-HexText 40 s in (λ h. form.0 (test.0 h), λ t. test.1 (form.1 t))

validate_key-Passes : (s : Text) → (validate_key s ≡ true) ↔ Passes 64 s
unfolding validate_key Passes
validate_key-Passes s = ground arith

pub validate_key_iff : (s : Text) → (validate_key s ≡ true) ↔ HexText 64 s
validate_key_iff s =
    let test = validate_key-Passes s in
    let form = Passes-HexText 64 s in (λ h. form.0 (test.0 h), λ t. test.1 (form.1 t))

-- The outcome as a function of the two tests.
checked : Bool → Bool → OperatorConfig → Outcome OperatorConfigError OperatorConfig
checked false key config = err illegal_node_id
checked true false config = err illegal_signer_key
checked true true config = ok config

validate_config-checked :
    (config : OperatorConfig)
    → validate_config config
      ≡ checked (validate_addr config.node.node_id) (validate_key config.node.signer_key) config
unfolding validate_config checked
validate_config-checked config = elim (Bool-cases (validate_addr config.node.node_id)) [
  | inl h ↦ elim (Bool-cases (validate_key config.node.signer_key)) [
    | inl k ↦ rw (h, k) refl
    | inr k ↦ rw (h, k) refl
  ]
  | inr h ↦ rw h refl
]

false-not : false ≡ true → ⊥
false-not e = cc

checked_lem :
    (addr key : Bool) (config : OperatorConfig) {Addr Key : Type 0}
    → (addr ≡ true) ↔ Addr
    → (key ≡ true) ↔ Key
    → ((checked addr key config ≡ ok config) ↔ (Addr × Key))
      × ((checked addr key config ≡ err illegal_node_id) ↔ (¬ Addr))
      × ((checked addr key config ≡ err illegal_signer_key) ↔ (Addr × (¬ Key)))
unfolding checked
checked_lem false key config {Addr} {Key} a k =
    let no : ¬ Addr = λ x. false-not (a.1 x) in
    ((λ e. cc, λ (x, y). absurd (no x)), (λ e. no, λ n. refl), (λ e. cc, λ (x, y). absurd (no x)))
checked_lem true false config {Addr} {Key} a k =
    let no : ¬ Key = λ x. false-not (k.1 x) in
    (
      (λ e. cc, λ (x, y). absurd (no y)),
      (λ e. cc, λ n. absurd (n (a.0 refl))),
      (λ e. (a.0 refl, no), λ _. refl),
    )
checked_lem true true config a k = (
  (λ e. (a.0 refl, k.0 refl), λ _. refl),
  (λ e. cc, λ n. absurd (n (a.0 refl))),
  (λ e. cc, λ (x, n). absurd (n (k.0 refl))),
)

-- `validate_config` returns exactly the configurations whose node id is 40 hexadecimal digits and
-- whose signer key is 64, each with or without `0x`; a bad node id is reported before a bad key,
-- and a bad key only with a good node id.
pub validate_config_lem :
    (config : OperatorConfig)
    → ((validate_config config ≡ ok config)
        ↔ (HexText 40 config.node.node_id × HexText 64 config.node.signer_key))
      × ((validate_config config ≡ err illegal_node_id) ↔ (¬ HexText 40 config.node.node_id))
      × ((validate_config config ≡ err illegal_signer_key)
          ↔ (HexText 40 config.node.node_id × (¬ HexText 64 config.node.signer_key)))
validate_config_lem config =
    let addr = validate_addr-Passes config.node.node_id in
    let key = validate_key-Passes config.node.signer_key in
    let addr_text = Passes-HexText 40 config.node.node_id in
    let key_text = Passes-HexText 64 config.node.signer_key in
    rw (validate_config-checked config) (
      checked_lem (validate_addr config.node.node_id) (validate_key config.node.signer_key) config
        (λ h. addr_text.0 (addr.0 h), λ t. addr.1 (addr_text.1 t))
        (λ h. key_text.0 (key.0 h), λ t. key.1 (key_text.1 t)))

-- `load_config` of a file that is read and parsed
pub load_config-validate_config :
    (read_to_string : Text → FileRead) (from_str : Text → Option OperatorConfig)
    (path config_yaml : Text) (config : OperatorConfig)
    → read_to_string path ≡ contents config_yaml
    → from_str config_yaml ≡ some config
    → load_config read_to_string from_str path ≡ validate_config config
unfolding load_config serde_error
load_config-validate_config read_to_string from_str path config_yaml config file parsed =
    rw (file, parsed) refl

-- A configuration file that is read and parsed, with a good node id and a bad signer key, does not
-- end in the exit code 42 of the other faults: the operator panics.
pub start_bad_key :
    (read_to_string : Text → FileRead) (from_str : Text → Option OperatorConfig)
    (path config_yaml : Text) (config : OperatorConfig)
    → read_to_string path ≡ contents config_yaml
    → from_str config_yaml ≡ some config
    → HexText 40 config.node.node_id
    → ¬ HexText 64 config.node.signer_key
    → construct_node_config (load_config read_to_string from_str path) ≡ panicked
unfolding load_config construct_node_config serde_error
start_bad_key read_to_string from_str path config_yaml config file parsed good bad =
    let verdict = (validate_config_lem config).2.1 (good, bad) in rw (file, parsed, verdict) refl
