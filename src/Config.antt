-- ===== src/Config.antt =====
-- operator/node_api/src/config.rs and error.rs, crates/tools/src/helper.rs: the operator's
-- configuration and its validation; operator/runer/src/cli/operator.rs reads it.
pub mod Validation
pub mod Sample
mod Tests
use aos_operator.Shared.{
  ℕ, Bool, true, false, Option, none, some, List, [], ◌∷◌, Outcome, ok, err, panic, ◌>>=◌, not,
  ◌==◌, if◌then◌else◌, length, drop,
}
use aos_operator.Shared.Text.{Text}
use aos_operator.Shared.Hex.{all_hexdigits}

pub record DbConfig : Type 0 where
  pub storage_root_path : Option Text
  pub pg_db_url : Text
  pub pg_db_name : Text
  pub max_connect_pool : ℕ  -- u32
  pub min_connect_pool : ℕ  -- u32
  pub connect_timeout : ℕ  -- u64, seconds
  pub acquire_timeout : ℕ  -- u64

pub record QConfig : Type 0 where
  pub queue_url : Text

pub record NetworkConfig : Type 0 where
  pub rest_url : Text
  pub outer_url : Text
  pub dispatcher_url : Text
  pub callback_url : Text
  pub tee_llm_cid : ℕ  -- u32
  pub tee_llm_port : ℕ  -- u32

pub record NodeConfig : Type 0 where
  pub node_id : Text
  pub signer_key : Text
  pub vrf_key : Text
  pub dispatcher_address : Text
  pub node_type : Text
  pub cache_msg_maximum : ℕ  -- u64
  pub heartbeat_interval : ℕ  -- u64
  pub ai_models : List Text

pub record ChainConfig : Type 0 where
  pub chain_rpc_url : Text
  pub vrf_range_contract : Text
  pub vrf_sort_precision : ℕ  -- u16

pub record ApiConfig : Type 0 where
  pub read_maximum : ℕ  -- u64

pub record OperatorConfig : Type 0 where
  pub db : DbConfig
  pub queue : QConfig
  pub net : NetworkConfig
  pub node : NodeConfig
  pub chain : ChainConfig
  pub api : ApiConfig

pub data OperatorConfigError : Type 0 where
  config_missing : Text → OperatorConfigError
  serialization_error : OperatorConfigError
  io_error : OperatorConfigError
  illegal_node_id : OperatorConfigError
  illegal_signer_key : OperatorConfigError

-- `starts_with("0x")` and `&s[2..]`
unfoldable pub remove_0x_prefix : Text → Text
remove_0x_prefix [] = []
remove_0x_prefix (a ∷ []) = a ∷ []
remove_0x_prefix (a ∷ b ∷ s) = if a == b'0' then (if b == b'x' then s else a ∷ b ∷ s) else a ∷ b ∷ s

unfoldable pub validate_addr : Text → Bool
validate_addr id =
    let id' = remove_0x_prefix id in
    if not (length id' == 40) then false else if not (all_hexdigits id') then false else true

unfoldable pub validate_key : Text → Bool
validate_key id =
    let id' = remove_0x_prefix id in
    if not (length id' == 64) then false else if not (all_hexdigits id') then false else true

unfoldable pub validate_config : OperatorConfig → Outcome OperatorConfigError OperatorConfig
validate_config config =
    if not (validate_addr config.node.node_id)
    then err illegal_node_id
    else if not (validate_key config.node.signer_key)
    then err illegal_signer_key
    else ok config

-- What `std::fs::read_to_string` returns: a text, or an error of kind `NotFound` or another.
pub data FileRead : Type 0 where
  contents : Text → FileRead
  not_found : FileRead
  failed : FileRead

pub read_error : Text → FileRead → Outcome OperatorConfigError Text
read_error path (contents s) = ok s
read_error path not_found = err (config_missing path)
read_error path failed = err io_error

pub serde_error : Option OperatorConfig → Outcome OperatorConfigError OperatorConfig
serde_error none = err serialization_error
serde_error (some config) = ok config

-- `load_config`, given the file system and `serde_yaml::from_str`.
unfoldable pub load_config :
    (Text → FileRead)
    → (Text → Option OperatorConfig)
    → Text
    → Outcome OperatorConfigError OperatorConfig
unfolding read_error serde_error
load_config read_to_string from_str path = do
  config_yaml ← read_error path (read_to_string path)
  config ← serde_error (from_str config_yaml)
  validate_config config

-- How `construct_node_config` ends: with a configuration, by `process::exit`, or in the panic of
-- `expect`.
pub data Started : Type 0 where
  config_loaded : OperatorConfig → Started
  exited : ℕ → Started
  panicked : Started

abbrev pub process_exit : ℕ
process_exit = 42

-- operator/runer/src/cli/operator.rs, on the result of `load_config`
unfoldable pub construct_node_config : Outcome OperatorConfigError OperatorConfig → Started
construct_node_config (err (config_missing path)) = exited process_exit
construct_node_config (err serialization_error) = exited process_exit
construct_node_config (err illegal_node_id) = exited process_exit
construct_node_config (err io_error) = panicked
construct_node_config (err illegal_signer_key) = panicked
construct_node_config (ok config) = config_loaded config
construct_node_config panic = panicked
