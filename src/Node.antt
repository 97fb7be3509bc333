-- ===== src/Node.antt =====
-- operator/runer/src/node_factory.rs and operator.rs: how the operator is made and gets its server;
-- storage.rs: the connection to the database.
pub mod Starting
use aos_operator.Shared.{
  ℕ, Option, none, some, List, [], ◌∷◌, ◌++◌, Outcome, ok, err, panic, ◌>>=◌, ok_or, unwrap,
  map_err,
}
use aos_operator.Shared.Text.{Text, codes}
use aos_operator.Config.{OperatorConfig}
use aos_operator.Vrf.Curve.{Bytes}
use aos_operator.Vrf.PrivateKey.{private_key_from_str}
use aos_operator.Jobs.{
  OperatorError, op_new_vrf_range_contract_error, op_vrf_material_error, op_decode_signer_key_error,
  op_channel_error,
}

pub record ServerState : Type 0 where
  pub signer_key : Bytes
  pub message_ids : List Text
  pub cache_maximum : ℕ  -- u64

-- `ServerState::new`; the node id is not kept.
unfoldable pub new_server_state : Bytes → Text → ℕ → ServerState
new_server_state signer node_id cache_maximum = record {
  signer_key = signer;
  message_ids = [];
  cache_maximum = cache_maximum;
}

-- `Operator`; its sender and receiver are never set.
pub record Operator (Contract Database Server : Type 0) : Type 0 where
  pub config : OperatorConfig
  pub storage : Database
  pub state : ServerState
  pub vrf_key : Bytes
  pub vrf_range_contract : Contract
  pub hub_state : Option Server

-- What `Storage::new` asks of a connection.
pub record ConnectOptions : Type 0 where
  pub url : Text
  pub max_connections : ℕ  -- u32
  pub min_connections : ℕ  -- u32
  pub connect_timeout : ℕ  -- seconds
  pub acquire_timeout : ℕ  -- seconds

unfoldable pub connect_options : OperatorConfig → ConnectOptions
connect_options config = record {
  url = config.db.pg_db_url ++ (codes "/" ++ config.db.pg_db_name);
  max_connections = config.db.max_connect_pool;
  min_connections = config.db.min_connect_pool;
  connect_timeout = config.db.connect_timeout;
  acquire_timeout = config.db.acquire_timeout;
}

-- What the start uses: `new_vrf_range_backend` of the contract's address, `B256::from_hex` of
-- `alloy_primitives`, `ed25519_dalek`, and the connection to a database.
pub record Surroundings (Contract Database : Type 0) : Type 0 where
  pub new_vrf_range_backend : Text → Text → Option Contract
  pub b256_from_hex : Text → Option Bytes
  pub signing_bytes : Bytes → Bytes
  pub connect_database : ConnectOptions → Option Database

module _ {Contract Database : Type 0} (around : Surroundings Contract Database) where
  open around use {new_vrf_range_backend, b256_from_hex, signing_bytes, connect_database}

  -- `Storage::new`: no connection is a panic.
  unfoldable pub new_storage : {E : Type 0} → OperatorConfig → Outcome E Database
  new_storage config = unwrap (connect_database (connect_options config))

  -- `OperatorFactory::create_operator`
  unfoldable pub create_operator :
      {Server : Type 0} → OperatorConfig → Outcome OperatorError (Operator Contract Database Server)
  create_operator config = do
    vrf_range_contract ←
        ok_or (new_vrf_range_backend config.chain.chain_rpc_url config.chain.vrf_range_contract)
          op_new_vrf_range_contract_error
    vrf_key ←
        map_err (λ e. op_vrf_material_error)
          (private_key_from_str signing_bytes config.node.vrf_key)
    signer_key ← ok_or (b256_from_hex config.node.signer_key) op_decode_signer_key_error
    storage ← new_storage config
    ok (record {
      config = config;
      storage = storage;
      state = new_server_state signer_key config.node.node_id config.node.cache_msg_maximum;
      vrf_key = vrf_key;
      vrf_range_contract = vrf_range_contract;
      hub_state = none;
    })

  -- `OperatorFactory::initialize_node`, given what the task of the server sends, if it sends.
  unfoldable pub initialize_node :
      {Server : Type 0}
      → Option Server
      → OperatorConfig
      → Outcome OperatorError (Operator Contract Database Server)
  initialize_node sent config = do
    operator ← create_operator config
    server ← ok_or sent op_channel_error
    ok (record operator { hub_state = some server })
