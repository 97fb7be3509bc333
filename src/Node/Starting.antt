-- ===== src/Node/Starting.antt =====
-- Which configurations start.
use aos_operator.Shared.{
  ◌%◌, ◌≡◌, refl, true, not, inl, inr, some, ok, err, panic, leb, ◌==◌, if◌then◌else◌, length, take,
  Bool-cases,
}
use aos_operator.Shared.Hex.{all_hexdigits}
use aos_operator.Config.{OperatorConfig}
use aos_operator.Vrf.Curve.{Bytes}
use aos_operator.Vrf.PrivateKey.Reading.{digit_bytes, private_key_from_str_digits}
use aos_operator.Jobs.{OperatorError, op_vrf_material_error}
use aos_operator.Node.{
  Operator, Surroundings, new_server_state, new_storage, create_operator, initialize_node,
}

module _ {Contract Database Server : Type 0} (around : Surroundings Contract Database) where
  open around use {signing_bytes}

  -- The operator that starts.
  abbrev pub started :
      OperatorConfig → Contract → Database → Server → Bytes → Operator Contract Database Server
  started config contract database server signer_key = record {
    config = config;
    storage = database;
    state = new_server_state signer_key config.node.node_id config.node.cache_msg_maximum;
    vrf_key = signing_bytes (take 32 (digit_bytes config.node.vrf_key));
    vrf_range_contract = contract;
    hub_state = some server;
  }

  -- The start of a configuration whose VRF key has hexadecimal digits, where the contract, the
  -- signer's key, the database and the server are there.
  pub initialize_node_lem :
      (config : OperatorConfig) (contract : Contract) (database : Database) (server : Server)
      (signer_key : Bytes)
      → around.b256_from_hex config.node.signer_key ≡ some signer_key
      → around.new_vrf_range_backend config.chain.chain_rpc_url config.chain.vrf_range_contract
        ≡ some contract
      → new_storage around {E = OperatorError} config ≡ ok database
      → all_hexdigits config.node.vrf_key ≡ true
      → initialize_node around (some server) config ≡ (
          if not (length config.node.vrf_key % 2 == 0)
          then err op_vrf_material_error
          else if leb 64 (length config.node.vrf_key)
          then ok (started config contract database server signer_key)
          else panic)
  unfolding initialize_node create_operator
  initialize_node_lem config contract database server signer_key read backend connects digits =
      let vrf = private_key_from_str_digits signing_bytes config.node.vrf_key digits in
      elim (Bool-cases (length config.node.vrf_key % 2 == 0)) [
        | inr odd ↦ rw (backend, vrf, odd) refl
        | inl even ↦ elim (Bool-cases (leb 64 (length config.node.vrf_key))) [
          | inl long ↦ rw (backend, vrf, even, long, read, connects) refl
          | inr short ↦ rw (backend, vrf, even, short) refl
        ]
      ]
