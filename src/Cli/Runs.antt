-- ===== src/Cli/Runs.antt =====
-- How a run with a configuration ends.
use aos_operator.Shared.{
  ◌%◌, ◌≡◌, refl, Bool, true, not, ◌&&◌, inl, inr, some, ok, leb, ◌==◌, if◌then◌else◌, length,
  Bool-cases,
}
use aos_operator.Shared.Text.{Text}
use aos_operator.Shared.Hex.{all_hexdigits}
use aos_operator.Config.{
  OperatorConfig, contents, construct_node_config, validate_config, validate_addr, validate_key,
  process_exit,
}
use aos_operator.Config.Validation.{HexText, load_config-validate_config, validate_key_iff}
use aos_operator.Vrf.Curve.{Bytes}
use aos_operator.Jobs.{OperatorError}
use aos_operator.Node.{new_storage}
use aos_operator.Node.Starting.{started, initialize_node_lem}
use aos_operator.Cli.{
  OperatorCli, Environment, process_exited, crashed, connected, set_up, set_up_node, started_with,
  run_cli,
}

module _ {Contract Database Server : Type 0} (env : Environment Contract Database Server) where
  open env use {around, read_to_string, from_str}

  -- A VRF key with which the operator starts.
  abbrev pub key_fits : Text → Bool
  key_fits key = (length key % 2 == 0) && leb 64 (length key)

  -- A run with a configuration file that is read and parsed, once the set-up of the database, if any,
  -- succeeded, ends as follows, where the contract, the database and the server are there and
  -- `B256::from_hex` reads 64 digits with or without `0x`, for a VRF key of hexadecimal digits. A bad
  -- node id ends it with the exit code 42, and a bad signer key in a panic. It panics as well with a
  -- VRF key of an odd number of digits or of less than 64, which no validation refuses; with any
  -- other it reaches `handle_connection` with the server set.
  pub run_cli_ends :
      (args : OperatorCli) (config_path config_yaml : Text) (config : OperatorConfig)
      (contract : Contract) (database : Database) (server : Server) (bytes_of : Text → Bytes)
      → args.config_path ≡ some config_path
      → set_up env args.init_pg ≡ true
      → read_to_string config_path ≡ contents config_yaml
      → from_str config_yaml ≡ some config
      → ((text : Text) → HexText 64 text → around.b256_from_hex text ≡ some (bytes_of text))
      → around.new_vrf_range_backend config.chain.chain_rpc_url config.chain.vrf_range_contract
        ≡ some contract
      → new_storage around {E = OperatorError} config ≡ ok database
      → env.sent ≡ some server
      → all_hexdigits config.node.vrf_key ≡ true
      → run_cli env args ≡ (
          if not (validate_addr config.node.node_id)
          then process_exited process_exit
          else if not (validate_key config.node.signer_key)
          then crashed
          else if key_fits config.node.vrf_key
          then connected
              (started around config contract database server (bytes_of config.node.signer_key))
          else crashed)
  unfolding run_cli set_up_node construct_node_config started_with validate_config
  run_cli_ends args config_path config_yaml config contract database server bytes_of with_path done
        file parsed reads backend connects sent digits =
      let loaded =
        load_config-validate_config read_to_string from_str config_path config_yaml config file
          parsed in
      elim (Bool-cases (validate_addr config.node.node_id)) [
        | inr bad ↦ rw (done, with_path, loaded, bad) refl
        | inl good ↦ elim (Bool-cases (validate_key config.node.signer_key)) [
          | inr bad ↦ rw (done, with_path, loaded, good, bad) refl
          | inl key ↦
              let start =
                initialize_node_lem around config contract database server
                  (bytes_of config.node.signer_key)
                  (reads config.node.signer_key ((validate_key_iff config.node.signer_key).0 key))
                  backend connects digits in
              elim (Bool-cases (length config.node.vrf_key % 2 == 0)) [
                | inr odd ↦ rw (done, with_path, loaded, good, key, sent, start, odd) refl
                | inl even ↦ elim (Bool-cases (leb 64 (length config.node.vrf_key))) [
                  | inl long ↦ rw (done, with_path, loaded, good, key, sent, start, even, long) refl
                  | inr short ↦
                      rw (done, with_path, loaded, good, key, sent, start, even, short) refl
                ]
              ]
        ]
      ]
