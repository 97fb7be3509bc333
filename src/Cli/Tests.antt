-- ===== src/Cli/Tests.antt =====
-- Runs of the command line at concrete configurations.
use aos_operator.Shared.{
  ℕ, ◌≡◌, ◌≢◌, refl, Bool, true, false, if◌then◌else◌, Option, none, some, [], ◌∷◌, ◌++◌, replicate,
  ok, not,
}
use aos_operator.Shared.Text.{Text, codes}
use aos_operator.Shared.Hex.{all_hexdigits}
use aos_operator.Config.{
  OperatorConfig, contents, validate_addr, validate_key, remove_0x_prefix, process_exit,
}
use aos_operator.Config.Sample.{config_of}
use aos_operator.Jobs.{OperatorError}
use aos_operator.Node.{Surroundings, new_storage}
use aos_operator.Node.Starting.{started}
use aos_operator.Cli.{
  OperatorCli, Environment, connected, crashed, process_exited, init_db, run_cli,
}
use aos_operator.Cli.Address.{init_db-address}
use aos_operator.Cli.Runs.{run_cli_ends}

abbrev server : Text
server = codes "postgres://h:5432"

abbrev address : Text
address = server ++ codes "/aos"

abbrev parse : Text → Option (Text × Text)
parse text = some (text, codes "/aos")

-- The database server has no database of another name.
abbrev set_up_ok : Text → Text → Bool
set_up_ok base name = true

not_empty : codes "aos" ≢ []
not_empty = λ p. cc

init_db_run : init_db parse set_up_ok address ≡ set_up_ok (server ++ b'/' ∷ []) (codes "aos")
init_db_run =
    init_db-address parse set_up_ok server (codes "aos") (refl, (refl, (refl, tt))) not_empty refl

abbrev plain : OperatorConfig
plain = config_of (replicate 40 b'a') (codes "0x" ++ replicate 64 b'b')

abbrev long_key : OperatorConfig
long_key = record plain { node = record plain.node { vrf_key = replicate 64 b'c' } }

abbrev around : Surroundings ℕ ℕ
around = record {
  new_vrf_range_backend = λ url address. some 1;
  b256_from_hex = λ t. some t;
  signing_bytes = λ b. b;
  connect_database = λ options. some 2;
}

abbrev env : Environment ℕ ℕ ℕ
env = record {
  around = around;
  read_to_string = λ path. contents path;
  from_str = λ yaml. some long_key;
  sent = some 3;
  parse_url = parse;
  setup_db = set_up_ok;
}

connects : new_storage around {E = OperatorError} long_key ≡ ok 2
unfolding new_storage
connects = refl

long_digits : all_hexdigits (replicate 64 b'c') ≡ true
unfolding all_hexdigits
long_digits = refl

abbrev with_config : OperatorCli
with_config = record { config_path = some (codes "c.yaml"); init_pg = none; eth_account = false }

good_id : validate_addr long_key.node.node_id ≡ true
unfolding validate_addr remove_0x_prefix all_hexdigits
good_id = refl

good_key : validate_key long_key.node.signer_key ≡ true
unfolding validate_key remove_0x_prefix all_hexdigits
good_key = refl

run_cli_ends_example : run_cli env with_config ≡ (
    if not (validate_addr long_key.node.node_id)
    then process_exited process_exit
    else if not (validate_key long_key.node.signer_key)
    then crashed
    else connected (started around long_key 1 2 3 long_key.node.signer_key))
run_cli_ends_example =
    run_cli_ends env with_config (codes "c.yaml") (codes "c.yaml") long_key 1 2 3 (λ t. t) refl refl
      refl refl (λ t form. refl) refl connects refl long_digits
