-- ===== src/Cli.antt =====
-- operator/runer/src/cli: the command line, and how a run of it ends.
pub mod Address
pub mod Runs
mod Tests
use mathlib.Core.List.{reverse}
use aos_operator.Shared.{
  ℕ, zero, suc, Bool, true, false, Option, none, some, List, [], ◌∷◌, ◌==◌, Outcome, ok, err, panic,
  if◌then◌else◌, length,
}
use aos_operator.Shared.Text.{Text, text_eq}
use aos_operator.Config.{
  OperatorConfig, FileRead, Started, config_loaded, exited, panicked, construct_node_config,
  load_config,
}
use aos_operator.Jobs.{OperatorError}
use aos_operator.Node.{Operator, Surroundings, initialize_node}

-- `trim_start_matches('/')`
unfoldable pub trim_slashes : Text → Text
trim_slashes [] = []
trim_slashes (c ∷ s) = let rest = trim_slashes s in if c == b'/' then rest else c ∷ s

unfoldable pub strip_prefix : Text → Text → Option Text
strip_prefix [] s = some s
strip_prefix (c ∷ p) [] = none
strip_prefix (c ∷ p) (d ∷ s) = let rest = strip_prefix p s in if c == d then rest else none

-- `Option::map_or`
abbrev pub map_or : {A B : Type 0} → B → (A → B) → Option A → B
map_or b f none = b
map_or b f (some a) = f a

-- A prefix is taken away as often as it is there; the fuel is the length of the text, of which each
-- time takes some.
unfoldable pub trim_start_matches : ℕ → Text → Text → Text
trim_start_matches zero p s = s
trim_start_matches (suc n) p s = map_or s (λ t. trim_start_matches n p t) (strip_prefix p s)

unfoldable pub trim_end_matches : Text → Text → Text
trim_end_matches p s = reverse (trim_start_matches (length s) (reverse p) (reverse s))

-- The call of `setup_db`, but for an empty name.
abbrev pub setup_named : (Text → Text → Bool) → Text → Text → Bool
setup_named setup_db base_url [] = false
setup_named setup_db base_url (c ∷ name) = setup_db base_url (c ∷ name)

-- `init_db`, given what `Url::parse` reads, the text of the address and its path, and whether
-- `setup_db` succeeds; its assertion is left to Storage.Setup.
unfoldable pub init_db : (Text → Option (Text × Text)) → (Text → Text → Bool) → Text → Bool
init_db parse setup_db postgres_conn_str =
    map_or false
      (λ (url, path).
        let db_name = trim_slashes path in
        setup_named setup_db (trim_end_matches db_name url) db_name)
      (parse postgres_conn_str)

-- `OperatorCli`
pub record OperatorCli : Type 0 where
  pub config_path : Option Text
  pub init_pg : Option Text
  pub eth_account : Bool

-- How a run ends: it returns, `process::exit` ends it, it panics, or it is in `handle_connection`.
pub data Ended (Running : Type 0) : Type 0 where
  returned : Ended Running
  process_exited : ℕ → Ended Running
  crashed : Ended Running
  connected : Running → Ended Running

-- What a run uses: what the operator is made of, the file system, the parser of YAML, what the
-- task of the server sends, and the database server.
pub record Environment (Contract Database Server : Type 0) : Type 1 where
  pub around : Surroundings Contract Database
  pub read_to_string : Text → FileRead
  pub from_str : Text → Option OperatorConfig
  pub sent : Option Server
  pub parse_url : Text → Option (Text × Text)
  pub setup_db : Text → Text → Bool

-- `build_operator`: an error is unwrapped.
abbrev pub unwrapped : {Running : Type 0} → Outcome OperatorError Running → Ended Running
unwrapped (ok operator) = connected operator
unwrapped (err e) = crashed
unwrapped panic = crashed

module _ {Contract Database Server : Type 0} (env : Environment Contract Database Server) where
  open env use {around, read_to_string, from_str, sent, parse_url, setup_db}

  -- `build_operator`, and `handle_connection` if it returns
  unfoldable pub started_with : Started → Ended (Operator Contract Database Server)
  started_with (config_loaded config) = unwrapped (initialize_node around sent config)
  started_with (exited code) = process_exited code
  started_with panicked = crashed

  abbrev pub set_up : Option Text → Bool
  set_up none = true
  set_up (some pg_conn_str) = init_db parse_url setup_db pg_conn_str

  unfoldable pub set_up_node : Option Text → Ended (Operator Contract Database Server)
  set_up_node none = returned
  set_up_node (some config_path) =
      started_with (construct_node_config (load_config read_to_string from_str config_path))

  -- `run_cli`; the new account and the help are only printed, and `eth_account` never fails.
  unfoldable pub run_cli : OperatorCli → Ended (Operator Contract Database Server)
  run_cli args = if set_up args.init_pg then set_up_node args.config_path else returned
