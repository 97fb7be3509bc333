-- ===== src/Storage/Setup.antt =====
-- operator/db_sql/src/pg/pg_client.rs: the set-up of the database.
pub mod Refreshing
mod Tests
use aos_operator.Shared.{
  ℕ, ◌≡◌, Bool, true, false, Option, none, some, List, [], ◌∷◌, ◌++◌, leb, not, length, ◌==◌, ◌&&◌,
  ◌||◌, Outcome, ok, err, panic,
}
use aos_operator.Shared.Text.{Text, codes, text_eq}
use aos_operator.Storage.{TableDef, job_result_param, clock_infos}

pub data Backend : Type 0 where
  my_sql postgres sqlite : Backend

-- `CREATE DATABASE IF NOT EXISTS`, `DROP DATABASE IF EXISTS` and `CREATE DATABASE` of a name
pub data Statement : Type 0 where
  create_if_not_exists drop_if_exists create : Text → Statement

unfoldable pub all_plain : Text → Bool
all_plain [] = true
all_plain (c ∷ s) =
    ((leb b'a' c && leb c b'z')
      || (leb b'A' c && leb c b'Z')
      || (leb b'0' c && leb c b'9')
      || (c == b'_'))
    && all_plain s

-- A name of 1 to 63 letters, digits and `_`, which stands for itself in a statement and in an
-- address.
unfoldable pub plain_name : Text → Bool
unfolding all_plain
plain_name name = leb 1 (length name) && leb (length name) 63 && all_plain name

-- What may stand between the scheme of an address and its path: a user, a host and a port.
unfoldable pub all_authority : Text → Bool
all_authority [] = true
all_authority (c ∷ s) = (not (c == b'/') && not (c == b'?') && not (c == b'#')) && all_authority s

unfoldable pub is_authority : Text → Bool
unfolding all_authority
is_authority s = leb 1 (length s) && all_authority s

-- The address of a Postgres server without the name of a database and without a query; `init_db`
-- leaves the last `/` in it.
abbrev pub server_url : Text → Bool → Text
server_url authority true = codes "postgres://" ++ (authority ++ b'/' ∷ [])
server_url authority false = codes "postgres://" ++ authority

-- What is used of `sea_orm`: a server with named databases. A statement that fails changes nothing.
pub record DbServer : Type 1 where
  pub State : Type 0
  pub Connection : Type 0
  pub Database : Type 0
  pub database : Text → State → Option Database
  pub connect : Text → State → Option Connection
  pub get_database_backend : Connection → Backend
  pub execute : Connection → Statement → State → Option State
  -- `MigratorTrait::up` with the migrations that create these tables, and whether it succeeded
  pub up : Connection → List TableDef → State → State × Bool
  pub has_table : Connection → Text → State → Option Bool
  -- The database that a connection is to, one without tables, and one to which tables are added.
  pub connected_to : Connection → Text
  pub empty : Database
  pub migrated : List TableDef → Database → Database
  pub connect_lem :
      (authority name : Text) (slash : Bool) (s : State) (c : Connection)
      → is_authority authority ≡ true
      → plain_name name ≡ true
      → connect (server_url authority slash ++ (b'/' ∷ name)) s ≡ some c
      → connected_to c ≡ name
  pub drop_lem :
      (c : Connection) (name : Text) (s after : State)
      → plain_name name ≡ true
      → execute c (drop_if_exists name) s ≡ some after
      → (database name after ≡ none)
        × ((other : Text) → text_eq other name ≡ false → database other after ≡ database other s)
  pub create_lem :
      (c : Connection) (name : Text) (s after : State)
      → plain_name name ≡ true
      → execute c (create name) s ≡ some after
      → (database name after ≡ some empty)
        × ((other : Text) → text_eq other name ≡ false → database other after ≡ database other s)
  pub up_lem :
      (c : Connection) (tables : List TableDef) (s : State) (d : Database)
      → database (connected_to c) s ≡ some d
      → (up c tables s).1 ≡ true
      → database (connected_to c) (up c tables s).0 ≡ some (migrated tables d)
  pub up_others :
      (c : Connection) (tables : List TableDef) (s : State) (other : Text)
      → text_eq other (connected_to c) ≡ false
      → database other (up c tables s).0 ≡ database other s

-- `Migrator::migrations`, by the tables that they create
abbrev pub migrations : List TableDef
migrations = job_result_param ∷ clock_infos ∷ []

-- The end of `setup_db`: `assert!(schema_manager.has_table("clock_infos").await?)`
abbrev pub asserted :
    {Connection : Type 0} → Connection → Option Bool → Outcome (Unit {0}) Connection
asserted c none = err tt
asserted c (some true) = ok c
asserted c (some false) = panic

module _ (server : DbServer) where
  open server use {State, Connection, connect, get_database_backend, execute, up, has_table}

  abbrev pub Result : Type 0
  Result = State × Outcome (Unit {0}) Connection

  -- The `?` operator, on what ended in an error without changing anything.
  abbrev pub or_fail : {A : Type 0} → State → Option A → (A → Result) → Result
  or_fail s none k = (s, err tt)
  or_fail s (some a) k = k a

  abbrev pub up_ended : Connection → State × Bool → Result
  up_ended db (s, false) = (s, err tt)
  up_ended db (s, true) = (s, asserted db (has_table db (codes "clock_infos") s))

  unfoldable pub migrate : State → Connection → Result
  migrate s db = up_ended db (up db migrations s)

  -- The part of `setup_db` that depends on the backend
  unfoldable pub by_backend : Text → Text → State → Connection → Backend → Result
  by_backend request_url db_name s db my_sql =
      or_fail s (execute db (create_if_not_exists db_name) s)
        λ s1. or_fail s1 (connect (request_url ++ (b'/' ∷ db_name)) s1) (migrate s1)
  by_backend request_url db_name s db postgres =
      or_fail s (execute db (drop_if_exists db_name) s) λ s1.
        or_fail s1 (execute db (create db_name) s1)
          λ s2. or_fail s2 (connect (request_url ++ (b'/' ∷ db_name)) s2) (migrate s2)
  by_backend request_url db_name s db sqlite = migrate s db

  unfoldable pub setup_db : Text → Text → State → Result
  setup_db request_url db_name s =
      or_fail s (connect request_url s)
        λ db. by_backend request_url db_name s db (get_database_backend db)
