-- ===== src/Storage.antt =====
-- operator/runer/src/storage.rs: rows that the operator stores; operator/db_sql/src/pg/migrator: the
-- tables they are stored in.
pub mod Rows
pub mod Setup
mod Tests
use aos_operator.Shared.{
  ℕ, ◌≡◌, Bool, true, false, not, ◌&&◌, ◌||◌, Option, none, some, List, [], ◌∷◌, ◌++◌,
}
use aos_operator.Shared.Text.{Text, codes, text_eq}
use aos_operator.Shared.TextMap.{TextMap, get}

pub data Value : Type 0 where
  string binary : List ℕ → Value

pub record ColumnDef : Type 0 where
  pub column : Text
  pub not_null : Bool
  pub auto_increment : Bool
  pub unique_key : Bool

pub record TableDef : Type 0 where
  pub table : Text
  pub columns : List ColumnDef

-- `big_integer().not_null().auto_increment().primary_key()`
abbrev id_column : ColumnDef
id_column = record {
  column = codes "id";
  not_null = true;
  auto_increment = true;
  unique_key = true;
}

abbrev required : Text → ColumnDef
required name = record {
  column = name;
  not_null = true;
  auto_increment = false;
  unique_key = false;
}

abbrev required_unique : Text → ColumnDef
required_unique name = record {
  column = name;
  not_null = true;
  auto_increment = false;
  unique_key = true;
}

abbrev optional : Text → ColumnDef
optional name = record {
  column = name;
  not_null = false;
  auto_increment = false;
  unique_key = false;
}

abbrev pub job_result_param : TableDef
job_result_param = record {
  table = codes "job_result_param";
  columns =
      id_column
      ∷ required (codes "username")
      ∷ required_unique (codes "job_id")
      ∷ required (codes "result")
      ∷ required (codes "tag")
      ∷ required (codes "clock")
      ∷ required (codes "operator")
      ∷ required (codes "signature")
      ∷ [];
}

abbrev pub clock_infos : TableDef
clock_infos = record {
  table = codes "clock_infos";
  columns =
      id_column
      ∷ required (codes "clock")
      ∷ required_unique (codes "clock_hash")
      ∷ required (codes "node_id")
      ∷ required (codes "message_id")
      ∷ required (codes "raw_message")
      ∷ required (codes "event_count")
      ∷ optional (codes "create_at")
      ∷ [];
}

-- An active model: the columns that are set.
abbrev pub Row : Type 0
Row = TextMap Value

unfoldable pub is_set : Option Value → Bool
is_set none = false
is_set (some v) = true

-- Every column is set that may not be null and that the database does not number.
unfoldable pub complete : List ColumnDef → Row → Bool
complete [] row = true
complete (c ∷ cs) row =
    (not c.not_null || c.auto_increment || is_set (get c.column row)) && complete cs row

unfoldable pub same_value : Option Value → Option Value → Bool
same_value none w = false
same_value (some v) none = false
same_value (some (string a)) (some (string b)) = text_eq a b
same_value (some (string a)) (some (binary b)) = false
same_value (some (binary a)) (some (string b)) = false
same_value (some (binary a)) (some (binary b)) = text_eq a b

-- Two rows have the same value in a column that is unique.
unfoldable pub clash : List ColumnDef → Row → Row → Bool
clash [] row other = false
clash (c ∷ cs) row other =
    (c.unique_key && same_value (get c.column row) (get c.column other)) || clash cs row other

unfoldable pub fresh : List ColumnDef → Row → List Row → Bool
fresh cs row [] = true
fresh cs row (other ∷ rows) = not (clash cs row other) && fresh cs row rows

-- What is used of the database: what it holds, the rows of a table, in the order of their numbers,
-- and an insertion, which respects the constraints of the table and adds the row, or fails.
pub record Sql : Type 1 where
  pub Db : Type 0
  pub rows : TableDef → Db → List Row
  pub insert : TableDef → Row → Db → Option Db
  pub insert_lem :
      (t : TableDef) (row : Row) (db after : Db)
      → insert t row db ≡ some after
      → (complete t.columns row ≡ true)
        × (fresh t.columns row (rows t db) ≡ true)
        × (rows t after ≡ rows t db ++ row ∷ [])

-- An error of the database is only logged.
abbrev pub logged : {Db : Type 0} → Option Db → Db → Db
logged none db = db
logged (some after) db = after

-- The row of `sinker_clock`.
abbrev pub clock_row : Text → List ℕ → Row
clock_row message_id raw_message =
    (codes "message_id", string message_id) ∷ (codes "raw_message", binary raw_message) ∷ []

-- The row of `sinker_job`.
abbrev pub job_row : Text → Text → Text → Text → Text → Row
job_row job_id username result tag clock =
    (codes "username", string username)
    ∷ (codes "job_id", string job_id)
    ∷ (codes "result", string result)
    ∷ (codes "tag", string tag)
    ∷ (codes "clock", string clock)
    ∷ (codes "operator", string [])
    ∷ (codes "signature", string [])
    ∷ []

module _ (sql : Sql) where
  open sql use {Db, insert}

  unfoldable pub sinker_clock : Text → List ℕ → Db → Db
  sinker_clock message_id raw_message db =
      logged (insert clock_infos (clock_row message_id raw_message) db) db

  unfoldable pub sinker_job : Text → Text → Text → Text → Text → Db → Db
  sinker_job job_id username result tag clock db =
      logged (insert job_result_param (job_row job_id username result tag clock) db) db
