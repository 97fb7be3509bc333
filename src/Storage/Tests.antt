-- ===== src/Storage/Tests.antt =====
-- Storing rows in a concrete database.
use aos_operator.Shared.{
  ◌≤◌, ◌≡◌, refl, ◌⊎◌, true, Option, none, some, List, [], ◌∷◌, ◌++◌, if◌then◌else◌, Bool-cases,
  inl, inr, arith,
}
use aos_operator.Shared.Text.{Text, codes, text_eq, text_eq_refl}
use aos_operator.Shared.TextMap.{get}
use aos_operator.Storage.{
  is_set, same_value, Row, TableDef, Sql, complete, fresh, job_result_param, sinker_job,
  sinker_clock,
}
use aos_operator.Storage.Rows.{
  is_job, count, stored, sinker_job_keeps_first, sinker_clock_stores_nothing,
}

-- A database is the list of its rows, with their tables.
abbrev Tables : Type 0
Tables = List (Text × Row)

abbrev rows_of : TableDef → Tables → List Row
rows_of t [] = []
rows_of t ((name, row) ∷ db) =
    let rest = rows_of t db in if text_eq t.table name then row ∷ rest else rest

abbrev insert_row : TableDef → Row → Tables → Option Tables
insert_row t row db =
    if complete t.columns row
    then (if fresh t.columns row (rows_of t db) then some (db ++ (t.table, row) ∷ []) else none)
    else none

rows_of-append :
    (t : TableDef) (row : Row) (db : Tables)
    → rows_of t (db ++ (t.table, row) ∷ []) ≡ rows_of t db ++ row ∷ []
rows_of-append t row [] = rw (text_eq_refl t.table) refl
rows_of-append t row ((name, r) ∷ db) = elim (Bool-cases (text_eq t.table name)) [
  | inl same ↦ rw (same, rows_of-append t row db) refl
  | inr other ↦ rw (other, rows_of-append t row db) refl
]

insert_row_lem :
    (t : TableDef) (row : Row) (db after : Tables)
    → insert_row t row db ≡ some after
    → (complete t.columns row ≡ true)
      × (fresh t.columns row (rows_of t db) ≡ true)
      × (rows_of t after ≡ rows_of t db ++ row ∷ [])
insert_row_lem t row db after inserted = elim (Bool-cases (complete t.columns row)) [
  | inr bad ↦ let h = rw bad at inserted in absurd cc
  | inl good ↦
      let h = rw good at inserted in
      elim (Bool-cases (fresh t.columns row (rows_of t db))) [
        | inr bad ↦ let g = rw bad at h in absurd cc
        | inl new ↦
            let g = rw new at h in
            let same : db ++ (t.table, row) ∷ [] ≡ after = cc in
            (good, new, rw (← same) (rows_of-append t row db))
      ]
]

abbrev toy_sql : Sql
toy_sql = record { Db = Tables; rows = rows_of; insert = insert_row; insert_lem = insert_row_lem }

abbrev once : Tables
once = sinker_job toy_sql (codes "j1") (codes "u") (codes "first") (codes "opml") (codes "c") []

one_row : count (codes "j1") (rows_of job_result_param once) ≤ 1
unfolding count is_job sinker_job complete is_set fresh same_value get text_eq
one_row = omega arith

sinker_job_keeps_first_example :
    let after =
      sinker_job toy_sql
        (codes "j1")
        (codes "u")
        (codes "second")
        (codes "opml")
        (codes "c")
        once in
    let jobs = rows_of job_result_param once in
    (count (codes "j1") (rows_of job_result_param after) ≤ 1)
    × ((stored (codes "j1") jobs ≡ none)
        ⊎ (stored (codes "j1") (rows_of job_result_param after) ≡ stored (codes "j1") jobs))
    × ((stored (codes "j1") jobs ≡ none) ⊎ (after ≡ once))
sinker_job_keeps_first_example =
    sinker_job_keeps_first toy_sql (codes "j1") (codes "j1") (codes "u") (codes "second")
      (codes "opml") (codes "c") once one_row

sinker_clock_stores_nothing_example : sinker_clock toy_sql (codes "m") (1 ∷ 2 ∷ []) once ≡ once
sinker_clock_stores_nothing_example =
    sinker_clock_stores_nothing toy_sql (codes "m") (1 ∷ 2 ∷ []) once
