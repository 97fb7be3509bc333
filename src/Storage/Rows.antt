-- ===== src/Storage/Rows.antt =====
-- Which rows the operator stores.
use aos_operator.Shared.{
  ℕ, ◌+◌, ◌≤◌, ◌≡◌, refl, sym, ap, ◌∙◌, ◌⊎◌, Bool, true, false, ◌||◌, inl, inr, Option, none, some,
  List, [], ◌∷◌, ◌++◌, Bool-cases, Option-cases, if◌then◌else◌, arith,
}
use aos_operator.Shared.Text.{Text, codes, text_eq, text_eq_iff}
use aos_operator.Shared.TextMap.{get}
use aos_operator.Storage.{
  string, Row, Sql, is_set, complete, same_value, clash, fresh, job_result_param, clock_infos,
  clock_row, job_row, sinker_clock, sinker_job,
}

-- The row is that of a job.
unfoldable pub is_job : Text → Row → Bool
is_job job_id row = same_value (some (string job_id)) (get (codes "job_id") row)

-- How many rows a job has.
unfoldable pub count : Text → List Row → ℕ
count job_id [] = 0
count job_id (row ∷ rows) = (if is_job job_id row then 1 else 0) + count job_id rows

-- The first row of a job.
unfoldable pub stored : Text → List Row → Option Row
stored job_id [] = none
stored job_id (row ∷ rows) = if is_job job_id row then some row else stored job_id rows

clock_incomplete :
    (message_id : Text) (raw_message : List ℕ)
    → complete clock_infos.columns (clock_row message_id raw_message) ≡ false
unfolding complete is_set get text_eq
clock_incomplete message_id raw_message = refl

or_false : (b : Bool) → (b || false) ≡ b
or_false true = refl
or_false false = refl

clash-job_row :
    (job_id username result tag clock : Text) (other : Row)
    → clash job_result_param.columns (job_row job_id username result tag clock) other
      ≡ is_job job_id other
unfolding clash is_job get text_eq same_value
clash-job_row job_id username result tag clock other = or_false _

is_job-job_row :
    (id job_id username result tag clock : Text)
    → is_job id (job_row job_id username result tag clock) ≡ text_eq id job_id
unfolding is_job get text_eq same_value
is_job-job_row id job_id username result tag clock = refl

count-append :
    (id : Text) (rows : List Row) (row : Row)
    → count id (rows ++ row ∷ []) ≡ count id rows + (if is_job id row then 1 else 0)
unfolding count
count-append id [] row = omega arith
count-append id (r ∷ rows) row = omega (arith, count-append id rows row)

stored-append :
    (id : Text) (rows : List Row) (row found : Row)
    → stored id rows ≡ some found
    → stored id (rows ++ row ∷ []) ≡ some found
unfolding stored
stored-append id [] row found h = cc
stored-append id (r ∷ rows) row found h = elim (Bool-cases (is_job id r)) [
  | inl own ↦ let h' = rw own at h in rw own h'
  | inr other ↦ let h' = rw other at h in rw other (stored-append id rows row found h')
]

stored-none : (id : Text) (rows : List Row) → count id rows ≡ 0 → stored id rows ≡ none
unfolding count stored
stored-none id [] h = refl
stored-none id (r ∷ rows) h = elim (Bool-cases (is_job id r)) [
  | inl own ↦ let h' = rw own at h in absurd (omega arith)
  | inr other ↦ let h' = rw other at h in rw other (stored-none id rows (omega arith))
]

-- A row that the database takes is the first of its job.
count-fresh :
    (job_id username result tag clock : Text) (rows : List Row)
    → fresh job_result_param.columns (job_row job_id username result tag clock) rows ≡ true
    → count job_id rows ≡ 0
unfolding fresh count
count-fresh job_id username result tag clock [] h = refl
count-fresh job_id username result tag clock (r ∷ rows) h =
    let h' = rw (clash-job_row job_id username result tag clock r) at h in
    elim (Bool-cases (is_job job_id r)) [
      | inl own ↦ let g = rw own at h' in cc
      | inr other ↦
          let g = rw other at h' in
          let rest = count-fresh job_id username result tag clock rows g in rw other (omega arith)
    ]

module _ (sql : Sql) where
  open sql use {Db, rows, insert, insert_lem}

  -- Whatever the message is, `sinker_clock` stores nothing: its row leaves out columns that may not
  -- be null.
  pub sinker_clock_stores_nothing :
      (message_id : Text) (raw_message : List ℕ) (db : Db)
      → sinker_clock sql message_id raw_message db ≡ db
  unfolding sinker_clock
  sinker_clock_stores_nothing message_id raw_message db =
      let row = clock_row message_id raw_message in
      elim (Option-cases (insert clock_infos row db)) [
        | inl failed ↦ rw failed refl
        | inr (after, inserted) ↦
            let set = (insert_lem clock_infos row db after inserted).0 in
            absurd (let h = clock_incomplete message_id raw_message in cc)
      ]

  -- A job that has one row at most keeps one row at most when the result of a job is stored, and a
  -- row that it has stays the first; a job that has a row is not stored again, whatever its new
  -- result.
  pub sinker_job_keeps_first :
      (id job_id username result tag clock : Text) (db : Db)
      → count id (rows job_result_param db) ≤ 1
      → let after = sinker_job sql job_id username result tag clock db in
        let jobs = rows job_result_param db in
        (count id (rows job_result_param after) ≤ 1)
        × ((stored id jobs ≡ none) ⊎ (stored id (rows job_result_param after) ≡ stored id jobs))
        × ((stored job_id jobs ≡ none) ⊎ (after ≡ db))
  unfolding sinker_job
  sinker_job_keeps_first id job_id username result tag clock db single =
      let row = job_row job_id username result tag clock in
      let jobs = rows job_result_param db in
      elim (Option-cases (insert job_result_param row db)) [
        | inl failed ↦ rw failed (single, inr refl, inr refl)
        | inr (after, inserted) ↦
            let (set, new, added) = insert_lem job_result_param row db after inserted in
            let first = count-fresh job_id username result tag clock jobs new in
            rw (inserted, added)
              (
                rw (count-append id jobs row, is_job-job_row id job_id username result tag clock)
                    (elim (Bool-cases (text_eq id job_id)) [
                      | inl own ↦
                          let none_before : count id jobs ≡ 0 =
                            ap (λ t. count t jobs) ((text_eq_iff id job_id).0 own) ∙ first in
                          rw own (omega arith)
                      | inr other ↦ rw other (omega arith)
                    ]),
                elim (Option-cases (stored id jobs)) [
                  | inl absent ↦ inl absent
                  | inr (found, there) ↦ inr (stored-append id jobs row found there ∙ sym there)
                ],
                inl (stored-none job_id jobs first),
              )
      ]
