-- ===== src/Jobs/Work/Clocks.antt =====
-- The clock that a job's result carries.
use aos_operator.Shared.{
  ℕ, ◌+◌, ◌<◌, ◌≡◌, refl, some, [], ◌∷◌, ◌++◌, ok, err, ltb, if◌then◌else◌, Bool-cases, inl, inr,
}
use aos_operator.Shared.Text.{Text, codes}
use aos_operator.Shared.TextMap.{TextMap}
use aos_operator.Shared.Machine.{u32_mod}
use aos_operator.Shared.Decimal.{to_string, parse_u32-to_string}
use aos_operator.Jobs.{custom_error}
use aos_operator.Jobs.Work.{last_entry, checked_add_1, result_clock}

last_entry-append :
    (front : TextMap Text) (entry : Text × Text) → last_entry (front ++ entry ∷ []) ≡ some entry
unfolding last_entry
last_entry-append [] entry = refl
last_entry-append (x ∷ []) entry = refl
last_entry-append (x ∷ y ∷ front) entry = last_entry-append (y ∷ front) entry

-- A job whose clock is iterated up to an entry with the `u32` value `n` gets a result clock of
-- that one entry with the value `n + 1`, which can be read back; at the last `u32` the job fails.
pub result_clock-append :
    (missing : Text) (front : TextMap Text) (id : Text) (n : ℕ)
    → n < u32_mod
    → result_clock missing (front ++ (id, to_string n) ∷ []) ≡ (
        if ltb (n + 1) u32_mod
        then ok ((id, to_string (n + 1)) ∷ [])
        else err (custom_error (codes "checked_add error")))
unfolding result_clock checked_add_1
result_clock-append missing front id n h =
    let last = last_entry-append front (id, to_string n) in
    elim (Bool-cases (ltb (n + 1) u32_mod)) [
      | inl e ↦ rw (last, parse_u32-to_string n h, e) refl
      | inr e ↦ rw (last, parse_u32-to_string n h, e) refl
    ]
