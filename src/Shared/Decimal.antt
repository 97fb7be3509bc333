-- ===== src/Shared/Decimal.antt =====
-- Decimal text: `to_string` on unsigned integers and `str::parse::<u32>`.
use Prim.Native.Nat.{ℕ, zero, suc, ◌+◌, ◌-◌, ◌*◌, ◌/◌, ◌%◌, ◌≤◌, ◌<◌}
use mathlib.Core.Path.{◌≡◌, refl, ◌∙◌, sym, ap}
use mathlib.Core.Logic.{◌≢◌, inl, inr}
use mathlib.Core.Bool.{◌&&◌, not}
use mathlib.Core.List.{[], ◌∷◌, ◌++◌}
use native.Mathlib.Omega.{arith}
use aos_operator.Shared.Tests.{ltb, leb, ◌==◌, if◌then◌else◌, Bool-cases, ltb→lt}
use aos_operator.Shared.Lists.{All, All-append, length, length-append}
use aos_operator.Shared.Results.{Outcome, ok, err, ◌>>=◌}
use aos_operator.Shared.Machine.{u32_mod}
use aos_operator.Shared.Text.{Text}

pub data ParseIntError : Type 0 where
  empty invalid_digit pos_overflow : ParseIntError

-- The digits of `n`; a number has fewer digits than its value has ones.
unfoldable pub digits : ℕ → ℕ → Text
digits zero n = []
digits (suc fuel) n =
    let high = digits fuel (n / 10) in
    if ltb n 10 then (n + b'0') ∷ [] else high ++ (n % 10 + b'0') ∷ []

unfoldable pub to_string : ℕ → Text
unfolding digits
to_string n = digits (suc n) n

-- One digit of `parse`, in a `u32`; the digit is read before the overflow is seen.
unfoldable pub parse_digit : ℕ → ℕ → Outcome ParseIntError ℕ
parse_digit acc c =
    if not (leb b'0' c && leb c b'9')
    then err invalid_digit
    else if leb u32_mod (acc * 10)
    then err pos_overflow
    else if leb u32_mod (acc * 10 + (c - b'0'))
    then err pos_overflow
    else ok (acc * 10 + (c - b'0'))

unfoldable pub parse_from : ℕ → Text → Outcome ParseIntError ℕ
unfolding parse_digit
parse_from acc [] = ok acc
parse_from acc (c ∷ s) = parse_digit acc c >>= λ acc'. parse_from acc' s

-- `parse::<u32>`: a sign `+` may stand in front of the digits.
unfoldable pub parse_u32 : Text → Outcome ParseIntError ℕ
unfolding parse_from
parse_u32 [] = err empty
parse_u32 (c ∷ []) = if c == b'+' then err invalid_digit else parse_from 0 (c ∷ [])
parse_u32 (c ∷ d ∷ s) = if c == b'+' then parse_from 0 (d ∷ s) else parse_from 0 (c ∷ d ∷ s)

abbrev pub IsDigit : ℕ → Type 0
IsDigit c = (b'0' ≤ c) × (c ≤ b'9')

-- The number that digits stand for, after `acc`.
abbrev pub dec_value_from : ℕ → Text → ℕ
dec_value_from acc [] = acc
dec_value_from acc (c ∷ s) = dec_value_from (acc * 10 + (c - b'0')) s

dec_value-append :
    (acc : ℕ) (xs ys : Text)
    → dec_value_from acc (xs ++ ys) ≡ dec_value_from (dec_value_from acc xs) ys
dec_value-append acc [] ys = refl
dec_value-append acc (x ∷ xs) ys = dec_value-append (acc * 10 + (x - b'0')) xs ys

digits-IsDigit : (fuel n : ℕ) → All IsDigit (digits fuel n)
unfolding digits
digits-IsDigit zero n = tt
digits-IsDigit (suc fuel) n = elim (Bool-cases (ltb n 10)) [
  | inl low ↦ rw low ((omega (arith, ltb→lt n 10 low), omega (arith, ltb→lt n 10 low)), tt)
  | inr high ↦ rw high (
      All-append IsDigit (digits fuel (n / 10)) ((n % 10 + b'0') ∷ [])
        (digits-IsDigit fuel (n / 10)) (omega arith))
]

dec_value-digits : (fuel n : ℕ) → n < fuel → dec_value_from 0 (digits fuel n) ≡ n
unfolding digits
dec_value-digits zero n h = elim h [ ]
dec_value-digits (suc fuel) n h = elim (Bool-cases (ltb n 10)) [
  | inl low ↦ rw low (omega arith)
  | inr high ↦
      let big : 10 ≤ n = ground arith in
      rw
        (
          high,
          dec_value-append 0 (digits fuel (n / 10)) ((n % 10 + b'0') ∷ []),
          dec_value-digits fuel (n / 10) (omega arith),
        )
        (omega arith)
]

pub dec_value-to_string : (n : ℕ) → dec_value_from 0 (to_string n) ≡ n
unfolding to_string
dec_value-to_string n = dec_value-digits (suc n) n (omega arith)

-- Different numbers have different texts.
pub to_string-injective : (m n : ℕ) → to_string m ≡ to_string n → m ≡ n
to_string-injective m n h =
    sym (dec_value-to_string m) ∙ ap (dec_value_from 0) h ∙ dec_value-to_string n

acc-le-dec_value : (acc : ℕ) (s : Text) → acc ≤ dec_value_from acc s
acc-le-dec_value acc [] = omega arith
acc-le-dec_value acc (c ∷ s) = omega (arith, acc-le-dec_value (acc * 10 + (c - b'0')) s)

parse_from-digits :
    (acc : ℕ) (s : Text)
    → All IsDigit s
    → dec_value_from acc s < u32_mod
    → parse_from acc s ≡ ok (dec_value_from acc s)
unfolding parse_from
parse_from-digits acc [] h k = refl
parse_from-digits acc (c ∷ s) h k = ground (
  arith,
  parse_from-digits (acc * 10 + (c - b'0')) s h.1 k,
  acc-le-dec_value (acc * 10 + (c - b'0')) s,
  h.0,
)

parse_u32-digits : (s : Text) → All IsDigit s → s ≢ [] → parse_u32 s ≡ parse_from 0 s
unfolding parse_u32
parse_u32-digits [] h n = absurd (n refl)
parse_u32-digits (c ∷ []) h n = ground (arith, h.0)
parse_u32-digits (c ∷ d ∷ s) h n = ground (arith, h.0)

digits_pos : (fuel n : ℕ) → 0 < length (digits (suc fuel) n)
unfolding digits
digits_pos fuel n = elim (Bool-cases (ltb n 10)) [
  | inl low ↦ rw low (omega arith)
  | inr high ↦ rw high (omega (arith, length-append (digits fuel (n / 10)) ((n % 10 + b'0') ∷ [])))
]

to_string-ne-nil : (n : ℕ) → to_string n ≢ []
unfolding to_string
to_string-ne-nil n e = absurd (omega (arith, digits_pos n n, ap (length {A = ℕ}) e))

-- A `u32` is read back from its text.
pub parse_u32-to_string : (n : ℕ) → n < u32_mod → parse_u32 (to_string n) ≡ ok n
unfolding to_string
parse_u32-to_string n h =
    let v = dec_value-to_string n in
    let d = digits-IsDigit (suc n) n in
    parse_u32-digits (to_string n) d (to_string-ne-nil n)
    ∙ parse_from-digits 0 (to_string n) d (omega (arith, v))
    ∙ ap ok v
