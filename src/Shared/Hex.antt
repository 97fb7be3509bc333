-- ===== src/Shared/Hex.antt =====
-- Hexadecimal text: its digits and its value, and what the program relies on of the crates that
-- read and write it.
use native.Mathlib.Nat.{pow-suc, pow-zero, mul-add-mod_self_right, mod-eq_of_lt}
use Prim.Native.Nat.{ℕ, zero, suc, ◌+◌, ◌-◌, ◌*◌, ◌/◌, ◌%◌, ◌^◌, ◌<◌}
use mathlib.Core.Path.{◌≡◌, refl, ◌∙◌, sym, ap}
use mathlib.Core.Logic.{◌≢◌}
use mathlib.Core.Bool.{Bool, true, ◌&&◌, ◌||◌}
use mathlib.Core.List.{List, [], ◌∷◌, ◌++◌}
use mathlib.Core.Option.{Option, none, some}
use native.Mathlib.Omega.{arith}
use aos_operator.Shared.Tests.{ltb, leb, if◌then◌else◌}
use aos_operator.Shared.Lists.{length, take, drop, All}
use aos_operator.Shared.Text.{Text}

-- `char::is_ascii_hexdigit`
unfoldable pub is_ascii_hexdigit : ℕ → Bool
is_ascii_hexdigit c =
    (leb b'0' c && leb c b'9') || (leb b'A' c && leb c b'F') || (leb b'a' c && leb c b'f')

-- `chars().all(|c| c.is_ascii_hexdigit())`: no byte of a longer character is a digit.
unfoldable pub all_hexdigits : Text → Bool
unfolding is_ascii_hexdigit
all_hexdigits [] = true
all_hexdigits (c ∷ s) = is_ascii_hexdigit c && all_hexdigits s

unfoldable pub digit_value : ℕ → ℕ
digit_value c = if leb c b'9' then c - b'0' else if leb c b'F' then c - 55 else c - 87

-- The digit of a number below 16, in lower case.
unfoldable pub hex_digit : ℕ → ℕ
hex_digit d = if ltb d 10 then d + b'0' else d + 87

-- The number that a text stands for, after `acc`.
unfoldable pub value_from : ℕ → Text → ℕ
value_from acc [] = acc
value_from acc (c ∷ s) = value_from (acc * 16 + digit_value c) s

abbrev pub hex_value : Text → ℕ
hex_value s = value_from 0 s

-- The number that bytes stand for, the first byte the highest.
unfoldable pub be_from : ℕ → List ℕ → ℕ
be_from acc [] = acc
be_from acc (b ∷ bs) = be_from (acc * 256 + b) bs

abbrev pub be_value : List ℕ → ℕ
be_value bs = be_from 0 bs

abbrev pub IsByte : ℕ → Type 0
IsByte b = b < 256

-- What is used of the crates `hex` (`encode`, and `FromHex` for arrays of `n` bytes) and
-- `num_bigint` (`from_str_radix` at 16). `none` is an error.
pub record HexCrates : Type 0 where
  pub encode : List ℕ → Text
  pub from_hex : ℕ → Text → Option (List ℕ)
  pub from_str_radix_16 : Text → Option ℕ
  -- Two digits in lower case for each byte.
  pub encode-nil : encode [] ≡ []
  pub encode-cons :
      (b : ℕ) (bs : List ℕ)
      → b < 256
      → encode (b ∷ bs) ≡ hex_digit (b / 16) ∷ hex_digit (b % 16) ∷ encode bs
  -- An array of `n` bytes is read from `2 * n` digits and from nothing else.
  pub from_hex_length : (n : ℕ) (s : Text) → length s ≢ 2 * n → from_hex n s ≡ none
  pub from_hex_digits :
      (n : ℕ) (s : Text)
      → length s ≡ 2 * n
      → all_hexdigits s ≡ true
      → (bs : List ℕ) × (from_hex n s ≡ some bs) × (length bs ≡ n)
  -- A text of digits is read as its value, and an empty text is refused.
  pub radix-nil : from_str_radix_16 [] ≡ none
  pub radix-digits :
      (c : ℕ) (s : Text)
      → all_hexdigits (c ∷ s) ≡ true
      → from_str_radix_16 (c ∷ s) ≡ some (hex_value (c ∷ s))

value_from-acc : (acc : ℕ) (s : Text) → value_from acc s ≡ acc * 16 ^ length s + value_from 0 s
unfolding value_from
value_from-acc acc [] = rw (pow-zero 16) (omega arith)
value_from-acc acc (c ∷ s) =
    rw
      (
        value_from-acc (acc * 16 + digit_value c) s,
        value_from-acc (0 * 16 + digit_value c) s,
        pow-suc 16 (length s),
      )
      (omega arith)

digit_value-lt : (c : ℕ) → is_ascii_hexdigit c ≡ true → digit_value c < 16
unfolding digit_value is_ascii_hexdigit
digit_value-lt c h = ground arith

digit_bound : (d p v : ℕ) → d < 16 → v < p → d * p + v < p * 16
digit_bound d p v h k = grind arith

pub hex_value-lt : (s : Text) → all_hexdigits s ≡ true → hex_value s < 16 ^ length s
unfolding value_from all_hexdigits
hex_value-lt [] h = rw (pow-zero 16) (omega arith)
hex_value-lt (c ∷ s) h =
    let parts : (is_ascii_hexdigit c ≡ true) × (all_hexdigits s ≡ true) = ground arith in
    rw (value_from-acc (0 * 16 + digit_value c) s, pow-suc 16 (length s))
      (digit_bound (0 * 16 + digit_value c) (16 ^ length s) (hex_value s)
        (omega (arith, digit_value-lt c parts.0)) (hex_value-lt s parts.1))

digit_value-hex_digit : (d : ℕ) → d < 16 → digit_value (hex_digit d) ≡ d
unfolding digit_value hex_digit
digit_value-hex_digit d h = ground arith

hex_digit-digit : (d : ℕ) → d < 16 → is_ascii_hexdigit (hex_digit d) ≡ true
unfolding is_ascii_hexdigit hex_digit
hex_digit-digit d h = ground arith

value_from-append :
    (acc : ℕ) (xs ys : Text) → value_from acc (xs ++ ys) ≡ value_from (value_from acc xs) ys
unfolding value_from
value_from-append acc [] ys = refl
value_from-append acc (x ∷ xs) ys = value_from-append (acc * 16 + digit_value x) xs ys

pub take-append-drop : (k : ℕ) (s : Text) → take k s ++ drop k s ≡ s
take-append-drop zero s = refl
take-append-drop (suc k) [] = refl
take-append-drop (suc k) (c ∷ s) = rw (take-append-drop k s)

pub all_hexdigits-drop :
    (k : ℕ) (s : Text) → all_hexdigits s ≡ true → all_hexdigits (drop k s) ≡ true
unfolding all_hexdigits
all_hexdigits-drop zero s h = h
all_hexdigits-drop (suc k) [] h = refl
all_hexdigits-drop (suc k) (c ∷ s) h =
    let parts : (is_ascii_hexdigit c ≡ true) × (all_hexdigits s ≡ true) = ground arith in
    all_hexdigits-drop k s parts.1

-- The last digits of a number are its remainder.
pub hex_value-drop :
    (k : ℕ) (s : Text)
    → all_hexdigits s ≡ true
    → hex_value (drop k s) ≡ hex_value s % 16 ^ length (drop k s)
hex_value-drop k s h =
    let low = drop k s in
    let split : hex_value s ≡ hex_value (take k s) * 16 ^ length low + hex_value low =
      ap (λ t. value_from 0 t) (sym (take-append-drop k s))
      ∙ value_from-append 0 (take k s) low
      ∙ value_from-acc (hex_value (take k s)) low in
    sym (
      rw split (
        mul-add-mod_self_right (hex_value (take k s)) (16 ^ length low) (hex_value low)
        ∙ mod-eq_of_lt (hex_value-lt low (all_hexdigits-drop k s h))))

module _ (crates : HexCrates) where
  open crates use {encode, encode-nil, encode-cons}

  pub length-encode : (bs : List ℕ) → All IsByte bs → length (encode bs) ≡ 2 * length bs
  length-encode [] h = rw encode-nil
  length-encode (b ∷ bs) h = rw (encode-cons b bs h.0) (omega (arith, length-encode bs h.1))

  pub all_hexdigits-encode : (bs : List ℕ) → All IsByte bs → all_hexdigits (encode bs) ≡ true
  unfolding all_hexdigits
  all_hexdigits-encode [] h = rw encode-nil
  all_hexdigits-encode (b ∷ bs) h =
      rw
        (
          encode-cons b bs h.0,
          hex_digit-digit (b / 16) (omega (arith, h.0)),
          hex_digit-digit (b % 16) (omega arith),
        )
        (all_hexdigits-encode bs h.1)

  value_from-encode :
      (acc : ℕ) (bs : List ℕ) → All IsByte bs → value_from acc (encode bs) ≡ be_from acc bs
  unfolding value_from be_from
  value_from-encode acc [] h = rw encode-nil
  value_from-encode acc (b ∷ bs) h =
      rw
        (
          encode-cons b bs h.0,
          digit_value-hex_digit (b / 16) (omega (arith, h.0)),
          digit_value-hex_digit (b % 16) (omega arith),
        )
        (value_from-encode ((acc * 16 + b / 16) * 16 + b % 16) bs h.1
          ∙ ap (λ t. be_from t bs) (omega arith))

  -- The text that `encode` makes of bytes stands for the same number.
  pub hex_value-encode : (bs : List ℕ) → All IsByte bs → hex_value (encode bs) ≡ be_value bs
  hex_value-encode bs h = value_from-encode 0 bs h
