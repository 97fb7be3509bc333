-- ===== src/Vrf/Instance.antt =====
-- A small instance of the crates that crates/vrf uses: points and scalars are numbers.
use aos_operator.Shared.{
  ℕ, zero, suc, ◌+◌, ◌-◌, ◌*◌, ◌/◌, ◌%◌, ◌≡◌, ◌≢◌, refl, ap, true, Option, none, some, List, [],
  ◌∷◌, ◌==◌, ==_refl, ◌&&◌, if◌then◌else◌, length, take, replicate, All, All-replicate, arith,
}
use aos_operator.Shared.Text.{Text}
use aos_operator.Shared.Hex.{HexCrates, hex_digit, hex_value, digit_value, all_hexdigits, IsByte}
use aos_operator.Vrf.Curve.{Curve, Bytes, le_value}
use aos_operator.Vrf.Ecvrf.{clamp}

abbrev pub encode_bytes : List ℕ → Text
encode_bytes [] = []
encode_bytes (b ∷ bs) = hex_digit (b / 16) ∷ hex_digit (b % 16) ∷ encode_bytes bs

abbrev pub pairs : Text → List ℕ
pairs [] = []
pairs (a ∷ []) = []
pairs (a ∷ b ∷ s) = (digit_value a * 16 + digit_value b) ∷ pairs s

length-pairs : (n : ℕ) (s : Text) → length s ≡ 2 * n → length (pairs s) ≡ n
length-pairs n [] h = omega arith
length-pairs n (a ∷ []) h = absurd (omega arith)
length-pairs zero (a ∷ b ∷ s) h = absurd (omega arith)
length-pairs (suc n) (a ∷ b ∷ s) h = ap suc (length-pairs n s (omega arith))

abbrev pub read_array : ℕ → Text → Option (List ℕ)
read_array n s = if (length s == 2 * n) && all_hexdigits s then some (pairs s) else none

pub read_array-length : (n : ℕ) (s : Text) → length s ≢ 2 * n → read_array n s ≡ none
read_array-length n s h = ground arith

pub read_array_digits :
    (n : ℕ) (s : Text)
    → length s ≡ 2 * n
    → all_hexdigits s ≡ true
    → (bs : List ℕ) × (read_array n s ≡ some bs) × (length bs ≡ n)
read_array_digits n s h k = (pairs s, rw (h, k, ==_refl (2 * n)) refl, length-pairs n s h)

abbrev pub read_number : Text → Option ℕ
read_number [] = none
read_number (c ∷ s) = if all_hexdigits (c ∷ s) then some (hex_value (c ∷ s)) else none

pub read_number_digits :
    (c : ℕ) (s : Text)
    → all_hexdigits (c ∷ s) ≡ true
    → read_number (c ∷ s) ≡ some (hex_value (c ∷ s))
read_number_digits c s h = rw h refl

abbrev pub toy_hex : HexCrates
toy_hex = record {
  encode = encode_bytes;
  from_hex = read_array;
  from_str_radix_16 = read_number;
  encode-nil = refl;
  encode-cons = λ b bs h. refl;
  from_hex_length = read_array-length;
  from_hex_digits = read_array_digits;
  radix-nil = refl;
  radix-digits = read_number_digits;
}

-- A number as `n + 1` digits to the base 256, all that is left in the last one.
abbrev pub le_digits : ℕ → ℕ → Bytes
le_digits zero a = a ∷ []
le_digits (suc n) a = a % 256 ∷ le_digits n (a / 256)

pub length-le_digits : (n a : ℕ) → length (le_digits n a) ≡ n + 1
length-le_digits zero a = refl
length-le_digits (suc n) a = omega (arith, length-le_digits n (a / 256))

pub le_value-le_digits : (n a : ℕ) → le_value (le_digits n a) ≡ a
le_value-le_digits zero a = omega arith
le_value-le_digits (suc n) a = rw (le_value-le_digits n (a / 256)) (omega arith)

pub le_digits-le_value :
    (n : ℕ) (bs : Bytes) → length bs ≡ n + 1 → All IsByte bs → le_digits n (le_value bs) ≡ bs
le_digits-le_value n [] h all = absurd (omega arith)
le_digits-le_value zero (b ∷ []) h all = ap (λ t. t ∷ []) (omega arith)
le_digits-le_value zero (b ∷ c ∷ bs) h all = absurd (omega arith)
le_digits-le_value (suc n) (b ∷ bs) h all =
    let low : (b + 256 * le_value bs) % 256 ≡ b = omega (arith, all.0) in
    let high : (b + 256 * le_value bs) / 256 ≡ le_value bs = omega (arith, all.0) in
    rw (low, high, le_digits-le_value n bs (omega arith) all.1) refl

abbrev pub sum_of : Bytes → ℕ
sum_of [] = 0
sum_of (b ∷ bs) = b + sum_of bs

abbrev pub toy_hash : Bytes → Bytes
toy_hash bs = sum_of bs % 256 ∷ replicate 63 0

pub toy_hash-IsByte : (bs : Bytes) → All IsByte (toy_hash bs)
toy_hash-IsByte bs = (omega arith, All-replicate IsByte 63 0 (omega arith))

abbrev pub point_of : Bytes → Option ℕ
point_of [] = none
point_of (b ∷ bs) = some b

pub distributes : (p a b : ℕ) → p * (a + b) ≡ p * a + p * b
distributes p a b = grind arith

pub commutes : (p a b : ℕ) → p * (a * b) ≡ p * b * a
commutes p a b = grind arith

abbrev pub toy_curve : Curve
toy_curve = record {
  Point = ℕ;
  Scalar = ℕ;
  basepoint = 1;
  add = λ p q. p + q;
  sub = λ p q. p - q;
  mul = λ p a. p * a;
  mul_by_cofactor = λ p. 8 * p;
  is_small_order = λ p. p == 0;
  compress = λ p. p ∷ replicate 31 0;
  decompress = point_of;
  scalar_add = λ a b. a + b;
  scalar_mul = λ a b. a * b;
  scalar_eq = λ a b. a == b;
  from_bytes_mod_order = λ bs. le_value bs;
  from_bytes_mod_order_wide = λ bs. le_value bs;
  scalar_to_bytes = le_digits 31;
  sha512 = toy_hash;
  verifying_key = λ sk. 1 * le_value (clamp (take 32 (toy_hash sk))) ∷ replicate 31 0;
  InGroup = λ p. Unit;
  basepoint-InGroup = tt;
  cofactor-InGroup = λ p. tt;
  mul-scalar_add = λ p a b h. distributes p a b;
  mul-scalar_mul = λ p a b h. commutes p a b;
  sub-add = λ p q. omega arith;
  decompress-compress = λ p. refl;
  length-compress = λ p. refl;
  scalar_eq-refl = ==_refl;
  length-scalar_to_bytes = length-le_digits 31;
  from_bytes-to_bytes = le_value-le_digits 31;
  to_bytes-from_bytes = λ bs h all small. le_digits-le_value 31 bs h all;
  length-sha512 = λ bs. refl;
  sha512-IsByte = toy_hash-IsByte;
}
