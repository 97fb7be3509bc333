-- ===== src/Vrf/PrivateKey/Reading.antt =====
-- Which texts are read as private keys.
use mathlib.Core.List.{append-nil}
use aos_operator.Shared.{
  ℕ, ◌+◌, ◌*◌, ◌/◌, ◌%◌, ◌<◌, ◌≡◌, refl, sym, ap, ap₂, ◌∙◌, Bool-cases, inl, inr, ==_iff,
  take-append_length, true, false, not, some, [], ◌∷◌, ok, err, panic, leb, ◌==◌, if◌then◌else◌,
  length, take, All, arith,
}
use aos_operator.Shared.Text.{Text}
use aos_operator.Shared.Hex.{
  HexCrates, IsByte, is_ascii_hexdigit, all_hexdigits, digit_value, hex_digit, length-encode,
  all_hexdigits-encode,
}
use aos_operator.Vrf.Curve.{Bytes}
use aos_operator.Vrf.Ecvrf.{wrong_length_error}
use aos_operator.Vrf.PrivateKey.{
  is_continuation, byte_from_hex, cuts, bytes_from_hex, private_key_from_bytes,
  private_key_from_str,
}

-- The bytes that pairs of digits stand for.
abbrev pub digit_bytes : Text → Bytes
digit_bytes [] = []
digit_bytes (a ∷ []) = []
digit_bytes (a ∷ b ∷ s) = (digit_value a * 16 + digit_value b) ∷ digit_bytes s

digit_cuts : (a : ℕ) → is_ascii_hexdigit a ≡ true → is_continuation a ≡ false
unfolding is_ascii_hexdigit is_continuation
digit_cuts a h = ground arith

no_sign : (c : ℕ) → is_ascii_hexdigit c ≡ true → (c == b'+') ≡ false
unfolding is_ascii_hexdigit
no_sign c h = ground arith

byte_from_digits :
    (a b : ℕ)
    → is_ascii_hexdigit a ≡ true
    → is_ascii_hexdigit b ≡ true
    → byte_from_hex a b ≡ some (digit_value a * 16 + digit_value b)
unfolding byte_from_hex
byte_from_digits a b ha hb = rw (no_sign a ha, ha, hb) refl

all_cuts : (s : Text) → all_hexdigits s ≡ true → cuts s ≡ true
unfolding all_hexdigits
all_cuts [] h = refl
all_cuts (c ∷ s) h =
    let digit : is_ascii_hexdigit c ≡ true = ground arith in rw (digit_cuts c digit) refl

bytes_from_digits :
    (s : Text)
    → all_hexdigits s ≡ true
    → length s % 2 ≡ 0
    → (bytes_from_hex s ≡ ok (digit_bytes s)) × (2 * length (digit_bytes s) ≡ length s)
unfolding bytes_from_hex all_hexdigits
bytes_from_digits [] h even = (refl, refl)
bytes_from_digits (a ∷ []) h even = absurd (omega arith)
bytes_from_digits (a ∷ b ∷ s) h even =
    let ha : is_ascii_hexdigit a ≡ true = ground arith in
    let hb : is_ascii_hexdigit b ≡ true = ground arith in
    let hs : all_hexdigits s ≡ true = ground arith in
    let rest = bytes_from_digits s hs (omega arith) in
    (
      rw (digit_cuts a ha, all_cuts s hs, byte_from_digits a b ha hb, rest.0) refl,
      omega (arith, rest.1),
    )

leb_half : (n m : ℕ) → 2 * n ≡ m → leb 32 n ≡ leb 64 m
leb_half n m h = ground arith

-- A text of hexadecimal digits of odd length is refused with `WrongLengthError`; one of less than 64
-- digits is not refused but panics; of a longer one the first 64 digits are the key, and the others
-- are ignored.
pub private_key_from_str_digits :
    (signing_bytes : Bytes → Bytes) (s : Text)
    → all_hexdigits s ≡ true
    → private_key_from_str signing_bytes s ≡ (
        if not (length s % 2 == 0)
        then err wrong_length_error
        else if leb 64 (length s)
        then ok (signing_bytes (take 32 (digit_bytes s)))
        else panic)
unfolding private_key_from_str private_key_from_bytes
private_key_from_str_digits signing_bytes s h = elim (Bool-cases (length s % 2 == 0)) [
  | inr odd ↦ rw odd refl
  | inl even ↦
      let read = bytes_from_digits s h ((==_iff (length s % 2) 0).0 even) in
      let same : leb 32 (length (digit_bytes s)) ≡ leb 64 (length s) =
        leb_half (length (digit_bytes s)) (length s) read.1 in
      rw (even, read.0, same) refl
]

digit_value-hex_digit : (d : ℕ) → d < 16 → digit_value (hex_digit d) ≡ d
unfolding digit_value hex_digit
digit_value-hex_digit d h = ground arith

take_whole : (n : ℕ) (xs : Bytes) → length xs ≡ n → take n xs ≡ xs
take_whole n xs h = ap (take n) (sym (append-nil xs)) ∙ take-append_length n xs [] h

module _ (crates : HexCrates) where
  digit_bytes-encode : (bs : Bytes) → All IsByte bs → digit_bytes (crates.encode bs) ≡ bs
  digit_bytes-encode [] h = rw crates.encode-nil refl
  digit_bytes-encode (b ∷ bs) h = rw (crates.encode-cons b bs h.0) (
      ap₂ ◌∷◌
        (rw
          (
            digit_value-hex_digit (b / 16) (omega (arith, h.0)),
            digit_value-hex_digit (b % 16) (omega arith),
          )
          (omega arith))
        (digit_bytes-encode bs h.1))

  -- A private key of 32 bytes is read back from its hexadecimal text, if `ed25519_dalek` keeps such
  -- bytes.
  pub private_key_from_str-encode :
      (signing_bytes : Bytes → Bytes) (key : Bytes)
      → ((bytes : Bytes) → length bytes ≡ 32 → signing_bytes bytes ≡ bytes)
      → length key ≡ 32
      → All IsByte key
      → private_key_from_str signing_bytes (crates.encode key) ≡ ok key
  private_key_from_str-encode signing_bytes key keeps size h =
      let long : length (crates.encode key) ≡ 64 = omega (arith, length-encode crates key h) in
      private_key_from_str_digits signing_bytes (crates.encode key)
        (all_hexdigits-encode crates key h)
      ∙ rw (long, digit_bytes-encode key h, take_whole 32 key size, keeps key size) refl
