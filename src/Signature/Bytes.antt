-- ===== src/Signature/Bytes.antt =====
-- The 65 bytes of a signature.
use native.Mathlib.Nat.{pow-suc, pow-zero}
use mathlib.Core.List.{append_assoc}
use aos_operator.Shared.{
  ℕ, zero, suc, ◌+◌, ◌*◌, ◌/◌, ◌%◌, ◌^◌, ◌<◌, ◌≡◌, refl, ap, ◌∙◌, Bool, true, false, List, [], ◌∷◌,
  ◌++◌, Option, some, get_elem?, get_elem?-append_length, ok, length, take, drop, length-append,
  take-append_length, drop-append_length, arith,
}
use aos_operator.Shared.Machine.{Profile, sub_word}
use aos_operator.Shared.Hex.{be_from, be_value}
use aos_operator.Signature.{
  Signature, u256_mod, as_word, to_be_bytes, to_bytes, parity_of, from_bytes, from_hex_str,
}
use aos_operator.Shared.Text.{Text}

be_from-append :
    (acc : ℕ) (xs : List ℕ) (b : ℕ) → be_from acc (xs ++ b ∷ []) ≡ be_from acc xs * 256 + b
unfolding be_from
be_from-append acc [] b = refl
be_from-append acc (x ∷ xs) b = be_from-append (acc * 256 + x) xs b

pub be_value-to_be_bytes : (n x : ℕ) → x < 256 ^ n → be_value (to_be_bytes n x) ≡ x
unfolding to_be_bytes be_from
be_value-to_be_bytes zero x h = let g : x < 1 = rw (← pow-zero 256) h in omega arith
be_value-to_be_bytes (suc n) x h =
    let g : x < 256 ^ n * 256 = rw (← pow-suc 256 n) h in
    be_from-append 0 (to_be_bytes n (x / 256)) (x % 256)
    ∙ rw (be_value-to_be_bytes n (x / 256) (omega arith)) (omega arith)

pub length-to_be_bytes : (n x : ℕ) → length (to_be_bytes n x) ≡ n
unfolding to_be_bytes
length-to_be_bytes zero x = refl
length-to_be_bytes (suc n) x =
    length-append (to_be_bytes n (x / 256)) (x % 256 ∷ [])
    ∙ omega (arith, length-to_be_bytes n (x / 256))

parity_of-as_word :
    {E : Type 0} (p : Profile) (odd : Bool) → parity_of {E = E} p (as_word odd + 27) ≡ ok odd
unfolding parity_of as_word sub_word
parity_of-as_word p true = refl
parity_of-as_word p false = refl

take-append_two : (xs ys zs : List ℕ) → length xs ≡ 32 → take 32 (xs ++ (ys ++ zs)) ≡ xs
take-append_two xs ys zs h = take-append_length 32 xs (ys ++ zs) h

drop-append_two :
    (xs ys zs : List ℕ)
    → length xs ≡ 32
    → length ys ≡ 32
    → take 32 (drop 32 (xs ++ (ys ++ zs))) ≡ ys
drop-append_two xs ys zs hx hy =
    ap (take 32) (drop-append_length 32 xs (ys ++ zs) hx) ∙ take-append_length 32 ys zs hy

length-append_two :
    (xs ys : List ℕ) (b : ℕ) → length xs ≡ 32 → length ys ≡ 32 → length (xs ++ (ys ++ b ∷ [])) ≡ 65
length-append_two xs ys b hx hy =
    let outer = length-append xs (ys ++ b ∷ []) in
    let inner = length-append ys (b ∷ []) in omega arith

get_elem?-append_two :
    (xs ys : List ℕ) (b : ℕ)
    → length xs ≡ 32
    → length ys ≡ 32
    → get_elem? (xs ++ (ys ++ b ∷ [])) 64 ≡ some b
get_elem?-append_two xs ys b hx hy =
    let total = length-append xs ys in
    rw (← append_assoc xs ys (b ∷ [])) (get_elem?-append_length (xs ++ ys) b [] 64 (omega arith))

be_value-word : (x : ℕ) → x < u256_mod → be_value (to_be_bytes 32 x) ≡ x
be_value-word x h = be_value-to_be_bytes 32 x h

from_bytes-to_bytes :
    {E : Type 0} (p : Profile) (sig : Signature)
    → sig.r < u256_mod
    → sig.s < u256_mod
    → (length (to_bytes sig) ≡ 65) × (from_bytes {E = E} p (to_bytes sig) ≡ ok sig)
unfolding to_bytes from_bytes
from_bytes-to_bytes {E} p sig hr hs =
    let rs = to_be_bytes 32 sig.r in
    let ss = to_be_bytes 32 sig.s in
    let last = as_word sig.odd_y_parity + 27 in
    let lr = length-to_be_bytes 32 sig.r in
    let ls = length-to_be_bytes 32 sig.s in
    (
      length-append_two rs ss last lr ls,
      rw
          (
            get_elem?-append_two rs ss last lr ls,
            take-append_two rs ss (last ∷ []) lr,
            drop-append_two rs ss (last ∷ []) lr ls,
            parity_of-as_word {E = E} p sig.odd_y_parity,
            be_value-word sig.r hr,
            be_value-word sig.s hs,
          )
          refl,
    )

-- A signature whose `r` and `s` have 256 bits is written as 65 bytes, and `from_hex_str` reads any
-- text that decodes to them as the signature, in every build.
pub from_hex_str-to_bytes :
    {E : Type 0} (p : Profile) (hex_decode : Text → Option (List ℕ)) (text : Text) (sig : Signature)
    → sig.r < u256_mod
    → sig.s < u256_mod
    → hex_decode text ≡ some (to_bytes sig)
    → (length (to_bytes sig) ≡ 65) × (from_hex_str {E = E} p hex_decode text ≡ ok sig)
unfolding from_hex_str
from_hex_str-to_bytes {E} p hex_decode text sig hr hs h =
    let read = from_bytes-to_bytes {E = E} p sig hr hs in (read.0, rw h read.1)
