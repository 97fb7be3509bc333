-- ===== src/Signature/BigEndian.antt =====
-- Bytes and the numbers that they stand for, the first byte the highest.
use native.Mathlib.Nat.{pow-suc, pow-zero}
use aos_operator.Shared.{
  ℕ, zero, suc, ◌+◌, ◌*◌, ◌/◌, ◌%◌, ◌^◌, ◌<◌, ◌≡◌, refl, sym, ap₂, ◌∙◌, List, [], ◌∷◌, length, All,
  All-append, arith,
}
use aos_operator.Shared.Hex.{be_from, be_value, IsByte}
use aos_operator.Signature.{to_be_bytes}
use aos_operator.Signature.Bytes.{be_value-to_be_bytes, length-to_be_bytes}

step_bound : (acc x p : ℕ) → x < 256 → (acc * 256 + x + 1) * p < (acc + 1) * (p * 256) + 1
step_bound acc x p h = grind arith

be_from-lt : (acc : ℕ) (xs : List ℕ) → All IsByte xs → be_from acc xs < (acc + 1) * 256 ^ length xs
unfolding be_from
be_from-lt acc [] h = rw (pow-zero 256) (omega arith)
be_from-lt acc (x ∷ xs) h =
    rw (pow-suc 256 (length xs))
      (omega (arith, be_from-lt (acc * 256 + x) xs h.1, step_bound acc x (256 ^ length xs) h.0))

be_from-injective :
    (acc acc' : ℕ) (xs ys : List ℕ)
    → length xs ≡ length ys
    → All IsByte xs
    → All IsByte ys
    → be_from acc xs ≡ be_from acc' ys
    → (acc ≡ acc') × (xs ≡ ys)
unfolding be_from
be_from-injective acc acc' [] [] l hx hy e = (e, refl)
be_from-injective acc acc' [] (y ∷ ys) l hx hy e = absurd (omega arith)
be_from-injective acc acc' (x ∷ xs) [] l hx hy e = absurd (omega arith)
be_from-injective acc acc' (x ∷ xs) (y ∷ ys) l hx hy e =
    let rest = be_from-injective (acc * 256 + x) (acc' * 256 + y) xs ys (omega arith) hx.1 hy.1 e in
    let bx = hx.0 in
    let by = hy.0 in (omega (arith, rest.0), ap₂ ◌∷◌ (omega (arith, rest.0)) rest.1)

to_be_bytes-IsByte : (n x : ℕ) → All IsByte (to_be_bytes n x)
unfolding to_be_bytes
to_be_bytes-IsByte zero x = tt
to_be_bytes-IsByte (suc n) x =
    All-append IsByte (to_be_bytes n (x / 256)) (x % 256 ∷ []) (to_be_bytes-IsByte n (x / 256))
      (omega arith, tt)

-- Bytes are written back from the number that they stand for.
pub to_be_bytes-be_value :
    (n : ℕ) (xs : List ℕ) → length xs ≡ n → All IsByte xs → to_be_bytes n (be_value xs) ≡ xs
to_be_bytes-be_value n xs l h =
    let bound : be_value xs < 256 ^ n = rw (← l) (omega (arith, be_from-lt 0 xs h)) in
    (be_from-injective 0 0 (to_be_bytes n (be_value xs)) xs
      (length-to_be_bytes n (be_value xs) ∙ sym l) (to_be_bytes-IsByte n (be_value xs)) h
      (be_value-to_be_bytes n (be_value xs) bound)).1
