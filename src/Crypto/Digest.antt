-- ===== src/Crypto/Digest.antt =====
-- crates/common/src/crypto/core.rs: what a derived `Hash` hands to a digest.
use native.Mathlib.Nat.{pow-suc, pow-zero}
use mathlib.Core.List.{append_assoc, append-nil}
use mathlib.Core.Path.{subst}
use aos_operator.Shared.{
  ℕ, zero, suc, ◌+◌, ◌-◌, ◌*◌, ◌/◌, ◌%◌, ◌^◌, ◌<◌, ◌≡◌, refl, sym, ap, ap₂, ◌∙◌, List, [], ◌∷◌,
  ◌++◌, length, All, arith,
}

abbrev pub Bytes : Type 0
Bytes = List ℕ

-- `negsuc n` is -(n + 1).
pub data ℤ : Type 0 where
  pos : ℕ → ℤ
  negsuc : ℕ → ℤ

-- The integer types, by their bytes: `usize` and `isize` have 8.
pub data Width : Type 0 where
  two four eight size : Width

abbrev pub bytes_in : Width → ℕ
bytes_in two = 2
bytes_in four = 4
bytes_in eight = 8
bytes_in size = 8

-- The calls of `Hasher`: `write`, `write_u16` to `write_usize`, `write_i16` to `write_isize`.
pub data HashWrite : Type 0 where
  raw : Bytes → HashWrite
  unsigned : Width → ℕ → HashWrite
  signed : Width → ℤ → HashWrite

-- `to_le_bytes` of an integer of `n` bytes
unfoldable pub to_le_bytes : ℕ → ℕ → Bytes
to_le_bytes zero x = []
to_le_bytes (suc n) x = x % 256 ∷ to_le_bytes n (x / 256)

-- The bits of a signed integer of `n` bytes.
unfoldable pub twos_complement : ℕ → ℤ → ℕ
twos_complement n (pos x) = x
twos_complement n (negsuc x) = 256 ^ n - 1 - x

unfoldable pub bytes_of : HashWrite → Bytes
bytes_of (raw bytes) = bytes
bytes_of (unsigned w i) = to_le_bytes (bytes_in w) i
bytes_of (signed w i) = to_le_bytes (bytes_in w) (twos_complement (bytes_in w) i)

-- `DigestHash::hash`, on a state that keeps the bytes so far, as `Vec<u8>` does.
unfoldable pub hash : Bytes → List HashWrite → Bytes
hash state [] = state
hash state (w ∷ ws) = hash (state ++ bytes_of w) ws

-- The integers that the types hold.
abbrev pub InRange : HashWrite → Type 0
InRange (raw bytes) = Unit
InRange (unsigned w i) = i < 256 ^ bytes_in w
InRange (signed w (pos x)) = x + x < 256 ^ bytes_in w
InRange (signed w (negsuc x)) = x + x < 256 ^ bytes_in w

-- Two calls of the same method, on slices of one length.
abbrev pub SameCall : HashWrite → HashWrite → Type 0
SameCall (raw xs) (raw ys) = length xs ≡ length ys
SameCall (unsigned w i) (unsigned v j) = w ≡ v
SameCall (signed w i) (signed v j) = w ≡ v
SameCall _ _ = ⊥

abbrev pub SameCalls : List HashWrite → List HashWrite → Type 0
SameCalls [] [] = Unit
SameCalls (x ∷ xs) (y ∷ ys) = SameCall x y × SameCalls xs ys
SameCalls _ _ = ⊥

length-to_le_bytes : (n x : ℕ) → length (to_le_bytes n x) ≡ n
unfolding to_le_bytes
length-to_le_bytes zero x = refl
length-to_le_bytes (suc n) x = ap suc (length-to_le_bytes n (x / 256))

to_le_bytes-injective :
    (n x y : ℕ) → x < 256 ^ n → y < 256 ^ n → to_le_bytes n x ≡ to_le_bytes n y → x ≡ y
unfolding to_le_bytes
to_le_bytes-injective zero x y hx hy e =
    let gx : x < 1 = rw (← pow-zero 256) hx in
    let gy : y < 1 = rw (← pow-zero 256) hy in omega arith
to_le_bytes-injective (suc n) x y hx hy e =
    let gx : x < 256 ^ n * 256 = rw (← pow-suc 256 n) hx in
    let gy : y < 256 ^ n * 256 = rw (← pow-suc 256 n) hy in
    let low : x % 256 ≡ y % 256 = cc in
    let rest : to_le_bytes n (x / 256) ≡ to_le_bytes n (y / 256) = cc in
    let high = to_le_bytes-injective n (x / 256) (y / 256) (omega arith) (omega arith) rest in
    omega arith

append-injective :
    (xs ys us vs : Bytes) → length xs ≡ length ys → xs ++ us ≡ ys ++ vs → (xs ≡ ys) × (us ≡ vs)
append-injective [] [] us vs h e = (refl, e)
append-injective [] (y ∷ ys) us vs h e = absurd (omega arith)
append-injective (x ∷ xs) [] us vs h e = absurd (omega arith)
append-injective (x ∷ xs) (y ∷ ys) us vs h e =
    let tail : xs ++ us ≡ ys ++ vs = cc in
    let head : x ≡ y = cc in
    let rest = append-injective xs ys us vs (omega arith) tail in (ap₂ ◌∷◌ head rest.0, rest.1)

twos_complement-lt :
    (w : Width) (i : ℤ) → InRange (signed w i) → twos_complement (bytes_in w) i < 256 ^ bytes_in w
unfolding twos_complement
twos_complement-lt two (pos x) h = omega arith
twos_complement-lt two (negsuc x) h = omega arith
twos_complement-lt four (pos x) h = omega arith
twos_complement-lt four (negsuc x) h = omega arith
twos_complement-lt eight (pos x) h = omega arith
twos_complement-lt eight (negsuc x) h = omega arith
twos_complement-lt size (pos x) h = omega arith
twos_complement-lt size (negsuc x) h = omega arith

half : (w : Width) → 256 ^ bytes_in w ≡ 2 * (256 ^ bytes_in w / 2)
half two = omega arith
half four = omega arith
half eight = omega arith
half size = omega arith

-- A positive and a negative integer have different bits.
twos_complement_sign :
    (w : Width) (x y : ℕ)
    → x + x < 256 ^ bytes_in w
    → y + y < 256 ^ bytes_in w
    → x ≡ 256 ^ bytes_in w - 1 - y
    → ⊥
twos_complement_sign w x y hx hy e = omega (arith, half w)

twos_complement-injective :
    (n : ℕ) (i j : ℤ) (w : Width)
    → InRange (signed w i)
    → InRange (signed w j)
    → n ≡ bytes_in w
    → twos_complement n i ≡ twos_complement n j
    → i ≡ j
unfolding twos_complement
twos_complement-injective n (pos x) (pos y) w hi hj e h = ap pos h
twos_complement-injective n (pos x) (negsuc y) w hi hj e h =
    absurd (twos_complement_sign w x y hi hj (rw e at h))
twos_complement-injective n (negsuc x) (pos y) w hi hj e h =
    absurd (twos_complement_sign w y x hj hi (sym (rw e at h)))
twos_complement-injective n (negsuc x) (negsuc y) w hi hj e h =
    let h' : 256 ^ bytes_in w - 1 - x ≡ 256 ^ bytes_in w - 1 - y = rw e at h in
    ap negsuc (omega arith)

length-bytes_of : (x y : HashWrite) → SameCall x y → length (bytes_of x) ≡ length (bytes_of y)
unfolding bytes_of
length-bytes_of (raw xs) (raw ys) s = s
length-bytes_of (unsigned w i) (unsigned v j) s =
    rw (length-to_le_bytes (bytes_in w) i, length-to_le_bytes (bytes_in v) j) (ap bytes_in s)
length-bytes_of (signed w i) (signed v j) s =
    rw
      (
        length-to_le_bytes (bytes_in w) (twos_complement (bytes_in w) i),
        length-to_le_bytes (bytes_in v) (twos_complement (bytes_in v) j),
      )
      (ap bytes_in s)
length-bytes_of (raw xs) (unsigned v j) s = absurd s
length-bytes_of (raw xs) (signed v j) s = absurd s
length-bytes_of (unsigned w i) (raw ys) s = absurd s
length-bytes_of (unsigned w i) (signed v j) s = absurd s
length-bytes_of (signed w i) (raw ys) s = absurd s
length-bytes_of (signed w i) (unsigned v j) s = absurd s

unsigned-injective :
    (w v : Width) (i j : ℕ)
    → w ≡ v
    → i < 256 ^ bytes_in w
    → j < 256 ^ bytes_in v
    → to_le_bytes (bytes_in w) i ≡ to_le_bytes (bytes_in v) j
    → i ≡ j
unsigned-injective w v i j s hi hj e =
    to_le_bytes-injective (bytes_in w) i j hi (rw s hj)
      (e ∙ ap (λ t. to_le_bytes (bytes_in t) j) (sym s))

bytes_of-injective :
    (x y : HashWrite) → SameCall x y → InRange x → InRange y → bytes_of x ≡ bytes_of y → x ≡ y
unfolding bytes_of
bytes_of-injective (raw xs) (raw ys) s hx hy e = ap raw e
bytes_of-injective (unsigned w i) (unsigned v j) s hx hy e =
    ap₂ unsigned s (unsigned-injective w v i j s hx hy e)
bytes_of-injective (signed w i) (signed v j) s hx hy e =
    let hy' : InRange (signed w j) = subst (λ t. InRange (signed t j)) (sym s) hy in
    let e' : twos_complement (bytes_in w) i ≡ twos_complement (bytes_in w) j =
      to_le_bytes-injective (bytes_in w) (twos_complement (bytes_in w) i)
        (twos_complement (bytes_in w) j) (twos_complement-lt w i hx) (twos_complement-lt w j hy')
        (e ∙ ap (λ t. to_le_bytes (bytes_in t) (twos_complement (bytes_in t) j)) (sym s)) in
    ap₂ signed s (twos_complement-injective (bytes_in w) i j w hx hy' refl e')
bytes_of-injective (raw xs) (unsigned v j) s hx hy e = absurd s
bytes_of-injective (raw xs) (signed v j) s hx hy e = absurd s
bytes_of-injective (unsigned w i) (raw ys) s hx hy e = absurd s
bytes_of-injective (unsigned w i) (signed v j) s hx hy e = absurd s
bytes_of-injective (signed w i) (raw ys) s hx hy e = absurd s
bytes_of-injective (signed w i) (unsigned v j) s hx hy e = absurd s

concat : List HashWrite → Bytes
concat [] = []
concat (w ∷ ws) = bytes_of w ++ concat ws

hash-concat : (state : Bytes) (ws : List HashWrite) → hash state ws ≡ state ++ concat ws
unfolding hash concat
hash-concat state [] = sym (append-nil state)
hash-concat state (w ∷ ws) =
    hash-concat (state ++ bytes_of w) ws ∙ append_assoc state (bytes_of w) (concat ws)

concat-injective :
    (xs ys : List HashWrite)
    → SameCalls xs ys
    → All InRange xs
    → All InRange ys
    → concat xs ≡ concat ys
    → xs ≡ ys
unfolding concat
concat-injective [] [] s hx hy e = refl
concat-injective [] (y ∷ ys) s hx hy e = absurd s
concat-injective (x ∷ xs) [] s hx hy e = absurd s
concat-injective (x ∷ xs) (y ∷ ys) s hx hy e =
    let parts =
      append-injective (bytes_of x) (bytes_of y) (concat xs) (concat ys) (length-bytes_of x y s.0)
        e in
    ap₂ ◌∷◌ (bytes_of-injective x y s.0 hx.0 hy.0 parts.0)
      (concat-injective xs ys s.1 hx.1 hy.1 parts.1)

-- Two values whose derived `Hash` makes the same calls, on slices of the same lengths and integers
-- that fit their types, hand the digest the same bytes only if they are equal, negative integers
-- included.
pub hash-injective :
    (xs ys : List HashWrite)
    → SameCalls xs ys
    → All InRange xs
    → All InRange ys
    → hash [] xs ≡ hash [] ys
    → xs ≡ ys
hash-injective xs ys s hx hy e =
    concat-injective xs ys s hx hy (sym (hash-concat [] xs) ∙ e ∙ hash-concat [] ys)
