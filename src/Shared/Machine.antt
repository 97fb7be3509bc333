-- ===== src/Shared/Machine.antt =====
-- Unsigned machine integers. A build with overflow checks panics where a release build wraps.
use Prim.Native.Nat.{ℕ, ◌+◌, ◌-◌, ◌*◌, ◌%◌, ◌^◌, ◌<◌, ◌≤◌}
use mathlib.Core.Path.{◌≡◌, refl}
use mathlib.Core.Logic.{◌⊎◌, inl, inr}
use native.Mathlib.Nat.{mod-eq_of_lt}
use native.Mathlib.Omega.{arith}
use aos_operator.Shared.Tests.{ltb, leb, lt→ltb, if◌then◌else◌}
use aos_operator.Shared.Results.{Outcome, ok, panic}

pub data Profile : Type 0 where
  checked wrapping : Profile

abbrev pub u32_mod : ℕ
u32_mod = 2 ^ 32

abbrev pub u64_mod : ℕ
u64_mod = 2 ^ 64

-- What becomes of a result that does not fit `m` values, given what it wraps to.
overflow : {E : Type 0} → Profile → ℕ → Outcome E ℕ
overflow checked n = panic
overflow wrapping n = ok n

-- `a + b` in a word of `m` values.
unfoldable pub add_word : {E : Type 0} → ℕ → Profile → ℕ → ℕ → Outcome E ℕ
unfolding overflow
add_word m p a b = if ltb (a + b) m then ok (a + b) else overflow p ((a + b) % m)

-- `a - b` in a word of `m` values.
unfoldable pub sub_word : {E : Type 0} → ℕ → Profile → ℕ → ℕ → Outcome E ℕ
unfolding overflow
sub_word m p a b = if leb b a then ok (a - b) else overflow p ((a + m - b) % m)

pub add_word_fits :
    {E : Type 0} (m : ℕ) (p : Profile) (a b : ℕ) → a + b < m → add_word {E = E} m p a b ≡ ok (a + b)
unfolding add_word
add_word_fits m p a b h = ground arith

pub sub_word_fits :
    {E : Type 0} (m : ℕ) (p : Profile) (a b : ℕ) → b ≤ a → sub_word {E = E} m p a b ≡ ok (a - b)
unfolding sub_word
sub_word_fits m p a b h = ground arith

-- Below 0 a checked build panics, and a release build goes on from the top.
pub sub_word_below :
    {E : Type 0} (m : ℕ) (p : Profile) (a b : ℕ)
    → a < b
    → b < m
    → (sub_word {E = E} m p a b ≡ panic) ⊎ (sub_word {E = E} m p a b ≡ ok (a + m - b))
unfolding sub_word
sub_word_below m checked a b h k = inl (ground arith)
sub_word_below m wrapping a b h k = inr (ground (arith, mod-eq_of_lt {n = a + m - b} {m = m}))

-- `a * b` in a word of `m` values.
unfoldable pub mul_word : {E : Type 0} → ℕ → Profile → ℕ → ℕ → Outcome E ℕ
unfolding overflow
mul_word m p a b = if ltb (a * b) m then ok (a * b) else overflow p ((a * b) % m)

pub mul_word_fits :
    {E : Type 0} (m : ℕ) (p : Profile) (a b : ℕ) → a * b < m → mul_word {E = E} m p a b ≡ ok (a * b)
unfolding mul_word
mul_word_fits m p a b h = rw (lt→ltb (a * b) m h) refl
