-- ===== src/Clock/Reduce.antt =====
-- `reduce` is a Lamport clock: it grows with the causal order.
use Prim.Native.Nat.{Ordering}
use native.Mathlib.Decide.{dec_lt}
use aos_operator.Shared.{ℕ, ◌+◌, ◌≤◌, ◌<◌, ◌≡◌, some, [], ◌∷◌, ok, ◌==◌, if◌then◌else◌, arith}
use aos_operator.Shared.SortedMap.{get, IsSorted, Above, get-Above}
use aos_operator.Shared.Machine.{Profile, u32_mod, add_word_fits}
use aos_operator.Clock.{OrdinaryClock, partial_cmp, sum_from, reduce}
use aos_operator.Clock.Merge.{at}
use aos_operator.Clock.Order.{Dominates, partial_cmp-lt}

-- The sum of the values, unbounded.
abbrev pub total : OrdinaryClock → ℕ
total [] = 0
total ((id, n) ∷ c) = n + total c

sum_from-total :
    (p : Profile) (acc : ℕ) (c : OrdinaryClock)
    → acc + total c < u32_mod
    → sum_from p acc c ≡ ok (acc + total c)
unfolding sum_from
sum_from-total p acc [] h = ground arith
sum_from-total p acc ((id, n) ∷ c) h =
    ground (arith, add_word_fits {E = ⊥} u32_mod p acc n, sum_from-total p (acc + n) c)

-- `reduce` is the sum of the values, where that is a `u32`.
pub reduce-eq-total :
    (p : Profile) (c : OrdinaryClock) → total c < u32_mod → reduce p c ≡ ok (total c)
unfolding reduce
reduce-eq-total p c h = ground (arith, sum_from-total p 0 c)

-- A clock with an id taken out.
without : ℕ → OrdinaryClock → OrdinaryClock
without k [] = []
without k ((id, n) ∷ c) = if k == id then without k c else (id, n) ∷ without k c

total-without : (k : ℕ) (c : OrdinaryClock) → at k c + total (without k c) ≤ total c
unfolding without get
total-without k [] = omega arith
total-without k ((id, n) ∷ c) = ground (arith, total-without k c)

at-without : (j k : ℕ) (c : OrdinaryClock) → at j (without k c) ≡ (if j == k then 0 else at j c)
unfolding without get
at-without j k [] = ground arith
at-without j k ((id, n) ∷ c) = ground (arith, at-without j k c)

at-le-total : (j : ℕ) (c : OrdinaryClock) → at j c ≤ total c
unfolding get
at-le-total j [] = omega arith
at-le-total j ((id, n) ∷ c) = ground (arith, at-le-total j c)

at-cons :
    (j k n : ℕ) (c : OrdinaryClock)
    → Above k c
    → (at j ((k, n) ∷ c) ≡ (if j == k then n else at j c)) × (at k c ≡ 0)
unfolding get
at-cons j k n c a = ground (arith, get-Above k k c a)

-- A clock that is dominated has at most the total, and the same total only if it dominates too.
total_mono :
    (a b : OrdinaryClock)
    → IsSorted a
    → Dominates b a
    → (total a ≤ total b) × (total a ≡ total b → Dominates a b)
total_mono [] b s d = (omega arith, λ e j. omega (arith, at-le-total j b))
total_mono ((k, n) ∷ a) b s d =
    let rest : Dominates (without k b) a =
      λ j. ground (arith, d j, at-cons j k n a s.0, at-without j k b) in
    let ih = total_mono a (without k b) s.1 rest in
    let head : n ≤ at k b = ground (arith, d k, at-cons k k n a s.0) in
    (
      omega (arith, ih.0, head, total-without k b),
      λ e j. ground (
        arith,
        ih.1 (omega (arith, ih.0, head, total-without k b)) j,
        at-cons j k n a s.0,
        at-without j k b,
        total-without k b,
        ih.0,
      ),
    )

-- If one clock is before another then its reduction is the smaller number, both sums being
-- `u32`s.
pub reduce_mono :
    (p : Profile) (a b : OrdinaryClock)
    → IsSorted a
    → IsSorted b
    → partial_cmp a b ≡ some Ordering.lt
    → total b < u32_mod
    → (m : ℕ) × (n : ℕ) × (reduce p a ≡ ok m) × (reduce p b ≡ ok n) × (m < n)
reduce_mono p a b sa sb before room =
    let (not_dom, dom) = partial_cmp-lt a b sa sb before in
    let (le, eq) = total_mono a b sa dom in
    let smaller : total a < total b = elim (dec_lt (total a) (total b)) [
      | yes h ↦ h
      | no h ↦ absurd (not_dom (eq (omega arith)))
    ] in
    (total a, total b, reduce-eq-total p a (omega arith), reduce-eq-total p b room, smaller)
