-- ===== src/Clock/Update.antt =====
-- What `update` adds to a clock, and that events ordered by causality compare as they should.
use aos_operator.Shared.{
  ℕ, ◌+◌, ◌<◌, ◌≡◌, refl, List, [], ◌∷◌, ok, panic, max, ◌==◌, if◌then◌else◌, arith,
}
use aos_operator.Shared.SortedMap.{insert, IsSorted, get-insert, insert-IsSorted}
use aos_operator.Shared.Machine.{Profile, checked, wrapping, u32_mod, add_word, add_word_fits}
use aos_operator.Clock.{OrdinaryClock, merge_all, update}
use aos_operator.Clock.Merge.{at, join, merge-eq-join, get-join, join-IsSorted}

at-join : (j : ℕ) (a b : OrdinaryClock) → at j (join a b) ≡ max (at j a) (at j b)
at-join j a b = ground (arith, get-join j a b)

join_all : OrdinaryClock → List OrdinaryClock → OrdinaryClock
join_all self [] = self
join_all self (dep ∷ others) = join_all (join self dep) others

merge_all-eq-join_all :
    (self : OrdinaryClock) (others : List OrdinaryClock)
    → merge_all self others ≡ ok (join_all self others)
unfolding merge_all join_all
merge_all-eq-join_all self [] = refl
merge_all-eq-join_all self (dep ∷ others) =
    rw (merge-eq-join self dep) (merge_all-eq-join_all (join self dep) others)

join_all-IsSorted :
    (self : OrdinaryClock) (others : List OrdinaryClock)
    → IsSorted self
    → IsSorted (join_all self others)
unfolding join_all
join_all-IsSorted self [] s = s
join_all-IsSorted self (dep ∷ others) s =
    join_all-IsSorted (join self dep) others (join-IsSorted self dep)

-- The greatest value at `j` of a clock and of its dependencies.
abbrev pub highest : ℕ → OrdinaryClock → List OrdinaryClock → ℕ
highest j self [] = at j self
highest j self (dep ∷ others) = max (at j dep) (highest j self others)

highest-join :
    (j : ℕ) (self dep : OrdinaryClock) (others : List OrdinaryClock)
    → highest j (join self dep) others ≡ max (at j dep) (highest j self others)
highest-join j self dep [] = omega (arith, at-join j self dep)
highest-join j self dep (o ∷ others) = omega (arith, highest-join j self dep others)

at-join_all :
    (j : ℕ) (self : OrdinaryClock) (others : List OrdinaryClock)
    → at j (join_all self others) ≡ highest j self others
unfolding join_all
at-join_all j self [] = refl
at-join_all j self (dep ∷ others) =
    omega (arith, at-join_all j (join self dep) others, highest-join j self dep others)

at-insert :
    (j id n : ℕ) (c : OrdinaryClock) → at j (insert id n c) ≡ (if j == id then n else at j c)
at-insert j id n c = ground (arith, get-insert j id n c)

-- `update` with its merge computed.
update_lem :
    (p : Profile) (self : OrdinaryClock) (others : List OrdinaryClock) (id : ℕ)
    → highest id self others + 1 < u32_mod
    → update p self others id ≡ ok (insert id (highest id self others + 1) (join_all self others))
unfolding update
update_lem p self others id h = rw (
  merge_all-eq-join_all self others,
  at-join_all id self others,
  add_word_fits u32_mod p (highest id self others) 1 h,
)

-- While the counter has room, `update` returns a clock that has at its own id one more than
-- every input, and at any other id the greatest input.
pub at-update :
    (p : Profile) (self : OrdinaryClock) (others : List OrdinaryClock) (id : ℕ)
    → IsSorted self
    → highest id self others + 1 < u32_mod
    → (c : OrdinaryClock) × (update p self others id ≡ ok c)
      × IsSorted c
      × ((j : ℕ) → at j c ≡ (if j == id then highest id self others + 1 else highest j self others))
at-update p self others id s h = (
  insert id (highest id self others + 1) (join_all self others),
  update_lem p self others id h,
  insert-IsSorted id _ (join_all self others) (join_all-IsSorted self others s),
  λ j. ground (
    arith,
    at-insert j id (highest id self others + 1) (join_all self others),
    at-join_all j self others,
  ),
)

-- At the last value of the counter a checked build panics, and a release build starts the id
-- again at 0.
pub update_overflow :
    (self : OrdinaryClock) (others : List OrdinaryClock) (id : ℕ)
    → highest id self others + 1 ≡ u32_mod
    → (update checked self others id ≡ panic)
      × ((c : OrdinaryClock) × (update wrapping self others id ≡ ok c) × (at id c ≡ 0))
unfolding update add_word
update_overflow self others id h = (
  ground (arith, merge_all-eq-join_all self others, at-join_all id self others),
  (
    insert id 0 (join_all self others),
    ground (arith, merge_all-eq-join_all self others, at-join_all id self others),
    ground (arith, at-insert id id 0 (join_all self others)),
  ),
)
