-- ===== src/Clock/Causality.antt =====
-- Events ordered by causality compare so, and independent events do not compare.
use Prim.Native.Nat.{Ordering}
use aos_operator.Shared.{
  ℕ, ◌+◌, ◌≤◌, ◌<◌, ◌≡◌, ◌∙◌, sym, ◌≢◌, none, some, List, [], ◌∷◌, ok, All, ◌==◌, if◌then◌else◌,
  arith,
}
use aos_operator.Shared.SortedMap.{IsSorted}
use aos_operator.Shared.Machine.{Profile, u32_mod}
use aos_operator.Clock.{OrdinaryClock, Total, update, partial_cmp}
use aos_operator.Clock.Merge.{at}
use aos_operator.Clock.Order.{partial_cmp-gt, partial_cmp-none}
use aos_operator.Clock.Update.{highest, at-update}

ok-injective : {a b : OrdinaryClock} → ◌≡◌ {A = Total OrdinaryClock} (ok a) (ok b) → a ≡ b
ok-injective h = cc

self-le-highest :
    (j : ℕ) (self : OrdinaryClock) (others : List OrdinaryClock) → at j self ≤ highest j self others
self-le-highest j self [] = omega arith
self-le-highest j self (dep ∷ others) = omega (arith, self-le-highest j self others)

-- The clock that `update` returned, with what `at-update` says of it.
module _ (p : Profile) (self : OrdinaryClock) (others : List OrdinaryClock) (id : ℕ)
    (s : IsSorted self) (room : highest id self others + 1 < u32_mod) {c : OrdinaryClock}
    (done : update p self others id ≡ ok c) where
  returned : (at-update p self others id s room).0 ≡ c
  returned = ok-injective (sym ((at-update p self others id s room).1) ∙ done)

  update-IsSorted : IsSorted c
  update-IsSorted = rw returned at ((at-update p self others id s room).2)

  at-returned :
      (j : ℕ) → at j c ≡ (if j == id then highest id self others + 1 else highest j self others)
  at-returned = rw returned at ((at-update p self others id s room).3)

  at-update_self : at id c ≡ highest id self others + 1
  at-update_self = ground (arith, at-returned id)

  at-update_ne : (j : ℕ) → j ≢ id → at j c ≡ highest j self others
  at-update_ne j n = ground (arith, at-returned j)

  highest-le-update : (j : ℕ) → highest j self others ≤ at j c
  highest-le-update j = ground (arith, at-returned j)

  -- A clock below all that `update` collected is before its result.
  update-gt_of_le :
      (d : OrdinaryClock)
      → IsSorted d
      → ((j : ℕ) → at j d ≤ highest j self others)
      → partial_cmp c d ≡ some Ordering.gt
  update-gt_of_le d sd below =
      partial_cmp-gt c d sd update-IsSorted (λ j. omega (arith, below j, highest-le-update j))
        (λ dom. omega (arith, dom id, below id, at-update_self))

  below-highest :
      (d : OrdinaryClock) (ds : List OrdinaryClock)
      → ((j : ℕ) → highest j d ds ≤ highest j self others)
      → IsSorted d
      → All IsSorted ds
      → (partial_cmp c d ≡ some Ordering.gt) × All (λ e. partial_cmp c e ≡ some Ordering.gt) ds
  below-highest d [] below sd sds = (update-gt_of_le d sd below, tt)
  below-highest d (e ∷ ds) below sd (se, sds) =
      let later = below-highest d ds (λ j. omega (arith, below j)) sd sds in
      let first = update-gt_of_le e se (λ j. omega (arith, below j)) in (later.0, (first, later.1))

-- While the counter has room, the clock of a new event is strictly after the node's last clock
-- and after the clock of every message that the event depends on.
pub update_newer :
    (p : Profile) (self : OrdinaryClock) (others : List OrdinaryClock) (id : ℕ) {c : OrdinaryClock}
    → IsSorted self
    → All IsSorted others
    → highest id self others + 1 < u32_mod
    → update p self others id ≡ ok c
    → (partial_cmp c self ≡ some Ordering.gt) × All (λ d. partial_cmp c d ≡ some Ordering.gt) others
update_newer p self others id s ss room done =
    below-highest p self others id s room done self others (λ j. omega arith) s ss

-- Two nodes that each add an event to the same clock get clocks that do not compare.
pub update_concurrent :
    (p q : Profile) (self : OrdinaryClock) (i k : ℕ) {a b : OrdinaryClock}
    → IsSorted self
    → i ≢ k
    → at i self + 1 < u32_mod
    → at k self + 1 < u32_mod
    → update p self [] i ≡ ok a
    → update q self [] k ≡ ok b
    → partial_cmp a b ≡ none
update_concurrent p q self i k {a} {b} s ne ri rk da db =
    partial_cmp-none a b (update-IsSorted p self [] i s ri da) (update-IsSorted q self [] k s rk db)
      (λ dom. omega (
        arith,
        dom k,
        at-update_self q self [] k s rk db,
        at-update_ne p self [] i s ri da k (λ e. ne (sym e)),
      ))
      (λ dom.
        omega
          (arith, dom i, at-update_self p self [] i s ri da, at-update_ne q self [] k s rk db i ne))
