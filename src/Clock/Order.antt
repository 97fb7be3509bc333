-- ===== src/Clock/Order.antt =====
-- `partial_cmp` is the pointwise order of clocks, and `reduce` respects it.
use Prim.Native.Nat.{Ordering}
use aos_operator.Shared.{
  ℕ, ◌≤◌, ◌≡◌, refl, Bool, true, false, Option, none, some, [], ◌∷◌, inl, inr, arith, Bool-cases,
  ◌↔◌,
}
use aos_operator.Shared.SortedMap.{get, IsSorted, Above, get-Above}
use aos_operator.Clock.{OrdinaryClock, ge, verdict, partial_cmp}
use aos_operator.Clock.Merge.{at}

-- At every id `a` is at least `b`.
abbrev pub Dominates : OrdinaryClock → OrdinaryClock → Type 0
Dominates a b = (id : ℕ) → at id b ≤ at id a

ge_sound : (a b : OrdinaryClock) (id : ℕ) → ge a b ≡ true → at id b ≤ at id a
unfolding ge get
ge_sound a [] id h = omega arith
ge_sound a ((i, n) ∷ b) id h = ground (arith, ge_sound a b id)

Dominates-tail :
    (a b : OrdinaryClock) (i n id : ℕ)
    → Above i b
    → at id ((i, n) ∷ b) ≤ at id a
    → at id b ≤ at id a
unfolding get
Dominates-tail a b i n id s h = ground (arith, get-Above i id b s)

at-head : (i n : ℕ) (b : OrdinaryClock) → at i ((i, n) ∷ b) ≡ n
unfolding get
at-head i n b = ground arith

ge_complete : (a b : OrdinaryClock) → IsSorted b → Dominates a b → ge a b ≡ true
unfolding ge
ge_complete a [] s d = refl
ge_complete a ((i, n) ∷ b) s d =
    let rest = ge_complete a b s.1 (λ id. Dominates-tail a b i n id s.0 (d id)) in
    ground (arith, rest, d i, at-head i n b)

pub ge_iff : (a b : OrdinaryClock) → IsSorted b → (ge a b ≡ true) ↔ Dominates a b
ge_iff a b s = (λ h id. ge_sound a b id h, ge_complete a b s)

pub ge-false : (a b : OrdinaryClock) → IsSorted b → ge a b ≡ false → ¬ Dominates a b
ge-false a b s h d = cc (ge_complete a b s d)

-- What a result of `partial_cmp` says of the two clocks.
abbrev pub Compares : Option Ordering → OrdinaryClock → OrdinaryClock → Type 0
Compares (some Ordering.eq) a b = Dominates a b × Dominates b a
Compares (some Ordering.gt) a b = Dominates a b × (¬ Dominates b a)
Compares (some Ordering.lt) a b = (¬ Dominates a b) × Dominates b a
Compares none a b = (¬ Dominates a b) × (¬ Dominates b a)

Compares-verdict :
    (x y : Bool) (a b : OrdinaryClock)
    → IsSorted a
    → IsSorted b
    → ge a b ≡ x
    → ge b a ≡ y
    → Compares (verdict x y) a b
unfolding verdict
Compares-verdict true true a b sa sb h k = ((ge_iff a b sb).0 h, (ge_iff b a sa).0 k)
Compares-verdict true false a b sa sb h k = ((ge_iff a b sb).0 h, ge-false b a sa k)
Compares-verdict false true a b sa sb h k = (ge-false a b sb h, (ge_iff b a sa).0 k)
Compares-verdict false false a b sa sb h k = (ge-false a b sb h, ge-false b a sa k)

-- The four results of `partial_cmp` are exactly the four cases of the pointwise order, an id
-- that a clock lacks counting as 0.
pub partial_cmp-Compares :
    (a b : OrdinaryClock) → IsSorted a → IsSorted b → Compares (partial_cmp a b) a b
unfolding partial_cmp
partial_cmp-Compares a b sa sb = Compares-verdict (ge a b) (ge b a) a b sa sb refl refl

pub partial_cmp-gt :
    (a b : OrdinaryClock)
    → IsSorted b
    → IsSorted a
    → Dominates a b
    → ¬ Dominates b a
    → partial_cmp a b ≡ some Ordering.gt
unfolding partial_cmp verdict
partial_cmp-gt a b sb sa d n = elim (Bool-cases (ge b a)) [
  | inl yes' ↦ absurd (n ((ge_iff b a sa).0 yes'))
  | inr no' ↦ rw ((ge_iff a b sb).1 d, no')
]

pub partial_cmp-none :
    (a b : OrdinaryClock)
    → IsSorted a
    → IsSorted b
    → ¬ Dominates a b
    → ¬ Dominates b a
    → partial_cmp a b ≡ none
unfolding partial_cmp verdict
partial_cmp-none a b sa sb m n = elim (Bool-cases (ge a b)) [
  | inl yes' ↦ absurd (m ((ge_iff a b sb).0 yes'))
  | inr no' ↦ elim (Bool-cases (ge b a)) [
    | inl yes'' ↦ absurd (n ((ge_iff b a sa).0 yes''))
    | inr no'' ↦ rw (no', no'')
  ]
]

pub partial_cmp-lt :
    (a b : OrdinaryClock)
    → IsSorted a
    → IsSorted b
    → partial_cmp a b ≡ some Ordering.lt
    → (¬ Dominates a b) × Dominates b a
partial_cmp-lt a b sa sb h = rw h at (partial_cmp-Compares a b sa sb)
