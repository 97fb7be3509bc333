-- ===== src/Clock.antt =====
-- crates/common/src/ordinary_clock.rs: the vector clock and its scalar reduction.
pub mod Merge
pub mod Order
pub mod Update
pub mod Causality
pub mod Reduce
mod Tests
use Prim.Native.Nat.{compare, Ordering}
use aos_operator.Shared.{
  ℕ, ◌+◌, max, Bool, true, false, Option, none, some, List, [], ◌∷◌, ◌++◌, Outcome, ok, panic,
  ◌>>=◌, ◌&&◌, ltb, ◌==◌, if◌then◌else◌,
}
use aos_operator.Shared.Machine.{Profile, u32_mod, add_word}
use aos_operator.Shared.SortedMap.{SortedMap, get, insert, extend, keys}

-- `struct OrdinaryClock(BTreeMap<KeyId, u32>)`
abbrev pub OrdinaryClock : Type 0
OrdinaryClock = SortedMap ℕ

-- None of the functions of this file returns an `Err`; some may panic.
abbrev pub Total : Type 0 → Type 0
Total A = Outcome ⊥ A

unfoldable pub new : OrdinaryClock
new = []

unfoldable pub is_genesis : OrdinaryClock → Bool
is_genesis [] = true
is_genesis ((id, n) ∷ c) = (n == 0) && is_genesis c

-- The `match` in `merge`; its last arm is `unreachable!()`.
unfoldable pub merged_value : Option ℕ → Option ℕ → Total ℕ
merged_value (some n) (some other_n) = ok (max n other_n)
merged_value (some n) none = ok n
merged_value none (some n) = ok n
merged_value none none = panic

-- The closure of `map`, over the chained keys.
unfoldable pub merged_entries : OrdinaryClock → OrdinaryClock → List ℕ → Total (List (ℕ × ℕ))
unfolding merged_value
merged_entries self other [] = ok []
merged_entries self other (id ∷ ids) = do
  n ← merged_value (get id self) (get id other)
  rest ← merged_entries self other ids
  ok ((id, n) ∷ rest)

unfoldable pub merge : OrdinaryClock → OrdinaryClock → Total OrdinaryClock
merge self other = do
  entries ← merged_entries self other (keys self ++ keys other)
  ok (extend entries [])

-- `others.fold(self.clone(), …)`
unfoldable pub merge_all : OrdinaryClock → List OrdinaryClock → Total OrdinaryClock
merge_all version [] = ok version
merge_all version (dep ∷ others) = merge version dep >>= λ merged. merge_all merged others

-- `entry(id).or_default()` reads 0 where the key is missing.
abbrev pub or_default : Option ℕ → ℕ
or_default none = 0
or_default (some n) = n

unfoldable pub update : Profile → OrdinaryClock → List OrdinaryClock → ℕ → Total OrdinaryClock
update p self others id = do
  updated ← merge_all self others
  n ← add_word u32_mod p (or_default (get id updated)) 1
  ok (insert id n updated)

-- The inner function `ge` of `partial_cmp`.
unfoldable pub ge : OrdinaryClock → OrdinaryClock → Bool
ge clock [] = true
ge clock ((other_id, other_n) ∷ rest) =
    let later = ge clock rest in
    if other_n == 0 then later else elim (get other_id clock) [
      | none ↦ false
      | some n ↦ if ltb n other_n then false else later
    ]

-- The `match` on the two directions.
unfoldable pub verdict : Bool → Bool → Option Ordering
verdict true true = some Ordering.eq
verdict true false = some Ordering.gt
verdict false true = some Ordering.lt
verdict false false = none

unfoldable pub partial_cmp : OrdinaryClock → OrdinaryClock → Option Ordering
unfolding verdict
partial_cmp self other = verdict (ge self other) (ge other self)

unfoldable pub dep_order : Option ℕ → Option ℕ → Ordering
dep_order none (some _) = Ordering.lt
dep_order (some _) none = Ordering.gt
dep_order none none = Ordering.eq
dep_order (some n) (some m) = compare n m

unfoldable pub dep_cmp : OrdinaryClock → OrdinaryClock → ℕ → Ordering
unfolding dep_order
dep_cmp self other id = dep_order (get id self) (get id other)

-- `values().copied().sum()`, a sum of `u32`
unfoldable pub sum_from : Profile → ℕ → OrdinaryClock → Total ℕ
sum_from p acc [] = ok acc
sum_from p acc ((id, n) ∷ c) = add_word u32_mod p acc n >>= λ acc'. sum_from p acc' c

-- `Clock::reduce`: the Lamport clock
unfoldable pub reduce : Profile → OrdinaryClock → Total ℕ
unfolding sum_from
reduce p self = sum_from p 0 self
