-- ===== src/Clock/Tests.antt =====
-- Runs of the clock's functions, and its theorems at concrete clocks.
use Prim.Native.Nat.{Ordering}
use aos_operator.Shared.{
  ℕ, ◌+◌, ◌≡◌, refl, ◌<◌, some, [], ◌∷◌, ok, All, ◌>>=◌, true, ◌==◌, if◌then◌else◌, arith,
}
use aos_operator.Shared.SortedMap.{get, insert, extend, keys, IsSorted}
use aos_operator.Shared.Machine.{checked, u32_mod, add_word}
use aos_operator.Clock.{
  OrdinaryClock, merge, merge_all, merged_entries, update, is_genesis, partial_cmp, ge, dep_cmp,
  reduce,
}
use aos_operator.Clock.Merge.{at, later, get-merge, merge_semilattice}
use aos_operator.Clock.Order.{Compares, partial_cmp-Compares}
use aos_operator.Clock.Update.{highest, at-update}
use aos_operator.Clock.Causality.{update_newer}

abbrev mine : OrdinaryClock
mine = (1, 4) ∷ (2, 0) ∷ (7, 1) ∷ []

abbrev theirs : OrdinaryClock
theirs = (0, 3) ∷ (1, 2) ∷ (7, 6) ∷ []

abbrev full : OrdinaryClock
full = (5, 4294967295) ∷ []

merge_run : merge mine theirs ≡ ok ((0, 3) ∷ (1, 4) ∷ (2, 0) ∷ (7, 6) ∷ [])
unfolding merge merged_entries get keys extend insert
merge_run = refl

update_run : update checked mine (theirs ∷ []) 2 ≡ ok ((0, 3) ∷ (1, 4) ∷ (2, 1) ∷ (7, 6) ∷ [])
unfolding update merge_all merge merged_entries get keys extend insert add_word
update_run = refl

-- A clock whose values are all 0 is a genesis clock, and compares equal to the empty one.
genesis_run :
    (is_genesis ((3, 0) ∷ []) ≡ true)
    × (partial_cmp ((3, 0) ∷ []) [] ≡ some Ordering.eq)
    × (dep_cmp ((3, 0) ∷ []) [] 3 ≡ Ordering.gt)
unfolding is_genesis partial_cmp ge dep_cmp get
genesis_run = (refl, refl, refl)

reduce_run : reduce checked theirs ≡ ok 11
unfolding reduce add_word
reduce_run = refl

get-merge_example :
    (c : OrdinaryClock) × (merge mine theirs ≡ ok c)
    × IsSorted c
    × ((j : ℕ) → get j c ≡ later (get j mine) (get j theirs))
get-merge_example = get-merge mine theirs

merge_semilattice_example :
    (merge mine theirs ≡ merge theirs mine)
    × ((merge mine theirs >>= λ m. merge m full) ≡ (merge theirs full >>= λ m. merge mine m))
    × (merge mine mine ≡ ok mine)
merge_semilattice_example = merge_semilattice mine theirs full (omega arith)

partial_cmp-Compares_example : Compares (partial_cmp mine theirs) mine theirs
partial_cmp-Compares_example = partial_cmp-Compares mine theirs (omega arith) (omega arith)

room : highest 2 mine (theirs ∷ []) + 1 < u32_mod
unfolding get
room = omega arith

at-update_example :
    (c : OrdinaryClock) × (update checked mine (theirs ∷ []) 2 ≡ ok c)
    × IsSorted c
    × ((j : ℕ)
        → at j c
          ≡ (if j == 2 then highest 2 mine (theirs ∷ []) + 1 else highest j mine (theirs ∷ [])))
at-update_example = at-update checked mine (theirs ∷ []) 2 (omega arith) room

full_5 : highest 5 full [] + 1 ≡ u32_mod
unfolding get
full_5 = refl

update_newer_example :
    (partial_cmp ((0, 3) ∷ (1, 4) ∷ (2, 1) ∷ (7, 6) ∷ []) mine ≡ some Ordering.gt)
    × All
        (λ d. partial_cmp ((0, 3) ∷ (1, 4) ∷ (2, 1) ∷ (7, 6) ∷ []) d ≡ some Ordering.gt)
        (theirs ∷ [])
update_newer_example =
    update_newer checked mine (theirs ∷ []) 2 (omega arith) (omega arith) room update_run

update_at_1 : update checked mine [] 1 ≡ ok ((1, 5) ∷ (2, 0) ∷ (7, 1) ∷ [])
unfolding update merge_all get insert add_word
update_at_1 = refl

update_at_7 : update checked mine [] 7 ≡ ok ((1, 4) ∷ (2, 0) ∷ (7, 2) ∷ [])
unfolding update merge_all get insert add_word
update_at_7 = refl

room_1 : at 1 mine + 1 < u32_mod
unfolding get
room_1 = omega arith

room_7 : at 7 mine + 1 < u32_mod
unfolding get
room_7 = omega arith

before : partial_cmp mine ((1, 5) ∷ (2, 0) ∷ (7, 1) ∷ []) ≡ some Ordering.lt
unfolding partial_cmp ge get
before = refl
