-- ===== src/Clock/Merge.antt =====
-- `merge` never reaches `unreachable!()`, and is the least upper bound of two clocks.
use aos_operator.Shared.{
  ℕ, ◌≡◌, ◌≢◌, refl, Bool, true, false, Option, none, some, List, [], ◌∷◌, ◌++◌, ok, ◌>>=◌, max,
  ◌||◌, ◌⊎◌, inl, inr, ◌==◌, if◌then◌else◌, arith, map, All, ◌∙◌, sym,
}
use aos_operator.Shared.SortedMap.{
  get, insert, extend, keys, IsSorted, get-insert, extend-IsSorted, ext,
}
use aos_operator.Clock.{OrdinaryClock, or_default, merged_value, merged_entries, merge}

-- The value of a clock at an id, 0 where it has none.
abbrev pub at : ℕ → OrdinaryClock → ℕ
at id c = or_default (get id c)

elem : ℕ → List ℕ → Bool
elem j [] = false
elem j (x ∷ xs) = (j == x) || elem j xs

abbrev is_some : Option ℕ → Bool
is_some none = false
is_some (some _) = true

-- What `merge` stores under an id that one of the clocks has.
abbrev entry : OrdinaryClock → OrdinaryClock → ℕ → ℕ × ℕ
entry a b id = (id, max (at id a) (at id b))

-- One of the clocks has the id.
abbrev Known : OrdinaryClock → OrdinaryClock → ℕ → Type 0
Known a b id = (get id a ≢ none) ⊎ (get id b ≢ none)

merged_value_known :
    (a b : Option ℕ)
    → (a ≢ none) ⊎ (b ≢ none)
    → merged_value a b ≡ ok (max (or_default a) (or_default b))
unfolding merged_value
merged_value_known (some n) (some m) h = refl
merged_value_known (some n) none h = ground arith
merged_value_known none (some m) h = ground arith
merged_value_known none none (inl h) = absurd (h refl)
merged_value_known none none (inr h) = absurd (h refl)

merged_entries-Known :
    (a b : OrdinaryClock) (ids : List ℕ)
    → All (Known a b) ids
    → merged_entries a b ids ≡ ok (map (entry a b) ids)
unfolding merged_entries
merged_entries-Known a b [] h = refl
merged_entries-Known a b (id ∷ ids) h =
    rw (merged_value_known (get id a) (get id b) h.0, merged_entries-Known a b ids h.1)

get-map-entry :
    (a b : OrdinaryClock) (ids : List ℕ) (c : OrdinaryClock) (j : ℕ)
    → get j (extend (map (entry a b) ids) c)
      ≡ (if elem j ids then some (max (at j a) (at j b)) else get j c)
unfolding extend elem
get-map-entry a b [] c j = refl
get-map-entry a b (id ∷ ids) c j = ground (
  arith,
  get-map-entry a b ids (insert id (max (at id a) (at id b)) c) j,
  get-insert j id (max (at id a) (at id b)) c,
)

elem-keys : (j : ℕ) (c : OrdinaryClock) → elem j (keys c) ≡ is_some (get j c)
unfolding elem keys get
elem-keys j [] = refl
elem-keys j ((id, n) ∷ c) = ground (arith, elem-keys j c)

elem-append : (j : ℕ) (xs ys : List ℕ) → elem j (xs ++ ys) ≡ (elem j xs || elem j ys)
unfolding elem
elem-append j [] ys = refl
elem-append j (x ∷ xs) ys = ground (arith, elem-append j xs ys)

All-Known :
    (a b : OrdinaryClock) (ids : List ℕ)
    → ((j : ℕ) → elem j ids ≡ true → Known a b j)
    → All (Known a b) ids
unfolding elem
All-Known a b [] h = tt
All-Known a b (id ∷ ids) h = (h id (ground arith), All-Known a b ids (λ j e. h j (ground arith)))

keys-Known : (a b : OrdinaryClock) (j : ℕ) → elem j (keys a ++ keys b) ≡ true → Known a b j
keys-Known a b j h = ground (arith, elem-append j (keys a) (keys b), elem-keys j a, elem-keys j b)

-- The later of two entries for one id.
abbrev pub later : Option ℕ → Option ℕ → Option ℕ
later none other = other
later (some n) none = some n
later (some n) (some m) = some (max n m)

-- The merged clock.
pub join : OrdinaryClock → OrdinaryClock → OrdinaryClock
join a b = extend (map (entry a b) (keys a ++ keys b)) []

pub merge-eq-join : (a b : OrdinaryClock) → merge a b ≡ ok (join a b)
unfolding merge join
merge-eq-join a b = rw (
    merged_entries-Known a b (keys a ++ keys b) (All-Known a b (keys a ++ keys b) (keys-Known a b)))

pub join-IsSorted : (a b : OrdinaryClock) → IsSorted (join a b)
unfolding join
join-IsSorted a b = extend-IsSorted (map (entry a b) (keys a ++ keys b)) [] tt

pub get-join : (j : ℕ) (a b : OrdinaryClock) → get j (join a b) ≡ later (get j a) (get j b)
unfolding join get
get-join j a b = ground (
  arith,
  get-map-entry a b (keys a ++ keys b) [] j,
  elem-append j (keys a) (keys b),
  elem-keys j a,
  elem-keys j b,
)

-- `merge` returns, and holds under each id the greater of the two values, and the only value
-- where one clock has none.
pub get-merge :
    (a b : OrdinaryClock)
    → (c : OrdinaryClock) × (merge a b ≡ ok c)
      × IsSorted c
      × ((j : ℕ) → get j c ≡ later (get j a) (get j b))
get-merge a b = (join a b, merge-eq-join a b, join-IsSorted a b, λ j. get-join j a b)

later_comm : (x y : Option ℕ) → later x y ≡ later y x
later_comm x y = ground arith

later_assoc : (x y z : Option ℕ) → later (later x y) z ≡ later x (later y z)
later_assoc x y z = ground arith

later_idem : (x : Option ℕ) → later x x ≡ x
later_idem x = ground arith

join_comm : (a b : OrdinaryClock) → join a b ≡ join b a
join_comm a b =
    ext (join a b) (join b a) (join-IsSorted a b) (join-IsSorted b a)
      (λ j. get-join j a b ∙ later_comm (get j a) (get j b) ∙ sym (get-join j b a))

join_assoc : (a b c : OrdinaryClock) → join (join a b) c ≡ join a (join b c)
join_assoc a b c =
    ext (join (join a b) c) (join a (join b c)) (join-IsSorted (join a b) c)
      (join-IsSorted a (join b c)) (λ j. simp (get-join, later_assoc))

join_idem : (a : OrdinaryClock) → IsSorted a → join a a ≡ a
join_idem a s = ext (join a a) a (join-IsSorted a a) s (λ j. get-join j a a ∙ later_idem (get j a))

-- Merging is commutative and associative, and a clock merged with itself is itself: the order
-- in which clocks arrive, and how often, does not matter.
pub merge_semilattice :
    (a b c : OrdinaryClock)
    → IsSorted a
    → (merge a b ≡ merge b a)
      × ((merge a b >>= λ m. merge m c) ≡ (merge b c >>= λ m. merge a m))
      × (merge a a ≡ ok a)
merge_semilattice a b c s = (
  rw (merge-eq-join a b, merge-eq-join b a, join_comm a b),
  rw (merge-eq-join a b, merge-eq-join b c)
      (rw (merge-eq-join (join a b) c, merge-eq-join a (join b c), join_assoc a b c)),
  rw (merge-eq-join a a, join_idem a s),
)
