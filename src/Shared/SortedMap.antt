-- ===== src/Shared/SortedMap.antt =====
-- `BTreeMap<K, V>` with numeric keys: its entries in increasing order of their keys.
use Prim.Native.Nat.{ℕ, ◌≤◌, ◌<◌}
use mathlib.Core.Path.{◌≡◌, refl, sym, ◌∙◌}
use mathlib.Core.Bool.{false}
use mathlib.Core.List.{List, [], ◌∷◌}
use mathlib.Core.Logic.{◌≢◌, inl, inr}
use mathlib.Core.Option.{Option, none, some}
use native.Mathlib.Omega.{arith}
use aos_operator.Shared.Tests.{ltb, leb, leb→le, ◌==◌, if◌then◌else◌, Bool-cases}

abbrev pub SortedMap {ℓ} : Type ℓ → Type ℓ
SortedMap V = List (ℕ × V)

module _ {ℓ} {V : Type ℓ} where
  unfoldable pub get : ℕ → SortedMap V → Option V
  get k [] = none
  get k ((j, v) ∷ m) = if k == j then some v else get k m

  -- An entry that is there is overwritten.
  unfoldable pub insert : ℕ → V → SortedMap V → SortedMap V
  insert k v [] = (k, v) ∷ []
  insert k v ((j, w) ∷ m) =
      if k == j then (k, v) ∷ m else if ltb k j then (k, v) ∷ (j, w) ∷ m else (j, w) ∷ insert k v m

  -- `collect`: the entries are inserted one after the other.
  unfoldable pub extend : List (ℕ × V) → SortedMap V → SortedMap V
  extend [] m = m
  extend ((k, v) ∷ es) m = extend es (insert k v m)

  unfoldable pub keys : SortedMap V → List ℕ
  keys [] = []
  keys ((k, v) ∷ m) = k ∷ keys m

  -- Every key is above `k`.
  abbrev pub Above : ℕ → SortedMap V → Type 0
  Above k [] = Unit
  Above k ((j, v) ∷ m) = (k < j) × Above k m

  abbrev pub IsSorted : SortedMap V → Type 0
  IsSorted [] = Unit
  IsSorted ((k, v) ∷ m) = Above k m × IsSorted m

  pub get-insert :
      (j k : ℕ) (v : V) (m : SortedMap V)
      → get j (insert k v m) ≡ (if j == k then some v else get j m)
  unfolding get insert
  get-insert j k v [] = refl
  get-insert j k v ((i, w) ∷ m) = ground (arith, get-insert j k v m)

  insert-Above : (b k : ℕ) (v : V) (m : SortedMap V) → b < k → Above b m → Above b (insert k v m)
  unfolding insert
  insert-Above b k v [] h a = (h, tt)
  insert-Above b k v ((i, w) ∷ m) h a = ground (arith, insert-Above b k v m h a.1)

  Above-weaken : (b c : ℕ) (m : SortedMap V) → b < c → Above c m → Above b m
  Above-weaken b c [] h a = tt
  Above-weaken b c ((i, w) ∷ m) h a = (omega arith, Above-weaken b c m h a.1)

  pub insert-IsSorted : (k : ℕ) (v : V) (m : SortedMap V) → IsSorted m → IsSorted (insert k v m)
  unfolding insert
  insert-IsSorted k v [] s = (tt, tt)
  insert-IsSorted k v ((i, w) ∷ m) s =
      ground (arith, insert-IsSorted k v m s.1, insert-Above i k v m, Above-weaken k i m)

  pub extend-IsSorted : (es : List (ℕ × V)) (m : SortedMap V) → IsSorted m → IsSorted (extend es m)
  unfolding extend
  extend-IsSorted [] m s = s
  extend-IsSorted ((k, v) ∷ es) m s = extend-IsSorted es (insert k v m) (insert-IsSorted k v m s)

  pub get-Above : (b k : ℕ) (m : SortedMap V) → Above b m → k ≤ b → get k m ≡ none
  unfolding get
  get-Above b k [] a h = refl
  get-Above b k ((i, w) ∷ m) a h = ground (arith, get-Above b k m a.1 h)

  ext-tail :
      (k i : ℕ) (v w : V) (m n : SortedMap V)
      → Above k m
      → Above k n
      → get i ((k, v) ∷ m) ≡ get i ((k, w) ∷ n)
      → get i m ≡ get i n
  unfolding get
  ext-tail k i v w m n am an h = elim (Bool-cases (leb i k)) [
    | inl low ↦ get-Above k i m am (leb→le i k low) ∙ sym (get-Above k i n an (leb→le i k low))
    | inr high ↦ let apart : (i == k) ≡ false = ground arith in rw apart at h
  ]

  ext-key_le :
      (k j : ℕ) (v w : V) (m n : SortedMap V)
      → Above j n
      → get k ((k, v) ∷ m) ≡ get k ((j, w) ∷ n)
      → j ≤ k
  unfolding get
  ext-key_le k j v w m n a h = ground (arith, get-Above j k n a)

  ext-value :
      (k : ℕ) (v w : V) (m n : SortedMap V) → get k ((k, v) ∷ m) ≡ get k ((k, w) ∷ n) → v ≡ w
  unfolding get
  ext-value k v w m n h = ground arith

  not-get-nil : (k : ℕ) (v : V) (m : SortedMap V) → get k ((k, v) ∷ m) ≢ none
  unfolding get
  not-get-nil k v m = ground arith

  ext-cons :
      (k j : ℕ) (v w : V) (m n : SortedMap V)
      → k ≡ j
      → IsSorted ((k, v) ∷ m)
      → IsSorted ((j, w) ∷ n)
      → ((i : ℕ) → get i ((k, v) ∷ m) ≡ get i ((j, w) ∷ n))
      → (((i : ℕ) → get i m ≡ get i n) → m ≡ n)
      → (k, v) ∷ m ≡ (j, w) ∷ n
  ext-cons k j v w m n kj sm sn h tails =
      let hk : (i : ℕ) → get i ((k, v) ∷ m) ≡ get i ((k, w) ∷ n) = rw (← kj) at h in
      let an : Above k n = rw (← kj) at sn.0 in
      cc (kj, ext-value k v w m n (hk k), tails (λ i. ext-tail k i v w m n sm.0 an (hk i)))

  -- A sorted map is determined by its lookups.
  pub ext : (m n : SortedMap V) → IsSorted m → IsSorted n → ((k : ℕ) → get k m ≡ get k n) → m ≡ n
  unfolding get
  ext [] [] sm sn h = refl
  ext [] ((j, w) ∷ n) sm sn h = absurd (not-get-nil j w n (sym (h j)))
  ext ((k, v) ∷ m) [] sm sn h = absurd (not-get-nil k v m (h k))
  ext ((k, v) ∷ m) ((j, w) ∷ n) sm sn h =
      let kj : k ≡ j =
        omega (arith, ext-key_le k j v w m n sn.0 (h k), ext-key_le j k w v n m sm.0 (sym (h j))) in
      ext-cons k j v w m n kj sm sn h (ext m n sm.1 sn.1)
