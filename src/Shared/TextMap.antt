-- ===== src/Shared/TextMap.antt =====
-- `HashMap<String, V>`: a list of entries with distinct keys. Its order stands for the order in
-- which the map happens to be iterated.
use mathlib.Core.Path.{◌≡◌}
use mathlib.Core.List.{List, [], ◌∷◌}
use mathlib.Core.Option.{Option, none, some}
use native.Mathlib.Omega.{arith}
use aos_operator.Shared.Tests.{if◌then◌else◌}
use aos_operator.Shared.Text.{Text, text_eq, text_eq_iff}

abbrev pub TextMap : Type 0 → Type 0
TextMap V = List (Text × V)

module _ {V : Type 0} where
  unfoldable pub get : Text → TextMap V → Option V
  get k [] = none
  get k ((j, v) ∷ m) = if text_eq k j then some v else get k m

  unfoldable pub remove : Text → TextMap V → TextMap V
  remove k [] = []
  remove k ((j, v) ∷ m) = if text_eq k j then remove k m else (j, v) ∷ remove k m

  unfoldable pub insert : Text → V → TextMap V → TextMap V
  insert k v m = (k, v) ∷ remove k m

  pub get-remove :
      (j k : Text) (m : TextMap V) → get j (remove k m) ≡ (if text_eq j k then none else get j m)
  unfolding get remove
  get-remove j k [] = ground arith
  get-remove j k ((i, v) ∷ m) =
      ground (arith, text_eq_iff j k, text_eq_iff k i, text_eq_iff j i, get-remove j k m)

  pub get-insert :
      (j k : Text) (v : V) (m : TextMap V)
      → get j (insert k v m) ≡ (if text_eq j k then some v else get j m)
  unfolding get insert
  get-insert j k v m = ground (arith, get-remove j k m)
