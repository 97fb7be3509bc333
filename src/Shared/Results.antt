-- ===== src/Shared/Results.antt =====
-- How a Rust call ends: with a value, with an error (`Err`), or with a panic.
use mathlib.Core.Path.{◌≡◌, refl}
use mathlib.Core.Option.{Option, none, some}

pub data Outcome (E A : Type 0) : Type 0 where
  ok : A → Outcome E A
  err : E → Outcome E A
  panic : Outcome E A

infixl 5 ◌>>=◌
-- The operator `?`; a panic unwinds.
abbrev pub ◌>>=◌ : {E A B : Type 0} → Outcome E A → (A → Outcome E B) → Outcome E B
ok a >>= f = f a
err e >>= f = err e
panic >>= f = panic

-- `ok_or(e)`
abbrev pub ok_or : {E A : Type 0} → Option A → E → Outcome E A
ok_or none e = err e
ok_or (some a) e = ok a

-- `unwrap`, `expect` and an index that may be out of range.
abbrev pub unwrap : {E A : Type 0} → Option A → Outcome E A
unwrap none = panic
unwrap (some a) = ok a

-- `map_err`
abbrev pub map_err : {E F A : Type 0} → (E → F) → Outcome E A → Outcome F A
map_err f (ok a) = ok a
map_err f (err e) = err (f e)
map_err f panic = panic

-- A chain that ends well went through its first step.
pub >>=-eq-ok :
    {E A B : Type 0} {last : B} (step : Outcome E A) (rest : A → Outcome E B)
    → (step >>= rest) ≡ ok last
    → (first : A) × (step ≡ ok first) × (rest first ≡ ok last)
>>=-eq-ok panic rest ends = cc
>>=-eq-ok (err fault) rest ends = cc
>>=-eq-ok (ok first) rest ends = (first, refl, ends)

pub unwrap-eq-ok : {E A : Type 0} {a : A} (o : Option A) → unwrap {E = E} o ≡ ok a → o ≡ some a
unwrap-eq-ok none h = cc
unwrap-eq-ok (some a) h = cc

pub ok_or-eq-ok : {E A : Type 0} {a : A} (o : Option A) (e : E) → ok_or o e ≡ ok a → o ≡ some a
ok_or-eq-ok none e h = cc
ok_or-eq-ok (some a) e h = cc
