-- ===== src/Cli/Address.antt =====
-- Which database an address names.
use mathlib.Core.List.{
  reverse, reverse_aux, reverse-append, reverse-reverse, reverse-cons, append_assoc,
}
use aos_operator.Shared.{
  ℕ, zero, suc, ◌≡◌, ◌≢◌, refl, ap, sym, ◌∙◌, Bool, false, Option, none, some, [], ◌∷◌, ◌++◌, ◌==◌,
  ==_refl, All, length, length-append, ◌<◌, arith,
}
use aos_operator.Shared.Text.{Text}
use aos_operator.Cli.{trim_slashes, strip_prefix, trim_start_matches, trim_end_matches, init_db}

-- A byte other than `/`.
abbrev pub NoSlash : ℕ → Type 0
NoSlash c = (c == b'/') ≡ false

strip_prefix-append : (p t : Text) → strip_prefix p (p ++ t) ≡ some t
unfolding strip_prefix
strip_prefix-append [] t = refl
strip_prefix-append (c ∷ p) t = rw (==_refl c) (strip_prefix-append p t)

-- What does not begin with the prefix is left.
trim_other : (n : ℕ) (p t : Text) → strip_prefix p t ≡ none → trim_start_matches n p t ≡ t
unfolding trim_start_matches
trim_other zero p t h = refl
trim_other (suc n) p t h = rw h refl

strip_none : (p t : Text) → All NoSlash p → p ≢ [] → strip_prefix p (b'/' ∷ t) ≡ none
unfolding strip_prefix
strip_none [] t h filled = absurd (filled refl)
strip_none (c ∷ p) t h filled = rw h.0 refl

All-reverse_aux : (xs ys : Text) → All NoSlash xs → All NoSlash ys → All NoSlash (reverse_aux xs ys)
All-reverse_aux [] ys h k = k
All-reverse_aux (x ∷ xs) ys h k = All-reverse_aux xs (x ∷ ys) h.1 (h.0, k)

filled-reverse : (xs : Text) → xs ≢ [] → reverse xs ≢ []
filled-reverse xs filled e = filled (sym (reverse-reverse xs) ∙ ap reverse e)

trim_slashes-name : (name : Text) → All NoSlash name → trim_slashes (b'/' ∷ name) ≡ name
unfolding trim_slashes
trim_slashes-name [] h = refl
trim_slashes-name (c ∷ s) h = rw h.0 refl

reverse-address :
    (base name : Text) → reverse (base ++ b'/' ∷ name) ≡ reverse name ++ b'/' ∷ reverse base
reverse-address base name =
    reverse-append base (b'/' ∷ name)
    ∙ ap (λ t. t ++ reverse base) (reverse-cons b'/' name)
    ∙ append_assoc (reverse name) (b'/' ∷ []) (reverse base)

trim_once :
    (n : ℕ) (base name : Text)
    → All NoSlash name
    → name ≢ []
    → 0 < n
    → trim_start_matches n (reverse name) (reverse name ++ b'/' ∷ reverse base)
      ≡ b'/' ∷ reverse base
unfolding trim_start_matches
trim_once zero base name h filled some_fuel = absurd (omega arith)
trim_once (suc n) base name h filled some_fuel =
    let after =
      strip_none (reverse name) (reverse base) (All-reverse_aux name [] h tt)
        (filled-reverse name filled) in
    rw (strip_prefix-append (reverse name) (b'/' ∷ reverse base))
      (trim_other n (reverse name) (b'/' ∷ reverse base) after)

trim_end_matches-name :
    (base name : Text)
    → All NoSlash name
    → name ≢ []
    → trim_end_matches name (base ++ b'/' ∷ name) ≡ base ++ b'/' ∷ []
unfolding trim_end_matches
trim_end_matches-name base name h filled =
    let fuel : 0 < length (base ++ b'/' ∷ name) = omega (arith, length-append base (b'/' ∷ name)) in
    rw
      (
        reverse-address base name,
        trim_once (length (base ++ b'/' ∷ name)) base name h filled fuel,
        reverse-cons b'/' (reverse base),
        reverse-reverse base,
      )
      refl

-- An address that `Url::parse` reads as it is, with a path of one nonempty part, has the database
-- of that part set up, on the server that the rest of the address names.
pub init_db-address :
    (parse : Text → Option (Text × Text)) (setup_db : Text → Text → Bool) (base name : Text)
    → All NoSlash name
    → name ≢ []
    → parse (base ++ b'/' ∷ name) ≡ some (base ++ b'/' ∷ name, b'/' ∷ name)
    → init_db parse setup_db (base ++ b'/' ∷ name) ≡ setup_db (base ++ b'/' ∷ []) name
unfolding init_db
init_db-address parse setup_db base [] h filled read = absurd (filled refl)
init_db-address parse setup_db base (c ∷ name) h filled read =
    rw (read, trim_slashes-name (c ∷ name) h, trim_end_matches-name base (c ∷ name) h filled) refl
