-- ===== src/Websocket/Instance.antt =====
-- A concrete instance of the crates that crates/websocket uses: messages are written field by
-- field, texts with their length before them.
use aos_operator.Shared.{
  ◌≡◌, refl, ap, Bool, true, false, Option, none, some, [], ◌∷◌, ◌++◌, if◌then◌else◌, length, take,
  drop, take-append, drop-append,
}
use aos_operator.Shared.Text.{Text, text_eq, text_eq_refl}
use aos_operator.Signer.Instance.{toy_signing}
use aos_operator.Websocket.{WireMessage, WireCrates, read_option, as_read}

put : Text → Text → Text
put t rest = length t ∷ t ++ rest

got : Text → Text
got [] = []
got (n ∷ s) = take n s

left : Text → Text
left [] = []
left (n ∷ s) = drop n s

got-put : (t rest : Text) → got (put t rest) ≡ t
unfolding got put
got-put t rest = take-append t rest

left-put : (t rest : Text) → left (put t rest) ≡ rest
unfolding left put
left-put t rest = drop-append t rest

as_text : Option Text → Text
as_text none = []
as_text (some t) = 1 ∷ t

as_option : Text → Option Text
as_option [] = none
as_option (x ∷ t) = some t

option-text : (o : Option Text) → as_option (as_text o) ≡ o
unfolding as_option as_text
option-text none = refl
option-text (some t) = refl

-- A value is a text, and the empty text is `null`.
unfoldable pub null_text : Text → Bool
null_text [] = true
null_text (x ∷ t) = false

-- `None` is written as `null`.
written : Option Text → Text
written none = []
written (some t) = t

read_value : Text → Option Text
read_value [] = none
read_value (x ∷ t) = some (x ∷ t)

read-written : (o : Option Text) → read_value (written o) ≡ read_option null_text o
unfolding read_value written read_option null_text
read-written none = refl
read-written (some []) = refl
read-written (some (x ∷ t)) = refl

written-read_option : (o : Option Text) → written (read_option null_text o) ≡ written o
unfolding written read_option null_text
written-read_option none = refl
written-read_option (some []) = refl
written-read_option (some (x ∷ t)) = refl

unfoldable pub enc : WireMessage Text → Text
unfolding put as_text written
enc m = put m.id (
    put (as_text m.method) (
      put (written m.params)
        (put (written m.result) (put m.address (put m.hash (put m.signature []))))))

unfoldable pub dec : Text → WireMessage Text
unfolding got left as_option read_value
dec s =
    let s1 = left s in
    let s2 = left s1 in
    let s3 = left s2 in
    let s4 = left s3 in
    let s5 = left s4 in
    let s6 = left s5 in
    record {
      id = got s;
      method = as_option (got s1);
      params = read_value (got s2);
      result = read_value (got s3);
      address = got s4;
      hash = got s5;
      signature = got s6;
    }

dec-enc : (m : WireMessage Text) → dec (enc m) ≡ as_read null_text m
unfolding dec enc
dec-enc m = simp (got-put, left-put, option-text, read-written)

pub enc-as_read : (m : WireMessage Text) → enc (as_read null_text m) ≡ enc m
unfolding enc
enc-as_read m = rw (written-read_option m.params, written-read_option m.result) refl

unfoldable pub from_text : Text → Option (WireMessage Text)
from_text t = if text_eq (enc (dec t)) t then some (dec t) else none

pub from_text-enc :
    (m : WireMessage Text) (t : Text)
    → some (enc m) ≡ some t
    → from_text t ≡ some (as_read null_text m)
unfolding from_text
from_text-enc m t e =
    let same : enc m ≡ t = cc in rw (← same, dec-enc m, enc-as_read m, text_eq_refl (enc m)) refl

abbrev pub toy_crates : WireCrates Text
toy_crates = record {
  signing = toy_signing enc;
  is_null = null_text;
  exact = λ v. true;
  to_json = λ m. some (enc m);
  from_slice = from_text;
  from_slice-to_json = λ m t p r e. from_text-enc m t e;
  to_vec-as_read = λ m. ap some (enc-as_read m);
}
