-- ===== src/Signer/Instance.antt =====
-- A concrete instance of the crates that crates/signer uses: a signature is the key and the
-- message.
use aos_operator.Shared.{ℕ, ◌≡◌, refl, Option, none, some, [], ◌∷◌, if◌then◌else◌}
use aos_operator.Shared.Text.{Text, text_eq, text_eq_refl}
use aos_operator.Signer.{SigningCrates, Bytes}

abbrev pub from_text : Text → Option (ℕ × Bytes)
from_text [] = none
from_text (key ∷ msg) = some (key, msg)

abbrev pub recover : ℕ × Bytes → Bytes → Option ℕ
recover (key, m) msg = if text_eq m msg then some key else none

pub made : (key : ℕ) (msg : Bytes) → recover (key, msg) msg ≡ some key
made key msg = rw (text_eq_refl msg) refl

pub made_by :
    (key : ℕ) (msg : Bytes) (sig : ℕ × Bytes)
    → some (key, msg) ≡ some sig
    → recover sig msg ≡ some key
made_by key msg sig e = let same : (key, msg) ≡ sig = cc in rw (← same) (made key msg)

abbrev pub toy_signing : {Message : Type 0} → (Message → Bytes) → SigningCrates Message
toy_signing to_bytes = record {
  Key = ℕ;
  Sig = ℕ × Bytes;
  Address = ℕ;
  to_vec = λ m. some (to_bytes m);
  keccak256 = λ b. b;
  encode = λ b. b;
  sign_message_sync = λ key msg. some (key, msg);
  as_bytes = λ (key, msg). key ∷ msg;
  from_str = from_text;
  recover_address_from_msg = recover;
  address = λ key. key;
  address_to_string = λ a. a ∷ [];
  to_lowercase = λ t. t;
  from_str-encode = λ sig. refl;
  recover-sign = made_by;
}
