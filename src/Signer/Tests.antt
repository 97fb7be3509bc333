-- ===== src/Signer/Tests.antt =====
-- Signing and checking a message with concrete keys.
use aos_operator.Shared.{ℕ, ◌++◌, none, some, ◌≡◌, refl, ◌↔◌, true, false, [], ◌∷◌, ok}
use aos_operator.Shared.Text.{Text, codes, text_eq}
use aos_operator.Signer.{SigningCrates, sign_message, verify_signature, get_address}
use aos_operator.Signer.Instance.{toy_signing}
use aos_operator.Signer.Messages.{WsMethodMsg, verify_message, verify_message-sign_message}

abbrev signing : SigningCrates Text
signing = toy_signing (λ t. t)

verify_run :
    (sign_message signing {E = ⊥} 7 (codes "hello") ≡ ok (7 ∷ codes "hello"))
    × (verify_signature signing {E = ⊥} (8 ∷ []) (codes "hello") (7 ∷ codes "hello") ≡ ok false)
unfolding sign_message verify_signature text_eq
verify_run = (refl, refl)

abbrev in_messages : SigningCrates (WsMethodMsg ℕ)
in_messages = toy_signing (λ m. m.id ++ m.signature)

abbrev greeting : WsMethodMsg ℕ
greeting = record {
  id = codes "m1";
  method = none;
  params = none;
  result = some 4;
  address = 7 ∷ [];
  hash = [];
  signature = [];
}

signed_greeting :
    sign_message in_messages {E = ⊥} 7 (record greeting { signature = [] }) ≡ ok (7 ∷ codes "m1")
unfolding sign_message
signed_greeting = refl

verify_message-sign_message_example :
    (verify_message in_messages {E = ⊥} (record greeting { signature = 7 ∷ codes "m1" }) ≡ ok true)
    ↔ (in_messages.to_lowercase (get_address in_messages 7) ≡ in_messages.to_lowercase (7 ∷ []))
verify_message-sign_message_example =
    verify_message-sign_message in_messages {E = ⊥} 7 greeting (7 ∷ codes "m1") signed_greeting
