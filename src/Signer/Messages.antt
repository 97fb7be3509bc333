-- ===== src/Signer/Messages.antt =====
-- crates/signer/src/msg_signer.rs: messages that carry their own signature.
use aos_operator.Shared.{◌≡◌, ◌↔◌, true, Bool, Option, [], Outcome, ok, ◌>>=◌, unwrap}
use aos_operator.Shared.Text.{Text, text_eq}
use aos_operator.Signer.{SigningCrates, get_address, sign_message, verify_signature}
use aos_operator.Signer.Recovery.{verify_signature-sign_message}

pub record WsMethodMsg (Json : Type 0) : Type 0 where
  pub id : Text
  pub method : Option Text
  pub params : Option Json
  pub result : Option Json
  pub address : Text
  pub hash : Text
  pub signature : Text

module _ {Json : Type 0} (crates : SigningCrates (WsMethodMsg Json)) where
  open crates use {Key, to_vec, from_str, recover_address_from_msg, address_to_string, to_lowercase}

  -- `MessageVerify::verify_message`
  unfoldable pub verify_message : {E : Type 0} → WsMethodMsg Json → Outcome E Bool
  verify_message message = do
    signature ← unwrap (from_str message.signature)
    let origin_message = record message { signature = [] }
    msg ← unwrap (to_vec origin_message)
    origin ← unwrap (recover_address_from_msg signature msg)
    ok (text_eq (to_lowercase (address_to_string origin)) (to_lowercase message.address))

  -- A message that is signed without its signature, and then carries that signature, is verified
  -- exactly if it names the signer's address, in upper or lower case.
  pub verify_message-sign_message :
      {E : Type 0} (key : Key) (message : WsMethodMsg Json) (signed : Text)
      → sign_message crates {E = E} key (record message { signature = [] }) ≡ ok signed
      → (verify_message {E = E} (record message { signature = signed }) ≡ ok true)
        ↔ (to_lowercase (get_address crates key) ≡ to_lowercase message.address)
  unfolding verify_message verify_signature
  verify_message-sign_message {E} key message signed made =
      verify_signature-sign_message crates {E = E} key (record message { signature = [] }) signed
        message.address made
