-- ===== src/Signer.antt =====
-- crates/signer/src/msg_signer.rs: signing and checking messages with an Ethereum key.
pub mod Recovery
pub mod Messages
pub mod Keccak
pub mod Instance
mod Tests
use aos_operator.Shared.{
  ℕ, ◌≡◌, Bool, Option, none, some, List, Outcome, ok, err, panic, ◌>>=◌, unwrap,
}
use aos_operator.Shared.Text.{Text, text_eq}

abbrev pub Bytes : Type 0
Bytes = List ℕ

-- What is used of `alloy`, `sha3`, `hex` and `serde_json`, for messages of type `Message`.
pub record SigningCrates (Message : Type 0) : Type 1 where
  -- `PrivateKeySigner`, `signers::Signature` and `primitives::Address`
  pub Key : Type 0
  pub Sig : Type 0
  pub Address : Type 0
  pub to_vec : Message → Option Bytes
  pub keccak256 : Bytes → Bytes
  pub encode : Bytes → Text
  pub sign_message_sync : Key → Bytes → Option Sig
  pub as_bytes : Sig → Bytes
  pub from_str : Text → Option Sig
  pub recover_address_from_msg : Sig → Bytes → Option Address
  pub address : Key → Address
  pub address_to_string : Address → Text
  pub to_lowercase : Text → Text
  -- A signature is read back from its text, and recovers the address of the key that made it.
  pub from_str-encode : (sig : Sig) → from_str (encode (as_bytes sig)) ≡ some sig
  pub recover-sign :
      (k : Key) (msg : Bytes) (sig : Sig)
      → sign_message_sync k msg ≡ some sig
      → recover_address_from_msg sig msg ≡ some (address k)

module _ {Message : Type 0} (crates : SigningCrates Message) where
  open crates use {
    Key, to_vec, keccak256, encode, sign_message_sync, as_bytes, from_str, recover_address_from_msg,
    address, address_to_string, to_lowercase,
  }

  -- `MessageVerify::generate_hash_str`; it always returns `Ok`, or panics in `expect`.
  unfoldable pub generate_hash_str : {E : Type 0} → Message → Outcome E Text
  generate_hash_str message = do
    serialized_message ← unwrap (to_vec message)
    ok (encode (keccak256 serialized_message))

  -- `MessageVerify::get_address`
  unfoldable pub get_address : Key → Text
  get_address key = address_to_string (address key)

  -- `Signer::sign_message` of `MessageVerify`
  unfoldable pub sign_message : {E : Type 0} → Key → Message → Outcome E Text
  sign_message key message = do
    msg ← unwrap (to_vec message)
    signature ← unwrap (sign_message_sync key msg)
    ok (encode (as_bytes signature))

  -- `Signer::verify_signature` of `MessageVerify`
  unfoldable pub verify_signature : {E : Type 0} → Text → Message → Text → Outcome E Bool
  verify_signature pubkey message signature = do
    sig ← unwrap (from_str signature)
    msg ← unwrap (to_vec message)
    recover ← unwrap (recover_address_from_msg sig msg)
    ok (text_eq (to_lowercase (address_to_string recover)) (to_lowercase pubkey))
