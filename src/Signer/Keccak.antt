-- ===== src/Signer/Keccak.antt =====
-- crates/signer/src/msg_signer.rs: signing and checking messages with a secp256k1 key.
use aos_operator.Shared.{◌≡◌, refl, Bool, true, Option, some, Outcome, ok, ◌>>=◌, unwrap, length}
use aos_operator.Shared.Text.{Text}
use aos_operator.Signer.{Bytes}

-- What is used of `secp256k1`, `sha3`, `hex` and `serde_json`, for messages of type `Message`.
pub record KeccakCrates (Message : Type 0) : Type 1 where
  pub SecretKey : Type 0
  pub PublicKey : Type 0
  pub Digest : Type 0
  pub Signature : Type 0
  pub to_vec : Message → Option Bytes
  pub keccak256 : Bytes → Bytes
  pub encode : Bytes → Text
  pub decode : Text → Option Bytes
  pub from_slice : Bytes → Option Digest
  pub sign_ecdsa : Digest → SecretKey → Signature
  pub verify_ecdsa : Digest → Signature → PublicKey → Bool
  pub serialize_compact : Signature → Bytes
  pub from_compact : Bytes → Option Signature
  pub public_key : SecretKey → PublicKey
  -- Hashes have 32 bytes, of which a message to sign is made; texts and bytes are read back; a key
  -- verifies what it signed.
  pub length-keccak256 : (bytes : Bytes) → length (keccak256 bytes) ≡ 32
  pub from_slice_lem :
      (bytes : Bytes) → length bytes ≡ 32 → (digest : Digest) × (from_slice bytes ≡ some digest)
  pub decode-encode : (bytes : Bytes) → decode (encode bytes) ≡ some bytes
  pub from_compact-serialize : (s : Signature) → from_compact (serialize_compact s) ≡ some s
  pub verify-sign_ecdsa :
      (digest : Digest) (k : SecretKey)
      → verify_ecdsa digest (sign_ecdsa digest k) (public_key k) ≡ true

module _ {Message : Type 0} (crates : KeccakCrates Message) where
  open crates use {
    SecretKey, PublicKey, to_vec, keccak256, encode, decode, from_slice, sign_ecdsa, verify_ecdsa,
    serialize_compact, from_compact, public_key,
  }

  -- `Keccak256Secp256k1::generate_hash`
  unfoldable pub generate_hash : {E : Type 0} → Message → Outcome E Bytes
  generate_hash message = do
    serialized_message ← unwrap (to_vec message)
    ok (keccak256 serialized_message)

  -- `Signer::sign_message` of `Keccak256Secp256k1`: the key is the argument, not the signer's own.
  unfoldable pub sign_hash : {E : Type 0} → SecretKey → Message → Outcome E Text
  unfolding generate_hash
  sign_hash privkey message = do
    hash ← generate_hash message
    msg ← unwrap (from_slice hash)
    ok (encode (serialize_compact (sign_ecdsa msg privkey)))

  -- `Signer::verify_signature` of `Keccak256Secp256k1`
  unfoldable pub verify_hash : {E : Type 0} → PublicKey → Message → Text → Outcome E Bool
  unfolding generate_hash
  verify_hash pubkey message signature = do
    hash ← generate_hash message
    msg ← unwrap (from_slice hash)
    bytes ← unwrap (decode signature)
    sig ← unwrap (from_compact bytes)
    ok (verify_ecdsa msg sig pubkey)

  -- Every message that is serialized is signed without a panic, and the public key of the signer
  -- verifies the signature.
  pub verify_hash-sign_hash :
      {E : Type 0} (k : SecretKey) (message : Message) (serialized : Bytes)
      → to_vec message ≡ some serialized
      → (signature : Text) × (sign_hash {E = E} k message ≡ ok signature)
        × (verify_hash {E = E} (public_key k) message signature ≡ ok true)
  unfolding sign_hash verify_hash
  verify_hash-sign_hash {E} k message serialized e =
      let (digest, made) =
        crates.from_slice_lem (keccak256 serialized) (crates.length-keccak256 serialized) in
      let sig = sign_ecdsa digest k in
      (
        encode (serialize_compact sig),
        rw (e, made) refl,
        rw
            (
              e,
              made,
              crates.decode-encode (serialize_compact sig),
              crates.from_compact-serialize sig,
              crates.verify-sign_ecdsa digest k,
            )
            refl,
      )
