-- ===== src/Crypto/Core.antt =====
-- crates/common/src/crypto/core.rs: `Crypto`, which signs with one key and verifies with those of
-- all, and `peer::Crypto`. Messages come as the calls that their `Hash` makes.
pub mod Signing
pub mod Batch
pub mod Random
use aos_operator.Shared.{
  ℕ, zero, suc, ◌+◌, ◌-◌, ◌*◌, ◌/◌, ◌%◌, ◌≡◌, Bool, true, false, ◌&&◌, Option, none, some, List, [],
  ◌∷◌, ◌++◌, map, Outcome, ok, err, panic, ◌>>=◌, ok_or, unwrap, ltb, leb, if◌then◌else◌, length,
  get_elem?, replicate,
}
use aos_operator.Shared.Text.{Text, codes, text_eq}
use aos_operator.Shared.Hex.{hex_digit}
use aos_operator.Shared.Decimal.{to_string}
use aos_operator.Crypto.Digest.{Bytes, HashWrite, hash}

-- Whether `verify` holds along three lists of one length.
abbrev pub all_hold : {T S P : Type 0} → (P → T → S → Bool) → List T → List S → List P → Bool
all_hold verify (t ∷ ts) (s ∷ ss) (p ∷ ps) = verify p t s && all_hold verify ts ss ps
all_hold verify _ _ _ = true

-- What is used of `sha2`, `hex`, `secp256k1` and `schnorrkel`.
pub record CryptoCrates : Type 1 where
  pub SecretKey : Type 0
  pub SecpPublic : Type 0
  pub SecpSignature : Type 0
  pub Keypair : Type 0
  pub SchnorrPublic : Type 0
  pub SchnorrSignature : Type 0
  pub Context : Type 0
  pub Transcript : Type 0
  pub finalize : Bytes → Bytes
  pub encode : Bytes → Text
  pub from_slice : Bytes → Option SecretKey
  pub public_key : SecretKey → SecpPublic
  pub secret_bytes : SecretKey → Bytes
  pub serialize : SecpPublic → Bytes
  pub sign_ecdsa : Bytes → SecretKey → SecpSignature
  pub verify_ecdsa : Bytes → SecpSignature → SecpPublic → Bool
  -- `MiniSecretKey::from_bytes` and `expand_to_keypair`
  pub mini_secret_key : Bytes → Option Keypair
  pub public : Keypair → SchnorrPublic
  pub signing_context : Bytes → Context
  pub hash256 : Context → Bytes → Transcript
  -- Signing draws a nonce.
  pub sign_transcript : ℕ → Keypair → Transcript → SchnorrSignature
  pub verify_transcript : SchnorrPublic → Transcript → SchnorrSignature → Bool
  -- `none` is the panic of its assertion that the lists have one length.
  pub schnorrkel_verify_batch :
      List Transcript → List SchnorrSignature → List SchnorrPublic → Option Bool
  -- What a key signed verifies, and a batch is one check of all its parts.
  pub verify-sign_ecdsa :
      (digest : Bytes) (k : SecretKey)
      → verify_ecdsa digest (sign_ecdsa digest k) (public_key k) ≡ true
  pub verify-sign_transcript :
      (nonce : ℕ) (k : Keypair) (t : Transcript)
      → verify_transcript (public k) t (sign_transcript nonce k t) ≡ true
  pub batch_lem :
      (ts : List Transcript) (ss : List SchnorrSignature) (ps : List SchnorrPublic)
      → length ss ≡ length ts
      → length ps ≡ length ts
      → schnorrkel_verify_batch ts ss ps ≡ some (all_hold verify_transcript ts ss ps)

pub record Verifiable (M S : Type 0) : Type 0 where
  pub inner : M
  pub signature : S

-- `peer::Crypto`
pub record PeerCrypto (crates : CryptoCrates) : Type 0 where
  pub keypair : crates.Keypair
  pub context : crates.Context

pub data Signature (crates : CryptoCrates) : Type 0 where
  plain : Text → Signature crates
  secp256k1 : crates.SecpSignature → Signature crates
  schnorrkel : crates.SchnorrSignature → Signature crates

pub data CryptoProvider (crates : CryptoCrates) : Type 0 where
  insecure : Text → CryptoProvider crates
  secp256k1 : crates.SecretKey → CryptoProvider crates
  schnorrkel : PeerCrypto crates → CryptoProvider crates

pub data PublicKey (crates : CryptoCrates) : Type 0 where
  plain : Text → PublicKey crates
  secp256k1 : crates.SecpPublic → PublicKey crates
  schnorrkel : crates.SchnorrPublic → PublicKey crates

pub data CryptoFlavor : Type 0 where
  plain secp256k1 schnorrkel : CryptoFlavor

pub record Crypto (crates : CryptoCrates) : Type 0 where
  pub provider : CryptoProvider crates
  pub public_keys : List (PublicKey crates)

-- The errors that `anyhow` carries.
pub data CryptoError : Type 0 where
  no_identifier unequal unimplemented secp_error schnorrkel_error : CryptoError

-- `anyhow::ensure!`, and a `Result` of which only its success matters.
abbrev pub ensure : Bool → CryptoError → Outcome CryptoError (Unit {0})
ensure true e = ok tt
ensure false e = err e

-- `map` and `collect` into a `Result`
abbrev pub collect :
    {A B : Type 0} → (A → Outcome CryptoError B) → List A → Outcome CryptoError (List B)
collect f [] = ok []
collect f (a ∷ as') = do b ← f a; bs ← collect f as'; ok (b ∷ bs)

-- The `n` numbers from `k` on.
abbrev pub range_from : ℕ → ℕ → List ℕ
range_from k zero = []
range_from k (suc n) = k ∷ range_from (suc k) n

-- `Iterator::zip` ends with the shorter one.
abbrev pub zip : {A B : Type 0} → List A → List B → List (A × B)
zip (a ∷ as') (b ∷ bs) = (a, b) ∷ zip as' bs
zip _ _ = []

-- `format!("replica-{id}")` in 32 bytes; a longer text panics.
unfoldable pub seed : ℕ → Outcome CryptoError Bytes
seed id =
    let k1 = codes "replica-" ++ to_string id in
    if leb (length k1) 32 then ok (k1 ++ replicate (32 - length k1) 0) else panic

-- `format!("replica-{i:03}")`
unfoldable pub replica : ℕ → Text
replica i =
    let number = to_string i in codes "replica-" ++ (replicate (3 - length number) b'0' ++ number)

-- `format!("{:02x}", byte)` for each byte
unfoldable pub hex_bytes : Bytes → Text
hex_bytes [] = []
hex_bytes (b ∷ bs) = hex_digit (b / 16) ∷ hex_digit (b % 16) ∷ hex_bytes bs

debug_rest : Bytes → Text
debug_rest [] = codes "]"
debug_rest (b ∷ bs) = codes ", " ++ (to_string b ++ debug_rest bs)

-- `format!("{:?}", bytes)`
unfoldable pub debug_bytes : Bytes → Text
unfolding debug_rest
debug_bytes [] = codes "[]"
debug_bytes (b ∷ bs) = codes "[" ++ (to_string b ++ debug_rest bs)

module _ (crates : CryptoCrates) where
  open crates use {
    SecretKey, SecpPublic, SecpSignature, Keypair, SchnorrPublic, SchnorrSignature, Transcript,
    finalize, encode, from_slice, public_key, secret_bytes, serialize, sign_ecdsa, verify_ecdsa,
    mini_secret_key, public, signing_context, hash256, sign_transcript, verify_transcript,
    schnorrkel_verify_batch,
  }

  abbrev pub default_peer : Keypair → PeerCrypto crates
  default_peer keypair = record { keypair = keypair; context = signing_context (codes "default") }

  secp_key : ℕ → Outcome CryptoError SecretKey
  secp_key id = seed id >>= λ k. ok_or (from_slice k) secp_error

  schnorrkel_key : ℕ → Outcome CryptoError Keypair
  schnorrkel_key id = seed id >>= λ k. ok_or (mini_secret_key k) schnorrkel_error

  -- `Crypto::new_hardcoded`
  unfoldable pub new_hardcoded : ℕ → ℕ → CryptoFlavor → Outcome CryptoError (Crypto crates)
  unfolding secp_key schnorrkel_key
  new_hardcoded n index CryptoFlavor.plain = ok (record {
    provider = CryptoProvider.insecure (replica index);
    public_keys = map (λ i. PublicKey.plain (replica i)) (range_from 0 n);
  })
  new_hardcoded n index CryptoFlavor.secp256k1 = do
    secret_keys ← collect secp_key (range_from 0 n)
    secret_key ← unwrap (get_elem? secret_keys index)
    ok (record {
      provider = CryptoProvider.secp256k1 secret_key;
      public_keys = map (λ k. PublicKey.secp256k1 (public_key k)) secret_keys;
    })
  new_hardcoded n index CryptoFlavor.schnorrkel = do
    secret_keys ← collect schnorrkel_key (range_from 0 n)
    keypair ← unwrap (get_elem? secret_keys index)
    ok (record {
      provider = CryptoProvider.schnorrkel (default_peer keypair);
      public_keys = map (λ k. PublicKey.schnorrkel (public k)) secret_keys;
    })

  -- `Crypto::new_random`, given what is drawn: 32 bytes, a secret key, a key pair.
  unfoldable pub new_random : Bytes → SecretKey → Keypair → CryptoFlavor → Crypto crates
  new_random secret_key sk keypair CryptoFlavor.plain = record {
    provider = CryptoProvider.insecure (debug_bytes secret_key);
    public_keys = PublicKey.plain (hex_bytes secret_key) ∷ [];
  }
  new_random secret_key sk keypair CryptoFlavor.secp256k1 = record {
    provider = CryptoProvider.secp256k1 sk;
    public_keys = PublicKey.secp256k1 (public_key sk) ∷ [];
  }
  new_random secret_key sk keypair CryptoFlavor.schnorrkel = record {
    provider = CryptoProvider.schnorrkel (default_peer keypair);
    public_keys = PublicKey.schnorrkel (public keypair) ∷ [];
  }

  hex_of : CryptoProvider crates → Option (Text × Text)
  hex_of (CryptoProvider.secp256k1 sk) =
      some (encode (secret_bytes sk), encode (serialize (public_key sk)))
  hex_of (CryptoProvider.insecure s) = none
  hex_of (CryptoProvider.schnorrkel p) = none

  -- `Crypto::to_hex`
  unfoldable pub to_hex : Crypto crates → Option (Text × Text)
  unfolding hex_of
  to_hex self = hex_of self.provider

  module _ {M : Type 0} (writes : M → List HashWrite) where
    -- `DigestHash::sha256`
    unfoldable pub sha256 : M → Bytes
    sha256 message = finalize (hash [] (writes message))

    -- `self.context.hash256(state)`
    abbrev pub transcript : PeerCrypto crates → M → Transcript
    transcript self message = hash256 self.context (hash [] (writes message))

    -- `peer::Crypto::sign`
    unfoldable pub peer_sign : PeerCrypto crates → ℕ → M → Verifiable M SchnorrSignature
    peer_sign self nonce message = record {
      inner = message;
      signature = sign_transcript nonce self.keypair (transcript self message);
    }

    -- `peer::Crypto::verify_internal`
    unfoldable pub verify_internal :
        PeerCrypto crates → SchnorrPublic → M → SchnorrSignature → Outcome CryptoError (Unit {0})
    verify_internal self public_key' message signature' =
        ensure (verify_transcript public_key' (transcript self message) signature') schnorrkel_error

    -- `peer::Crypto::verify`
    unfoldable pub peer_verify :
        PeerCrypto crates
        → SchnorrPublic
        → Verifiable M SchnorrSignature
        → Outcome CryptoError (Unit {0})
    peer_verify self public_key' signed =
        verify_internal self public_key' signed.inner signed.signature

    -- The call of `schnorrkel::verify_batch`.
    batch_checked :
        List Transcript
        → List SchnorrSignature
        → List SchnorrPublic
        → Outcome CryptoError (Unit {0})
    batch_checked ts ss ps =
        unwrap (schnorrkel_verify_batch ts ss ps) >>= λ b. ensure b schnorrkel_error

    -- `peer::Crypto::verify_batch`
    unfoldable pub peer_verify_batch :
        PeerCrypto crates
        → List SchnorrPublic
        → List (Verifiable M SchnorrSignature)
        → Outcome CryptoError (Unit {0})
    unfolding batch_checked
    peer_verify_batch self public_keys' signed =
        batch_checked (map (λ v. transcript self v.inner) signed) (map (λ v. v.signature) signed)
          public_keys'

    sign_as : CryptoProvider crates → ℕ → M → Verifiable M (Signature crates)
    sign_as (CryptoProvider.insecure s) nonce message = record {
      inner = message;
      signature = Signature.plain s;
    }
    sign_as (CryptoProvider.secp256k1 sk) nonce message = record {
      inner = message;
      signature = Signature.secp256k1 (sign_ecdsa (sha256 message) sk);
    }
    sign_as (CryptoProvider.schnorrkel peer) nonce message =
        let signed = peer_sign peer nonce message in
        record { inner = signed.inner; signature = Signature.schnorrkel signed.signature }

    -- `Crypto::sign`
    unfoldable pub sign : Crypto crates → ℕ → M → Verifiable M (Signature crates)
    unfolding sign_as
    sign self nonce message = sign_as self.provider nonce message

    verify_as :
        CryptoProvider crates
        → PublicKey crates
        → Signature crates
        → M
        → Outcome CryptoError (Unit {0})
    verify_as (CryptoProvider.insecure s) (PublicKey.plain expected) (Signature.plain s') message =
        ensure (text_eq s' expected) unequal
    verify_as (CryptoProvider.secp256k1 sk) (PublicKey.secp256k1 pk) (Signature.secp256k1 s)
          message =
        ensure (verify_ecdsa (sha256 message) s pk) secp_error
    verify_as (CryptoProvider.schnorrkel peer) (PublicKey.schnorrkel pk) (Signature.schnorrkel s)
          message =
        verify_internal peer pk message s
    verify_as _ _ _ message = err unimplemented

    -- `Crypto::verify`
    unfoldable pub verify :
        Crypto crates → ℕ → Verifiable M (Signature crates) → Outcome CryptoError (Unit {0})
    unfolding verify_as
    verify self index signed = do
      public_key' ← ok_or (get_elem? self.public_keys index) no_identifier
      verify_as self.provider public_key' signed.signature signed.inner

    -- The pattern of a Schnorrkel key with a Schnorrkel signature.
    both_schnorrkel :
        PublicKey crates → Signature crates → Outcome CryptoError (SchnorrPublic × SchnorrSignature)
    both_schnorrkel (PublicKey.schnorrkel pk) (Signature.schnorrkel s) = ok (pk, s)
    both_schnorrkel _ _ = err unimplemented

    -- The loop of `Crypto::verify_batch`; a bad index panics.
    collected :
        PeerCrypto crates
        → List (PublicKey crates)
        → List (ℕ × Verifiable M (Signature crates))
        → Outcome CryptoError (List Transcript × List SchnorrSignature × List SchnorrPublic)
    unfolding both_schnorrkel
    collected peer keys [] = ok ([], [], [])
    collected peer keys ((index, verifiable) ∷ rest) = do
      key ← unwrap (get_elem? keys index)
      (pk, s) ← both_schnorrkel key verifiable.signature
      (ts, ss, ps) ← collected peer keys rest
      ok (transcript peer verifiable.inner ∷ ts, s ∷ ss, pk ∷ ps)

    batch_as :
        CryptoProvider crates
        → List (PublicKey crates)
        → List (ℕ × Verifiable M (Signature crates))
        → Outcome CryptoError (Unit {0})
    unfolding collected batch_checked
    batch_as (CryptoProvider.schnorrkel peer) keys pairs = do
      (ts, ss, ps) ← collected peer keys pairs
      batch_checked ts ss ps
    batch_as _ keys pairs = err unimplemented

    -- `Crypto::verify_batch`
    unfoldable pub verify_batch :
        Crypto crates
        → List ℕ
        → List (Verifiable M (Signature crates))
        → Outcome CryptoError (Unit {0})
    unfolding batch_as
    verify_batch self indexes signed = batch_as self.provider self.public_keys (zip indexes signed)
