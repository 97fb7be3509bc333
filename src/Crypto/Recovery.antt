-- ===== src/Crypto/Recovery.antt =====
-- crates/common/src/crypto/recovery.rs: public keys recovered from signatures, and addresses.
use mathlib.Core.Path.{subst}
use aos_operator.Shared.{
  ℕ, ◌-◌, ◌<◌, ◌≡◌, ◌≢◌, ◌↔◌, inl, inr, Option-cases, get_elem?-none_iff, refl, Bool, true, false,
  Option, none, some, [], ◌∷◌, ◌++◌, Outcome, ok, err, panic, ◌>>=◌, ok_or, unwrap, leb,
  if◌then◌else◌, length, take, drop, get_elem?, take-append_length, get_elem?-append_length, arith,
}
use aos_operator.Shared.Text.{Text, codes}
use aos_operator.Crypto.Digest.{Bytes}

-- What is used of `secp256k1`, `sha3` and `hex`; `none` is an error.
pub record RecoveryCrates : Type 1 where
  pub SecretKey : Type 0
  pub PublicKey : Type 0
  pub RecoverableSignature : Type 0
  pub Signature : Type 0
  pub RecoveryId : Type 0
  pub keccak256 : Bytes → Bytes
  pub encode : Bytes → Text
  pub from_hex : Text → Option Bytes
  pub from_i32 : ℕ → Option RecoveryId
  -- `RecoverableSignature::from_compact`, `Signature::from_compact`
  pub recoverable : Bytes → RecoveryId → Option RecoverableSignature
  pub from_compact : Bytes → Option Signature
  pub sign_ecdsa_recoverable : Bytes → SecretKey → RecoverableSignature
  pub recover_ecdsa : Bytes → RecoverableSignature → Option PublicKey
  pub verify_ecdsa : Bytes → Signature → PublicKey → Bool
  pub public_key : SecretKey → PublicKey
  -- `serialize_compact`: 64 bytes, and the recovery id as a number
  pub serialize_compact : RecoverableSignature → Bytes × ℕ
  -- What a key signed recovers the key, and is read back as a signature of that key.
  pub recover-sign :
      (digest : Bytes) (k : SecretKey)
      → recover_ecdsa digest (sign_ecdsa_recoverable digest k) ≡ some (public_key k)
  pub length-serialize_compact : (s : RecoverableSignature) → length (serialize_compact s).0 ≡ 64
  pub recoverable-serialize :
      (s : RecoverableSignature)
      → (id : RecoveryId) × (from_i32 (serialize_compact s).1 ≡ some id)
        × (recoverable (serialize_compact s).0 id ≡ some s)
  pub from_compact-serialize :
      (digest : Bytes) (k : SecretKey)
      → let s = sign_ecdsa_recoverable digest k in
        (signature : Signature) × (from_compact (serialize_compact s).0 ≡ some signature)
        × (verify_ecdsa digest signature (public_key k) ≡ true)

pub data RecoveryError : Type 0 where
  hex_error secp_error : RecoveryError

ok_or-ne-panic :
    {E A B : Type 0} (o : Option A) (e : E) (f : A → Outcome E B)
    → ((a : A) → f a ≢ panic)
    → (ok_or o e >>= f) ≢ panic
ok_or-ne-panic none e f h = λ p. cc
ok_or-ne-panic (some a) e f h = h a

if-ne-panic :
    (b : Bool)
    → let end : Outcome RecoveryError (Unit {0}) = if b then ok tt else err secp_error in
      end ≢ panic
if-ne-panic true = λ p. cc
if-ne-panic false = λ p. cc

module _ (crates : RecoveryCrates) where
  open crates use {
    SecretKey, PublicKey, RecoverableSignature, keccak256, encode, from_hex, from_i32, recoverable,
    from_compact, sign_ecdsa_recoverable, recover_ecdsa, verify_ecdsa, public_key,
    serialize_compact,
  }

  -- `&v[n..]` panics past the end.
  abbrev slice_from : {E : Type 0} → ℕ → Bytes → Outcome E Bytes
  slice_from n v = if leb n (length v) then ok (drop n v) else panic

  -- `hash_bytes.len() - 20`, in an index: below 0 is out of range in every build
  last_20 : {E : Type 0} → Bytes → Outcome E Bytes
  last_20 v = if leb 20 (length v) then ok (drop (length v - 20) v) else panic

  unfoldable pub public_key_to_address : {E : Type 0} → Text → Outcome E Text
  unfolding last_20
  public_key_to_address public_key_hex = do
    public_key_bytes ← unwrap (from_hex public_key_hex)
    body ← slice_from 1 public_key_bytes
    address_bytes ← last_20 (keccak256 body)
    ok (codes "0x" ++ encode address_bytes)

  -- `Message::from_digest_slice`
  unfoldable pub from_digest_slice : Bytes → Option Bytes
  from_digest_slice message =
      if leb 32 (length message)
      then (if leb (length message) 32 then some message else none)
      else none

  unfoldable pub sign_message_recover_pk :
      {E : Type 0} → SecretKey → Bytes → Outcome E RecoverableSignature
  sign_message_recover_pk secret_key message = do
    digest ← unwrap (from_digest_slice message)
    ok (sign_ecdsa_recoverable digest secret_key)

  unfoldable pub recover_public_key :
      {E : Type 0} → RecoverableSignature → Bytes → Outcome E (Option PublicKey)
  recover_public_key signature message = do
    digest ← unwrap (from_digest_slice message)
    ok (recover_ecdsa digest signature)

  -- The rest of `verify_secp256k1_recovery_pk`, once the signature has its byte 64.
  verified : Bytes → Bytes → ℕ → Outcome RecoveryError (Unit {0})
  verified signature_bytes message_bytes last = do
    recovery_id ← ok_or (from_i32 last) secp_error
    let signatures_no_id = take 64 signature_bytes
    recoverable_signature ← ok_or (recoverable signatures_no_id recovery_id) secp_error
    message ← ok_or (from_digest_slice message_bytes) secp_error
    public_key' ← ok_or (recover_ecdsa message recoverable_signature) secp_error
    signature ← ok_or (from_compact signatures_no_id) secp_error
    if verify_ecdsa message signature public_key' then ok tt else err secp_error

  unfoldable pub verify_secp256k1_recovery_pk : Text → Text → Outcome RecoveryError (Unit {0})
  unfolding verified
  verify_secp256k1_recovery_pk signature_hex message_hex = do
    signature_bytes ← ok_or (from_hex signature_hex) hex_error
    message_bytes ← ok_or (from_hex message_hex) hex_error
    last ← unwrap (get_elem? signature_bytes 64)
    verified signature_bytes message_bytes last

  unfoldable pub verify_secp256k1_recovery_pk_bytes :
      {E : Type 0} → Bytes → Bytes → Outcome E (Option PublicKey)
  verify_secp256k1_recovery_pk_bytes signature_bytes message_bytes = do
    last ← unwrap (get_elem? signature_bytes 64)
    recovery_id ← unwrap (from_i32 last)
    recoverable_signature ← unwrap (recoverable (take 64 signature_bytes) recovery_id)
    message ← unwrap (from_digest_slice message_bytes)
    ok (recover_ecdsa message recoverable_signature)

  -- The 65 bytes that the test of the file makes of a signature.
  abbrev with_recovery_id : RecoverableSignature → Bytes
  with_recovery_id s = (serialize_compact s).0 ++ (serialize_compact s).1 ∷ []

  digest_lem : (message : Bytes) → length message ≡ 32 → from_digest_slice message ≡ some message
  unfolding from_digest_slice
  digest_lem message h = rw h refl

  recovered :
      (k : SecretKey) (message : Bytes) (signature_hex message_hex : Text)
      → let s = sign_ecdsa_recoverable message k in
        length message ≡ 32
        → from_hex signature_hex ≡ some (with_recovery_id s)
        → from_hex message_hex ≡ some message
        → (verify_secp256k1_recovery_pk signature_hex message_hex ≡ ok tt)
          × (verify_secp256k1_recovery_pk_bytes {E = RecoveryError} (with_recovery_id s) message
              ≡ ok (some (public_key k)))
          × (recover_public_key {E = RecoveryError} s message ≡ ok (some (public_key k)))
  unfolding verify_secp256k1_recovery_pk verified verify_secp256k1_recovery_pk_bytes
      recover_public_key
  recovered k message signature_hex message_hex h hs hm =
      let s = sign_ecdsa_recoverable message k in
      let (body, number) = serialize_compact s in
      let size = crates.length-serialize_compact s in
      let (id, read_id, read) = crates.recoverable-serialize s in
      let (signature, compact, verifies) = crates.from_compact-serialize message k in
      let byte = get_elem?-append_length body number [] 64 size in
      let front = take-append_length 64 body (number ∷ []) size in
      let recovers = crates.recover-sign message k in
      (
        rw (hs, hm, byte, read_id, front, read, digest_lem message h, recovers, compact, verifies)
            refl,
        rw (byte, read_id, front, read, digest_lem message h, recovers) refl,
        rw (digest_lem message h, recovers) refl,
      )

  -- What `sign_message_recover_pk` made of a message of 32 bytes, written as 65 bytes, is verified
  -- in hexadecimal, and recovers the signer's public key, from its bytes and as it is.
  pub recover-sign_message :
      (k : SecretKey) (message : Bytes) (signature_hex message_hex : Text)
      (s : RecoverableSignature)
      → length message ≡ 32
      → sign_message_recover_pk {E = RecoveryError} k message ≡ ok s
      → from_hex signature_hex ≡ some (with_recovery_id s)
      → from_hex message_hex ≡ some message
      → (verify_secp256k1_recovery_pk signature_hex message_hex ≡ ok tt)
        × (verify_secp256k1_recovery_pk_bytes {E = RecoveryError} (with_recovery_id s) message
            ≡ ok (some (public_key k)))
        × (recover_public_key {E = RecoveryError} s message ≡ ok (some (public_key k)))
  unfolding sign_message_recover_pk
  recover-sign_message k message signature_hex message_hex s h made hs hm =
      let made' = rw (digest_lem message h) at made in
      let same : sign_ecdsa_recoverable message k ≡ s = cc in
      subst
        (λ t.
          from_hex signature_hex ≡ some (with_recovery_id t)
          → (verify_secp256k1_recovery_pk signature_hex message_hex ≡ ok tt)
            × (verify_secp256k1_recovery_pk_bytes {E = RecoveryError} (with_recovery_id t) message
                ≡ ok (some (public_key k)))
            × (recover_public_key {E = RecoveryError} t message ≡ ok (some (public_key k))))
        same (λ hs'. recovered k message signature_hex message_hex h hs' hm) hs

  verified_no_panic :
      (signature_bytes message_bytes : Bytes) (last : ℕ)
      → verified signature_bytes message_bytes last ≢ panic
  unfolding verified
  verified_no_panic signature_bytes message_bytes last =
      ok_or-ne-panic (from_i32 last) secp_error _ λ id.
        ok_or-ne-panic (recoverable (take 64 signature_bytes) id) secp_error _ λ s.
          ok_or-ne-panic (from_digest_slice message_bytes) secp_error _ λ message.
            ok_or-ne-panic (recover_ecdsa message s) secp_error _ λ public_key'.
              ok_or-ne-panic (from_compact (take 64 signature_bytes)) secp_error _
                λ signature. if-ne-panic (verify_ecdsa message signature public_key')

  -- Once both texts are hexadecimal, `verify_secp256k1_recovery_pk` panics exactly if the signature
  -- has less than 65 bytes, although it returns a `Result`.
  pub verify_secp256k1_recovery_pk_panics :
      (signature_hex message_hex : Text) (signature_bytes message_bytes : Bytes)
      → from_hex signature_hex ≡ some signature_bytes
      → from_hex message_hex ≡ some message_bytes
      → (verify_secp256k1_recovery_pk signature_hex message_hex ≡ panic)
        ↔ (length signature_bytes < 65)
  unfolding verify_secp256k1_recovery_pk
  verify_secp256k1_recovery_pk_panics signature_hex message_hex signature_bytes message_bytes hs
        hm =
      let size = get_elem?-none_iff signature_bytes 64 in
      (
        λ h. elim (Option-cases (get_elem? signature_bytes 64)) [
          | inl out ↦ omega (arith, size.0 out)
          | inr (last, there) ↦
              let h' = rw (hs, hm, there) at h in
              absurd (verified_no_panic signature_bytes message_bytes last h')
        ],
        λ h. rw (hs, hm, size.1 (omega arith)) refl,
      )
