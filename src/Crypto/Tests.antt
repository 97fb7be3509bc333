-- ===== src/Crypto/Tests.antt =====
-- The theorems on digests, keys and signatures at concrete values.
use aos_operator.Shared.{
  ℕ, ◌+◌, ◌≡◌, ◌↔◌, refl, some, List, [], ◌∷◌, ◌++◌, Outcome, ok, err, replicate, All, arith,
}
use aos_operator.Shared.Text.{Text, codes, text_eq}
use aos_operator.Shared.Decimal.{to_string}
use aos_operator.Crypto.Digest.{
  Bytes, negsuc, HashWrite, raw, unsigned, signed, four, eight, hash, bytes_of, hash-injective,
}
use aos_operator.Crypto.Core.{
  Verifiable, Signature, CryptoProvider, PublicKey, CryptoFlavor, Crypto, CryptoError, unequal,
  new_hardcoded, new_random, sign, verify, verify_batch, default_peer, seed,
}
use aos_operator.Crypto.Core.Signing.{verify-sign, secp_member}
use aos_operator.Crypto.Core.Batch.{verify_batch_iff, verify_batch_unmatched}
use aos_operator.Crypto.Core.Random.{new_random-verify}
use aos_operator.Crypto.Recovery.{
  RecoveryError, sign_message_recover_pk, from_digest_slice, verify_secp256k1_recovery_pk,
  verify_secp256k1_recovery_pk_bytes, recover_public_key, recover-sign_message,
}
use aos_operator.Crypto.Instance.{toy_crypto, toy_recovery}

abbrev calls : List HashWrite
calls = unsigned eight 5 ∷ raw (codes "hello") ∷ signed four (negsuc 2) ∷ []

hash-injective_example : calls ≡ calls
hash-injective_example =
    hash-injective calls calls (refl, (refl, (refl, tt))) (omega arith) (omega arith) refl

abbrev writes : Text → List HashWrite
writes t = raw t ∷ raw (0xff ∷ []) ∷ []

abbrev replica_key : ℕ → ℕ
replica_key i = 829 + i

abbrev member : ℕ → Crypto toy_crypto
member k = secp_member toy_crypto (replica_key 0 ∷ replica_key 1 ∷ []) k

member_1 : new_hardcoded toy_crypto 2 1 CryptoFlavor.secp256k1 ≡ ok (member (replica_key 1))
unfolding new_hardcoded seed to_string
member_1 = refl

member_0 : new_hardcoded toy_crypto 2 0 CryptoFlavor.secp256k1 ≡ ok (member (replica_key 0))
unfolding new_hardcoded seed to_string
member_0 = refl

verify-sign_example :
    verify toy_crypto writes
      (member (replica_key 0))
      1
      (sign toy_crypto writes (member (replica_key 1)) 7 (codes "hello"))
    ≡ ok tt
verify-sign_example =
    verify-sign toy_crypto writes 7 (codes "hello") 2 1 0 CryptoFlavor.secp256k1
      (member (replica_key 1)) (member (replica_key 0)) (omega arith) member_1 member_0

abbrev keys : List (PublicKey toy_crypto)
keys = PublicKey.schnorrkel 5 ∷ PublicKey.schnorrkel 6 ∷ []

abbrev signed_by_key : ℕ → Verifiable Text (Signature toy_crypto)
signed_by_key k = record {
  inner = codes "hi";
  signature = Signature.schnorrkel (k, codes "default" ++ (codes "hi" ++ 0xff ∷ []));
}

abbrev unsigned_message : Verifiable Text (Signature toy_crypto)
unsigned_message = record { inner = codes "forged"; signature = Signature.plain [] }

abbrev verifier : Crypto toy_crypto
verifier = record {
  provider = CryptoProvider.schnorrkel (default_peer toy_crypto 5);
  public_keys = keys;
}

batch_accepted :
    verify_batch toy_crypto writes verifier (0 ∷ 1 ∷ []) (signed_by_key 5 ∷ signed_by_key 6 ∷ [])
    ≡ ok tt
unfolding verify_batch hash text_eq bytes_of
batch_accepted = refl

verify_batch_iff_example :
    (verify_batch toy_crypto writes verifier (0 ∷ 1 ∷ []) (signed_by_key 5 ∷ signed_by_key 6 ∷ [])
      ≡ ok tt)
    ↔ All
        (λ (p : ℕ × Verifiable Text (Signature toy_crypto)).
          verify toy_crypto writes verifier p.0 p.1 ≡ ok tt)
        ((0, signed_by_key 5) ∷ (1, signed_by_key 6) ∷ [])
verify_batch_iff_example =
    verify_batch_iff toy_crypto writes (default_peer toy_crypto 5) keys (0 ∷ 1 ∷ [])
      (signed_by_key 5 ∷ signed_by_key 6 ∷ [])

verify_batch_unmatched_example :
    (verify_batch toy_crypto writes verifier
        (0 ∷ 1 ∷ [])
        (signed_by_key 5 ∷ signed_by_key 6 ∷ unsigned_message ∷ [])
      ≡ ok tt)
    × (verify_batch toy_crypto writes verifier (0 ∷ 1 ∷ []) [] ≡ ok tt)
verify_batch_unmatched_example =
    verify_batch_unmatched toy_crypto writes (default_peer toy_crypto 5) keys (0 ∷ 1 ∷ [])
      (signed_by_key 5 ∷ signed_by_key 6 ∷ []) (unsigned_message ∷ []) refl batch_accepted

abbrev own : CryptoFlavor → Outcome CryptoError (Unit {0})
own flavor =
    let self = new_random toy_crypto (7 ∷ 200 ∷ []) 8 9 flavor in
    verify toy_crypto writes self 0 (sign toy_crypto writes self 3 (codes "hi"))

new_random-verify_example :
    (own CryptoFlavor.secp256k1 ≡ ok tt)
    × (own CryptoFlavor.schnorrkel ≡ ok tt)
    × (own CryptoFlavor.plain ≡ err unequal)
new_random-verify_example = new_random-verify toy_crypto writes (7 ∷ 200 ∷ []) 8 9 3 (codes "hi")

abbrev digest : Bytes
digest = replicate 32 4

abbrev signature_bytes : Bytes
signature_bytes = replicate 64 3 ++ 0 ∷ []

recover-sign_message_example :
    (verify_secp256k1_recovery_pk toy_recovery signature_bytes digest ≡ ok tt)
    × (verify_secp256k1_recovery_pk_bytes toy_recovery {E = RecoveryError} signature_bytes digest
        ≡ ok (some 3))
    × (recover_public_key toy_recovery {E = RecoveryError} 3 digest ≡ ok (some 3))
recover-sign_message_example =
    recover-sign_message toy_recovery 3 digest signature_bytes digest 3 refl signed_digest refl refl
  where
    signed_digest : sign_message_recover_pk toy_recovery {E = RecoveryError} 3 digest ≡ ok 3
    signed_digest = unfold sign_message_recover_pk from_digest_slice in refl
