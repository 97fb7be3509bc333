-- ===== src/Crypto/Instance.antt =====
-- Concrete instances of the crates that crates/common/src/crypto uses: keys are numbers, and a
-- signature is the key and what was signed.
use aos_operator.Shared.{
  ℕ, ◌+◌, ◌≡◌, refl, Bool, true, ◌&&◌, Option, none, some, List, [], ◌∷◌, ◌++◌, length, replicate,
  if◌then◌else◌, ◌==◌, ==_refl, length-replicate,
}
use aos_operator.Shared.Text.{text_eq, text_eq_refl}
use aos_operator.Crypto.Digest.{Bytes}
use aos_operator.Crypto.Core.{CryptoCrates, all_hold}
use aos_operator.Crypto.Recovery.{RecoveryCrates}

abbrev pub sum_of : Bytes → ℕ
sum_of [] = 0
sum_of (b ∷ bs) = b + sum_of bs

abbrev pub signed_by : Bytes → ℕ × Bytes → ℕ → Bool
signed_by m (key, signed) k = (key == k) && text_eq signed m

pub signed_by_lem : (m : Bytes) (k : ℕ) → signed_by m (k, m) k ≡ true
signed_by_lem m k = rw (==_refl k, text_eq_refl m) refl

abbrev pub batch_all : List Bytes → List (ℕ × Bytes) → List ℕ → Option Bool
batch_all ts ss ps =
    if length ss == length ts
    then (if length ps == length ts
        then some (all_hold (λ p t s. signed_by t s p) ts ss ps)
        else none)
    else none

pub batch_all_lem :
    (ts : List Bytes) (ss : List (ℕ × Bytes)) (ps : List ℕ)
    → length ss ≡ length ts
    → length ps ≡ length ts
    → batch_all ts ss ps ≡ some (all_hold (λ p t s. signed_by t s p) ts ss ps)
batch_all_lem ts ss ps h k = rw (h, k, ==_refl (length ts)) refl

abbrev pub toy_crypto : CryptoCrates
toy_crypto = record {
  SecretKey = ℕ;
  SecpPublic = ℕ;
  SecpSignature = ℕ × Bytes;
  Keypair = ℕ;
  SchnorrPublic = ℕ;
  SchnorrSignature = ℕ × Bytes;
  Context = Bytes;
  Transcript = Bytes;
  finalize = λ b. b;
  encode = λ b. b;
  from_slice = λ b. some (sum_of b);
  public_key = λ k. k;
  secret_bytes = λ k. k ∷ [];
  serialize = λ k. k ∷ [];
  sign_ecdsa = λ m k. (k, m);
  verify_ecdsa = signed_by;
  mini_secret_key = λ b. some (sum_of b);
  public = λ k. k;
  signing_context = λ b. b;
  hash256 = λ c m. c ++ m;
  sign_transcript = λ n k t. (k, t);
  verify_transcript = λ p t s. signed_by t s p;
  schnorrkel_verify_batch = batch_all;
  verify-sign_ecdsa = λ m k. signed_by_lem m k;
  verify-sign_transcript = λ n k t. signed_by_lem t k;
  batch_lem = batch_all_lem;
}

-- The signature of a key is the key, 64 times.
abbrev pub first : Bytes → Option ℕ
first [] = none
first (b ∷ bs) = some b

abbrev pub toy_recovery : RecoveryCrates
toy_recovery = record {
  SecretKey = ℕ;
  PublicKey = ℕ;
  RecoverableSignature = ℕ;
  Signature = ℕ;
  RecoveryId = ℕ;
  keccak256 = λ b. b;
  encode = λ b. b;
  from_hex = λ t. some t;
  from_i32 = λ n. some n;
  recoverable = λ b id. first b;
  from_compact = first;
  sign_ecdsa_recoverable = λ m k. k;
  recover_ecdsa = λ m s. some s;
  verify_ecdsa = λ m s k. s == k;
  public_key = λ k. k;
  serialize_compact = λ s. (replicate 64 s, 0);
  recover-sign = λ m k. refl;
  length-serialize_compact = λ s. length-replicate 64 s;
  recoverable-serialize = λ s. (0, refl, refl);
  from_compact-serialize = λ m k. (k, refl, ==_refl k);
}
