-- ===== src/Signature/Tests.antt =====
-- The theorems on signatures at concrete values.
use aos_operator.Shared.{
  ℕ, ◌<◌, ◌≤◌, ◌≡◌, refl, ◌⊎◌, Bool, true, false, not, Option, none, some, List, [], ◌∷◌, ◌++◌, ok,
  ◌>>=◌, ltb, ◌==◌, All-replicate, replicate, length-replicate, if◌then◌else◌, length, arith,
  lt→ltb,
}
use aos_operator.Shared.Machine.{checked, wrapping}
use aos_operator.Shared.Text.{Text}
use aos_operator.Signature.{
  secp256k1n_half, Signature, Rlp, encode_with_eip155_chain_id, decode_with_eip155_chain_id,
  to_bytes, from_hex_str, recover_signer, recover_signer_unchecked,
}
use aos_operator.Shared.Hex.{IsByte}
use aos_operator.Crypto.Recovery.{RecoveryCrates}
use aos_operator.Signature.Signing.{
  SignerCrates, key_address, recover_address, sign_with, recover-sign_with,
}
use aos_operator.Signature.ChainId.{decode-encode_with_eip155_chain_id}
use aos_operator.Signature.Bytes.{from_hex_str-to_bytes}
use aos_operator.Signature.Malleability.{negated, recover_signer-negated}

abbrev sample : Signature
sample = record { r = 65537; s = 300; odd_y_parity = true }

-- An integer is written as one element.
unfoldable read_one : ℕ → List ℕ → Option (ℕ × List ℕ)
read_one m [] = none
read_one m (n ∷ rest) = if ltb n m then some (n, rest) else none

read_one_lem : (m n : ℕ) (rest : List ℕ) → n < m → read_one m (n ∷ [] ++ rest) ≡ some (n, rest)
unfolding read_one
read_one_lem m n rest h = rw (lt→ltb n m h) refl

abbrev toy_rlp : Rlp
toy_rlp = record { encode = λ n. n ∷ []; decode = read_one; decode-encode = read_one_lem }

abbrev hex_decode : Text → Option (List ℕ)
hex_decode text = some (to_bytes sample)

abbrev recover : List ℕ → List ℕ → Option ℕ
recover bytes hash = some (length bytes)

decode-encode_with_eip155_chain_id_example :
    (encode_with_eip155_chain_id toy_rlp wrapping sample (some 11155111) >>= λ bytes.
    decode_with_eip155_chain_id toy_rlp (bytes ++ 7 ∷ []))
    ≡ ok ((sample, some 11155111), 7 ∷ [])
decode-encode_with_eip155_chain_id_example =
    decode-encode_with_eip155_chain_id toy_rlp wrapping sample (some 11155111) (7 ∷ [])
      (omega arith) (omega arith) (omega arith)

from_hex_str-to_bytes_example :
    (length (to_bytes sample) ≡ 65) × (from_hex_str {E = ℕ} checked hex_decode [] ≡ ok sample)
from_hex_str-to_bytes_example =
    from_hex_str-to_bytes {E = ℕ} checked hex_decode [] sample (omega arith) (omega arith) refl

recover_signer-negated_example :
    ((sample.s ≤ secp256k1n_half)
      × (recover_signer recover sample [] ≡ recover_signer_unchecked recover sample [])
      × (recover_signer recover (negated sample) [] ≡ none))
    ⊎ ((secp256k1n_half < sample.s)
        × (recover_signer recover sample [] ≡ none)
        × (recover_signer recover (negated sample) []
            ≡ recover_signer_unchecked recover (negated sample) []))
recover_signer-negated_example = recover_signer-negated recover [] sample (omega arith)

-- There are two keys, and a signature is its key, 64 times.
abbrev bit : Bool → ℕ
bit b = if b then 1 else 0

abbrev key_of : List ℕ → Option Bool
key_of [] = none
key_of (n ∷ ns) = some (n == 1)

recoverable_bit : (b : Bool) → key_of (replicate 64 (bit b)) ≡ some b
recoverable_bit true = refl
recoverable_bit false = refl

bit-IsByte : (b : Bool) → IsByte (bit b)
bit-IsByte true = omega arith
bit-IsByte false = omega arith

same_key : (b : Bool) → (if b then b else not b) ≡ true
same_key true = refl
same_key false = refl

abbrev two_keys : RecoveryCrates
two_keys = record {
  SecretKey = Bool;
  PublicKey = Bool;
  RecoverableSignature = Bool;
  Signature = Bool;
  RecoveryId = ℕ;
  keccak256 = λ b. b;
  encode = λ b. b;
  from_hex = λ t. some t;
  from_i32 = λ n. some n;
  recoverable = λ b id. key_of b;
  from_compact = key_of;
  sign_ecdsa_recoverable = λ m k. k;
  recover_ecdsa = λ m s. some s;
  verify_ecdsa = λ m s k. if s then k else not k;
  public_key = λ k. k;
  serialize_compact = λ b. (replicate 64 (bit b), 0);
  recover-sign = λ m k. refl;
  length-serialize_compact = λ b. length-replicate 64 (bit b);
  recoverable-serialize = λ b. (0, refl, recoverable_bit b);
  from_compact-serialize = λ m k. (k, recoverable_bit k, same_key k);
}

abbrev two_signers : SignerCrates
two_signers = record {
  secp = two_keys;
  from_slice = key_of;
  serialize_uncompressed = λ k. replicate 65 (bit k);
  compact-IsByte = λ b. All-replicate IsByte 64 (bit b) (bit-IsByte b);
}

recover-sign_with_example :
    (sig : Signature) × (sign_with two_signers (1 ∷ 2 ∷ []) (9 ∷ []) ≡ some sig)
    × (recover_signer_unchecked (recover_address two_signers) sig (9 ∷ [])
        ≡ some (key_address two_signers true))
recover-sign_with_example =
    recover-sign_with two_signers (1 ∷ 2 ∷ []) (9 ∷ []) true refl (omega arith)
