-- ===== src/Signature/Signing.antt =====
-- crates/alloy-wrapper/src/util.rs: signatures made with a secret key, and their signer.
use mathlib.Core.List.{append_assoc, append-nil}
use aos_operator.Shared.{
  ℕ, zero, suc, ◌<◌, ◌≡◌, refl, sym, ap, ◌∙◌, not, ◌==◌, Option, none, some, List, [], ◌∷◌, ◌++◌,
  length, take, drop, get_elem?, get_elem?-append_length, take-append_length, All, All-take,
  length-take, length-drop, arith,
}
use aos_operator.Shared.Hex.{be_value, IsByte, take-append-drop}
use aos_operator.Shared.Text.{Text, codes}
use aos_operator.Crypto.Recovery.{RecoveryCrates}
use aos_operator.Signature.{Signature, as_word, to_be_bytes, recover_signer_unchecked}
use aos_operator.Signature.BigEndian.{to_be_bytes-be_value}

abbrev pub Bytes : Type 0
Bytes = List ℕ

-- The `?` operator on an error that is not told apart.
abbrev and_then : {A B : Type 0} → Option A → (A → Option B) → Option B
and_then none f = none
and_then (some a) f = f a

-- What is used of `secp256k1` and `alloy` beside `RecoveryCrates`.
pub record SignerCrates : Type 1 where
  pub secp : RecoveryCrates
  pub from_slice : Bytes → Option secp.SecretKey
  pub serialize_uncompressed : secp.PublicKey → Bytes
  pub compact-IsByte : (s : secp.RecoverableSignature) → All IsByte (secp.serialize_compact s).0

module _ (crates : SignerCrates) where
  open crates use {from_slice, serialize_uncompressed}
  open crates.secp use {
    SecretKey, PublicKey, keccak256, from_i32, recoverable, recover_ecdsa, sign_ecdsa_recoverable,
    serialize_compact, public_key,
  }

  -- `public_key_to_address`: the hash of the key without its first byte, from byte 12 on
  unfoldable pub key_address : PublicKey → Bytes
  key_address public = drop 12 (keccak256 (drop 1 (serialize_uncompressed public)))

  -- `util::recover_signer_unchecked` of 65 bytes
  unfoldable pub recover_address : Bytes → Bytes → Option Bytes
  recover_address sig msg = and_then (get_elem? sig 64) λ last. and_then (from_i32 last) λ id.
      and_then (recoverable (take 64 sig) id)
        λ signature. and_then (recover_ecdsa msg signature) λ public. some (key_address public)

  signature_of : Bytes × ℕ → Signature
  signature_of (compact, rec_id) = record {
    r = be_value (take 32 compact);
    s = be_value (take 32 (drop 32 compact));
    odd_y_parity = not (rec_id == 0);
  }

  -- `util::sign_message`
  unfoldable pub sign_with : Bytes → Bytes → Option Signature
  unfolding signature_of
  sign_with secret message =
      and_then (from_slice secret)
        λ sec. some (signature_of (serialize_compact (sign_ecdsa_recoverable message sec)))

  All-drop : (n : ℕ) (xs : Bytes) → All IsByte xs → All IsByte (drop n xs)
  All-drop zero xs h = h
  All-drop (suc n) [] h = tt
  All-drop (suc n) (x ∷ xs) h = All-drop n xs h.1

  parity_kept : (id : ℕ) → id < 2 → as_word (not (id == 0)) ≡ id
  unfolding as_word
  parity_kept zero h = refl
  parity_kept (suc zero) h = refl
  parity_kept (suc (suc n)) h = absurd (omega arith)

  -- The bytes that `recover_signer_unchecked` makes of such a signature.
  compact_bytes :
      (compact : Bytes) (id : ℕ)
      → length compact ≡ 64
      → All IsByte compact
      → id < 2
      → let sig = signature_of (compact, id) in
        to_be_bytes 32 sig.r ++ (to_be_bytes 32 sig.s ++ as_word sig.odd_y_parity ∷ [])
        ≡ compact ++ id ∷ []
  unfolding signature_of
  compact_bytes compact id size bytes small =
      let front = take 32 compact in
      let back = drop 32 compact in
      let front_size : length front ≡ 32 = omega (arith, length-take 32 compact) in
      let back_size : length back ≡ 32 = omega (arith, length-drop 32 compact) in
      let whole : take 32 back ≡ back =
        ap (take 32) (sym (append-nil back)) ∙ take-append_length 32 back [] back_size in
      rw
        (
          whole,
          to_be_bytes-be_value 32 front front_size (All-take IsByte 32 compact bytes),
          to_be_bytes-be_value 32 back back_size (All-drop 32 compact bytes),
          parity_kept id small,
        )
        (sym (append_assoc front back (id ∷ []))
          ∙ ap (λ t. t ++ id ∷ []) (take-append-drop 32 compact))

  -- A message that `sign_message` signs with a secret key recovers the address of that key, if the
  -- recovery id is 0 or 1, of which alone a bit is kept.
  pub recover-sign_with :
      (secret message : Bytes) (sec : SecretKey)
      → from_slice secret ≡ some sec
      → (serialize_compact (sign_ecdsa_recoverable message sec)).1 < 2
      → (sig : Signature) × (sign_with secret message ≡ some sig)
        × (recover_signer_unchecked recover_address sig message
            ≡ some (key_address (public_key sec)))
  unfolding sign_with recover_address recover_signer_unchecked
  recover-sign_with secret message sec read small =
      let made = sign_ecdsa_recoverable message sec in
      let (compact, number) = serialize_compact made in
      let size = crates.secp.length-serialize_compact made in
      let (id, read_id, back) = crates.secp.recoverable-serialize made in
      (
        signature_of (compact, number),
        rw read refl,
        rw
            (
              compact_bytes compact number size (crates.compact-IsByte made) small,
              get_elem?-append_length compact number [] 64 size,
              read_id,
              take-append_length 64 compact (number ∷ []) size,
              back,
              crates.secp.recover-sign message sec,
            )
            refl,
      )

  -- `generate_eth_account`, given the secret key that is drawn: its bytes, the public key in
  -- hexadecimal, and the address with `0x`
  unfoldable pub generate_eth_account :
      (SecretKey → Bytes) → (PublicKey → Bytes) → SecretKey → Bytes × Text × Text
  generate_eth_account secret_bytes serialize secret = (
    secret_bytes secret,
    crates.secp.encode (serialize (public_key secret)),
    codes "0x" ++ crates.secp.encode (key_address (public_key secret)),
  )
