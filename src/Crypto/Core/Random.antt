-- ===== src/Crypto/Core/Random.antt =====
-- Keys that `new_random` draws.
use aos_operator.Shared.{ℕ, ◌/◌, ◌≡◌, refl, false, List, [], ◌∷◌, ok, err, arith, ◌==◌}
use aos_operator.Shared.Text.{text_eq}
use aos_operator.Shared.Hex.{hex_digit}
use aos_operator.Crypto.Digest.{Bytes, HashWrite}
use aos_operator.Crypto.Core.{
  CryptoCrates, CryptoProvider, PublicKey, CryptoFlavor, Crypto, unequal, hex_bytes, debug_bytes,
  new_random, sign, sign_as, verify, verify_as,
}
use aos_operator.Crypto.Core.Signing.{secp_verifies, schnorrkel_verifies}

no_bracket : (d : ℕ) → (91 == hex_digit d) ≡ false
unfolding hex_digit
no_bracket d = ground arith

debug-ne-hex : (bytes : Bytes) → text_eq (debug_bytes bytes) (hex_bytes bytes) ≡ false
unfolding text_eq debug_bytes hex_bytes
debug-ne-hex [] = refl
debug-ne-hex (b ∷ bs) = rw (no_bracket (b / 16)) refl

module _ (crates : CryptoCrates) {M : Type 0} (writes : M → List HashWrite) where
  plain_refused :
      (bytes : Bytes) (nonce : ℕ) (message : M)
      → let self : Crypto crates = record {
        provider = CryptoProvider.insecure (debug_bytes bytes);
        public_keys = PublicKey.plain (hex_bytes bytes) ∷ [];
      } in
        verify crates writes self 0 (sign crates writes self nonce message) ≡ err unequal
  unfolding verify sign sign_as verify_as
  plain_refused bytes nonce message = rw (debug-ne-hex bytes) refl

  -- A `Crypto` of random secp256k1 or Schnorrkel keys accepts what it signs itself. One of the plain
  -- kind refuses every signature of its own, whatever bytes were drawn: it signs with the bytes as
  -- `{:?}` prints them, and expects them in hexadecimal.
  pub new_random-verify :
      (bytes : Bytes) (sk : crates.SecretKey) (keypair : crates.Keypair) (nonce : ℕ) (message : M)
      → let own = λ (flavor : CryptoFlavor).
        let self = new_random crates bytes sk keypair flavor in
        verify crates writes self 0 (sign crates writes self nonce message) in
        (own CryptoFlavor.secp256k1 ≡ ok tt)
        × (own CryptoFlavor.schnorrkel ≡ ok tt)
        × (own CryptoFlavor.plain ≡ err unequal)
  unfolding new_random
  new_random-verify bytes sk keypair nonce message = (
    secp_verifies crates writes nonce message (sk ∷ []) 0 sk sk refl,
    schnorrkel_verifies crates writes nonce message (keypair ∷ []) 0 keypair keypair refl,
    plain_refused bytes nonce message,
  )
