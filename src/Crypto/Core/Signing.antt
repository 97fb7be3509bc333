-- ===== src/Crypto/Core/Signing.antt =====
-- Signatures of the replicas of one group.
use native.Mathlib.Nat.{zero-add}
use aos_operator.Shared.{
  ℕ, zero, suc, ◌+◌, ◌<◌, ◌≡◌, refl, ap, ◌∙◌, some, List, [], ◌∷◌, map, ok, >>=-eq-ok, unwrap,
  unwrap-eq-ok, get_elem?, arith,
}
use aos_operator.Shared.Text.{Text, text_eq_refl}
use aos_operator.Crypto.Digest.{HashWrite}
use aos_operator.Crypto.Core.{
  CryptoCrates, CryptoProvider, PublicKey, CryptoFlavor, Crypto, collect, range_from, replica,
  default_peer, secp_key, schnorrkel_key, new_hardcoded, sign, sign_as, verify, verify_as,
  peer_sign, verify_internal,
}

pub get_elem?-map :
    {A B : Type 0} (f : A → B) (xs : List A) (i : ℕ) (x : A)
    → get_elem? xs i ≡ some x
    → get_elem? (map f xs) i ≡ some (f x)
get_elem?-map f [] i x h = cc
get_elem?-map f (y ∷ ys) zero x h = let same : y ≡ x = cc in rw same refl
get_elem?-map f (y ∷ ys) (suc i) x h = get_elem?-map f ys i x h

get_elem?-range_from : (k n i : ℕ) → i < n → get_elem? (range_from k n) i ≡ some (k + i)
get_elem?-range_from k zero i h = elim h [ ]
get_elem?-range_from k (suc n) zero h = ap some (omega arith)
get_elem?-range_from k (suc n) (suc i) h =
    get_elem?-range_from (suc k) n i (omega arith) ∙ ap some (omega arith)

module _ (crates : CryptoCrates) where
  -- Member `index` of a group that shares the secret keys `keys`.
  abbrev pub secp_member : List crates.SecretKey → crates.SecretKey → Crypto crates
  secp_member keys k = record {
    provider = CryptoProvider.secp256k1 k;
    public_keys = map (λ x. PublicKey.secp256k1 (crates.public_key x)) keys;
  }

  abbrev pub schnorrkel_member : List crates.Keypair → crates.Keypair → Crypto crates
  schnorrkel_member keys k = record {
    provider = CryptoProvider.schnorrkel (default_peer crates k);
    public_keys = map (λ x. PublicKey.schnorrkel (crates.public x)) keys;
  }

  abbrev plain_member : ℕ → Text → Crypto crates
  plain_member n s = record {
    provider = CryptoProvider.insecure s;
    public_keys = map (λ i. PublicKey.plain (replica i)) (range_from 0 n);
  }

  secp_inv :
      (n i : ℕ) (c : Crypto crates)
      → new_hardcoded crates n i CryptoFlavor.secp256k1 ≡ ok c
      → (keys : List crates.SecretKey) × (k : crates.SecretKey) × (collect
            (secp_key crates)
            (range_from 0 n)
          ≡ ok keys)
        × (get_elem? keys i ≡ some k)
        × (secp_member keys k ≡ c)
  unfolding new_hardcoded
  secp_inv n i c h =
      let (keys, all, h1) = >>=-eq-ok (collect (secp_key crates) (range_from 0 n)) _ h in
      let (k, own, h2) = >>=-eq-ok (unwrap (get_elem? keys i)) _ h1 in
      (keys, k, all, unwrap-eq-ok (get_elem? keys i) own, cc)

  schnorrkel_inv :
      (n i : ℕ) (c : Crypto crates)
      → new_hardcoded crates n i CryptoFlavor.schnorrkel ≡ ok c
      → (keys : List crates.Keypair) × (k : crates.Keypair) × (collect
            (schnorrkel_key crates)
            (range_from 0 n)
          ≡ ok keys)
        × (get_elem? keys i ≡ some k)
        × (schnorrkel_member keys k ≡ c)
  unfolding new_hardcoded
  schnorrkel_inv n i c h =
      let (keys, all, h1) = >>=-eq-ok (collect (schnorrkel_key crates) (range_from 0 n)) _ h in
      let (k, own, h2) = >>=-eq-ok (unwrap (get_elem? keys i)) _ h1 in
      (keys, k, all, unwrap-eq-ok (get_elem? keys i) own, cc)

  module _ {M : Type 0} (writes : M → List HashWrite) (nonce : ℕ) (message : M) where
    pub secp_verifies :
        (keys : List crates.SecretKey) (i : ℕ) (k k' : crates.SecretKey)
        → get_elem? keys i ≡ some k
        → verify crates writes
            (secp_member keys k')
            i
            (sign crates writes (secp_member keys k) nonce message)
          ≡ ok tt
    unfolding verify sign sign_as verify_as
    secp_verifies keys i k k' h =
        rw
          (
            get_elem?-map {B = PublicKey crates} (λ x. PublicKey.secp256k1 (crates.public_key x))
                keys i k h,
            crates.verify-sign_ecdsa _ k,
          )
          refl

    pub schnorrkel_verifies :
        (keys : List crates.Keypair) (i : ℕ) (k k' : crates.Keypair)
        → get_elem? keys i ≡ some k
        → verify crates writes
            (schnorrkel_member keys k')
            i
            (sign crates writes (schnorrkel_member keys k) nonce message)
          ≡ ok tt
    unfolding verify sign sign_as verify_as peer_sign verify_internal
    schnorrkel_verifies keys i k k' h =
        rw
          (
            get_elem?-map {B = PublicKey crates} (λ x. PublicKey.schnorrkel (crates.public x)) keys
                i k h,
            crates.verify-sign_transcript nonce k _,
          )
          refl

    plain_verifies :
        (n i : ℕ)
        → i < n
        → (other : Text) (c c' : Crypto crates) → plain_member n (replica i) ≡ c
        → plain_member n other ≡ c'
        → verify crates writes c' i (sign crates writes c nonce message) ≡ ok tt
    unfolding verify sign sign_as verify_as
    plain_verifies n i lt other c c' e e' =
        rw
          (
            ← e,
            ← e',
            get_elem?-map {B = PublicKey crates} (λ x. PublicKey.plain (replica x)) (range_from 0 n)
                i (0 + i) (get_elem?-range_from 0 n i lt),
            zero-add,
            text_eq_refl (replica i),
          )
          refl

    -- Two members `c` and `c'` of one group of `n`, made by `new_hardcoded` with the same kind of
    -- keys: what `c` signs, `c'` accepts from the index of `c`.
    pub verify-sign :
        (n i j : ℕ) (flavor : CryptoFlavor) (c c' : Crypto crates)
        → i < n
        → new_hardcoded crates n i flavor ≡ ok c
        → new_hardcoded crates n j flavor ≡ ok c'
        → verify crates writes c' i (sign crates writes c nonce message) ≡ ok tt
    unfolding new_hardcoded
    verify-sign n i j CryptoFlavor.plain c c' lt h h' =
        let e : plain_member n (replica i) ≡ c = cc in
        let e' : plain_member n (replica j) ≡ c' = cc in plain_verifies n i lt (replica j) c c' e e'
    verify-sign n i j CryptoFlavor.secp256k1 c c' lt h h' =
        let (keys, k, all, own, e) = secp_inv n i c h in
        let (keys', k', all', own', e') = secp_inv n j c' h' in
        let same : keys' ≡ keys = cc in rw (← e, ← e', same) (secp_verifies keys i k k' own)
    verify-sign n i j CryptoFlavor.schnorrkel c c' lt h h' =
        let (keys, k, all, own, e) = schnorrkel_inv n i c h in
        let (keys', k', all', own', e') = schnorrkel_inv n j c' h' in
        let same : keys' ≡ keys = cc in rw (← e, ← e', same) (schnorrkel_verifies keys i k k' own)
