-- ===== src/Crypto/Core/Batch.antt =====
-- Batches of signatures against signatures one by one.
use aos_operator.Shared.{
  ℕ, suc, ◌≡◌, refl, sym, ap, ◌∙◌, ◌↔◌, Bool, true, false, ◌&&◌, List, [], ◌∷◌, ◌++◌, ok, >>=-eq-ok,
  ok_or, unwrap, unwrap-eq-ok, ok_or-eq-ok, get_elem?, length, All, arith,
}
use mathlib.Core.Path.{subst}
use aos_operator.Crypto.Digest.{HashWrite}
use aos_operator.Crypto.Core.{
  CryptoCrates, PeerCrypto, Verifiable, Signature, CryptoProvider, PublicKey, Crypto, CryptoError,
  all_hold, zip, transcript, verify, verify_as, verify_internal, both_schnorrkel, collected,
  batch_checked, batch_as, verify_batch, no_identifier, schnorrkel_error, ensure,
}

ensure_iff : (b : Bool) (e : CryptoError) → (ensure b e ≡ ok tt) ↔ (b ≡ true)
ensure_iff true e = (λ h. refl, λ h. refl)
ensure_iff false e = (λ h. cc, λ h. cc)

and_iff : (a b : Bool) → ((a && b) ≡ true) ↔ ((a ≡ true) × (b ≡ true))
and_iff true b = (λ h. (refl, h), λ h. h.1)
and_iff false b = (λ h. absurd cc, λ h. h.0)

module _ (crates : CryptoCrates) {M : Type 0} (writes : M → List HashWrite)
    (peer : PeerCrypto crates) (keys : List (PublicKey crates)) where
  abbrev batch_crypto : Crypto crates
  batch_crypto = record { provider = CryptoProvider.schnorrkel peer; public_keys = keys }

  abbrev AllVerify : List (ℕ × Verifiable M (Signature crates)) → Type 0
  AllVerify pairs = All (λ p. verify crates writes batch_crypto p.0 p.1 ≡ ok tt) pairs

  as_both :
      (key : PublicKey crates) (s' : Signature crates) (message : M) (pk : crates.SchnorrPublic)
      (s : crates.SchnorrSignature)
      → both_schnorrkel crates writes key s' ≡ ok (pk, s)
      → verify_as crates writes (CryptoProvider.schnorrkel peer) key s' message
        ≡ ensure
            (crates.verify_transcript pk (transcript crates writes peer message) s)
            schnorrkel_error
  unfolding both_schnorrkel verify_as verify_internal
  as_both (PublicKey.schnorrkel p) (Signature.schnorrkel q) message pk s h =
      let ep : p ≡ pk = cc in let es : q ≡ s = cc in rw (ep, es) refl
  as_both (PublicKey.schnorrkel p) (Signature.plain q) message pk s h = cc
  as_both (PublicKey.schnorrkel p) (Signature.secp256k1 q) message pk s h = cc
  as_both (PublicKey.plain p) q message pk s h = cc
  as_both (PublicKey.secp256k1 p) q message pk s h = cc

  both_of_as :
      (key : PublicKey crates) (s' : Signature crates) (message : M)
      → verify_as crates writes (CryptoProvider.schnorrkel peer) key s' message ≡ ok tt
      → (pk : crates.SchnorrPublic) × (s : crates.SchnorrSignature) × (both_schnorrkel crates writes
            key s'
          ≡ ok (pk, s))
  unfolding both_schnorrkel verify_as verify_internal
  both_of_as (PublicKey.schnorrkel p) (Signature.schnorrkel q) message h = (p, q, refl)
  both_of_as (PublicKey.schnorrkel p) (Signature.plain q) message h = absurd cc
  both_of_as (PublicKey.schnorrkel p) (Signature.secp256k1 q) message h = absurd cc
  both_of_as (PublicKey.plain p) q message h = absurd cc
  both_of_as (PublicKey.secp256k1 p) q message h = absurd cc

  -- What the loop of a batch collected, against the single checks.
  abbrev Collects :
      List (ℕ × Verifiable M (Signature crates))
      → List crates.Transcript × List crates.SchnorrSignature × List crates.SchnorrPublic
      → Type 0
  Collects pairs (ts, ss, ps) =
      (length ss ≡ length ts)
      × (length ps ≡ length ts)
      × ((all_hold crates.verify_transcript ts ss ps ≡ true) ↔ AllVerify pairs)

  collected-Collects :
      (pairs : List (ℕ × Verifiable M (Signature crates)))
      (r : List crates.Transcript × List crates.SchnorrSignature × List crates.SchnorrPublic)
      → collected crates writes peer keys pairs ≡ ok r
      → Collects pairs r
  unfolding collected verify
  collected-Collects [] r h =
      let none_left : List crates.Transcript
          × List crates.SchnorrSignature
          × List crates.SchnorrPublic =
        ([], [], []) in
      let e : none_left ≡ r = cc in subst (λ t. Collects [] t) e (refl, refl, (λ a. tt, λ a. refl))
  collected-Collects ((index, v) ∷ rest) r h =
      let (key, hk, h1) = >>=-eq-ok (unwrap (get_elem? keys index)) _ h in
      let (both, hb, h2) = >>=-eq-ok (both_schnorrkel crates writes key v.signature) _ h1 in
      let (r', hr, h3) = >>=-eq-ok (collected crates writes peer keys rest) _ h2 in
      let ih = collected-Collects rest r' hr in
      let own = unwrap-eq-ok (get_elem? keys index) hk in
      let t = transcript crates writes peer v.inner in
      let one : verify crates writes batch_crypto index v
          ≡ ensure (crates.verify_transcript both.0 t both.1) schnorrkel_error =
        rw own (as_both key v.signature v.inner both.0 both.1 hb) in
      let more : List crates.Transcript × List crates.SchnorrSignature × List crates.SchnorrPublic =
        (t ∷ r'.0, both.1 ∷ r'.1, both.0 ∷ r'.2) in
      let e : more ≡ r = cc in
      subst (λ a. Collects ((index, v) ∷ rest) a) e
        (
          ap suc ih.0,
          ap suc ih.1,
          (
            λ h'.
                let both_hold = (and_iff (crates.verify_transcript both.0 t both.1) _).0 h' in
                (one ∙ (ensure_iff _ schnorrkel_error).1 both_hold.0, ih.2.0 both_hold.1),
            λ h'.
                (and_iff (crates.verify_transcript both.0 t both.1) _).1
                  ((ensure_iff _ schnorrkel_error).0 (sym one ∙ h'.0), ih.2.1 h'.1),
          ),
        )

  collected_of_AllVerify :
      (pairs : List (ℕ × Verifiable M (Signature crates)))
      → AllVerify pairs
      → (r : List crates.Transcript × List crates.SchnorrSignature × List crates.SchnorrPublic)
        × (collected crates writes peer keys pairs ≡ ok r)
  unfolding collected verify
  collected_of_AllVerify [] h = (([], [], []), refl)
  collected_of_AllVerify ((index, v) ∷ rest) h =
      let (key, hk, h1) = >>=-eq-ok (ok_or (get_elem? keys index) no_identifier) _ h.0 in
      let (pk, s, hb) = both_of_as key v.signature v.inner h1 in
      let (r, hr) = collected_of_AllVerify rest h.1 in
      (
        (transcript crates writes peer v.inner ∷ r.0, s ∷ r.1, pk ∷ r.2),
        rw (ok_or-eq-ok (get_elem? keys index) no_identifier hk, hb, hr) refl,
      )

  checked_iff :
      (pairs : List (ℕ × Verifiable M (Signature crates)))
      (r : List crates.Transcript × List crates.SchnorrSignature × List crates.SchnorrPublic)
      → Collects pairs r
      → (batch_checked crates writes r.0 r.1 r.2 ≡ ok tt) ↔ AllVerify pairs
  unfolding batch_checked
  checked_iff pairs r c =
      let one : batch_checked crates writes r.0 r.1 r.2
          ≡ ensure (all_hold crates.verify_transcript r.0 r.1 r.2) schnorrkel_error =
        rw (crates.batch_lem r.0 r.1 r.2 c.0 c.1) refl in
      (
        λ h. c.2.0 ((ensure_iff _ schnorrkel_error).0 (sym one ∙ h)),
        λ h. one ∙ (ensure_iff _ schnorrkel_error).1 (c.2.1 h),
      )

  -- With Schnorrkel keys a batch is accepted exactly if each signature that has an index is accepted
  -- by itself under that index; an index out of range, and a key or a signature of another kind,
  -- are accepted by neither.
  pub verify_batch_iff :
      (indexes : List ℕ) (signed : List (Verifiable M (Signature crates)))
      → (verify_batch crates writes batch_crypto indexes signed ≡ ok tt)
        ↔ AllVerify (zip indexes signed)
  unfolding verify_batch batch_as
  verify_batch_iff indexes signed =
      let pairs = zip indexes signed in
      (
        λ h.
            let (r, hr, h1) = >>=-eq-ok (collected crates writes peer keys pairs) _ h in
            (checked_iff pairs r (collected-Collects pairs r hr)).0 h1,
        λ h.
            let (r, hr) = collected_of_AllVerify pairs h in
            rw hr ((checked_iff pairs r (collected-Collects pairs r hr)).1 h),
      )

  zip-append :
      (indexes : List ℕ) (signed extra : List (Verifiable M (Signature crates)))
      → length indexes ≡ length signed
      → zip indexes (signed ++ extra) ≡ zip indexes signed
  zip-append [] [] [] h = refl
  zip-append [] [] (v ∷ extra) h = refl
  zip-append [] (v ∷ signed) extra h = absurd (omega arith)
  zip-append (i ∷ indexes) [] extra h = absurd (omega arith)
  zip-append (i ∷ indexes) (v ∷ signed) extra h =
      ap (λ t. (i, v) ∷ t) (zip-append indexes signed extra (omega arith))

  -- A batch that is accepted is still accepted with any further messages that have no index, signed
  -- or not: these are never looked at. And any indexes without signatures are accepted.
  pub verify_batch_unmatched :
      (indexes : List ℕ) (signed extra : List (Verifiable M (Signature crates)))
      → length indexes ≡ length signed
      → verify_batch crates writes batch_crypto indexes signed ≡ ok tt
      → (verify_batch crates writes batch_crypto indexes (signed ++ extra) ≡ ok tt)
        × (verify_batch crates writes batch_crypto indexes [] ≡ ok tt)
  verify_batch_unmatched indexes signed extra same accepted = (
    (verify_batch_iff indexes (signed ++ extra)).1
        (rw (zip-append indexes signed extra same) ((verify_batch_iff indexes signed).0 accepted)),
    (verify_batch_iff indexes []).1 (zip_none indexes),
  )
    where
      zip_none : (is : List ℕ) → AllVerify (zip is [])
      zip_none [] = tt
      zip_none (i ∷ is) = tt
