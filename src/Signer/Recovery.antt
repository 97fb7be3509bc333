-- ===== src/Signer/Recovery.antt =====
-- A signature is accepted for the address of its key and for no other address.
use aos_operator.Shared.{ℕ, List, ◌≡◌, refl, ◌↔◌, ap, ◌∙◌, true, some, ok, inl, inr, Option-cases}
use aos_operator.Shared.Text.{Text, text_eq, text_eq_iff}
use aos_operator.Signer.{SigningCrates, get_address, sign_message, verify_signature}

module _ {Message : Type 0} (crates : SigningCrates Message) where
  open crates use {
    Key, Sig, to_vec, sign_message_sync, encode, as_bytes, from_str, from_str-encode, recover-sign,
    to_lowercase,
  }

  -- `verify_signature` on the text of a signature that the key made.
  verify_made :
      {E : Type 0} (key : Key) (message : Message) (pubkey : Text) (msg : List ℕ) (sig : Sig)
      → to_vec message ≡ some msg
      → sign_message_sync key msg ≡ some sig
      → verify_signature crates {E = E} pubkey message (encode (as_bytes sig))
        ≡ ok (text_eq (to_lowercase (get_address crates key)) (to_lowercase pubkey))
  unfolding verify_signature get_address
  verify_made key message pubkey msg sig e made =
      rw (from_str-encode sig, e, recover-sign key msg sig made) refl

  -- `verify_signature` on what `sign_message` returned, if it returned.
  pub verify-sign :
      {E : Type 0} (key : Key) (message : Message) (signature pubkey : Text)
      → sign_message crates {E = E} key message ≡ ok signature
      → verify_signature crates {E = E} pubkey message signature
        ≡ ok (text_eq (to_lowercase (get_address crates key)) (to_lowercase pubkey))
  unfolding sign_message
  verify-sign {E} key message signature pubkey signed = elim (Option-cases (to_vec message)) [
    | inl bad ↦ let h = rw bad at signed in cc
    | inr (msg, e) ↦
        let h = rw e at signed in
        elim (Option-cases (sign_message_sync key msg)) [
          | inl bad ↦ let g = rw bad at h in cc
          | inr (sig, made) ↦
              let g = rw made at h in
              let same : encode (as_bytes sig) ≡ signature = cc in
              rw (← same) (verify_made key message pubkey msg sig e made)
        ]
  ]

  -- A signature that `sign_message` returned is accepted for a public key exactly when the lower
  -- case of the key equals the lower case of the signer's address.
  pub verify_signature-sign_message :
      {E : Type 0} (key : Key) (message : Message) (signature pubkey : Text)
      → sign_message crates {E = E} key message ≡ ok signature
      → (verify_signature crates {E = E} pubkey message signature ≡ ok true)
        ↔ (to_lowercase (get_address crates key) ≡ to_lowercase pubkey)
  verify_signature-sign_message {E} key message signature pubkey signed =
      let own = verify-sign {E = E} key message signature pubkey signed in
      let iff = text_eq_iff (to_lowercase (get_address crates key)) (to_lowercase pubkey) in
      (λ h. iff.0 cc, λ h. own ∙ ap ok (iff.1 h))
