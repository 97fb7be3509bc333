-- ===== src/Signature/Plain.antt =====
-- crates/alloy-wrapper/src/signature.rs: the encoding with a bare parity, and the lengths.
use mathlib.Core.List.{append_assoc}
use aos_operator.Shared.{
  ℕ, ◌+◌, ◌<◌, ◌≡◌, refl, Bool, Option, some, List, ◌++◌, Outcome, ok, ◌>>=◌, ok_or, length,
  length-append, arith,
}
use aos_operator.Shared.Machine.{Profile}
use aos_operator.Signature.{Signature, Rlp, RlpError, malformed, u256_mod, v}

-- What is used of `alloy_rlp` for the parity, and for lengths.
pub record PlainRlp : Type 0 where
  pub rlp : Rlp
  pub encode_bool : Bool → List ℕ
  pub decode_bool : List ℕ → Option (Bool × List ℕ)
  pub length_of : ℕ → ℕ
  pub length_bool : Bool → ℕ
  pub decode-encode_bool :
      (b : Bool) (rest : List ℕ) → decode_bool (encode_bool b ++ rest) ≡ some (b, rest)
  pub length-encode : (n : ℕ) → length (rlp.encode n) ≡ length_of n
  pub length-encode_bool : (b : Bool) → length (encode_bool b) ≡ length_bool b

module _ (plain : PlainRlp) where
  open plain use {encode_bool, decode_bool, length_of, length_bool}
  open plain.rlp use {encode, decode}

  unfoldable pub payload_len_with_eip155_chain_id :
      {E : Type 0} → Profile → Signature → Option ℕ → Outcome E ℕ
  payload_len_with_eip155_chain_id p self chain_id = do
    v' ← v p self chain_id
    ok (length_of v' + length_of self.r + length_of self.s)

  unfoldable pub payload_len : Signature → ℕ
  payload_len self = length_bool self.odd_y_parity + length_of self.r + length_of self.s

  -- `Signature::encode`: the bytes that are appended to `out`
  unfoldable pub encode_plain : Signature → List ℕ
  encode_plain self = encode_bool self.odd_y_parity ++ (encode self.r ++ encode self.s)

  -- `Signature::decode`
  unfoldable pub decode_plain : List ℕ → Outcome RlpError (Signature × List ℕ)
  decode_plain buf = do
    (odd_y_parity, buf1) ← ok_or (decode_bool buf) malformed
    (r, buf2) ← ok_or (decode u256_mod buf1) malformed
    (s, buf3) ← ok_or (decode u256_mod buf2) malformed
    ok (record { r = r; s = s; odd_y_parity = odd_y_parity }, buf3)

  -- A signature of two words of 256 bits is read back from its encoding, of which `payload_len` is
  -- the length.
  pub decode_plain-encode_plain :
      (self : Signature) (rest : List ℕ)
      → self.r < u256_mod
      → self.s < u256_mod
      → (decode_plain (encode_plain self ++ rest) ≡ ok (self, rest))
        × (length (encode_plain self) ≡ payload_len self)
  unfolding encode_plain decode_plain payload_len
  decode_plain-encode_plain self rest hr hs = (
    rw
        (
          append_assoc (encode_bool self.odd_y_parity) (encode self.r ++ encode self.s) rest,
          plain.decode-encode_bool self.odd_y_parity ((encode self.r ++ encode self.s) ++ rest),
          append_assoc (encode self.r) (encode self.s) rest,
          plain.rlp.decode-encode u256_mod self.r (encode self.s ++ rest) hr,
          plain.rlp.decode-encode u256_mod self.s rest hs,
        )
        refl,
    rw
        (
          length-append (encode_bool self.odd_y_parity) (encode self.r ++ encode self.s),
          length-append (encode self.r) (encode self.s),
          plain.length-encode_bool self.odd_y_parity,
          plain.length-encode self.r,
          plain.length-encode self.s,
        )
        (omega arith),
  )
