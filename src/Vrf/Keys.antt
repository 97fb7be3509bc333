-- ===== src/Vrf/Keys.antt =====
-- crates/vrf/src/traits.rs: what every kind of key offers once it is read from bytes and written as
-- bytes.
use aos_operator.Shared.{◌≡◌, refl, Option, some, Outcome, ok, ◌>>=◌, ok_or}
use aos_operator.Shared.Text.{Text}
use aos_operator.Vrf.Curve.{Bytes}
use aos_operator.Vrf.Ecvrf.{CryptoMaterialError, deserialization_error}

-- `ValidKey`: the keys of a kind are read from their bytes.
pub record ValidKey : Type 1 where
  pub Key : Type 0
  pub try_from : Bytes → Outcome CryptoMaterialError Key
  pub to_bytes : Key → Bytes

-- What is used of the crate `hex`.
pub record HexCodec : Type 0 where
  pub encode : Bytes → Text
  pub decode : Text → Option Bytes
  pub decode-encode : (bytes : Bytes) → decode (encode bytes) ≡ some bytes

module _ (kind : ValidKey) where
  open kind use {Key, try_from, to_bytes}

  -- `ValidKey::validate`
  unfoldable pub validate : Key → Outcome CryptoMaterialError (Unit {0})
  validate self = do key ← try_from (to_bytes self); ok tt

  module _ (hex : HexCodec) where
    -- `ValidKeyStringExt::from_encoded_string`
    unfoldable pub from_encoded_string : Text → Outcome CryptoMaterialError Key
    from_encoded_string encoded_str = do
      bytes ← ok_or (hex.decode encoded_str) deserialization_error
      try_from bytes

    -- `ValidKeyStringExt::to_encoded_string`
    unfoldable pub to_encoded_string : {E : Type 0} → Key → Outcome E Text
    to_encoded_string self = ok (hex.encode (to_bytes self))

    -- A key that is read back from its bytes is valid, and is read back from its text.
    pub from_encoded_string-to_encoded_string :
        (self : Key)
        → try_from (to_bytes self) ≡ ok self
        → (validate self ≡ ok tt)
          × ((to_encoded_string self >>= λ text. from_encoded_string text) ≡ ok self)
    unfolding validate from_encoded_string to_encoded_string
    from_encoded_string-to_encoded_string self read =
        (rw read refl, rw (hex.decode-encode (to_bytes self), read) refl)
