-- ===== src/Vrf/PrivateKey.antt =====
-- crates/vrf/src/ecvrf.rs: private keys from bytes and from hexadecimal text.
pub mod Reading
use aos_operator.Shared.{
  ℕ, ◌+◌, ◌-◌, ◌*◌, ◌%◌, ◌≡◌, Bool, true, false, ◌&&◌, ◌||◌, not, Option, none, some, List, [], ◌∷◌,
  Outcome, ok, err, panic, ◌>>=◌, ok_or, leb, ◌==◌, if◌then◌else◌, length, take,
}
use aos_operator.Shared.Text.{Text}
use aos_operator.Shared.Hex.{is_ascii_hexdigit, digit_value}
use aos_operator.Vrf.Curve.{Bytes}
use aos_operator.Vrf.Ecvrf.{CryptoMaterialError, wrong_length_error, deserialization_error}

-- A byte inside a character of UTF-8, before which a slice may not begin or end.
unfoldable pub is_continuation : ℕ → Bool
is_continuation c = leb 0x80 c && leb c 0xbf

-- `u8::from_str_radix` at 16, on two bytes: a sign `+` may stand in front of a digit.
unfoldable pub byte_from_hex : ℕ → ℕ → Option ℕ
byte_from_hex a b =
    if a == b'+'
    then (if is_ascii_hexdigit b then some (digit_value b) else none)
    else if is_ascii_hexdigit a && is_ascii_hexdigit b
    then some (digit_value a * 16 + digit_value b)
    else none

-- Whether a text may be cut in front of what follows.
abbrev pub cuts : Text → Bool
cuts [] = true
cuts (c ∷ s) = not (is_continuation c)

-- `(0..len).step_by(2).map(..).collect()` on a text of even length, up to the first error
unfoldable pub bytes_from_hex : Text → Outcome CryptoMaterialError Bytes
bytes_from_hex [] = ok []
bytes_from_hex (a ∷ []) = panic
bytes_from_hex (a ∷ b ∷ s) =
    let rest = bytes_from_hex s in
    if not (is_continuation a) && cuts s
    then (ok_or (byte_from_hex a b) deserialization_error >>= λ x. rest >>= λ xs. ok (x ∷ xs))
    else panic

-- `TryFrom<&[u8]> for VRFPrivateKey`: a slice that is too short panics. `signing_bytes` is
-- `SigningKey::from_bytes(&bits).to_bytes()` of `ed25519_dalek`.
unfoldable pub private_key_from_bytes : (Bytes → Bytes) → Bytes → Outcome CryptoMaterialError Bytes
private_key_from_bytes signing_bytes bytes =
    if leb 32 (length bytes) then ok (signing_bytes (take 32 bytes)) else panic

-- `TryFrom<&str> for VRFPrivateKey`
unfoldable pub private_key_from_str : (Bytes → Bytes) → Text → Outcome CryptoMaterialError Bytes
private_key_from_str signing_bytes hex_str =
    if not (length hex_str % 2 == 0)
    then err wrong_length_error
    else (bytes_from_hex hex_str >>= private_key_from_bytes signing_bytes)
