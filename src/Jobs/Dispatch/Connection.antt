-- ===== src/Jobs/Dispatch/Connection.antt =====
-- operator/runer/src/api/msg_handler.rs: the set-up of a connection in `handle_connection`, and
-- the delays between its attempts.
use Prim.Native.Nat.{min}
use aos_operator.Shared.{
  ℕ, zero, suc, ◌+◌, ◌^◌, ◌≡◌, ◌≢◌, refl, ap, true, Option, List, ◌∷◌, Outcome, ok, err, ◌>>=◌,
  ok_or, ltb, if◌then◌else◌, length, ◌*◌, inr, arith,
}
use aos_operator.Shared.Text.{Text, codes}
use aos_operator.Shared.Hex.{HexCrates, all_hexdigits}
use aos_operator.Config.{OperatorConfig, validate_key}
use aos_operator.Config.Validation.{validate_key_iff}
use aos_operator.Jobs.{OperatorError, custom_error}

abbrev pub retry_max : ℕ
retry_max = 8

-- The variable `retry_count`, and the delay in seconds, after an attempt to connect that failed.
unfoldable pub failed_attempt : ℕ → ℕ × ℕ
failed_attempt retry_count =
    let count = if ltb retry_count retry_max then retry_count + 1 else retry_count in
    (count, 2 ^ count)

-- After `n` failures in a row, from the count 0 that a connection leaves.
unfoldable pub after_failures : ℕ → ℕ
after_failures zero = 0
after_failures (suc n) = (failed_attempt (after_failures n)).0

count_min : (n : ℕ) → after_failures n ≡ min n retry_max
unfolding after_failures failed_attempt
count_min zero = refl
count_min (suc n) = ground (arith, count_min n)

-- The delay after the `n + 1`-st failure in a row is `2 ^ min (n + 1) 8` seconds, so it doubles
-- up to 256 seconds and stays there; nothing ends the attempts.
pub failed_attempt_delay :
    (n : ℕ) → (failed_attempt (after_failures n)).1 ≡ 2 ^ min (suc n) retry_max
unfolding after_failures failed_attempt
failed_attempt_delay n = ap (λ c. 2 ^ c) (count_min (suc n))

-- What the set-up uses: the keys and addresses that the crates read.
pub record Setup (Key Address : Type 0) : Type 0 where
  pub from_slice : List ℕ → Option Key
  pub socket_addr : Text → Option Address

module _ (crates : HexCrates) {Key Address : Type 0} (setup : Setup Key Address) where
  open crates use {from_hex}
  open setup use {from_slice, socket_addr}

  -- The signer and the address with which `handle_connection` connects.
  unfoldable pub prepare : OperatorConfig → Outcome OperatorError (Key × Address)
  prepare config = do
    key_bytes ←
        ok_or (from_hex 32 config.node.signer_key) (custom_error (codes "key_bytes from hex error"))
    secret_key ← ok_or (from_slice key_bytes) (custom_error (codes "32 bytes, within curve order"))
    socket ←
        ok_or (socket_addr config.net.dispatcher_url)
          (custom_error (codes "Websocket address parse error"))
    ok (secret_key, socket)

  -- A signer key of 64 hexadecimal digits after `0x` passes the validation of the configuration,
  -- and the operator then fails to connect, since the key is read without taking `0x` off.
  pub prepare_prefixed :
      (config : OperatorConfig) (digits : Text)
      → config.node.signer_key ≡ b'0' ∷ b'x' ∷ digits
      → length digits ≡ 64
      → all_hexdigits digits ≡ true
      → (validate_key config.node.signer_key ≡ true)
        × (prepare config ≡ err (custom_error (codes "key_bytes from hex error")))
  unfolding prepare
  prepare_prefixed config digits prefixed len hex =
      let long : length config.node.signer_key ≢ 2 * 32 =
        λ e. absurd (omega (arith, ap length prefixed, len, e)) in
      (
        (validate_key_iff config.node.signer_key).1 (digits, inr prefixed, len, hex),
        rw (crates.from_hex_length 32 config.node.signer_key long) refl,
      )
