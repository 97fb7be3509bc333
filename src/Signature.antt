-- ===== src/Signature.antt =====
-- crates/alloy-wrapper/src/signature.rs: signatures of transactions and their encodings.
pub mod ChainId
pub mod Bytes
pub mod Malleability
pub mod BigEndian
pub mod Signing
pub mod Plain
mod Tests
use aos_operator.Shared.{
  ℕ, zero, suc, ◌+◌, ◌-◌, ◌*◌, ◌/◌, ◌%◌, ◌^◌, ◌<◌, ◌≡◌, Bool, true, false, Option, none, some, List,
  [], ◌∷◌, ◌++◌, Outcome, ok, err, panic, ◌>>=◌, ok_or, unwrap, not, ltb, leb, ◌==◌, ◌&&◌,
  if◌then◌else◌, length, take, drop, get_elem?,
}
use aos_operator.Shared.Machine.{Profile, u64_mod, add_word, sub_word, mul_word}
use aos_operator.Shared.Text.{Text}
use aos_operator.Shared.Hex.{be_value}

pub record Signature : Type 0 where
  pub r : ℕ  -- U256
  pub s : ℕ  -- U256
  pub odd_y_parity : Bool

abbrev pub u256_mod : ℕ
u256_mod = 2 ^ 256

abbrev pub secp256k1n_half : ℕ
secp256k1n_half = 57896044618658097711785492504343953926418782139537452191302581570759080747168

-- The errors of RLP: the code's own, and those of the crate.
pub data RlpError : Type 0 where
  invalid_v : RlpError
  malformed : RlpError

-- What is used of `alloy_rlp` for integers: what was written is read back, and the rest is left.
pub record Rlp : Type 0 where
  pub encode : ℕ → List ℕ
  pub decode : ℕ → List ℕ → Option (ℕ × List ℕ)
  pub decode-encode :
      (m n : ℕ) (rest : List ℕ) → n < m → decode m (encode n ++ rest) ≡ some (n, rest)

unfoldable pub as_word : Bool → ℕ
as_word false = 0
as_word true = 1

-- `Signature::v`, without the feature `optimism`
unfoldable pub v : {E : Type 0} → Profile → Signature → Option ℕ → Outcome E ℕ
v p self (some chain_id) = do
  twice ← mul_word u64_mod p chain_id 2
  sum ← add_word u64_mod p (as_word self.odd_y_parity) twice
  add_word u64_mod p sum 35
v p self none = add_word u64_mod p (as_word self.odd_y_parity) 27

unfoldable pub extract_chain_id : ℕ → Outcome RlpError (Bool × Option ℕ)
extract_chain_id v =
    if ltb v 35
    then (if not (v == 27) && not (v == 28) then err invalid_v else ok (v == 28, none))
    else ok (not ((v - 35) % 2 == 0), some ((v - 35) / 2))

module _ (rlp : Rlp) where
  open rlp use {encode, decode}

  -- The bytes that are appended to `out`.
  unfoldable pub encode_with_eip155_chain_id :
      Profile → Signature → Option ℕ → Outcome RlpError (List ℕ)
  encode_with_eip155_chain_id p self chain_id = do
    v' ← v p self chain_id
    ok (encode v' ++ (encode self.r ++ encode self.s))

  unfoldable pub decode_with_eip155_chain_id :
      List ℕ → Outcome RlpError ((Signature × Option ℕ) × List ℕ)
  decode_with_eip155_chain_id buf = do
    (v', buf1) ← ok_or (decode u64_mod buf) malformed
    (r, buf2) ← ok_or (decode u256_mod buf1) malformed
    (s, buf3) ← ok_or (decode u256_mod buf2) malformed
    (odd_y_parity, chain_id) ← extract_chain_id v'
    ok ((record { r = r; s = s; odd_y_parity = odd_y_parity }, chain_id), buf3)

-- `to_be_bytes`, of `n` bytes
unfoldable pub to_be_bytes : ℕ → ℕ → List ℕ
to_be_bytes zero x = []
to_be_bytes (suc n) x = to_be_bytes n (x / 256) ++ x % 256 ∷ []

unfoldable pub to_bytes : Signature → List ℕ
to_bytes self =
    to_be_bytes 32 self.r ++ (to_be_bytes 32 self.s ++ (as_word self.odd_y_parity + 27) ∷ [])

-- The parity that byte 64 stands for.
unfoldable pub parity_of : {E : Type 0} → Profile → ℕ → Outcome E Bool
parity_of p b = if ltb 1 b then (sub_word 256 p b 27 >>= λ d. ok (d == 1)) else ok (b == 1)

-- `Signature::from_hex_str`, after `hex::decode`: an index or a slice out of range panics.
unfoldable pub from_bytes : {E : Type 0} → Profile → List ℕ → Outcome E Signature
from_bytes p sig_bytes = do
  b ← unwrap (get_elem? sig_bytes 64)
  odd ← parity_of p b
  ok (record {
    r = be_value (take 32 sig_bytes);
    s = be_value (take 32 (drop 32 sig_bytes));
    odd_y_parity = odd;
  })

unfoldable pub from_hex_str :
    {E : Type 0} → Profile → (Text → Option (List ℕ)) → Text → Outcome E Signature
from_hex_str p hex_decode sig_hex = do
  sig_bytes ← unwrap (hex_decode sig_hex)
  from_bytes p sig_bytes

-- `recover_signer`, given `util::recover_signer_unchecked` on 65 bytes
unfoldable pub recover_signer_unchecked :
    {Address : Type 0} → (List ℕ → List ℕ → Option Address) → Signature → List ℕ → Option Address
recover_signer_unchecked recover self hash =
    recover (to_be_bytes 32 self.r ++ (to_be_bytes 32 self.s ++ as_word self.odd_y_parity ∷ []))
      hash

unfoldable pub recover_signer :
    {Address : Type 0} → (List ℕ → List ℕ → Option Address) → Signature → List ℕ → Option Address
recover_signer recover self hash =
    if ltb secp256k1n_half self.s then none else recover_signer_unchecked recover self hash
