-- ===== src/Signature/ChainId.antt =====
-- The chain id and the parity, through `v`.
use mathlib.Core.List.{append_assoc}
use aos_operator.Shared.{
  ℕ, ◌+◌, ◌-◌, ◌*◌, ◌/◌, ◌%◌, ◌<◌, ◌≡◌, refl, ap, ◌∙◌, Bool, true, false, Option, none, some, List,
  ◌++◌, ok, ◌>>=◌, ltb, ◌==◌, arith,
}
use aos_operator.Shared.Machine.{Profile, u64_mod, add_word_fits, mul_word_fits}
use aos_operator.Signature.{
  Signature, Rlp, RlpError, as_word, v, extract_chain_id, encode_with_eip155_chain_id,
  decode_with_eip155_chain_id, u256_mod,
}

-- The chain ids whose `v` fits a `u64`.
abbrev pub Fits : Option ℕ → Type 0
Fits none = Unit
Fits (some chain_id) = chain_id * 2 + 36 < u64_mod

-- `v` without its overflow.
plain_v : Bool → Option ℕ → ℕ
plain_v odd none = as_word odd + 27
plain_v odd (some chain_id) = as_word odd + chain_id * 2 + 35

as_word-lt : (b : Bool) → as_word b < 2
unfolding as_word
as_word-lt true = omega arith
as_word-lt false = omega arith

v-plain :
    {E : Type 0} (p : Profile) (sig : Signature) (chain_id : Option ℕ)
    → Fits chain_id
    → v {E = E} p sig chain_id ≡ ok (plain_v sig.odd_y_parity chain_id)
unfolding v plain_v
v-plain p sig none h =
    add_word_fits u64_mod p (as_word sig.odd_y_parity) 27
      (omega (arith, as_word-lt sig.odd_y_parity))
v-plain p sig (some c) h =
    let small = as_word-lt sig.odd_y_parity in
    rw
      (
        mul_word_fits {E = _} u64_mod p c 2 (omega arith),
        add_word_fits {E = _} u64_mod p (as_word sig.odd_y_parity) (c * 2) (omega arith),
      )
      (add_word_fits u64_mod p (as_word sig.odd_y_parity + c * 2) 35 (omega arith))

plain_v-lt : (odd : Bool) (chain_id : Option ℕ) → Fits chain_id → plain_v odd chain_id < u64_mod
unfolding plain_v
plain_v-lt odd none h = omega (arith, as_word-lt odd)
plain_v-lt odd (some c) h = omega (arith, as_word-lt odd, h)

extract-plain :
    (odd : Bool) (chain_id : Option ℕ)
    → Fits chain_id
    → extract_chain_id (plain_v odd chain_id) ≡ ok (odd, chain_id)
unfolding extract_chain_id plain_v as_word
extract-plain true none h = refl
extract-plain false none h = refl
extract-plain true (some c) h =
    let big : ltb (1 + c * 2 + 35) 35 ≡ false = ground arith in
    let parity : ((1 + c * 2 + 35 - 35) % 2 == 0) ≡ false = ground arith in
    let half : (1 + c * 2 + 35 - 35) / 2 ≡ c = omega arith in rw (big, parity, half) refl
extract-plain false (some c) h =
    let big : ltb (0 + c * 2 + 35) 35 ≡ false = ground arith in
    let parity : ((0 + c * 2 + 35 - 35) % 2 == 0) ≡ true = ground arith in
    let half : (0 + c * 2 + 35 - 35) / 2 ≡ c = omega arith in rw (big, parity, half) refl

-- `v` keeps the parity and the chain id: for no chain id, or one whose `v` fits a `u64`, it does
-- not overflow, and `extract_chain_id` reads both back.
pub extract_chain_id-v :
    (p : Profile) (sig : Signature) (chain_id : Option ℕ)
    → Fits chain_id
    → (v p sig chain_id >>= extract_chain_id) ≡ ok (sig.odd_y_parity, chain_id)
extract_chain_id-v p sig chain_id h =
    ap (λ m. m >>= extract_chain_id) (v-plain {E = RlpError} p sig chain_id h)
    ∙ extract-plain sig.odd_y_parity chain_id h

-- Where `r` and `s` have 256 bits, and the chain id is none or one whose `v` fits a `u64`, what
-- `encode_with_eip155_chain_id` appends is decoded as the signature and the chain id, and the bytes
-- that follow are left.
pub decode-encode_with_eip155_chain_id :
    (rlp : Rlp) (p : Profile) (sig : Signature) (chain_id : Option ℕ) (rest : List ℕ)
    → sig.r < u256_mod
    → sig.s < u256_mod
    → Fits chain_id
    → (encode_with_eip155_chain_id rlp p sig chain_id >>= λ bytes.
        decode_with_eip155_chain_id rlp (bytes ++ rest))
      ≡ ok ((sig, chain_id), rest)
unfolding encode_with_eip155_chain_id decode_with_eip155_chain_id
decode-encode_with_eip155_chain_id rlp p sig chain_id rest hr hs h =
    let n = plain_v sig.odd_y_parity chain_id in
    rw
      (
        v-plain {E = RlpError} p sig chain_id h,
        append_assoc (rlp.encode n) (rlp.encode sig.r ++ rlp.encode sig.s) rest,
        append_assoc (rlp.encode sig.r) (rlp.encode sig.s) rest,
        rlp.decode-encode u64_mod n (rlp.encode sig.r ++ (rlp.encode sig.s ++ rest))
            (plain_v-lt sig.odd_y_parity chain_id h),
        rlp.decode-encode u256_mod sig.r (rlp.encode sig.s ++ rest) hr,
        rlp.decode-encode u256_mod sig.s rest hs,
        extract-plain sig.odd_y_parity chain_id h,
      )
      refl
