-- ===== src/Vrf/Reply.antt =====
-- operator/runer/src/api/vrf_key.rs: the reply that tells whether this operator is selected.
pub mod Selection
use aos_operator.Shared.{
  ℕ, ◌*◌, ◌-◌, Bool, false, [], Outcome, ok, panic, ◌>>=◌, some, ◌&&◌, leb, if◌then◌else◌, length,
  take, drop,
}
use aos_operator.Shared.Machine.{Profile, u64_mod, sub_word}
use aos_operator.Shared.Text.{Text}
use aos_operator.Shared.Hex.{HexCrates}
use aos_operator.Vrf.Curve.{Curve, Bytes}
use aos_operator.Vrf.Ecvrf.{
  Proof, VerifyError, Fueled, and_then, output_length, output, to_bytes, prove,
}
use aos_operator.Vrf.Sampler.{Sampler, hex_to_biguint, meets_threshold}
use aos_operator.Vrf.Sampler

pub record VrfReply : Type 0 where
  pub selected : Bool
  pub vrf_prompt_hash : Text
  pub vrf_random_value : Text
  pub vrf_verify_pubkey : Text
  pub vrf_proof : Text

-- `VRFReply::default()`
abbrev pub default_reply : VrfReply
default_reply = record {
  selected = false;
  vrf_prompt_hash = [];
  vrf_random_value = [];
  vrf_verify_pubkey = [];
  vrf_proof = [];
}

-- `&s[start..end]`, on ASCII text.
unfoldable pub slice : {E : Type 0} → Text → ℕ → ℕ → Outcome E Text
slice s start end =
    if leb start end && leb end (length s) then ok (take (end - start) (drop start s)) else panic

module _ (curve : Curve) (crates : HexCrates) where
  open crates use {encode}

  -- `run_vrf` from its proof on.
  unfoldable pub reply : Profile → Bytes → Proof curve → Text → ℕ → ℕ → Outcome VerifyError VrfReply
  reply p public_key proof vrf_prompt_hash vrf_precision vrf_threshold = do
    start ← sub_word u64_mod p (output_length * 2) vrf_precision
    let random_num = encode (output curve proof)
    random_str ← slice random_num start (output_length * 2)
    let vrf_sampler = Sampler.new (vrf_precision * 4)
    random_bigint ← hex_to_biguint crates vrf_sampler random_str
    ok (record {
      selected = meets_threshold vrf_sampler random_bigint vrf_threshold;
      vrf_prompt_hash = vrf_prompt_hash;
      vrf_random_value = random_num;
      vrf_verify_pubkey = encode public_key;
      vrf_proof = encode (to_bytes curve proof);
    })

  -- `VRFPrivKey::run_vrf`
  unfoldable pub run_vrf : Profile → Bytes → Text → ℕ → ℕ → Fueled VerifyError VrfReply
  run_vrf p private_key vrf_prompt_hash vrf_precision vrf_threshold =
      and_then (prove curve p private_key vrf_prompt_hash) λ proof. some (
        reply p (curve.verifying_key private_key) proof vrf_prompt_hash vrf_precision vrf_threshold)
