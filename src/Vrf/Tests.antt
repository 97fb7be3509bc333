-- ===== src/Vrf/Tests.antt =====
-- The theorems on keys, proofs and selection at concrete values.
use aos_operator.Shared.{ℕ, ◌%◌, ◌^◌, ◌≡◌, refl, some, [], ◌∷◌, ok, ltb, arith, length}
use aos_operator.Shared.Text.{codes}
use aos_operator.Shared.Hex.{be_value}
use aos_operator.Shared.Machine.{checked, wrapping}
use aos_operator.Vrf.Curve.{Bytes}
use aos_operator.Vrf.Ecvrf.{
  Proof, VrfExpandedPrivateKey, expand, candidate, prove, verify, prove_at, to_bytes, try_from,
  proof_length, output,
}
use aos_operator.Vrf.Ecvrf.Completeness.{verify-prove}
use aos_operator.Vrf.Ecvrf.Encoding.{try_from-to_bytes}
use aos_operator.Vrf.Sampler.{Sampler}
use aos_operator.Vrf.Reply.{VrfReply, reply}
use aos_operator.Vrf.Reply.Selection.{reply_selected}
use aos_operator.Vrf.Instance.{toy_curve, toy_hex}

abbrev secret : Bytes
secret = 9 ∷ 200 ∷ []

abbrev public_bytes : Bytes
public_bytes = toy_curve.verifying_key secret

on_base :
    toy_curve.decompress public_bytes
    ≡ some (toy_curve.mul toy_curve.basepoint (expand toy_curve secret).key)
unfolding expand
on_base = refl

found : (point : ℕ) × (candidate toy_curve public_bytes (codes "prompt") 0 ≡ some point)
unfolding candidate
found = (_, refl)

verify-prove_example :
    (proof : Proof toy_curve) × (prove toy_curve checked secret (codes "prompt") ≡ some (ok proof))
    × (verify toy_curve wrapping public_bytes proof (codes "prompt") ≡ some (ok tt))
verify-prove_example =
    verify-prove toy_curve checked wrapping secret (codes "prompt") 0 on_base found.1 (omega arith)

abbrev key : VrfExpandedPrivateKey toy_curve
key = record { key = 77; nonce = 1 ∷ 2 ∷ [] }

try_from-to_bytes_example :
    (length (to_bytes toy_curve (prove_at toy_curve key 5)) ≡ proof_length)
    × (try_from toy_curve (to_bytes toy_curve (prove_at toy_curve key 5))
        ≡ ok (prove_at toy_curve key 5))
try_from-to_bytes_example = try_from-to_bytes toy_curve key 5

abbrev sampler : Sampler
sampler = record { precision = 16 }

abbrev a_proof : Proof toy_curve
a_proof = record { gamma = 12; c = 3; s = 4 }

reply_selected_example :
    (r : VrfReply) × (reply toy_curve toy_hex checked public_bytes a_proof (codes "h") 4 1000
      ≡ ok r)
    × (r.selected ≡ ltb (be_value (output toy_curve a_proof) % 16 ^ 4) 1000)
reply_selected_example =
    reply_selected toy_curve toy_hex checked public_bytes a_proof (codes "h") 4 1000 (omega arith)
      (omega arith)
