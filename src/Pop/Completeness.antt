-- ===== src/Pop/Completeness.antt =====
-- Honest proofs of possession are accepted.
use elgamal_bn.Common.{◌≡◌, ◌∙◌, ap, refl, true, false, some, ok, Option, Bytes}
use elgamal_bn.Gnark.{Gnark, IsLawful}
use elgamal_bn.Gnark.Group.{multiple}
use elgamal_bn.Gnark.Sigma.{honest-Opens}
use elgamal_bn.Random.{Random, Rng, random_scalar}
use elgamal_bn.Ciphertext.Validity.{IsKey, validate_public_key_iff}
use elgamal_bn.Transcript.{Transcript, opened, written}
use elgamal_bn.Pop.{
  PopProof, pop_challenge, pop_response, pop_check, prove_possession, verify_possession,
}
use elgamal_bn.Pop.Verification.{verify_possession_valid}

module _ (g : Gnark) (keccak : Bytes → Bytes) (ρ : Random) (L : IsLawful g) where
  accepts_response :
      (sk k : g.Scalar) (t : Option Transcript)
      → IsKey g (multiple g (g.big_int sk))
      → g.is_infinity (multiple g (g.big_int k)) ≡ false
      → let out = pop_response g keccak sk (multiple g (g.big_int sk)) t k in
        verify_possession g keccak (some out.0) (some (multiple g (g.big_int sk))) t ≡ (true, out.1)
  unfolding pop_response pop_check
  accepts_response sk k t key ne =
      let pk = multiple g (g.big_int sk) in
      let out = pop_response g keccak sk pk t k in
      let e = pop_challenge g keccak pk out.0.a (opened t) in
      verify_possession_valid g keccak L out.0 pk t key (L.is_on_curve_multiple (g.big_int k), ne)
      ∙ ap (λ b. (b, written t e.1))
          ((L.equal_iff _ _).1 (honest-Opens L e.0 k sk (multiple g (g.big_int sk)) refl))

  -- Whenever a nonce other than zero can be drawn, the key's owner gets a proof of possession; it is
  -- accepted, and the verifier leaves its transcript as the prover left the same one.
  pub verify_possession-prove_possession :
      (sk k : g.Scalar) (t : Option Transcript) (rng rng' : Rng ρ)
      → IsKey g (multiple g (g.big_int sk))
      → random_scalar g ρ rng ≡ ok (k, rng')
      → g.is_infinity (multiple g (g.big_int k)) ≡ false
      → (out : PopProof g.Scalar g.Point × Option Transcript) × (prove_possession g keccak ρ
            (some sk)
            (some (multiple g (g.big_int sk)))
            t
            rng
          ≡ ok (out, rng'))
        × (verify_possession g keccak (some out.0) (some (multiple g (g.big_int sk))) t
            ≡ (true, out.1))
  unfolding prove_possession
  verify_possession-prove_possession sk k t rng rng' key drawn ne = (
    pop_response g keccak sk (multiple g (g.big_int sk)) t k,
    rw ((validate_public_key_iff g (multiple g (g.big_int sk))).1 key, drawn) refl,
    accepts_response sk k t key ne,
  )
