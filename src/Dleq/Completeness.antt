-- ===== src/Dleq/Completeness.antt =====
-- Honest proofs of correct decryption are accepted.
use elgamal_bn.Common.{ℕ, ◌*◌, ◌≡◌, ◌∙◌, sym, ap, refl, true, some, ok, Option, Bytes, arith}
use elgamal_bn.Gnark.{Gnark, IsLawful}
use elgamal_bn.Gnark.Group.{
  multiple, sum_eq, scalar_mul_eq, difference_eq, multiple_response, scalar_mul_response,
}
use elgamal_bn.Random.{Random, Rng, random_scalar}
use elgamal_bn.Ciphertext.{Ciphertext}
use elgamal_bn.Ciphertext.Validity.{IsKey, IsValid}
use elgamal_bn.Elgamal.Homomorphic.{Encrypts}
use elgamal_bn.Transcript.{Transcript, opened, written}
use elgamal_bn.Dleq.{DleqProof, dleq_challenge, dleq_response, prove_dleq, verify_dleq}
use elgamal_bn.Dleq.Verification.{DleqHolds, dleq_checks_iff, verify_dleq_valid}

module _ {g : Gnark} (L : IsLawful g) where
  honest_DleqHolds :
      (sk k e : g.Scalar) (ct : Ciphertext g.Point) (amount r : ℕ)
      → Encrypts g (g.big_int sk) amount r ct
      → DleqHolds g
          (record {
            s = g.add k (g.mul e sk);
            r1 = multiple g (g.big_int k);
            r2 = g.scalar_mul ct.c1 (g.big_int k);
          })
          (multiple g (g.big_int sk))
          ct
          amount
          e
  honest_DleqHolds sk k e ct amount r (h1, h2) =
      let x = g.big_int sk in
      let y = g.big_int e in
      let z = g.big_int k in
      (
        multiple_response L k e sk
            ∙ ap (multiple g) (omega arith)
            ∙ sym (sum_eq L z (x * y) refl (L.scalar_mul_multiple x y)),
        ap (λ p. g.scalar_mul p (g.big_int (g.add k (g.mul e sk)))) h1
            ∙ scalar_mul_response L r k e sk
            ∙ ap (multiple g) (omega arith)
            ∙ sym (
                sum_eq L (r * z) (x * r * y) (scalar_mul_eq L r z h1) (
                  scalar_mul_eq L (x * r) y
                    (difference_eq L (x * r) amount (h2 ∙ ap (multiple g) (omega arith)) refl))),
      )

module _ (g : Gnark) (keccak : Bytes → Bytes) (ρ : Random) (L : IsLawful g) where
  -- What the verifier answers to the proof that the prover makes from the nonce `k`.
  accepts_response :
      (sk k : g.Scalar) (ct : Ciphertext g.Point) (amount r : ℕ) (t : Option Transcript)
      → IsKey g (multiple g (g.big_int sk))
      → IsValid g ct
      → Encrypts g (g.big_int sk) amount r ct
      → let out = dleq_response g keccak sk (multiple g (g.big_int sk)) ct amount t k in
        verify_dleq g keccak out.0 (some (multiple g (g.big_int sk))) (some ct) amount t
        ≡ (true, out.1)
  unfolding dleq_response
  accepts_response sk k ct amount r t key valid enc =
      let pk = multiple g (g.big_int sk) in
      let out = dleq_response g keccak sk pk ct amount t k in
      let e = dleq_challenge g keccak pk ct amount out.0.r1 out.0.r2 (opened t) in
      verify_dleq_valid g keccak L out.0 pk ct amount t key valid
      ∙ ap (λ b. (b, written t e.1))
          ((dleq_checks_iff g keccak L out.0 pk ct amount e.0).1
            (honest_DleqHolds L sk k e.0 ct amount r enc))

  -- Whenever a nonce can be drawn, the key's owner gets a proof for a valid ciphertext and its
  -- amount; it is accepted, and the verifier leaves its transcript as the prover left the same one.
  pub verify_dleq-prove_dleq :
      (sk k : g.Scalar) (ct : Ciphertext g.Point) (amount r : ℕ) (t : Option Transcript)
      (rng rng' : Rng ρ)
      → IsKey g (multiple g (g.big_int sk))
      → IsValid g ct
      → Encrypts g (g.big_int sk) amount r ct
      → random_scalar g ρ rng ≡ ok (k, rng')
      → (out : DleqProof g.Scalar g.Point × Option Transcript) × (prove_dleq g keccak ρ sk
            (multiple g (g.big_int sk))
            ct
            amount
            t
            rng
          ≡ ok (out, rng'))
        × (verify_dleq g keccak out.0 (some (multiple g (g.big_int sk))) (some ct) amount t
            ≡ (true, out.1))
  unfolding prove_dleq
  verify_dleq-prove_dleq sk k ct amount r t rng rng' key valid enc drawn = (
    dleq_response g keccak sk (multiple g (g.big_int sk)) ct amount t k,
    rw drawn refl,
    accepts_response sk k ct amount r t key valid enc,
  )
