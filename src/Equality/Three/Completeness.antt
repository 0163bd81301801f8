-- ===== src/Equality/Three/Completeness.antt =====
-- Honest proofs for three keys are accepted.
use elgamal_bn.Common.{ℕ, ◌≡◌, ◌∙◌, ap, refl, true, ok, Option, Bytes}
use elgamal_bn.Gnark.{Gnark, IsLawful}
use elgamal_bn.Gnark.Group.{multiple}
use elgamal_bn.Random.{Random, Rng, random_scalar}
use elgamal_bn.Elgamal.Homomorphic.{Encrypts}
use elgamal_bn.Transcript.{Transcript, written}
use elgamal_bn.Equality.Rows.{AllRows, RowHolds, check_rows_iff}
use elgamal_bn.Equality.Rows.Completeness.{honest-RowHolds}
use elgamal_bn.Equality.Three.{
  EqualityProof, Statement, proof_rows, equality_response, prove_equality,
}
use elgamal_bn.Equality.Three.Verification.{IsAdmissible, verify, challenge, verify_equality_valid}

module _ (g : Gnark) where
  -- The ciphertexts of the statement are those that `amount` has with the randomness `r1`, `r2` and
  -- `r3` under the keys `x1 * G`, `x2 * G` and `x3 * G`.
  pub record IsWitness (amount : ℕ) (r1 r2 r3 : g.Scalar) (x1 x2 x3 : ℕ) (x : Statement g.Point)
      : Type 0 where
    pub key1 : x.pk1 ≡ multiple g x1
    pub key2 : x.pk2 ≡ multiple g x2
    pub key3 : x.pk3 ≡ multiple g x3
    pub encrypts1 : Encrypts g x1 amount (g.big_int r1) x.ct1
    pub encrypts2 : Encrypts g x2 amount (g.big_int r2) x.ct2
    pub encrypts3 : Encrypts g x3 amount (g.big_int r3) x.ct3

module _ (g : Gnark) (keccak : Bytes → Bytes) (L : IsLawful g) where
  honest_rows :
      (amount : ℕ) (r1 r2 r3 km kr1 kr2 kr3 : g.Scalar) (x1 x2 x3 : ℕ) (x : Statement g.Point)
      (t : Option Transcript)
      → IsWitness g amount r1 r2 r3 x1 x2 x3 x
      → let out = equality_response g keccak amount r1 r2 r3 x t km kr1 kr2 kr3 in
        AllRows g (RowHolds g (challenge g keccak out.0 x t).0 out.0.sm) (proof_rows g out.0 x)
  unfolding equality_response
  honest_rows amount r1 r2 r3 km kr1 kr2 kr3 x1 x2 x3 x t w = (
    honest-RowHolds L _ km kr1 r1 x.pk1 x.ct1 amount x1 w.key1 w.encrypts1,
    (
      honest-RowHolds L _ km kr2 r2 x.pk2 x.ct2 amount x2 w.key2 w.encrypts2,
      (honest-RowHolds L _ km kr3 r3 x.pk3 x.ct3 amount x3 w.key3 w.encrypts3, tt),
    ),
  )

  written_response :
      (amount : ℕ) (r1 r2 r3 km kr1 kr2 kr3 : g.Scalar) (x : Statement g.Point)
      (t : Option Transcript)
      → let out = equality_response g keccak amount r1 r2 r3 x t km kr1 kr2 kr3 in
        written t (challenge g keccak out.0 x t).1 ≡ out.1
  unfolding equality_response
  written_response amount r1 r2 r3 km kr1 kr2 kr3 x t = refl

module _ (g : Gnark) (keccak : Bytes → Bytes) (ρ : Random) (L : IsLawful g) where
  -- Whenever four nonces can be drawn, a caller who knows the randomness of three valid encryptions
  -- of one amount under three usable keys gets a proof; it is accepted, and the verifier leaves its
  -- transcript as the prover left the same one.
  pub verify-prove_equality :
      (amount : ℕ) (r1 r2 r3 km kr1 kr2 kr3 : g.Scalar) (x1 x2 x3 : ℕ) (x : Statement g.Point)
      (t : Option Transcript) (rng rng1 rng2 rng3 rng4 : Rng ρ)
      → IsAdmissible g x
      → IsWitness g amount r1 r2 r3 x1 x2 x3 x
      → random_scalar g ρ rng ≡ ok (km, rng1)
      → random_scalar g ρ rng1 ≡ ok (kr1, rng2)
      → random_scalar g ρ rng2 ≡ ok (kr2, rng3)
      → random_scalar g ρ rng3 ≡ ok (kr3, rng4)
      → (out : EqualityProof g.Scalar g.Point × Option Transcript) × (prove_equality g keccak ρ
            amount r1 r2 r3 x t rng
          ≡ ok (out, rng4))
        × (verify g keccak out.0 x t ≡ (true, out.1))
  unfolding prove_equality
  verify-prove_equality amount r1 r2 r3 km kr1 kr2 kr3 x1 x2 x3 x t rng rng1 rng2 rng3 rng4 a w d1
        d2 d3 d4 =
      let out = equality_response g keccak amount r1 r2 r3 x t km kr1 kr2 kr3 in
      let rows = honest_rows g keccak L amount r1 r2 r3 km kr1 kr2 kr3 x1 x2 x3 x t w in
      let passed = (check_rows_iff g L _ out.0.sm (proof_rows g out.0 x)).1 rows in
      (
        out,
        rw (d1, d2, d3, d4) refl,
        verify_equality_valid g keccak L out.0 x t a
            ∙ ap (λ b. (b, written t (challenge g keccak out.0 x t).1)) passed
            ∙ ap (λ u. (true, u)) (written_response g keccak L amount r1 r2 r3 km kr1 kr2 kr3 x t),
      )
