-- ===== src/Dleq/Verification.antt =====
-- What `VerifyDLEQ` accepts, in equations between points.
use elgamal_bn.Common.{
  ℕ, ◌≡◌, ◌↔◌, ◌∙◌, ap, sym, true, some, ok, and_then_iff, Option, Bytes, arith,
}
use elgamal_bn.Gnark.{Gnark, IsLawful}
use elgamal_bn.Gnark.Group.{multiple, jacobian_sum}
use elgamal_bn.Ciphertext.{Ciphertext, validate, validate_public_key}
use elgamal_bn.Ciphertext.Validity.{IsKey, IsValid, validate_iff, validate_public_key_iff}
use elgamal_bn.Transcript.{Transcript, opened, written}
use elgamal_bn.Dleq.{DleqProof, dleq_challenge, dleq_checks, verify_dleq}

module _ (g : Gnark) where
  -- `s*G == r1 + e*pk` and `s*c1 == r2 + e*(c2 - amount*G)`
  abbrev pub DleqHolds :
      DleqProof g.Scalar g.Point → g.Point → Ciphertext g.Point → ℕ → g.Scalar → Type 0
  DleqHolds proof pk ct amount e =
      (multiple g (g.big_int proof.s) ≡ jacobian_sum g proof.r1 (g.scalar_mul pk (g.big_int e)))
      × (g.scalar_mul ct.c1 (g.big_int proof.s)
          ≡ jacobian_sum g proof.r2
              (g.scalar_mul (jacobian_sum g ct.c2 (g.neg (multiple g amount))) (g.big_int e)))

module _ (g : Gnark) (keccak : Bytes → Bytes) (L : IsLawful g) where
  pub dleq_checks_iff :
      (proof : DleqProof g.Scalar g.Point) (pk : g.Point) (ct : Ciphertext g.Point) (amount : ℕ)
      (e : g.Scalar)
      → (dleq_checks g keccak proof pk ct amount e ≡ true) ↔ DleqHolds g proof pk ct amount e
  unfolding dleq_checks
  dleq_checks_iff proof pk ct amount e = and_then_iff _ _ (L.equal_iff _ _) (L.equal_iff _ _)

  -- Past the validators, the answer is that of the two equations at the transcript's challenge.
  pub verify_dleq_valid :
      (proof : DleqProof g.Scalar g.Point) (pk : g.Point) (ct : Ciphertext g.Point) (amount : ℕ)
      (t : Option Transcript)
      → IsKey g pk
      → IsValid g ct
      → let (e, t') = dleq_challenge g keccak pk ct amount proof.r1 proof.r2 (opened t) in
        verify_dleq g keccak proof (some pk) (some ct) amount t
        ≡ (dleq_checks g keccak proof pk ct amount e, written t t')
  unfolding verify_dleq
  verify_dleq_valid proof pk ct amount t k v =
      rw ((validate_public_key_iff g pk).1 k, (validate_iff g ct).1 v)

  accepted_inputs :
      (proof : DleqProof g.Scalar g.Point) (pk : g.Point) (ct : Ciphertext g.Point) (amount : ℕ)
      (t : Option Transcript)
      → (verify_dleq g keccak proof (some pk) (some ct) amount t).0 ≡ true
      → (validate_public_key g (some pk) ≡ ok tt) × (validate g (some ct) ≡ ok tt)
  unfolding verify_dleq
  accepted_inputs proof pk ct amount t h = ground arith

  -- `VerifyDLEQ` answers true exactly for a usable key and a valid ciphertext with which the proof
  -- meets both equations at the challenge that the transcript gives.
  pub verify_dleq_iff :
      (proof : DleqProof g.Scalar g.Point) (pk : g.Point) (ct : Ciphertext g.Point) (amount : ℕ)
      (t : Option Transcript)
      → ((verify_dleq g keccak proof (some pk) (some ct) amount t).0 ≡ true) ↔ (
          IsKey g pk
          × IsValid g ct
          × DleqHolds g proof pk ct amount
              (dleq_challenge g keccak pk ct amount proof.r1 proof.r2 (opened t)).0)
  verify_dleq_iff proof pk ct amount t = (
    λ h.
        let (k, v) = accepted_inputs proof pk ct amount t h in
        let key = (validate_public_key_iff g pk).0 k in
        let valid = (validate_iff g ct).0 v in
        (
          key,
          valid,
          (dleq_checks_iff proof pk ct amount _).0
              (sym (ap (λ r. r.0) (verify_dleq_valid proof pk ct amount t key valid)) ∙ h),
        ),
    λ (k, v, h).
        ap (λ r. r.0) (verify_dleq_valid proof pk ct amount t k v)
        ∙ (dleq_checks_iff proof pk ct amount _).1 h,
  )
