-- ===== src/CommitmentEquality/Verification.antt =====
-- What `VerifyCommitmentEquality` accepts.
use elgamal_bn.Common.{◌≡◌, ◌↔◌, ◌∙◌, ap, sym, refl, true, some, ok, Option, Bytes, arith}
use elgamal_bn.Common.{and_then_iff}
use elgamal_bn.Gnark.{Gnark, IsLawful}
use elgamal_bn.Gnark.Sigma.{Opens, OpensOver}
use elgamal_bn.Ciphertext.{validate, validate_public_key}
use elgamal_bn.Ciphertext.Validity.{IsKey, IsValid, validate_public_key_iff, validate_iff}
use elgamal_bn.Transcript.{Transcript, opened, written}
use elgamal_bn.CommitmentEquality.{
  CommitmentProof, Statement, commitment_challenge, commitment_checks, commitment_inputs,
  verify_commitment_equality,
}

module _ (g : Gnark) where
  -- The inputs that pass the checks before the challenge.
  pub record IsAdmissible (proof : CommitmentProof g.Scalar g.Point) (x : Statement g.Point)
      : Type 0 where
    pub key : IsKey g x.pk
    pub base : IsKey g x.h
    pub valid : IsValid g x.ct
    pub commitment : IsKey g x.commitment
    pub first : IsKey g proof.a1
    pub second : IsKey g proof.a2
    pub third : IsKey g proof.a3

  -- The three equations.
  pub record CommitmentHolds (proof : CommitmentProof g.Scalar g.Point) (x : Statement g.Point)
      (e : g.Scalar) : Type 0 where
    pub randomness : Opens g e proof.zr proof.a1 x.ct.c1
    pub value : OpensOver g x.pk e proof.zv proof.zr proof.a2 x.ct.c2
    pub blinding : OpensOver g x.h e proof.zv proof.zs proof.a3 x.commitment

module _ (g : Gnark) (keccak : Bytes → Bytes) (L : IsLawful g) where
  pub commitment_checks_iff :
      (proof : CommitmentProof g.Scalar g.Point) (x : Statement g.Point) (e : g.Scalar)
      → (commitment_checks g keccak proof x e ≡ true) ↔ CommitmentHolds g proof x e
  unfolding commitment_checks
  commitment_checks_iff proof x e =
      let tests =
        and_then_iff _ _ (L.equal_iff _ _) (and_then_iff _ _ (L.equal_iff _ _) (L.equal_iff _ _)) in
      (
        λ h.
            let (h1, (h2, h3)) = tests.0 h in record { randomness = h1; value = h2; blinding = h3 },
        λ h. tests.1 (h.randomness, (h.value, h.blinding)),
      )

  inputs_of_admissible :
      (proof : CommitmentProof g.Scalar g.Point) (x : Statement g.Point)
      → IsAdmissible g proof x
      → commitment_inputs g keccak
          (some proof)
          (some x.pk)
          (some x.h)
          (some x.ct)
          (some x.commitment)
        ≡ ok (proof, x)
  unfolding commitment_inputs
  inputs_of_admissible proof x a = rw (
    (validate_public_key_iff g x.pk).1 a.key,
    (validate_public_key_iff g x.h).1 a.base,
    (validate_iff g x.ct).1 a.valid,
    a.commitment.0,
    a.commitment.1,
    a.first.0,
    a.first.1,
    a.second.0,
    a.second.1,
    a.third.0,
    a.third.1,
  )

  accepted_inputs :
      (proof : CommitmentProof g.Scalar g.Point) (x : Statement g.Point) (t : Option Transcript)
      → (verify_commitment_equality g keccak
          (some proof)
          (some x.pk)
          (some x.h)
          (some x.ct)
          (some x.commitment)
          t).0
        ≡ true
      → (validate_public_key g (some x.pk) ≡ ok tt)
        × (validate_public_key g (some x.h) ≡ ok tt)
        × (validate g (some x.ct) ≡ ok tt)
        × IsKey g x.commitment
        × IsKey g proof.a1
        × IsKey g proof.a2
        × IsKey g proof.a3
  unfolding verify_commitment_equality commitment_inputs
  accepted_inputs proof x t h = ground arith

  pub verify_commitment_equality_valid :
      (proof : CommitmentProof g.Scalar g.Point) (x : Statement g.Point) (t : Option Transcript)
      → IsAdmissible g proof x
      → let (e, t') = commitment_challenge g keccak x proof.a1 proof.a2 proof.a3 (opened t) in
        verify_commitment_equality g keccak
          (some proof)
          (some x.pk)
          (some x.h)
          (some x.ct)
          (some x.commitment)
          t
        ≡ (commitment_checks g keccak proof x e, written t t')
  unfolding verify_commitment_equality
  verify_commitment_equality_valid proof x t a = rw (inputs_of_admissible proof x a) refl

  -- `VerifyCommitmentEquality` answers true exactly if the key and the second base are usable, the
  -- ciphertext is valid, the commitment and the three nonce commitments are points of the curve
  -- other than the identity, and the three equations hold at the transcript's challenge.
  pub verify_commitment_equality_iff :
      (proof : CommitmentProof g.Scalar g.Point) (x : Statement g.Point) (t : Option Transcript)
      → ((verify_commitment_equality g keccak
            (some proof)
            (some x.pk)
            (some x.h)
            (some x.ct)
            (some x.commitment)
            t).0
          ≡ true)
        ↔ (IsAdmissible g proof x
            × CommitmentHolds g proof x
                (commitment_challenge g keccak x proof.a1 proof.a2 proof.a3 (opened t)).0)
  verify_commitment_equality_iff proof x t = (
    λ h.
        let (key, base, ct, p, a1, a2, a3) = accepted_inputs proof x t h in
        let a : IsAdmissible g proof x = record {
          key = (validate_public_key_iff g x.pk).0 key;
          base = (validate_public_key_iff g x.h).0 base;
          valid = (validate_iff g x.ct).0 ct;
          commitment = p;
          first = a1;
          second = a2;
          third = a3;
        } in
        (
          a,
          (commitment_checks_iff proof x _).0
              (sym (ap (λ r. r.0) (verify_commitment_equality_valid proof x t a)) ∙ h),
        ),
    λ (a, h).
        ap (λ r. r.0) (verify_commitment_equality_valid proof x t a)
        ∙ (commitment_checks_iff proof x _).1 h,
  )
