-- ===== src/Equality/Three/Verification.antt =====
-- What `VerifyEquality` accepts.
use elgamal_bn.Common.{◌≡◌, ◌↔◌, ◌∙◌, ap, sym, refl, Bool, true, some, ok, Option, Bytes, arith}
use elgamal_bn.Gnark.{Gnark, IsLawful}
use elgamal_bn.Gnark.Sigma.{Opens, OpensOver}
use elgamal_bn.Ciphertext.{validate, validate_public_key}
use elgamal_bn.Ciphertext.Validity.{IsKey, IsValid, validate_public_key_iff, validate_iff}
use elgamal_bn.Transcript.{Transcript, opened, written}
use elgamal_bn.Equality.Rows.{check_rows, check_rows_iff}
use elgamal_bn.Equality.Three.{
  EqualityProof, Statement, proof_rows, equality_challenge, equality_inputs, verify_equality,
}

module _ (g : Gnark) where
  pub record IsAdmissible (x : Statement g.Point) : Type 0 where
    pub key1 : IsKey g x.pk1
    pub key2 : IsKey g x.pk2
    pub key3 : IsKey g x.pk3
    pub valid1 : IsValid g x.ct1
    pub valid2 : IsValid g x.ct2
    pub valid3 : IsValid g x.ct3

  -- The two equations of each key.
  pub record EqualityHolds (p : EqualityProof g.Scalar g.Point) (x : Statement g.Point)
      (e : g.Scalar) : Type 0 where
    pub randomness1 : Opens g e p.sr1 p.r11 x.ct1.c1
    pub amount1 : OpensOver g x.pk1 e p.sm p.sr1 p.r21 x.ct1.c2
    pub randomness2 : Opens g e p.sr2 p.r12 x.ct2.c1
    pub amount2 : OpensOver g x.pk2 e p.sm p.sr2 p.r22 x.ct2.c2
    pub randomness3 : Opens g e p.sr3 p.r13 x.ct3.c1
    pub amount3 : OpensOver g x.pk3 e p.sm p.sr3 p.r23 x.ct3.c2

module _ (g : Gnark) (keccak : Bytes → Bytes) where
  -- The verifier on a statement whose parts are all there.
  abbrev pub verify :
      EqualityProof g.Scalar g.Point
      → Statement g.Point
      → Option Transcript
      → Bool × Option Transcript
  verify p x t =
      verify_equality g keccak p (some x.pk1) (some x.pk2) (some x.pk3) (some x.ct1) (some x.ct2)
        (some x.ct3) t

  -- The challenge of a proof.
  abbrev pub challenge :
      EqualityProof g.Scalar g.Point → Statement g.Point → Option Transcript → g.Scalar × Transcript
  challenge p x t = equality_challenge g keccak x p.r11 p.r21 p.r12 p.r22 p.r13 p.r23 (opened t)

module _ (g : Gnark) (keccak : Bytes → Bytes) (L : IsLawful g) where
  inputs_of_admissible :
      (x : Statement g.Point)
      → IsAdmissible g x
      → equality_inputs g keccak
          (some x.pk1)
          (some x.pk2)
          (some x.pk3)
          (some x.ct1)
          (some x.ct2)
          (some x.ct3)
        ≡ ok x
  unfolding equality_inputs
  inputs_of_admissible x a = rw (
    (validate_public_key_iff g x.pk1).1 a.key1,
    (validate_public_key_iff g x.pk2).1 a.key2,
    (validate_public_key_iff g x.pk3).1 a.key3,
    (validate_iff g x.ct1).1 a.valid1,
    (validate_iff g x.ct2).1 a.valid2,
    (validate_iff g x.ct3).1 a.valid3,
  )

  accepted_inputs :
      (p : EqualityProof g.Scalar g.Point) (x : Statement g.Point) (t : Option Transcript)
      → (verify g keccak p x t).0 ≡ true
      → (validate_public_key g (some x.pk1) ≡ ok tt)
        × (validate_public_key g (some x.pk2) ≡ ok tt)
        × (validate_public_key g (some x.pk3) ≡ ok tt)
        × (validate g (some x.ct1) ≡ ok tt)
        × (validate g (some x.ct2) ≡ ok tt)
        × (validate g (some x.ct3) ≡ ok tt)
  unfolding verify_equality equality_inputs
  accepted_inputs p x t h = ground arith

  pub verify_equality_valid :
      (p : EqualityProof g.Scalar g.Point) (x : Statement g.Point) (t : Option Transcript)
      → IsAdmissible g x
      → let (e, t') = challenge g keccak p x t in
        verify g keccak p x t ≡ (check_rows g e p.sm (proof_rows g p x), written t t')
  unfolding verify_equality
  verify_equality_valid p x t a = rw (inputs_of_admissible x a) refl

  pub check_rows_holds_iff :
      (p : EqualityProof g.Scalar g.Point) (x : Statement g.Point) (e : g.Scalar)
      → (check_rows g e p.sm (proof_rows g p x) ≡ true) ↔ EqualityHolds g p x e
  check_rows_holds_iff p x e =
      let rows = check_rows_iff g L e p.sm (proof_rows g p x) in
      (
        λ h.
            let ((r1, m1), ((r2, m2), ((r3, m3), _))) = rows.0 h in
            record {
              randomness1 = r1;
              amount1 = m1;
              randomness2 = r2;
              amount2 = m2;
              randomness3 = r3;
              amount3 = m3;
            },
        λ h. rows.1 (
          (h.randomness1, h.amount1),
          ((h.randomness2, h.amount2), ((h.randomness3, h.amount3), tt)),
        ),
      )

  -- `VerifyEquality` answers true exactly for three usable keys and three valid ciphertexts with
  -- which the proof meets both equations of every key at the challenge that the transcript gives.
  pub verify_equality_iff :
      (p : EqualityProof g.Scalar g.Point) (x : Statement g.Point) (t : Option Transcript)
      → ((verify g keccak p x t).0 ≡ true)
        ↔ (IsAdmissible g x × EqualityHolds g p x (challenge g keccak p x t).0)
  verify_equality_iff p x t = (
    λ h.
        let (k1, k2, k3, v1, v2, v3) = accepted_inputs p x t h in
        let a : IsAdmissible g x = record {
          key1 = (validate_public_key_iff g x.pk1).0 k1;
          key2 = (validate_public_key_iff g x.pk2).0 k2;
          key3 = (validate_public_key_iff g x.pk3).0 k3;
          valid1 = (validate_iff g x.ct1).0 v1;
          valid2 = (validate_iff g x.ct2).0 v2;
          valid3 = (validate_iff g x.ct3).0 v3;
        } in
        (
          a,
          (check_rows_holds_iff p x _).0 (sym (ap (λ r. r.0) (verify_equality_valid p x t a)) ∙ h),
        ),
    λ (a, h). ap (λ r. r.0) (verify_equality_valid p x t a) ∙ (check_rows_holds_iff p x _).1 h,
  )
