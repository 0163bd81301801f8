-- ===== src/Equality/Two/Verification.antt =====
-- What `VerifyEquality2` accepts.
use elgamal_bn.Common.{◌≡◌, ◌↔◌, ◌∙◌, ap, sym, refl, Bool, true, some, ok, Option, Bytes, arith}
use elgamal_bn.Gnark.{Gnark, IsLawful}
use elgamal_bn.Gnark.Sigma.{Opens, OpensOver}
use elgamal_bn.Ciphertext.{validate, validate_public_key}
use elgamal_bn.Ciphertext.Validity.{IsKey, IsValid, validate_public_key_iff, validate_iff}
use elgamal_bn.Transcript.{Transcript, opened, written}
use elgamal_bn.Equality.Rows.{check_rows, check_rows_iff}
use elgamal_bn.Equality.Two.{
  Equality2Proof, Statement, proof_rows, equality2_challenge, equality2_inputs, verify_equality2,
}

module _ (g : Gnark) where
  pub record IsAdmissible (x : Statement g.Point) : Type 0 where
    pub key1 : IsKey g x.pk1
    pub key2 : IsKey g x.pk2
    pub valid1 : IsValid g x.ct1
    pub valid2 : IsValid g x.ct2

  -- The two equations of each key.
  pub record EqualityHolds (p : Equality2Proof g.Scalar g.Point) (x : Statement g.Point)
      (e : g.Scalar) : Type 0 where
    pub randomness1 : Opens g e p.sr1 p.r11 x.ct1.c1
    pub amount1 : OpensOver g x.pk1 e p.sm p.sr1 p.r21 x.ct1.c2
    pub randomness2 : Opens g e p.sr2 p.r12 x.ct2.c1
    pub amount2 : OpensOver g x.pk2 e p.sm p.sr2 p.r22 x.ct2.c2

module _ (g : Gnark) (keccak : Bytes → Bytes) where
  -- The verifier on a statement whose parts are all there.
  abbrev pub verify :
      Equality2Proof g.Scalar g.Point
      → Statement g.Point
      → Option Transcript
      → Bool × Option Transcript
  verify p x t = verify_equality2 g keccak p (some x.pk1) (some x.pk2) (some x.ct1) (some x.ct2) t

  -- The challenge of a proof.
  abbrev pub challenge :
      Equality2Proof g.Scalar g.Point
      → Statement g.Point
      → Option Transcript
      → g.Scalar × Transcript
  challenge p x t = equality2_challenge g keccak x p.r11 p.r21 p.r12 p.r22 (opened t)

module _ (g : Gnark) (keccak : Bytes → Bytes) (L : IsLawful g) where
  inputs_of_admissible :
      (x : Statement g.Point)
      → IsAdmissible g x
      → equality2_inputs g keccak (some x.pk1) (some x.pk2) (some x.ct1) (some x.ct2) ≡ ok x
  unfolding equality2_inputs
  inputs_of_admissible x a = rw (
    (validate_public_key_iff g x.pk1).1 a.key1,
    (validate_public_key_iff g x.pk2).1 a.key2,
    (validate_iff g x.ct1).1 a.valid1,
    (validate_iff g x.ct2).1 a.valid2,
  )

  accepted_inputs :
      (p : Equality2Proof g.Scalar g.Point) (x : Statement g.Point) (t : Option Transcript)
      → (verify g keccak p x t).0 ≡ true
      → (validate_public_key g (some x.pk1) ≡ ok tt)
        × (validate_public_key g (some x.pk2) ≡ ok tt)
        × (validate g (some x.ct1) ≡ ok tt)
        × (validate g (some x.ct2) ≡ ok tt)
  unfolding verify_equality2 equality2_inputs
  accepted_inputs p x t h = ground arith

  pub verify_equality2_valid :
      (p : Equality2Proof g.Scalar g.Point) (x : Statement g.Point) (t : Option Transcript)
      → IsAdmissible g x
      → let (e, t') = challenge g keccak p x t in
        verify g keccak p x t ≡ (check_rows g e p.sm (proof_rows g p x), written t t')
  unfolding verify_equality2
  verify_equality2_valid p x t a = rw (inputs_of_admissible x a) refl

  pub check_rows_holds_iff :
      (p : Equality2Proof g.Scalar g.Point) (x : Statement g.Point) (e : g.Scalar)
      → (check_rows g e p.sm (proof_rows g p x) ≡ true) ↔ EqualityHolds g p x e
  check_rows_holds_iff p x e =
      let rows = check_rows_iff g L e p.sm (proof_rows g p x) in
      (
        λ h.
            let ((r1, m1), ((r2, m2), _)) = rows.0 h in
            record { randomness1 = r1; amount1 = m1; randomness2 = r2; amount2 = m2 },
        λ h. rows.1 ((h.randomness1, h.amount1), ((h.randomness2, h.amount2), tt)),
      )

  -- `VerifyEquality2` answers true exactly for two usable keys and two valid ciphertexts with
  -- which the proof meets both equations of every key at the challenge that the transcript gives.
  pub verify_equality2_iff :
      (p : Equality2Proof g.Scalar g.Point) (x : Statement g.Point) (t : Option Transcript)
      → ((verify g keccak p x t).0 ≡ true)
        ↔ (IsAdmissible g x × EqualityHolds g p x (challenge g keccak p x t).0)
  verify_equality2_iff p x t = (
    λ h.
        let (k1, k2, v1, v2) = accepted_inputs p x t h in
        let a : IsAdmissible g x = record {
          key1 = (validate_public_key_iff g x.pk1).0 k1;
          key2 = (validate_public_key_iff g x.pk2).0 k2;
          valid1 = (validate_iff g x.ct1).0 v1;
          valid2 = (validate_iff g x.ct2).0 v2;
        } in
        (
          a,
          (check_rows_holds_iff p x _).0 (sym (ap (λ r. r.0) (verify_equality2_valid p x t a)) ∙ h),
        ),
    λ (a, h). ap (λ r. r.0) (verify_equality2_valid p x t a) ∙ (check_rows_holds_iff p x _).1 h,
  )
