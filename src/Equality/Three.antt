-- ===== src/Equality/Three.antt =====
-- `EqualityProof`, `ProveEquality` and `VerifyEquality`.
pub mod Verification
pub mod Completeness
pub mod Soundness
pub mod Binding
use elgamal_bn.Common.{ℕ, Bytes, Option, Result, ok, Bool, false, List, [], ◌∷◌}
use elgamal_bn.Common.{◌>>=◌, ◌>>◌, load, after_checks}
use elgamal_bn.Common.Encoding.{codes}
use elgamal_bn.Gnark.{Gnark}
use elgamal_bn.Random.{Random, Rng, random_scalar}
use elgamal_bn.Ciphertext.{Ciphertext, validate, validate_public_key}
use elgamal_bn.Transcript.{
  Transcript, append_bytes, append_point, challenge_scalar, opened, written,
}
use elgamal_bn.Equality.Rows.{Row, commit, check_rows}

pub record EqualityProof (S P : Type 0) : Type 0 where
  pub sm : S
  pub sr1 : S
  pub sr2 : S
  pub sr3 : S
  pub r11 : P
  pub r21 : P
  pub r12 : P
  pub r22 : P
  pub r13 : P
  pub r23 : P

-- The keys and the ciphertexts.
pub record Statement (P : Type 0) : Type 0 where
  pub pk1 : P
  pub pk2 : P
  pub pk3 : P
  pub ct1 : Ciphertext P
  pub ct2 : Ciphertext P
  pub ct3 : Ciphertext P

module _ (g : Gnark) where
  -- The rounds of the verifier's loop.
  abbrev pub proof_rows :
      EqualityProof g.Scalar g.Point → Statement g.Point → List (Row g.Scalar g.Point)
  proof_rows p x =
      record { pk = x.pk1; ct = x.ct1; sr = p.sr1; r1 = p.r11; r2 = p.r21 }
      ∷ record { pk = x.pk2; ct = x.ct2; sr = p.sr2; r1 = p.r12; r2 = p.r22 }
      ∷ record { pk = x.pk3; ct = x.ct3; sr = p.sr3; r1 = p.r13; r2 = p.r23 }
      ∷ []

module _ (g : Gnark) (keccak : Bytes → Bytes) where
  -- The messages and the challenge, which the prover and the verifier compute alike.
  unfoldable pub equality_challenge :
      Statement g.Point
      → g.Point
      → g.Point
      → g.Point
      → g.Point
      → g.Point
      → g.Point
      → Transcript
      → g.Scalar × Transcript
  equality_challenge x r11 r21 r12 r22 r13 r23 t0 =
      let t1 = append_bytes "proof_type" (codes "equality") t0 in
      let t2 = append_point g "pk1" x.pk1 t1 in
      let t3 = append_point g "pk2" x.pk2 t2 in
      let t4 = append_point g "pk3" x.pk3 t3 in
      let t5 = append_point g "ct1_C1" x.ct1.c1 t4 in
      let t6 = append_point g "ct1_C2" x.ct1.c2 t5 in
      let t7 = append_point g "ct2_C1" x.ct2.c1 t6 in
      let t8 = append_point g "ct2_C2" x.ct2.c2 t7 in
      let t9 = append_point g "ct3_C1" x.ct3.c1 t8 in
      let t10 = append_point g "ct3_C2" x.ct3.c2 t9 in
      let t11 = append_point g "R11" r11 t10 in
      let t12 = append_point g "R21" r21 t11 in
      let t13 = append_point g "R12" r12 t12 in
      let t14 = append_point g "R22" r22 t13 in
      let t15 = append_point g "R13" r13 t14 in
      let t16 = append_point g "R23" r23 t15 in challenge_scalar g keccak "equality_challenge" t16

  -- What `ProveEquality` computes once it has drawn the nonces.
  unfoldable pub equality_response :
      ℕ
      → g.Scalar
      → g.Scalar
      → g.Scalar
      → Statement g.Point
      → Option Transcript
      → g.Scalar
      → g.Scalar
      → g.Scalar
      → g.Scalar
      → EqualityProof g.Scalar g.Point × Option Transcript
  equality_response amount r1 r2 r3 x transcript km kr1 kr2 kr3 =
      let (r11, r21) = commit g km kr1 x.pk1 in
      let (r12, r22) = commit g km kr2 x.pk2 in
      let (r13, r23) = commit g km kr3 x.pk3 in
      let (e, t) = equality_challenge x r11 r21 r12 r22 r13 r23 (opened transcript) in
      let m_fr = g.set_uint64 amount in
      (
        record {
          sm = g.add km (g.mul e m_fr);
          sr1 = g.add kr1 (g.mul e r1);
          sr2 = g.add kr2 (g.mul e r2);
          sr3 = g.add kr3 (g.mul e r3);
          r11 = r11;
          r21 = r21;
          r12 = r12;
          r22 = r22;
          r13 = r13;
          r23 = r23;
        },
        written transcript t,
      )

  -- `ProveEquality`
  unfoldable pub prove_equality :
      (ρ : Random)
      → ℕ
      → g.Scalar
      → g.Scalar
      → g.Scalar
      → Statement g.Point
      → Option Transcript
      → Rng ρ
      → Result ((EqualityProof g.Scalar g.Point × Option Transcript) × Rng ρ)
  prove_equality ρ amount r1 r2 r3 x transcript rng = do
    (km, rng1) ← random_scalar g ρ rng
    (kr1, rng2) ← random_scalar g ρ rng1
    (kr2, rng3) ← random_scalar g ρ rng2
    (kr3, rng4) ← random_scalar g ρ rng3
    ok (equality_response amount r1 r2 r3 x transcript km kr1 kr2 kr3, rng4)

  -- The checks of `VerifyEquality` before it computes the challenge.
  unfoldable pub equality_inputs :
      Option g.Point
      → Option g.Point
      → Option g.Point
      → Option (Ciphertext g.Point)
      → Option (Ciphertext g.Point)
      → Option (Ciphertext g.Point)
      → Result (Statement g.Point)
  equality_inputs pk1 pk2 pk3 ct1 ct2 ct3 = do
    validate_public_key g pk1
    validate_public_key g pk2
    validate_public_key g pk3
    validate g ct1
    validate g ct2
    validate g ct3
    p1 ← load pk1
    p2 ← load pk2
    p3 ← load pk3
    c1 ← load ct1
    c2 ← load ct2
    c3 ← load ct3
    ok (record { pk1 = p1; pk2 = p2; pk3 = p3; ct1 = c1; ct2 = c2; ct3 = c3 })

  -- `VerifyEquality`
  unfoldable pub verify_equality :
      EqualityProof g.Scalar g.Point
      → Option g.Point
      → Option g.Point
      → Option g.Point
      → Option (Ciphertext g.Point)
      → Option (Ciphertext g.Point)
      → Option (Ciphertext g.Point)
      → Option Transcript
      → Bool × Option Transcript
  verify_equality p pk1 pk2 pk3 ct1 ct2 ct3 transcript =
      after_checks (equality_inputs pk1 pk2 pk3 ct1 ct2 ct3) (false, transcript)
        (λ x.
          let (e, t) =
            equality_challenge x p.r11 p.r21 p.r12 p.r22 p.r13 p.r23 (opened transcript) in
          (check_rows g e p.sm (proof_rows g p x), written transcript t))
