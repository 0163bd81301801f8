-- ===== src/ApplyPending.antt =====
-- apply_pending_proof.go: the proof that a pending ciphertext and a new one encrypt one amount.
pub mod Verification
pub mod Completeness
pub mod Soundness
pub mod Binding
use elgamal_bn.Common.{ℕ, Bytes, Option, Result, ok, Bool, true, false}
use elgamal_bn.Common.{◌>>=◌, ◌>>◌, load, after_checks, if◌then◌else◌}
use elgamal_bn.Common.Encoding.{codes}
use elgamal_bn.Gnark.{Gnark}
use elgamal_bn.Gnark.Group.{jacobian_sum}
use elgamal_bn.Random.{Random, Rng, random_scalar}
use elgamal_bn.Ciphertext.{Ciphertext, validate, validate_public_key}
use elgamal_bn.Transcript.{
  Transcript, append_bytes, append_point, challenge_scalar, opened, written,
}

pub record PendingProof (S P : Type 0) : Type 0 where
  pub sm : S
  pub ssk : S
  pub srn : S
  pub r1 : P
  pub r2 : P
  pub r3 : P
  pub r4 : P

module _ (g : Gnark) (keccak : Bytes → Bytes) where
  -- The messages and the challenge, which the prover and the verifier compute alike.
  unfoldable pub pending_challenge :
      g.Point
      → Ciphertext g.Point
      → Ciphertext g.Point
      → g.Point
      → g.Point
      → g.Point
      → g.Point
      → Transcript
      → g.Scalar × Transcript
  pending_challenge pk pending new_ct r1 r2 r3 r4 t0 =
      let t1 = append_bytes "proof_type" (codes "apply_pending") t0 in
      let t2 = append_point g "pk" pk t1 in
      let t3 = append_point g "pending_C1" pending.c1 t2 in
      let t4 = append_point g "pending_C2" pending.c2 t3 in
      let t5 = append_point g "new_C1" new_ct.c1 t4 in
      let t6 = append_point g "new_C2" new_ct.c2 t5 in
      let t7 = append_point g "R1" r1 t6 in
      let t8 = append_point g "R2" r2 t7 in
      let t9 = append_point g "R3" r3 t8 in
      let t10 = append_point g "R4" r4 t9 in challenge_scalar g keccak "apply_pending_challenge" t10

  -- What `ProveApplyPending` computes once it has drawn the nonces.
  unfoldable pub pending_response :
      g.Scalar
      → g.Point
      → Ciphertext g.Point
      → Ciphertext g.Point
      → ℕ
      → g.Scalar
      → Option Transcript
      → g.Scalar
      → g.Scalar
      → g.Scalar
      → PendingProof g.Scalar g.Point × Option Transcript
  pending_response sk pk pending new_ct amount r_new transcript km ksk krn =
      let km_g = g.scalar_mul g.generator (g.big_int km) in
      let r1 = jacobian_sum g km_g (g.scalar_mul pending.c1 (g.big_int ksk)) in
      let r2 = g.scalar_mul g.generator (g.big_int ksk) in
      let r3 = g.scalar_mul g.generator (g.big_int krn) in
      let r4 = jacobian_sum g km_g (g.scalar_mul pk (g.big_int krn)) in
      let (e, t) = pending_challenge pk pending new_ct r1 r2 r3 r4 (opened transcript) in
      let m_fr = g.set_uint64 amount in
      (
        record {
          sm = g.add km (g.mul e m_fr);
          ssk = g.add ksk (g.mul e sk);
          srn = g.add krn (g.mul e r_new);
          r1 = r1;
          r2 = r2;
          r3 = r3;
          r4 = r4;
        },
        written transcript t,
      )

  -- `ProveApplyPending`
  unfoldable pub prove_apply_pending :
      (ρ : Random)
      → g.Scalar
      → g.Point
      → Ciphertext g.Point
      → Ciphertext g.Point
      → ℕ
      → g.Scalar
      → Option Transcript
      → Rng ρ
      → Result ((PendingProof g.Scalar g.Point × Option Transcript) × Rng ρ)
  prove_apply_pending ρ sk pk pending new_ct amount r_new transcript rng = do
    (km, rng1) ← random_scalar g ρ rng
    (ksk, rng2) ← random_scalar g ρ rng1
    (krn, rng3) ← random_scalar g ρ rng2
    ok (pending_response sk pk pending new_ct amount r_new transcript km ksk krn, rng3)

  -- The four equations of `VerifyApplyPending`.
  unfoldable pub pending_checks :
      PendingProof g.Scalar g.Point
      → g.Point
      → Ciphertext g.Point
      → Ciphertext g.Point
      → g.Scalar
      → Bool
  pending_checks proof pk pending new_ct e =
      let e_big = g.big_int e in
      let sm_g = g.scalar_mul g.generator (g.big_int proof.sm) in
      let lhs1 = jacobian_sum g sm_g (g.scalar_mul pending.c1 (g.big_int proof.ssk)) in
      let rhs1 = jacobian_sum g proof.r1 (g.scalar_mul pending.c2 e_big) in
      let lhs2 = g.scalar_mul g.generator (g.big_int proof.ssk) in
      let rhs2 = jacobian_sum g proof.r2 (g.scalar_mul pk e_big) in
      let lhs3 = g.scalar_mul g.generator (g.big_int proof.srn) in
      let rhs3 = jacobian_sum g proof.r3 (g.scalar_mul new_ct.c1 e_big) in
      let lhs4 = jacobian_sum g sm_g (g.scalar_mul pk (g.big_int proof.srn)) in
      let rhs4 = jacobian_sum g proof.r4 (g.scalar_mul new_ct.c2 e_big) in
      if g.equal lhs1 rhs1
      then if g.equal lhs2 rhs2
        then if g.equal lhs3 rhs3 then if g.equal lhs4 rhs4 then true else false else false
        else false
      else false

  -- `VerifyApplyPending`
  unfoldable pub verify_apply_pending :
      PendingProof g.Scalar g.Point
      → Option g.Point
      → Option (Ciphertext g.Point)
      → Option (Ciphertext g.Point)
      → Option Transcript
      → Bool × Option Transcript
  verify_apply_pending proof pk pending new_ct transcript =
      after_checks
        (do
          validate_public_key g pk
          validate g pending
          validate g new_ct
          key ← load pk
          p ← load pending
          n ← load new_ct
          ok (key, p, n))
        (false, transcript)
        (λ (key, p, n).
          let (e, t) =
            pending_challenge key p n proof.r1 proof.r2 proof.r3 proof.r4 (opened transcript) in
          (pending_checks proof key p n e, written transcript t))
