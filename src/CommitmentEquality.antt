-- ===== src/CommitmentEquality.antt =====
-- commitment_equality.go: the proof that a ciphertext and a Pedersen commitment hide one value.
pub mod Verification
pub mod Completeness
pub mod Soundness
pub mod Binding
use elgamal_bn.Common.{Bytes, Option, Result, ok, Bool, false, not, rejected, message}
use elgamal_bn.Common.{◌>>=◌, ◌>>◌, guard, deref, load, after_checks, or_error, if◌then◌else◌}
use elgamal_bn.Common.Encoding.{codes}
use elgamal_bn.Gnark.{Gnark}
use elgamal_bn.Gnark.Group.{jacobian_sum}
use elgamal_bn.Random.{Random, Rng, random_scalar}
use elgamal_bn.Ciphertext.{Ciphertext, validate, validate_public_key}
use elgamal_bn.Transcript.{
  Transcript, append_bytes, append_point, challenge_scalar, opened, written,
}

pub record CommitmentProof (S P : Type 0) : Type 0 where
  pub zv : S
  pub zr : S
  pub zs : S
  pub a1 : P
  pub a2 : P
  pub a3 : P

-- The statement: the key, the second base, the ciphertext and the commitment.
pub record Statement (P : Type 0) : Type 0 where
  pub pk : P
  pub h : P
  pub ct : Ciphertext P
  pub commitment : P

module _ (g : Gnark) where
  -- `appendCommitmentEqualityTranscript`
  unfoldable pub append_commitment_transcript :
      Statement g.Point → g.Point → g.Point → g.Point → Transcript → Transcript
  append_commitment_transcript x a1 a2 a3 t0 =
      let t1 = append_bytes "proof_type" (codes "commitment-equality") t0 in
      let t2 = append_point g "pk" x.pk t1 in
      let t3 = append_point g "H" x.h t2 in
      let t4 = append_point g "C1" x.ct.c1 t3 in
      let t5 = append_point g "C2" x.ct.c2 t4 in
      let t6 = append_point g "P" x.commitment t5 in
      let t7 = append_point g "A1" a1 t6 in
      let t8 = append_point g "A2" a2 t7 in append_point g "A3" a3 t8

module _ (g : Gnark) (keccak : Bytes → Bytes) where
  unfoldable pub commitment_challenge :
      Statement g.Point → g.Point → g.Point → g.Point → Transcript → g.Scalar × Transcript
  unfolding append_commitment_transcript
  commitment_challenge x a1 a2 a3 t =
      challenge_scalar g keccak "commitment_equality_challenge"
        (append_commitment_transcript g x a1 a2 a3 t)

  -- What `ProveCommitmentEquality` computes from the witness `value`, `r`, `s` once it has drawn the
  -- nonces.
  unfoldable pub commitment_response :
      g.Scalar
      → g.Scalar
      → g.Scalar
      → Statement g.Point
      → Option Transcript
      → g.Scalar
      → g.Scalar
      → g.Scalar
      → CommitmentProof g.Scalar g.Point × Option Transcript
  commitment_response value r s x transcript kv kr ks =
      let a1 = g.scalar_mul g.generator (g.big_int kr) in
      let kv_g = g.scalar_mul g.generator (g.big_int kv) in
      let a2 = jacobian_sum g kv_g (g.scalar_mul x.pk (g.big_int kr)) in
      let a3 = jacobian_sum g kv_g (g.scalar_mul x.h (g.big_int ks)) in
      let (e, t) = commitment_challenge x a1 a2 a3 (opened transcript) in
      (
        record {
          zv = g.add kv (g.mul e value);
          zr = g.add kr (g.mul e r);
          zs = g.add ks (g.mul e s);
          a1 = a1;
          a2 = a2;
          a3 = a3;
        },
        written transcript t,
      )

  -- `ProveCommitmentEquality`
  unfoldable pub prove_commitment_equality :
      (ρ : Random)
      → Option g.Scalar
      → Option g.Scalar
      → Option g.Scalar
      → Option g.Point
      → Option g.Point
      → Option (Ciphertext g.Point)
      → Option g.Point
      → Option Transcript
      → Rng ρ
      → Result ((CommitmentProof g.Scalar g.Point × Option Transcript) × Rng ρ)
  prove_commitment_equality ρ value r s pk h ct commitment transcript rng = do
    v ← deref value (message "commitment equality: nil witness component")
    r' ← deref r (message "commitment equality: nil witness component")
    s' ← deref s (message "commitment equality: nil witness component")
    c ← deref ct (message "commitment equality: nil statement component")
    p ← deref commitment (message "commitment equality: nil statement component")
    validate_public_key g pk
    or_error (validate_public_key g h) (message "commitment equality: invalid H base")
    key ← load pk
    base ← load h
    (kv, rng1) ← random_scalar g ρ rng
    (kr, rng2) ← random_scalar g ρ rng1
    (ks, rng3) ← random_scalar g ρ rng2
    ok (
      commitment_response v r' s' (record { pk = key; h = base; ct = c; commitment = p }) transcript
          kv kr ks,
      rng3,
    )

  -- The three equations of `VerifyCommitmentEquality`.
  unfoldable pub commitment_checks :
      CommitmentProof g.Scalar g.Point → Statement g.Point → g.Scalar → Bool
  commitment_checks proof x e =
      let e_big = g.big_int e in
      let zr_big = g.big_int proof.zr in
      let zv_g = g.scalar_mul g.generator (g.big_int proof.zv) in
      let lhs1 = g.scalar_mul g.generator zr_big in
      let rhs1 = jacobian_sum g proof.a1 (g.scalar_mul x.ct.c1 e_big) in
      let lhs2 = jacobian_sum g zv_g (g.scalar_mul x.pk zr_big) in
      let rhs2 = jacobian_sum g proof.a2 (g.scalar_mul x.ct.c2 e_big) in
      let lhs3 = jacobian_sum g zv_g (g.scalar_mul x.h (g.big_int proof.zs)) in
      let rhs3 = jacobian_sum g proof.a3 (g.scalar_mul x.commitment e_big) in
      if g.equal lhs1 rhs1 then if g.equal lhs2 rhs2 then g.equal lhs3 rhs3 else false else false

  -- `!p.IsOnCurve() || p.IsInfinity()`, negated
  abbrev check_point : g.Point → Result (Unit {0})
  check_point p = do guard (g.is_on_curve p) rejected; guard (not (g.is_infinity p)) rejected

  -- The checks of `VerifyCommitmentEquality` before it computes the challenge.
  unfoldable pub commitment_inputs :
      Option (CommitmentProof g.Scalar g.Point)
      → Option g.Point
      → Option g.Point
      → Option (Ciphertext g.Point)
      → Option g.Point
      → Result (CommitmentProof g.Scalar g.Point × Statement g.Point)
  commitment_inputs proof pk h ct commitment = do
    pr ← deref proof rejected
    p ← deref commitment rejected
    validate_public_key g pk
    validate_public_key g h
    validate g ct
    check_point p
    check_point pr.a1
    check_point pr.a2
    check_point pr.a3
    key ← load pk
    base ← load h
    c ← load ct
    ok (pr, record { pk = key; h = base; ct = c; commitment = p })

  -- `VerifyCommitmentEquality`
  unfoldable pub verify_commitment_equality :
      Option (CommitmentProof g.Scalar g.Point)
      → Option g.Point
      → Option g.Point
      → Option (Ciphertext g.Point)
      → Option g.Point
      → Option Transcript
      → Bool × Option Transcript
  verify_commitment_equality proof pk h ct commitment transcript =
      after_checks (commitment_inputs proof pk h ct commitment) (false, transcript)
        (λ (pr, x).
          let (e, t) = commitment_challenge x pr.a1 pr.a2 pr.a3 (opened transcript) in
          (commitment_checks pr x e, written transcript t))
