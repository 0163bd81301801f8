-- ===== src/Dleq.antt =====
-- dleq.go: the proof of correct decryption.
pub mod Verification
pub mod Completeness
pub mod Soundness
pub mod Binding
use elgamal_bn.Common.{ℕ, String, Bytes, Option, none, some, Result, ok, Bool, true, false}
use elgamal_bn.Common.{◌>>=◌, ◌>>◌, if◌then◌else◌, load, after_checks}
use elgamal_bn.Common.Encoding.{codes, le_bytes}
use elgamal_bn.Gnark.{Gnark}
use elgamal_bn.Gnark.Group.{jacobian_sum}
use elgamal_bn.Random.{Random, Rng, random_scalar}
use elgamal_bn.Ciphertext.{Ciphertext, validate, validate_public_key}
use elgamal_bn.Transcript.{
  Transcript, append_bytes, append_point, challenge_scalar, opened, written,
}

pub record DleqProof (S P : Type 0) : Type 0 where
  pub s : S
  pub r1 : P
  pub r2 : P

module _ (g : Gnark) (keccak : Bytes → Bytes) where
  -- The messages and the challenge, which the prover and the verifier compute alike.
  unfoldable pub dleq_challenge :
      g.Point → Ciphertext g.Point → ℕ → g.Point → g.Point → Transcript → g.Scalar × Transcript
  dleq_challenge pk ct amount r1 r2 t0 =
      let t1 = append_bytes "proof_type" (codes "dleq") t0 in
      let t2 = append_point g "pk" pk t1 in
      let t3 = append_point g "C1" ct.c1 t2 in
      let t4 = append_point g "C2" ct.c2 t3 in
      let t5 = append_bytes "amount" (le_bytes 8 amount) t4 in
      let t6 = append_point g "R1" r1 t5 in
      let t7 = append_point g "R2" r2 t6 in challenge_scalar g keccak "dleq_challenge" t7

  -- What `ProveDLEQ` computes once it has drawn the nonce `k`.
  unfoldable pub dleq_response :
      g.Scalar
      → g.Point
      → Ciphertext g.Point
      → ℕ
      → Option Transcript
      → g.Scalar
      → DleqProof g.Scalar g.Point × Option Transcript
  dleq_response sk pk ct amount transcript k =
      let r1 = g.scalar_mul g.generator (g.big_int k) in
      let r2 = g.scalar_mul ct.c1 (g.big_int k) in
      let (e, t) = dleq_challenge pk ct amount r1 r2 (opened transcript) in
      let s = g.add k (g.mul e sk) in (record { s = s; r1 = r1; r2 = r2 }, written transcript t)

  -- `ProveDLEQ`: the proof, the caller's transcript afterwards, and the readers' next states.
  unfoldable pub prove_dleq :
      (ρ : Random)
      → g.Scalar
      → g.Point
      → Ciphertext g.Point
      → ℕ
      → Option Transcript
      → Rng ρ
      → Result ((DleqProof g.Scalar g.Point × Option Transcript) × Rng ρ)
  prove_dleq ρ sk pk ct amount transcript rng = do
    (k, rng') ← random_scalar g ρ rng
    ok (dleq_response sk pk ct amount transcript k, rng')

  -- The two equations that `VerifyDLEQ` checks, for a challenge `e`.
  unfoldable pub dleq_checks :
      DleqProof g.Scalar g.Point → g.Point → Ciphertext g.Point → ℕ → g.Scalar → Bool
  dleq_checks proof pk ct amount e =
      let e_big = g.big_int e in
      let s_big = g.big_int proof.s in
      let lhs1 = g.scalar_mul g.generator s_big in
      let rhs1 = jacobian_sum g proof.r1 (g.scalar_mul pk e_big) in
      let lhs2 = g.scalar_mul ct.c1 s_big in
      let amount_g = g.scalar_mul g.generator amount in
      let diff = jacobian_sum g ct.c2 (g.neg amount_g) in
      let rhs2 = jacobian_sum g proof.r2 (g.scalar_mul diff e_big) in
      if g.equal lhs1 rhs1 then g.equal lhs2 rhs2 else false

  -- `VerifyDLEQ`: the answer, and the caller's transcript afterwards.
  unfoldable pub verify_dleq :
      DleqProof g.Scalar g.Point
      → Option g.Point
      → Option (Ciphertext g.Point)
      → ℕ
      → Option Transcript
      → Bool × Option Transcript
  verify_dleq proof pk ct amount transcript =
      after_checks
        (do validate_public_key g pk; validate g ct; key ← load pk; c ← load ct; ok (key, c))
        (false, transcript)
        (λ (key, c).
          let (e, t) = dleq_challenge key c amount proof.r1 proof.r2 (opened transcript) in
          (dleq_checks proof key c amount e, written transcript t))
