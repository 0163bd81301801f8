-- ===== src/Pop.antt =====
-- pop.go: the proof of possession of a secret key. Its byte format is in `Serialization`.
pub mod Verification
pub mod Completeness
pub mod Soundness
pub mod Binding
use elgamal_bn.Common.{Bytes, Option, Result, ok, Bool, false, not, rejected, message}
use elgamal_bn.Common.{◌>>=◌, ◌>>◌, guard, deref, load, after_checks}
use elgamal_bn.Common.Encoding.{codes}
use elgamal_bn.Gnark.{Gnark}
use elgamal_bn.Gnark.Group.{jacobian_sum}
use elgamal_bn.Random.{Random, Rng, random_scalar}
use elgamal_bn.Ciphertext.{validate_public_key}
use elgamal_bn.Transcript.{
  Transcript, append_bytes, append_point, challenge_scalar, opened, written,
}

pub record PopProof (S P : Type 0) : Type 0 where
  pub z : S
  pub a : P

module _ (g : Gnark) where
  -- `appendPopTranscript`
  unfoldable pub append_pop_transcript : g.Point → g.Point → Transcript → Transcript
  append_pop_transcript pk a t0 =
      let t1 = append_bytes "proof_type" (codes "pop") t0 in
      let t2 = append_point g "pk" pk t1 in append_point g "A" a t2

module _ (g : Gnark) (keccak : Bytes → Bytes) where
  unfoldable pub pop_challenge : g.Point → g.Point → Transcript → g.Scalar × Transcript
  unfolding append_pop_transcript
  pop_challenge pk a t = challenge_scalar g keccak "pop_challenge" (append_pop_transcript g pk a t)

  -- What `ProvePossession` computes once it has drawn the nonce `k`.
  unfoldable pub pop_response :
      g.Scalar
      → g.Point
      → Option Transcript
      → g.Scalar
      → PopProof g.Scalar g.Point × Option Transcript
  pop_response sk pk transcript k =
      let a = g.scalar_mul g.generator (g.big_int k) in
      let (e, t) = pop_challenge pk a (opened transcript) in
      (record { z = g.add k (g.mul e sk); a = a }, written transcript t)

  -- `ProvePossession`
  unfoldable pub prove_possession :
      (ρ : Random)
      → Option g.Scalar
      → Option g.Point
      → Option Transcript
      → Rng ρ
      → Result ((PopProof g.Scalar g.Point × Option Transcript) × Rng ρ)
  prove_possession ρ sk pk transcript rng = do
    s ← deref sk (message "pop: nil secret key")
    validate_public_key g pk
    key ← load pk
    (k, rng') ← random_scalar g ρ rng
    ok (pop_response s key transcript k, rng')

  -- `Z*G == A + e*pk`
  unfoldable pub pop_check : PopProof g.Scalar g.Point → g.Point → g.Scalar → Bool
  pop_check proof pk e =
      let lhs = g.scalar_mul g.generator (g.big_int proof.z) in
      let e_pk = g.scalar_mul pk (g.big_int e) in g.equal lhs (jacobian_sum g proof.a e_pk)

  -- `VerifyPossession`
  unfoldable pub verify_possession :
      Option (PopProof g.Scalar g.Point)
      → Option g.Point
      → Option Transcript
      → Bool × Option Transcript
  verify_possession proof pk transcript =
      after_checks
        (do
          p ← deref proof rejected
          validate_public_key g pk
          guard (g.is_on_curve p.a) rejected
          guard (not (g.is_infinity p.a)) rejected
          key ← load pk
          ok (p, key))
        (false, transcript)
        (λ (p, key).
          let (e, t) = pop_challenge key p.a (opened transcript) in
          (pop_check p key e, written transcript t))
