-- ===== src/Examples/Proofs.antt =====
-- The transcript and the proofs.
use elgamal_bn.Common.{ℕ, ◌≡◌, ◌↔◌, ap, refl, arith, some, none, ok, true, Bytes, [], ◌∷◌, Option}
use elgamal_bn.Common.Encoding.{codes, le_bytes, be_value}
use elgamal_bn.Gnark.Group.{multiple}
use elgamal_bn.Gnark.Residues.{is_residue}
use elgamal_bn.Random.{random_scalar}
use elgamal_bn.Ciphertext.{Ciphertext, validate, validate_public_key}
use elgamal_bn.Ciphertext.Validity.{IsKey, IsValid}
use elgamal_bn.Elgamal.Homomorphic.{Encrypts}
use elgamal_bn.Transcript.{
  Transcript, new_transcript, append_bytes, append_point, challenge_scalar, default_transcript,
}
use elgamal_bn.Transcript.Framing.{append_all-injective, messages}
use elgamal_bn.Dleq.{DleqProof, dleq_challenge, dleq_response, prove_dleq, dleq_checks, verify_dleq}
use elgamal_bn.Dleq.Verification.{DleqHolds, verify_dleq_iff}
use elgamal_bn.Dleq.Completeness.{verify_dleq-prove_dleq}
use elgamal_bn.Dleq.Soundness.{verify_dleq_sound}
use elgamal_bn.Examples.Setting.{
  five, five-IsLawful, five-HasInverses, counting, rng_at, sum_hash, next_hash,
}

append_all-injective_example :
    (codes "d" ≡ codes "d") × (messages (("a", 1 ∷ []) ∷ []) ≡ messages (("a", 1 ∷ []) ∷ []))
append_all-injective_example =
    append_all-injective "d" "d" (("a", 1 ∷ []) ∷ []) (("a", 1 ∷ []) ∷ []) (omega arith)
      (omega arith) (omega arith) (omega arith) refl

-- An encryption of 1 under the key 2, in the group of five elements.
abbrev ct : Ciphertext ℕ
ct = record { c1 = 1; c2 = 3 }

abbrev nonce : five.Scalar
nonce = five.set_big_int 3

abbrev secret : five.Scalar
secret = five.set_big_int 2

proof_with : (Bytes → Bytes) → DleqProof five.Scalar ℕ
unfolding dleq_response dleq_challenge append_bytes append_point challenge_scalar new_transcript
proof_with keccak = (dleq_response five keccak secret 2 ct 1 none nonce).0

verify_dleq-prove_dleq_example :
    (out : DleqProof five.Scalar ℕ × Option Transcript) × (prove_dleq five sum_hash counting secret
        2 ct 1 none
        (rng_at 3)
      ≡ ok (out, rng_at 4))
    × (verify_dleq five sum_hash out.0 (some 2) (some ct) 1 none ≡ (true, out.1))
unfolding random_scalar
verify_dleq-prove_dleq_example =
    verify_dleq-prove_dleq five sum_hash counting five-IsLawful secret nonce ct 1 1 none (rng_at 3)
      (rng_at 4) (refl, refl)
      (record { c1_on_curve = refl; c2_on_curve = refl; c1_ne_identity = refl }) (refl, refl) refl

verify_dleq_iff_example :
    ((verify_dleq five sum_hash (proof_with sum_hash) (some 2) (some ct) 1 none).0 ≡ true) ↔ (
      IsKey five 2
      × IsValid five ct
      × DleqHolds five
          (proof_with sum_hash)
          2
          ct
          1
          (dleq_challenge five sum_hash 2 ct 1
            (proof_with sum_hash).r1
            (proof_with sum_hash).r2
            default_transcript).0)
verify_dleq_iff_example =
    verify_dleq_iff five sum_hash five-IsLawful (proof_with sum_hash) 2 ct 1 none

verify_dleq_sound_example : (w : ℕ) × (r : ℕ) × (2 ≡ multiple five w) × Encrypts five w 1 r ct
unfolding proof_with verify_dleq dleq_checks validate validate_public_key sum_hash next_hash
    le_bytes be_value is_residue
verify_dleq_sound_example =
    verify_dleq_sound five sum_hash next_hash five-IsLawful five-HasInverses (proof_with sum_hash)
      (proof_with next_hash) 2 ct 1 none refl refl refl refl
      (λ e. absurd (omega (arith, ap (λ (s : five.Scalar). s.0) e))) refl refl
