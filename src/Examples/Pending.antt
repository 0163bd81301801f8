-- ===== src/Examples/Pending.antt =====
-- Runs of the apply-pending proof, in the group of five elements.
use elgamal_bn.Common.{ℕ, ◌≡◌, ◌↔◌, ap, refl, arith, some, none, ok, true, Bytes, Option}
use elgamal_bn.Common.Encoding.{le_bytes, be_value}
use elgamal_bn.Gnark.Extraction.{Inverts}
use elgamal_bn.Gnark.Sigma.{extracted}
use elgamal_bn.Gnark.Residues.{is_residue}
use elgamal_bn.Random.{random_scalar}
use elgamal_bn.Ciphertext.{Ciphertext, validate, validate_public_key}
use elgamal_bn.Ciphertext.Validity.{IsKey, IsValid}
use elgamal_bn.Transcript.{
  Transcript, new_transcript, append_bytes, append_point, challenge_scalar, default_transcript,
}
use elgamal_bn.Examples.Setting.{
  five, five-IsLawful, five-HasInverses, counting, rng_at, sum_hash, next_hash,
}
use elgamal_bn.ApplyPending.{
  PendingProof, pending_challenge, pending_response, pending_checks, prove_apply_pending,
  verify_apply_pending,
}
use elgamal_bn.ApplyPending.Verification.{PendingHolds, verify_apply_pending_iff}
use elgamal_bn.ApplyPending.Completeness.{verify-prove_apply_pending}
use elgamal_bn.ApplyPending.Soundness.{HideOneAmount, verify_apply_pending_sound}

abbrev secret : five.Scalar
secret = five.set_big_int 2

abbrev fresh : five.Scalar
fresh = five.set_big_int 3

-- The amount 1 under the key 2, with the randomness 1 and 3.
abbrev pending : Ciphertext ℕ
pending = record { c1 = 1; c2 = 3 }

abbrev renewed : Ciphertext ℕ
renewed = record { c1 = 3; c2 = 2 }

pending_with : (Bytes → Bytes) → PendingProof five.Scalar ℕ
unfolding pending_response pending_challenge append_bytes append_point challenge_scalar
    new_transcript
pending_with keccak =
    (pending_response five keccak secret 2 pending renewed 1 fresh none (five.set_big_int 3)
      (five.set_big_int 4) (five.set_big_int 0)).0

verify-prove_apply_pending_example :
    (out : PendingProof five.Scalar ℕ × Option Transcript) × (prove_apply_pending five sum_hash
        counting secret 2 pending renewed 1 fresh none
        (rng_at 3)
      ≡ ok (out, rng_at 6))
    × (verify_apply_pending five sum_hash out.0 (some 2) (some pending) (some renewed) none
        ≡ (true, out.1))
unfolding random_scalar
verify-prove_apply_pending_example =
    verify-prove_apply_pending five sum_hash counting five-IsLawful secret fresh
      (five.set_big_int 3) (five.set_big_int 4) (five.set_big_int 0) pending renewed 1 1 none
      (rng_at 3) (rng_at 4) (rng_at 5) (rng_at 6) (refl, refl)
      (record { c1_on_curve = refl; c2_on_curve = refl; c1_ne_identity = refl })
      (record { c1_on_curve = refl; c2_on_curve = refl; c1_ne_identity = refl }) (refl, refl)
      (refl, refl) refl refl refl

abbrev challenge_with : (Bytes → Bytes) → five.Scalar
challenge_with keccak =
    let proof = pending_with keccak in
    (pending_challenge five keccak 2 pending renewed proof.r1 proof.r2 proof.r3 proof.r4
      default_transcript).0

verify_apply_pending_iff_example :
    ((verify_apply_pending five sum_hash
        (pending_with sum_hash)
        (some 2)
        (some pending)
        (some renewed)
        none).0
      ≡ true)
    ↔ (IsKey five 2
        × IsValid five pending
        × IsValid five renewed
        × PendingHolds five (pending_with sum_hash) 2 pending renewed (challenge_with sum_hash))
verify_apply_pending_iff_example =
    verify_apply_pending_iff five sum_hash five-IsLawful (pending_with sum_hash) 2 pending renewed
      none

verify_apply_pending_sound_example :
    let p = pending_with sum_hash in
    let p' = pending_with next_hash in
    (i : ℕ) × (r : ℕ) × Inverts five i (challenge_with sum_hash) (challenge_with next_hash)
    × HideOneAmount five 2 pending renewed
        (extracted five i p.ssk p'.ssk)
        (extracted five i p.sm p'.sm)
        r
        (extracted five i p.srn p'.srn)
unfolding pending_with pending_challenge verify_apply_pending pending_checks sum_hash next_hash
    le_bytes be_value is_residue append_bytes append_point challenge_scalar new_transcript validate
    validate_public_key
verify_apply_pending_sound_example =
    verify_apply_pending_sound five sum_hash next_hash five-IsLawful five-HasInverses
      (pending_with sum_hash) (pending_with next_hash) 2 pending renewed none
      (record {
        r1_on_curve = refl;
        r2_on_curve = refl;
        r3_on_curve = refl;
        r4_on_curve = refl;
        same_r1 = refl;
        same_r2 = refl;
        same_r3 = refl;
        same_r4 = refl;
      })
      (λ e. absurd (omega (arith, ap (λ (s : five.Scalar). s.0) e))) refl refl
