-- ===== src/Examples/Commitment.antt =====
-- Runs of the proof of commitment equality, in the group of five elements.
use elgamal_bn.Common.{ℕ, ◌+◌, ◌*◌, ◌≡◌, ◌↔◌, ap, refl, arith, some, none, true, Bytes}
use elgamal_bn.Common.Encoding.{le_bytes, be_value}
use elgamal_bn.Gnark.Group.{multiple}
use elgamal_bn.Gnark.Extraction.{Inverts}
use elgamal_bn.Gnark.Sigma.{extracted}
use elgamal_bn.Gnark.Residues.{is_residue}
use elgamal_bn.Ciphertext.{validate, validate_public_key}
use elgamal_bn.Elgamal.Homomorphic.{Encrypts}
use elgamal_bn.Transcript.{
  Transcript, new_transcript, append_bytes, append_point, challenge_scalar, default_transcript,
}
use elgamal_bn.Examples.Setting.{five, five-IsLawful, five-HasInverses, sum_hash, next_hash}
use elgamal_bn.CommitmentEquality.{
  CommitmentProof, Statement, commitment_challenge, commitment_response, commitment_checks,
  commitment_inputs, append_commitment_transcript, verify_commitment_equality,
}
use elgamal_bn.CommitmentEquality.Verification.{
  IsAdmissible, CommitmentHolds, verify_commitment_equality_iff,
}
use elgamal_bn.CommitmentEquality.Soundness.{verify_commitment_equality_sound}

abbrev one : five.Scalar
one = five.set_big_int 1

-- The value 1 under the key 2 with the randomness 1, and over the second base 3 with the blinding 1.
abbrev statement : Statement ℕ
statement = record { pk = 2; h = 3; ct = record { c1 = 1; c2 = 3 }; commitment = 4 }

commitment_with : (Bytes → Bytes) → CommitmentProof five.Scalar ℕ
unfolding commitment_response commitment_challenge append_commitment_transcript append_bytes
    append_point challenge_scalar new_transcript
commitment_with keccak =
    (commitment_response five keccak one one one statement none (five.set_big_int 3)
      (five.set_big_int 4) (five.set_big_int 0)).0

abbrev challenge_with : (Bytes → Bytes) → five.Scalar
challenge_with keccak =
    let proof = commitment_with keccak in
    (commitment_challenge five keccak statement proof.a1 proof.a2 proof.a3 default_transcript).0

verify_commitment_equality_iff_example :
    ((verify_commitment_equality five sum_hash
        (some (commitment_with sum_hash))
        (some 2)
        (some 3)
        (some statement.ct)
        (some 4)
        none).0
      ≡ true)
    ↔ (IsAdmissible five (commitment_with sum_hash) statement
        × CommitmentHolds five (commitment_with sum_hash) statement (challenge_with sum_hash))
verify_commitment_equality_iff_example =
    verify_commitment_equality_iff five sum_hash five-IsLawful (commitment_with sum_hash) statement
      none

verify_commitment_equality_sound_example :
    let p = commitment_with sum_hash in
    let p' = commitment_with next_hash in
    (i : ℕ) × Inverts five i (challenge_with sum_hash) (challenge_with next_hash)
    × Encrypts five 2 (extracted five i p.zv p'.zv) (extracted five i p.zr p'.zr) statement.ct
    × (4 ≡ multiple five (extracted five i p.zv p'.zv + 3 * extracted five i p.zs p'.zs))
unfolding commitment_with commitment_challenge append_commitment_transcript
    verify_commitment_equality commitment_inputs commitment_checks sum_hash next_hash le_bytes
    be_value is_residue append_bytes append_point challenge_scalar new_transcript validate
    validate_public_key
verify_commitment_equality_sound_example =
    verify_commitment_equality_sound five sum_hash next_hash five-IsLawful five-HasInverses
      (commitment_with sum_hash) (commitment_with next_hash) statement none 2 3 refl refl refl refl
      refl (λ e. absurd (omega (arith, ap (λ (s : five.Scalar). s.0) e))) refl refl
