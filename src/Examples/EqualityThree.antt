-- ===== src/Examples/EqualityThree.antt =====
-- Runs of the equality proof for three keys, in the group of five elements.
use elgamal_bn.Common.{ℕ, ◌≡◌, ◌↔◌, ap, refl, arith, none, ok, true, Bytes, Option}
use elgamal_bn.Common.Encoding.{le_bytes, be_value}
use elgamal_bn.Gnark.Extraction.{Inverts}
use elgamal_bn.Gnark.Sigma.{extracted}
use elgamal_bn.Gnark.Residues.{is_residue}
use elgamal_bn.Random.{random_scalar}
use elgamal_bn.Ciphertext.{validate, validate_public_key}
use elgamal_bn.Transcript.{Transcript, new_transcript, append_bytes, append_point, challenge_scalar}
use elgamal_bn.Examples.Setting.{
  five, five-IsLawful, five-HasInverses, counting, rng_at, sum_hash, next_hash,
}
use elgamal_bn.Equality.Rows.{commit, check_rows}
use elgamal_bn.Equality.Three.{
  EqualityProof, Statement, equality_challenge, equality_response, equality_inputs, prove_equality,
  verify_equality,
}
use elgamal_bn.Equality.Three.Verification.{
  EqualityHolds, IsAdmissible, verify, challenge, verify_equality_iff,
}
use elgamal_bn.Equality.Three.Completeness.{verify-prove_equality}
use elgamal_bn.Equality.Three.Soundness.{HideOneAmount, verify_equality_sound}

-- The amount 1 under each key, with the randomness 1, 2, 3.
abbrev statement : Statement ℕ
statement = record {
  pk1 = 2;
  pk2 = 3;
  pk3 = 4;
  ct1 = record { c1 = 1; c2 = 3 };
  ct2 = record { c1 = 2; c2 = 2 };
  ct3 = record { c1 = 3; c2 = 3 };
}

equality_with : (Bytes → Bytes) → EqualityProof five.Scalar ℕ
unfolding equality_response equality_challenge commit append_bytes append_point challenge_scalar
    new_transcript
equality_with keccak =
    (equality_response five keccak 1 (five.set_big_int 1) (five.set_big_int 2) (five.set_big_int 3)
      statement none (five.set_big_int 1) (five.set_big_int 2) (five.set_big_int 3)
      (five.set_big_int 4)).0

verify-prove_equality_example :
    (out : EqualityProof five.Scalar ℕ × Option Transcript) × (prove_equality five sum_hash counting
        1
        (five.set_big_int 1)
        (five.set_big_int 2)
        (five.set_big_int 3)
        statement
        none
        (rng_at 1)
      ≡ ok (out, rng_at 5))
    × (verify five sum_hash out.0 statement none ≡ (true, out.1))
unfolding random_scalar
verify-prove_equality_example =
    verify-prove_equality five sum_hash counting five-IsLawful 1 (five.set_big_int 1)
      (five.set_big_int 2) (five.set_big_int 3) (five.set_big_int 1) (five.set_big_int 2)
      (five.set_big_int 3) (five.set_big_int 4) 2 3 4 statement none (rng_at 1) (rng_at 2)
      (rng_at 3) (rng_at 4) (rng_at 5)
      (record {
        key1 = (refl, refl);
        valid1 = record { c1_on_curve = refl; c2_on_curve = refl; c1_ne_identity = refl };
        key2 = (refl, refl);
        valid2 = record { c1_on_curve = refl; c2_on_curve = refl; c1_ne_identity = refl };
        key3 = (refl, refl);
        valid3 = record { c1_on_curve = refl; c2_on_curve = refl; c1_ne_identity = refl };
      })
      (record {
        key1 = refl;
        encrypts1 = (refl, refl);
        key2 = refl;
        encrypts2 = (refl, refl);
        key3 = refl;
        encrypts3 = (refl, refl);
      })
      refl refl refl refl

verify_equality_iff_example :
    ((verify five sum_hash (equality_with sum_hash) statement none).0 ≡ true) ↔ (
      IsAdmissible five statement
      × EqualityHolds five
          (equality_with sum_hash)
          statement
          (challenge five sum_hash (equality_with sum_hash) statement none).0)
verify_equality_iff_example =
    verify_equality_iff five sum_hash five-IsLawful (equality_with sum_hash) statement none

verify_equality_sound_example :
    let p = equality_with sum_hash in
    let p' = equality_with next_hash in
    (i : ℕ) × Inverts five i
      (challenge five sum_hash p statement none).0
      (challenge five next_hash p' statement none).0
    × HideOneAmount five (extracted five i p.sm p'.sm) statement
unfolding equality_with equality_challenge equality_inputs verify_equality check_rows sum_hash
    next_hash le_bytes be_value is_residue append_bytes append_point challenge_scalar new_transcript
    validate validate_public_key
verify_equality_sound_example =
    verify_equality_sound five sum_hash next_hash five-IsLawful five-HasInverses
      (equality_with sum_hash) (equality_with next_hash) statement none
      (record {
        row1 = record { r1_on_curve = refl; r2_on_curve = refl; same_r1 = refl; same_r2 = refl };
        row2 = record { r1_on_curve = refl; r2_on_curve = refl; same_r1 = refl; same_r2 = refl };
        row3 = record { r1_on_curve = refl; r2_on_curve = refl; same_r1 = refl; same_r2 = refl };
      })
      (λ e. absurd (omega (arith, ap (λ (s : five.Scalar). s.0) e))) refl refl
