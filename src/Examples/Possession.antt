-- ===== src/Examples/Possession.antt =====
-- Runs of the proof of possession, in the group of five elements.
use elgamal_bn.Common.{ℕ, ◌≡◌, ◌↔◌, ap, refl, arith, some, none, ok, true, Bytes, Option}
use elgamal_bn.Common.Encoding.{le_bytes, be_value}
use elgamal_bn.Gnark.Group.{multiple}
use elgamal_bn.Gnark.Extraction.{Inverts}
use elgamal_bn.Gnark.Sigma.{Opens, extracted}
use elgamal_bn.Gnark.Residues.{is_residue}
use elgamal_bn.Random.{random_scalar}
use elgamal_bn.Ciphertext.{validate, validate_public_key}
use elgamal_bn.Ciphertext.Validity.{IsKey}
use elgamal_bn.Transcript.{
  Transcript, new_transcript, append_bytes, append_point, challenge_scalar, default_transcript,
}
use elgamal_bn.Examples.Setting.{
  five, five-IsLawful, five-HasInverses, counting, rng_at, sum_hash, next_hash,
}
use elgamal_bn.Pop.{
  PopProof, pop_challenge, pop_response, pop_check, prove_possession, verify_possession,
}
use elgamal_bn.Pop.Verification.{verify_possession_iff}
use elgamal_bn.Pop.Completeness.{verify_possession-prove_possession}
use elgamal_bn.Pop.Soundness.{verify_possession_sound}

abbrev secret : five.Scalar
secret = five.set_big_int 2

abbrev nonce : five.Scalar
nonce = five.set_big_int 3

possession_with : (Bytes → Bytes) → PopProof five.Scalar ℕ
unfolding pop_response pop_challenge append_bytes append_point challenge_scalar new_transcript
possession_with keccak = (pop_response five keccak secret 2 none nonce).0

verify_possession-prove_possession_example :
    (out : PopProof five.Scalar ℕ × Option Transcript) × (prove_possession five sum_hash counting
        (some secret)
        (some 2)
        none
        (rng_at 3)
      ≡ ok (out, rng_at 4))
    × (verify_possession five sum_hash (some out.0) (some 2) none ≡ (true, out.1))
unfolding random_scalar
verify_possession-prove_possession_example =
    verify_possession-prove_possession five sum_hash counting five-IsLawful secret nonce none
      (rng_at 3) (rng_at 4) (refl, refl) refl refl

verify_possession_iff_example :
    ((verify_possession five sum_hash (some (possession_with sum_hash)) (some 2) none).0 ≡ true) ↔ (
      IsKey five 2
      × IsKey five (possession_with sum_hash).a
      × Opens five
          (pop_challenge five sum_hash 2 (possession_with sum_hash).a default_transcript).0
          (possession_with sum_hash).z
          (possession_with sum_hash).a
          2)
verify_possession_iff_example =
    verify_possession_iff five sum_hash five-IsLawful (possession_with sum_hash) 2 none

verify_possession_sound_example :
    (i : ℕ) × Inverts five i
      (pop_challenge five sum_hash 2 (possession_with sum_hash).a default_transcript).0
      (pop_challenge five next_hash 2 (possession_with next_hash).a default_transcript).0
    × (2
        ≡ multiple five
            (extracted five i (possession_with sum_hash).z (possession_with next_hash).z))
unfolding possession_with pop_challenge verify_possession pop_check sum_hash next_hash le_bytes
    be_value is_residue append_bytes append_point challenge_scalar new_transcript validate
    validate_public_key
verify_possession_sound_example =
    verify_possession_sound five sum_hash next_hash five-IsLawful five-HasInverses
      (possession_with sum_hash) (possession_with next_hash) 2 none refl
      (λ e. absurd (omega (arith, ap (λ (s : five.Scalar). s.0) e))) refl refl
