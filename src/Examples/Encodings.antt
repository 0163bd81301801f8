-- ===== src/Examples/Encodings.antt =====
-- The theorems about the byte formats, at concrete inputs.
use elgamal_bn.Common.{ℕ, ◌≡◌, ◌↔◌, true, ok, Bytes, ◌++◌}
use elgamal_bn.Common.Encoding.{be_bytes}
use elgamal_bn.Ciphertext.{Ciphertext}
use elgamal_bn.Ciphertext.Validity.{IsKey, IsValid}
use elgamal_bn.Dleq.{DleqProof}
use elgamal_bn.Pop.{PopProof}
use elgamal_bn.CommitmentEquality.{CommitmentProof}
use elgamal_bn.ApplyPending.{PendingProof}
use elgamal_bn.Equality.Three.{EqualityProof}
use elgamal_bn.Equality.Two.{Equality2Proof}
use elgamal_bn.Serialization.Keys.{
  marshal_public_key, unmarshal_public_key, unmarshal_public_key_iff,
}
use elgamal_bn.Serialization.Ciphertexts.{
  marshal_ciphertext, unmarshal_ciphertext, unmarshal_ciphertext_iff,
}
use elgamal_bn.Serialization.Dleq.{marshal_dleq, unmarshal_dleq, unmarshal_dleq_iff}
use elgamal_bn.Serialization.Pop.{
  marshal_possession, unmarshal_possession, unmarshal_possession_iff,
}
use elgamal_bn.Serialization.Commitment.{
  marshal_commitment_equality, unmarshal_commitment_equality, unmarshal_commitment_equality_iff,
}
use elgamal_bn.Serialization.Pending.{
  marshal_apply_pending, unmarshal_apply_pending, unmarshal_apply_pending_iff,
}
use elgamal_bn.Serialization.EqualityThree.{
  marshal_equality, unmarshal_equality, unmarshal_equality_iff,
}
use elgamal_bn.Serialization.EqualityTwo.{
  marshal_equality2, unmarshal_equality2, unmarshal_equality2_iff,
}
use elgamal_bn.Examples.Setting.{five, five-IsLawful, five-IsLawfulFormat}

unmarshal_public_key_iff_example :
    (unmarshal_public_key five (be_bytes 64 2) ≡ ok 2)
    ↔ ((be_bytes 64 2 ≡ marshal_public_key five 2) × IsKey five 2)
unmarshal_public_key_iff_example =
    unmarshal_public_key_iff five five-IsLawful five-IsLawfulFormat (be_bytes 64 2) 2

abbrev ciphertext : Ciphertext ℕ
ciphertext = record { c1 = 1; c2 = 3 }

abbrev ciphertext_bytes : Bytes
ciphertext_bytes = be_bytes 64 1 ++ be_bytes 64 3

unmarshal_ciphertext_iff_example :
    (unmarshal_ciphertext five ciphertext_bytes ≡ ok ciphertext)
    ↔ ((ciphertext_bytes ≡ marshal_ciphertext five ciphertext) × IsValid five ciphertext)
unmarshal_ciphertext_iff_example =
    unmarshal_ciphertext_iff five five-IsLawful five-IsLawfulFormat ciphertext_bytes ciphertext

abbrev dleq_proof : DleqProof five.Scalar ℕ
dleq_proof = record { s = five.set_big_int 2; r1 = 1; r2 = 2 }

abbrev dleq_bytes : Bytes
dleq_bytes = be_bytes 32 2 ++ be_bytes 64 1 ++ be_bytes 64 2

unmarshal_dleq_iff_example : (unmarshal_dleq five dleq_bytes ≡ ok dleq_proof) ↔ (
    (marshal_dleq five dleq_proof ≡ ok dleq_bytes)
    × (five.is_on_curve 1 ≡ true)
    × (five.is_on_curve 2 ≡ true))
unmarshal_dleq_iff_example = unmarshal_dleq_iff five five-IsLawfulFormat dleq_bytes dleq_proof

abbrev possession_proof : PopProof five.Scalar ℕ
possession_proof = record { z = five.set_big_int 2; a = 1 }

abbrev possession_bytes : Bytes
possession_bytes = be_bytes 32 2 ++ be_bytes 64 1

unmarshal_possession_iff_example :
    (unmarshal_possession five possession_bytes ≡ ok possession_proof) ↔ (
      (marshal_possession five possession_proof ≡ ok possession_bytes)
      × (five.is_on_curve 1 ≡ true))
unmarshal_possession_iff_example =
    unmarshal_possession_iff five five-IsLawfulFormat possession_bytes possession_proof

abbrev commitment_equality_proof : CommitmentProof five.Scalar ℕ
commitment_equality_proof = record {
  zv = five.set_big_int 2;
  zr = five.set_big_int 3;
  zs = five.set_big_int 4;
  a1 = 1;
  a2 = 2;
  a3 = 3;
}

abbrev commitment_equality_bytes : Bytes
commitment_equality_bytes =
    be_bytes 32 2
    ++ be_bytes 32 3
    ++ be_bytes 32 4
    ++ be_bytes 64 1
    ++ be_bytes 64 2
    ++ be_bytes 64 3

unmarshal_commitment_equality_iff_example :
    (unmarshal_commitment_equality five commitment_equality_bytes ≡ ok commitment_equality_proof)
    ↔ ((marshal_commitment_equality five commitment_equality_proof ≡ ok commitment_equality_bytes)
        × (five.is_on_curve 1 ≡ true)
        × (five.is_on_curve 2 ≡ true)
        × (five.is_on_curve 3 ≡ true))
unmarshal_commitment_equality_iff_example =
    unmarshal_commitment_equality_iff five five-IsLawfulFormat commitment_equality_bytes
      commitment_equality_proof

abbrev apply_pending_proof : PendingProof five.Scalar ℕ
apply_pending_proof = record {
  sm = five.set_big_int 2;
  ssk = five.set_big_int 3;
  srn = five.set_big_int 4;
  r1 = 1;
  r2 = 2;
  r3 = 3;
  r4 = 4;
}

abbrev apply_pending_bytes : Bytes
apply_pending_bytes =
    be_bytes 32 2
    ++ be_bytes 32 3
    ++ be_bytes 32 4
    ++ be_bytes 64 1
    ++ be_bytes 64 2
    ++ be_bytes 64 3
    ++ be_bytes 64 4

unmarshal_apply_pending_iff_example :
    (unmarshal_apply_pending five apply_pending_bytes ≡ ok apply_pending_proof) ↔ (
      (marshal_apply_pending five apply_pending_proof ≡ ok apply_pending_bytes)
      × (five.is_on_curve 1 ≡ true)
      × (five.is_on_curve 2 ≡ true)
      × (five.is_on_curve 3 ≡ true)
      × (five.is_on_curve 4 ≡ true))
unmarshal_apply_pending_iff_example =
    unmarshal_apply_pending_iff five five-IsLawfulFormat apply_pending_bytes apply_pending_proof

abbrev equality_proof : EqualityProof five.Scalar ℕ
equality_proof = record {
  sm = five.set_big_int 2;
  sr1 = five.set_big_int 3;
  sr2 = five.set_big_int 4;
  sr3 = five.set_big_int 0;
  r11 = 1;
  r21 = 2;
  r12 = 3;
  r22 = 4;
  r13 = 0;
  r23 = 1;
}

abbrev equality_bytes : Bytes
equality_bytes =
    be_bytes 32 2
    ++ be_bytes 32 3
    ++ be_bytes 32 4
    ++ be_bytes 32 0
    ++ be_bytes 64 1
    ++ be_bytes 64 2
    ++ be_bytes 64 3
    ++ be_bytes 64 4
    ++ be_bytes 64 0
    ++ be_bytes 64 1

unmarshal_equality_iff_example : (unmarshal_equality five equality_bytes ≡ ok equality_proof) ↔ (
    (marshal_equality five equality_proof ≡ ok equality_bytes)
    × (five.is_on_curve 1 ≡ true)
    × (five.is_on_curve 2 ≡ true)
    × (five.is_on_curve 3 ≡ true)
    × (five.is_on_curve 4 ≡ true)
    × (five.is_on_curve 0 ≡ true)
    × (five.is_on_curve 1 ≡ true))
unmarshal_equality_iff_example =
    unmarshal_equality_iff five five-IsLawfulFormat equality_bytes equality_proof

abbrev equality2_proof : Equality2Proof five.Scalar ℕ
equality2_proof = record {
  sm = five.set_big_int 2;
  sr1 = five.set_big_int 3;
  sr2 = five.set_big_int 4;
  r11 = 1;
  r21 = 2;
  r12 = 3;
  r22 = 4;
}

abbrev equality2_bytes : Bytes
equality2_bytes =
    be_bytes 32 2
    ++ be_bytes 32 3
    ++ be_bytes 32 4
    ++ be_bytes 64 1
    ++ be_bytes 64 2
    ++ be_bytes 64 3
    ++ be_bytes 64 4

unmarshal_equality2_iff_example :
    (unmarshal_equality2 five equality2_bytes ≡ ok equality2_proof) ↔ (
      (marshal_equality2 five equality2_proof ≡ ok equality2_bytes)
      × (five.is_on_curve 1 ≡ true)
      × (five.is_on_curve 2 ≡ true)
      × (five.is_on_curve 3 ≡ true)
      × (five.is_on_curve 4 ≡ true))
unmarshal_equality2_iff_example =
    unmarshal_equality2_iff five five-IsLawfulFormat equality2_bytes equality2_proof
