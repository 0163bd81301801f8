-- ===== src/CommitmentEquality/Soundness.antt =====
-- Two accepting runs with the same nonce commitments and different challenges determine one value
-- in both the ciphertext and the commitment.
use elgamal_bn.Common.{ℕ, ◌+◌, ◌*◌, ◌≡◌, ◌≢◌, true, some, Option, Bytes}
use elgamal_bn.Gnark.{Gnark, IsLawful, HasInverses}
use elgamal_bn.Gnark.Group.{multiple}
use elgamal_bn.Gnark.Extraction.{Inverts, challenge_inverse}
use elgamal_bn.Gnark.Sigma.{extracted, extract-Opens, extract-OpensOver}
use elgamal_bn.Elgamal.Homomorphic.{Encrypts}
use elgamal_bn.Transcript.{Transcript, opened}
use elgamal_bn.CommitmentEquality.{
  CommitmentProof, Statement, commitment_challenge, verify_commitment_equality,
}
use elgamal_bn.CommitmentEquality.Verification.{verify_commitment_equality_iff}

module _ (g : Gnark) (keccak keccak' : Bytes → Bytes) (L : IsLawful g) where
  -- Let the group's order be prime. Take two runs of the verifier on one statement and transcript,
  -- with two answers of the hash function (the prover rewound), whose proofs share their nonce
  -- commitments. If both accept at different challenges, then the differences of their responses,
  -- divided by that of the challenges, are a value, a randomness and a blinding such that the
  -- ciphertext encrypts the value with the randomness, and the commitment is to the same value
  -- with the blinding. (`x` and `b` are the logarithms of the key and the second base.)
  pub verify_commitment_equality_sound :
      HasInverses g
      → (proof proof' : CommitmentProof g.Scalar g.Point) (st : Statement g.Point)
        (t : Option Transcript) (x b : ℕ)
      → st.pk ≡ multiple g x
      → st.h ≡ multiple g b
      → proof'.a1 ≡ proof.a1
      → proof'.a2 ≡ proof.a2
      → proof'.a3 ≡ proof.a3
      → (commitment_challenge g keccak st proof.a1 proof.a2 proof.a3 (opened t)).0
        ≢ (commitment_challenge g keccak' st proof'.a1 proof'.a2 proof'.a3 (opened t)).0
      → (verify_commitment_equality g keccak
          (some proof)
          (some st.pk)
          (some st.h)
          (some st.ct)
          (some st.commitment)
          t).0
        ≡ true
      → (verify_commitment_equality g keccak'
          (some proof')
          (some st.pk)
          (some st.h)
          (some st.ct)
          (some st.commitment)
          t).0
        ≡ true
      → (i : ℕ) × Inverts g i
          (commitment_challenge g keccak st proof.a1 proof.a2 proof.a3 (opened t)).0
          (commitment_challenge g keccak' st proof'.a1 proof'.a2 proof'.a3 (opened t)).0
        × Encrypts g x (extracted g i proof.zv proof'.zv) (extracted g i proof.zr proof'.zr) st.ct
        × (st.commitment
            ≡ multiple g (extracted g i proof.zv proof'.zv + b * extracted g i proof.zs proof'.zs))
  verify_commitment_equality_sound inverses proof proof' st t x b hx hb s1 s2 s3 ne ok1 ok2 =
      let (a, h) = (verify_commitment_equality_iff g keccak L proof st t).0 ok1 in
      let (a', h') = (verify_commitment_equality_iff g keccak' L proof' st t).0 ok2 in
      let (i, inverse) = challenge_inverse L inverses _ _ ne in
      (
        i,
        inverse,
        (
          extract-Opens L i _ _ inverse proof.zr proof'.zr proof.a1 proof'.a1 st.ct.c1 a.first.0
              a.valid.c1_on_curve s1 h.randomness h'.randomness,
          extract-OpensOver L i _ _ inverse proof.zv proof'.zv proof.zr proof'.zr st.pk proof.a2
              proof'.a2 st.ct.c2 x hx a.second.0 a.valid.c2_on_curve s2 h.value h'.value,
        ),
        extract-OpensOver L i _ _ inverse proof.zv proof'.zv proof.zs proof'.zs st.h proof.a3
            proof'.a3 st.commitment b hb a.third.0 a.commitment.0 s3 h.blinding h'.blinding,
      )
