-- ===== src/Equality/Three/Soundness.antt =====
-- Two accepting runs with the same nonce commitments and different challenges determine one amount
-- in all three ciphertexts.
use elgamal_bn.Common.{ℕ, ◌≡◌, ◌≢◌, true, Option, Bytes}
use elgamal_bn.Gnark.{Gnark, IsLawful, HasInverses}
use elgamal_bn.Gnark.Extraction.{Inverts, challenge_inverse}
use elgamal_bn.Gnark.Sigma.{extracted}
use elgamal_bn.Transcript.{Transcript}
use elgamal_bn.Equality.Rows.Soundness.{IsRewound, Hides, extract-Hides}
use elgamal_bn.Equality.Three.{EqualityProof, Statement}
use elgamal_bn.Equality.Three.Verification.{verify, challenge, verify_equality_iff}

module _ (g : Gnark) where
  -- Two proofs with the same nonce commitments, which are points of the curve.
  pub record AreRewound (p p' : EqualityProof g.Scalar g.Point) : Type 0 where
    pub row1 : IsRewound g p.r11 p.r21 p'.r11 p'.r21
    pub row2 : IsRewound g p.r12 p.r22 p'.r12 p'.r22
    pub row3 : IsRewound g p.r13 p.r23 p'.r13 p'.r23

  -- Each of the three ciphertexts encrypts `amount` under its key.
  pub record HideOneAmount (amount : ℕ) (x : Statement g.Point) : Type 0 where
    pub first : Hides g amount x.pk1 x.ct1
    pub second : Hides g amount x.pk2 x.ct2
    pub third : Hides g amount x.pk3 x.ct3

module _ (g : Gnark) (keccak keccak' : Bytes → Bytes) (L : IsLawful g) where
  -- Let the group's order be prime. Take two runs of the verifier on one statement and transcript,
  -- with two answers of the hash function (the prover rewound), whose proofs share their nonce
  -- commitments, points of the curve. If both accept at different challenges, then the difference
  -- of their responses `Sm`, divided by that of the challenges, is an amount that all three
  -- ciphertexts encrypt, each under its key.
  pub verify_equality_sound :
      HasInverses g
      → (p p' : EqualityProof g.Scalar g.Point) (x : Statement g.Point) (t : Option Transcript)
      → AreRewound g p p'
      → (challenge g keccak p x t).0 ≢ (challenge g keccak' p' x t).0
      → (verify g keccak p x t).0 ≡ true
      → (verify g keccak' p' x t).0 ≡ true
      → (i : ℕ) × Inverts g i (challenge g keccak p x t).0 (challenge g keccak' p' x t).0
        × HideOneAmount g (extracted g i p.sm p'.sm) x
  verify_equality_sound inverses p p' x t c ne accepted accepted' =
      let (a, h) = (verify_equality_iff g keccak L p x t).0 accepted in
      let (_, j) = (verify_equality_iff g keccak' L p' x t).0 accepted' in
      let (i, inverse) = challenge_inverse L inverses _ _ ne in
      (
        i,
        inverse,
        record {
          first =
              extract-Hides L i _ _ p.sm p'.sm p.sr1 p'.sr1 x.pk1 p.r11 p.r21 p'.r11 p'.r21 x.ct1
                inverse a.key1 a.valid1 c.row1 (h.randomness1, h.amount1)
                (j.randomness1, j.amount1);
          second =
              extract-Hides L i _ _ p.sm p'.sm p.sr2 p'.sr2 x.pk2 p.r12 p.r22 p'.r12 p'.r22 x.ct2
                inverse a.key2 a.valid2 c.row2 (h.randomness2, h.amount2)
                (j.randomness2, j.amount2);
          third =
              extract-Hides L i _ _ p.sm p'.sm p.sr3 p'.sr3 x.pk3 p.r13 p.r23 p'.r13 p'.r23 x.ct3
                inverse a.key3 a.valid3 c.row3 (h.randomness3, h.amount3)
                (j.randomness3, j.amount3);
        },
      )
