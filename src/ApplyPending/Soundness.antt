-- ===== src/ApplyPending/Soundness.antt =====
-- Two accepting runs with the same nonce commitments and different challenges determine the secret
-- key and one amount in both ciphertexts.
use elgamal_bn.Common.{ℕ, ◌≡◌, ◌≢◌, ◌∙◌, ap, true, some, Option, Bytes, ◌+◌}
use elgamal_bn.Gnark.{Gnark, IsLawful, HasInverses}
use elgamal_bn.Gnark.Group.{multiple}
use elgamal_bn.Gnark.Extraction.{Inverts, challenge_inverse}
use elgamal_bn.Gnark.Sigma.{extracted, extract-Opens, extract-OpensOver}
use elgamal_bn.Ciphertext.{Ciphertext}
use elgamal_bn.Elgamal.Homomorphic.{Encrypts}
use elgamal_bn.Transcript.{Transcript, opened}
use elgamal_bn.ApplyPending.{PendingProof, pending_challenge, verify_apply_pending}
use elgamal_bn.ApplyPending.Verification.{verify_apply_pending_iff}
use native.Mathlib.Nat.{mul_comm}

module _ (g : Gnark) where
  -- Two proofs with the same nonce commitments, which are points of the curve.
  pub record IsRewound (proof proof' : PendingProof g.Scalar g.Point) : Type 0 where
    pub r1_on_curve : g.is_on_curve proof.r1 ≡ true
    pub r2_on_curve : g.is_on_curve proof.r2 ≡ true
    pub r3_on_curve : g.is_on_curve proof.r3 ≡ true
    pub r4_on_curve : g.is_on_curve proof.r4 ≡ true
    pub same_r1 : proof'.r1 ≡ proof.r1
    pub same_r2 : proof'.r2 ≡ proof.r2
    pub same_r3 : proof'.r3 ≡ proof.r3
    pub same_r4 : proof'.r4 ≡ proof.r4

  -- The key `w` belongs to `pk`, and both ciphertexts encrypt `amount` under it.
  pub record HideOneAmount (pk : g.Point) (pending new_ct : Ciphertext g.Point) (w amount r s : ℕ)
      : Type 0 where
    pub owns : pk ≡ multiple g w
    pub old : Encrypts g w amount r pending
    pub new : Encrypts g w amount s new_ct

module _ (g : Gnark) (keccak keccak' : Bytes → Bytes) (L : IsLawful g) where
  -- Let the group's order be prime. Take two runs of the verifier on one statement and transcript,
  -- with two answers of the hash function (the prover rewound), whose proofs share their nonce
  -- commitments, points of the curve. If both accept at different challenges, then the differences
  -- of their responses, divided by that of the challenges, are a secret key of `pk`, an amount and
  -- a randomness: both ciphertexts encrypt that amount under that key, and the new one does so
  -- with that randomness.
  pub verify_apply_pending_sound :
      HasInverses g
      → (proof proof' : PendingProof g.Scalar g.Point) (pk : g.Point)
        (pending new_ct : Ciphertext g.Point) (t : Option Transcript)
      → IsRewound g proof proof'
      → (pending_challenge g keccak pk pending new_ct proof.r1 proof.r2 proof.r3 proof.r4
          (opened t)).0
        ≢ (pending_challenge g keccak' pk pending new_ct proof'.r1 proof'.r2 proof'.r3 proof'.r4
            (opened t)).0
      → (verify_apply_pending g keccak proof (some pk) (some pending) (some new_ct) t).0 ≡ true
      → (verify_apply_pending g keccak' proof' (some pk) (some pending) (some new_ct) t).0 ≡ true
      → (i : ℕ) × (r : ℕ) × Inverts g i
          (pending_challenge g keccak pk pending new_ct proof.r1 proof.r2 proof.r3 proof.r4
            (opened t)).0
          (pending_challenge g keccak' pk pending new_ct proof'.r1 proof'.r2 proof'.r3 proof'.r4
            (opened t)).0
        × HideOneAmount g pk pending new_ct
            (extracted g i proof.ssk proof'.ssk)
            (extracted g i proof.sm proof'.sm)
            r
            (extracted g i proof.srn proof'.srn)
  verify_apply_pending_sound inverses proof proof' pk pending new_ct t c ne accepted accepted' =
      let (key, v, w, h) =
        (verify_apply_pending_iff g keccak L proof pk pending new_ct t).0 accepted in
      let (_, _, _, h') =
        (verify_apply_pending_iff g keccak' L proof' pk pending new_ct t).0 accepted' in
      let (i, inverse) = challenge_inverse L inverses _ _ ne in
      let (r, hr) = L.discrete_log pending.c1 v.c1_on_curve in
      let amount = extracted g i proof.sm proof'.sm in
      let own : pk ≡ multiple g (extracted g i proof.ssk proof'.ssk) =
        extract-Opens L i _ _ inverse proof.ssk proof'.ssk proof.r2 proof'.r2 pk c.r2_on_curve key.0
          c.same_r2 h.owns h'.owns in
      (
        i,
        r,
        inverse,
        record {
          owns = own;
          old = (
            hr,
            extract-OpensOver L i _ _ inverse proof.sm proof'.sm proof.ssk proof'.ssk pending.c1
                  proof.r1 proof'.r1 pending.c2 r hr c.r1_on_curve v.c2_on_curve c.same_r1
                  h.decrypts h'.decrypts
                ∙ ap (λ y. multiple g (amount + y)) (mul_comm r _),
          );
          new = (
            extract-Opens L i _ _ inverse proof.srn proof'.srn proof.r3 proof'.r3 new_ct.c1
                c.r3_on_curve w.c1_on_curve c.same_r3 h.randomness h'.randomness,
            extract-OpensOver L i _ _ inverse proof.sm proof'.sm proof.srn proof'.srn pk proof.r4
                proof'.r4 new_ct.c2 (extracted g i proof.ssk proof'.ssk) own c.r4_on_curve
                w.c2_on_curve c.same_r4 h.encrypts h'.encrypts,
          );
        },
      )
