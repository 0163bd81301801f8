-- ===== src/Pop/Soundness.antt =====
-- Two accepting runs with one commitment and different challenges determine the secret key.
use elgamal_bn.Common.{ℕ, ◌≡◌, ◌≢◌, true, some, Option, Bytes}
use elgamal_bn.Gnark.{Gnark, IsLawful, HasInverses}
use elgamal_bn.Gnark.Group.{multiple}
use elgamal_bn.Gnark.Extraction.{Inverts, challenge_inverse}
use elgamal_bn.Gnark.Sigma.{extracted, extract-Opens}
use elgamal_bn.Transcript.{Transcript, opened}
use elgamal_bn.Pop.{PopProof, pop_challenge, verify_possession}
use elgamal_bn.Pop.Verification.{verify_possession_iff}

module _ (g : Gnark) (keccak keccak' : Bytes → Bytes) (L : IsLawful g) where
  -- Let the group's order be prime. Take two runs of the verifier on one key and transcript, with
  -- two answers of the hash function (the prover rewound), whose proofs share their commitment. If
  -- both accept at different challenges, then the responses give a secret key of `pk`: their
  -- difference, divided by that of the challenges.
  pub verify_possession_sound :
      HasInverses g
      → (proof proof' : PopProof g.Scalar g.Point) (pk : g.Point) (t : Option Transcript)
      → proof'.a ≡ proof.a
      → (pop_challenge g keccak pk proof.a (opened t)).0
        ≢ (pop_challenge g keccak' pk proof'.a (opened t)).0
      → (verify_possession g keccak (some proof) (some pk) t).0 ≡ true
      → (verify_possession g keccak' (some proof') (some pk) t).0 ≡ true
      → (i : ℕ) × Inverts g i
          (pop_challenge g keccak pk proof.a (opened t)).0
          (pop_challenge g keccak' pk proof'.a (opened t)).0
        × (pk ≡ multiple g (extracted g i proof.z proof'.z))
  verify_possession_sound inverses proof proof' pk t same ne accepted accepted' =
      let (key, a, h) = (verify_possession_iff g keccak L proof pk t).0 accepted in
      let (_, _, h') = (verify_possession_iff g keccak' L proof' pk t).0 accepted' in
      let (i, inverse) = challenge_inverse L inverses _ _ ne in
      (
        i,
        inverse,
        extract-Opens L i _ _ inverse proof.z proof'.z proof.a proof'.a pk a.0 key.0 same h h',
      )
