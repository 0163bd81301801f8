-- ===== src/Pop/Verification.antt =====
-- What `VerifyPossession` accepts.
use elgamal_bn.Common.{◌≡◌, ◌↔◌, ◌∙◌, ap, sym, true, some, ok, Option, Bytes, arith}
use elgamal_bn.Gnark.{Gnark, IsLawful}
use elgamal_bn.Gnark.Sigma.{Opens}
use elgamal_bn.Ciphertext.{validate_public_key}
use elgamal_bn.Ciphertext.Validity.{IsKey, validate_public_key_iff}
use elgamal_bn.Transcript.{Transcript, opened, written}
use elgamal_bn.Pop.{PopProof, pop_challenge, pop_check, verify_possession}

module _ (g : Gnark) (keccak : Bytes → Bytes) (L : IsLawful g) where
  pub verify_possession_valid :
      (proof : PopProof g.Scalar g.Point) (pk : g.Point) (t : Option Transcript)
      → IsKey g pk
      → IsKey g proof.a
      → let (e, t') = pop_challenge g keccak pk proof.a (opened t) in
        verify_possession g keccak (some proof) (some pk) t
        ≡ (pop_check g keccak proof pk e, written t t')
  unfolding verify_possession
  verify_possession_valid proof pk t k (on, ne) = rw ((validate_public_key_iff g pk).1 k, on, ne)

  accepted_inputs :
      (proof : PopProof g.Scalar g.Point) (pk : g.Point) (t : Option Transcript)
      → (verify_possession g keccak (some proof) (some pk) t).0 ≡ true
      → (validate_public_key g (some pk) ≡ ok tt) × IsKey g proof.a
  unfolding verify_possession
  accepted_inputs proof pk t h = ground arith

  -- `VerifyPossession` answers true exactly for a usable key and a commitment that is a point of the
  -- curve other than the identity, with which the proof meets its equation at the challenge that
  -- the transcript gives.
  pub verify_possession_iff :
      (proof : PopProof g.Scalar g.Point) (pk : g.Point) (t : Option Transcript)
      → ((verify_possession g keccak (some proof) (some pk) t).0 ≡ true) ↔ (
          IsKey g pk
          × IsKey g proof.a
          × Opens g (pop_challenge g keccak pk proof.a (opened t)).0 proof.z proof.a pk)
  unfolding pop_check
  verify_possession_iff proof pk t = (
    λ h.
        let (k, a) = accepted_inputs proof pk t h in
        let key = (validate_public_key_iff g pk).0 k in
        (
          key,
          a,
          (L.equal_iff _ _).0 (sym (ap (λ r. r.0) (verify_possession_valid proof pk t key a)) ∙ h),
        ),
    λ (k, a, h). ap (λ r. r.0) (verify_possession_valid proof pk t k a) ∙ (L.equal_iff _ _).1 h,
  )
