-- ===== src/ApplyPending/Verification.antt =====
-- What `VerifyApplyPending` accepts.
use elgamal_bn.Common.{
  ◌≡◌, ◌↔◌, ◌∙◌, ap, sym, refl, Bool, true, false, some, ok, Option, Bytes, arith,
}
use elgamal_bn.Common.{and_then_iff, if◌then◌else◌}
use elgamal_bn.Gnark.{Gnark, IsLawful}
use elgamal_bn.Gnark.Sigma.{Opens, OpensOver}
use elgamal_bn.Ciphertext.{Ciphertext, validate, validate_public_key}
use elgamal_bn.Ciphertext.Validity.{IsKey, IsValid, validate_public_key_iff, validate_iff}
use elgamal_bn.Transcript.{Transcript, opened, written}
use elgamal_bn.ApplyPending.{PendingProof, pending_challenge, pending_checks, verify_apply_pending}

module _ (g : Gnark) where
  -- The four equations.
  pub record PendingHolds (proof : PendingProof g.Scalar g.Point) (pk : g.Point)
      (pending new_ct : Ciphertext g.Point) (e : g.Scalar) : Type 0 where
    pub decrypts : OpensOver g pending.c1 e proof.sm proof.ssk proof.r1 pending.c2
    pub owns : Opens g e proof.ssk proof.r2 pk
    pub randomness : Opens g e proof.srn proof.r3 new_ct.c1
    pub encrypts : OpensOver g pk e proof.sm proof.srn proof.r4 new_ct.c2

-- `if !b { return false }; return true`
if_same : (b : Bool) → (if b then true else false) ≡ b
if_same true = refl
if_same false = refl

module _ (g : Gnark) (keccak : Bytes → Bytes) (L : IsLawful g) where
  pub pending_checks_iff :
      (proof : PendingProof g.Scalar g.Point) (pk : g.Point) (pending new_ct : Ciphertext g.Point)
      (e : g.Scalar)
      → (pending_checks g keccak proof pk pending new_ct e ≡ true)
        ↔ PendingHolds g proof pk pending new_ct e
  unfolding pending_checks
  pending_checks_iff proof pk pending new_ct e =
      let tests = and_then_iff _ _ (L.equal_iff _ _) (
        and_then_iff _ _ (L.equal_iff _ _)
          (and_then_iff _ _ (L.equal_iff _ _) (rw if_same (L.equal_iff _ _)))) in
      (
        λ h.
            let (h1, (h2, (h3, h4))) = tests.0 h in
            record { decrypts = h1; owns = h2; randomness = h3; encrypts = h4 },
        λ h. tests.1 (h.decrypts, (h.owns, (h.randomness, h.encrypts))),
      )

  pub verify_apply_pending_valid :
      (proof : PendingProof g.Scalar g.Point) (pk : g.Point) (pending new_ct : Ciphertext g.Point)
      (t : Option Transcript)
      → IsKey g pk
      → IsValid g pending
      → IsValid g new_ct
      → let (e, t') =
          pending_challenge g keccak pk pending new_ct proof.r1 proof.r2 proof.r3 proof.r4
            (opened t) in
        verify_apply_pending g keccak proof (some pk) (some pending) (some new_ct) t
        ≡ (pending_checks g keccak proof pk pending new_ct e, written t t')
  unfolding verify_apply_pending
  verify_apply_pending_valid proof pk pending new_ct t k v w = rw (
    (validate_public_key_iff g pk).1 k,
    (validate_iff g pending).1 v,
    (validate_iff g new_ct).1 w,
  )

  accepted_inputs :
      (proof : PendingProof g.Scalar g.Point) (pk : g.Point) (pending new_ct : Ciphertext g.Point)
      (t : Option Transcript)
      → (verify_apply_pending g keccak proof (some pk) (some pending) (some new_ct) t).0 ≡ true
      → (validate_public_key g (some pk) ≡ ok tt)
        × (validate g (some pending) ≡ ok tt)
        × (validate g (some new_ct) ≡ ok tt)
  unfolding verify_apply_pending
  accepted_inputs proof pk pending new_ct t h = ground arith

  -- `VerifyApplyPending` answers true exactly for a usable key and two valid ciphertexts with which
  -- the proof meets the four equations at the challenge that the transcript gives.
  pub verify_apply_pending_iff :
      (proof : PendingProof g.Scalar g.Point) (pk : g.Point) (pending new_ct : Ciphertext g.Point)
      (t : Option Transcript)
      → ((verify_apply_pending g keccak proof (some pk) (some pending) (some new_ct) t).0 ≡ true)
        ↔ (IsKey g pk
            × IsValid g pending
            × IsValid g new_ct
            × PendingHolds g proof pk pending new_ct
                (pending_challenge g keccak pk pending new_ct proof.r1 proof.r2 proof.r3 proof.r4
                  (opened t)).0)
  verify_apply_pending_iff proof pk pending new_ct t = (
    λ h.
        let (k, v, w) = accepted_inputs proof pk pending new_ct t h in
        let key = (validate_public_key_iff g pk).0 k in
        let old = (validate_iff g pending).0 v in
        let new = (validate_iff g new_ct).0 w in
        (
          key,
          old,
          new,
          (pending_checks_iff proof pk pending new_ct _).0 (
              sym (ap (λ r. r.0) (verify_apply_pending_valid proof pk pending new_ct t key old new))
              ∙ h),
        ),
    λ (k, v, w, h).
        ap (λ r. r.0) (verify_apply_pending_valid proof pk pending new_ct t k v w)
        ∙ (pending_checks_iff proof pk pending new_ct _).1 h,
  )
