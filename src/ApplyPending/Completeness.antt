-- ===== src/ApplyPending/Completeness.antt =====
-- Honest apply-pending proofs are accepted.
use elgamal_bn.Common.{ℕ, ◌+◌, ◌*◌, ◌≡◌, ◌∙◌, ap, refl, true, some, ok, Option, Bytes}
use elgamal_bn.Gnark.{Gnark, IsLawful}
use elgamal_bn.Gnark.Group.{multiple, multiple-set_uint64}
use elgamal_bn.Gnark.Sigma.{honest-Opens, honest-OpensOver}
use elgamal_bn.Random.{Random, Rng, random_scalar}
use elgamal_bn.Ciphertext.{Ciphertext}
use elgamal_bn.Ciphertext.Validity.{IsKey, IsValid}
use elgamal_bn.Elgamal.Homomorphic.{Encrypts}
use elgamal_bn.Transcript.{Transcript, opened, written}
use elgamal_bn.ApplyPending.{
  PendingProof, pending_challenge, pending_response, prove_apply_pending, verify_apply_pending,
}
use elgamal_bn.ApplyPending.Verification.{pending_checks_iff, verify_apply_pending_valid}
use native.Mathlib.Nat.{mul_comm}

module _ (g : Gnark) (keccak : Bytes → Bytes) (L : IsLawful g) where
  accepts_response :
      (sk r_new km ksk krn : g.Scalar) (pending new_ct : Ciphertext g.Point) (amount r : ℕ)
      (t : Option Transcript)
      → IsKey g (multiple g (g.big_int sk))
      → IsValid g pending
      → IsValid g new_ct
      → Encrypts g (g.big_int sk) amount r pending
      → Encrypts g (g.big_int sk) amount (g.big_int r_new) new_ct
      → let out =
          pending_response g keccak sk
            (multiple g (g.big_int sk))
            pending
            new_ct
            amount
            r_new
            t
            km
            ksk
            krn in
        verify_apply_pending g keccak out.0
          (some (multiple g (g.big_int sk)))
          (some pending)
          (some new_ct)
          t
        ≡ (true, out.1)
  unfolding pending_response
  accepts_response sk r_new km ksk krn pending new_ct amount r t key v w (p1, p2) (n1, n2) =
      let x = g.big_int sk in
      let pk = multiple g x in
      let out = pending_response g keccak sk pk pending new_ct amount r_new t km ksk krn in
      let e =
        pending_challenge g keccak pk pending new_ct out.0.r1 out.0.r2 out.0.r3 out.0.r4
          (opened t) in
      verify_apply_pending_valid g keccak L out.0 pk pending new_ct t key v w
      ∙ ap (λ d. (d, written t e.1))
          ((pending_checks_iff g keccak L out.0 pk pending new_ct e.0).1 (record {
            decrypts =
                honest-OpensOver L e.0 km ksk (g.set_uint64 amount) sk pending.c1 pending.c2 r p1 (
                  p2
                  ∙ ap (λ y. multiple g (amount + y)) (mul_comm x r)
                  ∙ multiple-set_uint64 L amount (r * x));
            owns = honest-Opens L e.0 ksk sk pk refl;
            randomness = honest-Opens L e.0 krn r_new new_ct.c1 n1;
            encrypts =
                honest-OpensOver L e.0 km krn (g.set_uint64 amount) r_new pk new_ct.c2 x refl
                  (n2 ∙ multiple-set_uint64 L amount (x * g.big_int r_new));
          }))

module _ (g : Gnark) (keccak : Bytes → Bytes) (ρ : Random) (L : IsLawful g) where
  -- Whenever three nonces can be drawn, the owner of the key gets a proof for two valid encryptions
  -- of one amount under it, of which the new one was made with the randomness `r_new`; it is
  -- accepted, and the verifier leaves its transcript as the prover left the same one.
  pub verify-prove_apply_pending :
      (sk r_new km ksk krn : g.Scalar) (pending new_ct : Ciphertext g.Point) (amount r : ℕ)
      (t : Option Transcript) (rng rng1 rng2 rng3 : Rng ρ)
      → IsKey g (multiple g (g.big_int sk))
      → IsValid g pending
      → IsValid g new_ct
      → Encrypts g (g.big_int sk) amount r pending
      → Encrypts g (g.big_int sk) amount (g.big_int r_new) new_ct
      → random_scalar g ρ rng ≡ ok (km, rng1)
      → random_scalar g ρ rng1 ≡ ok (ksk, rng2)
      → random_scalar g ρ rng2 ≡ ok (krn, rng3)
      → (out : PendingProof g.Scalar g.Point × Option Transcript) × (prove_apply_pending g keccak ρ
            sk
            (multiple g (g.big_int sk))
            pending
            new_ct
            amount
            r_new
            t
            rng
          ≡ ok (out, rng3))
        × (verify_apply_pending g keccak out.0
              (some (multiple g (g.big_int sk)))
              (some pending)
              (some new_ct)
              t
            ≡ (true, out.1))
  unfolding prove_apply_pending
  verify-prove_apply_pending sk r_new km ksk krn pending new_ct amount r t rng rng1 rng2 rng3 key v
        w p n d1 d2 d3 =
      (
        pending_response g keccak sk (multiple g (g.big_int sk)) pending new_ct amount r_new t km
            ksk krn,
        rw (d1, d2, d3) refl,
        accepts_response g keccak L sk r_new km ksk krn pending new_ct amount r t key v w p n,
      )
