-- ===== src/Dleq/Soundness.antt =====
-- Two accepting runs that share their commitments but not their challenge determine a secret key
-- for the public key, under which the ciphertext encrypts the claimed amount.
use elgamal_bn.Common.{
  ℕ, ◌+◌, ◌-◌, ◌*◌, ◌%◌, ◌≡◌, ◌≢◌, ◌∙◌, sym, ap, refl, true, some, Option, Bytes, arith,
}
use elgamal_bn.Gnark.{Gnark, IsLawful, HasInverses}
use elgamal_bn.Gnark.Group.{
  multiple, jacobian_sum, sum_eq, sum_multiple, neg_eq, scalar_mul_eq, neg_cancel,
}
use elgamal_bn.Gnark.Extraction.{extract_multiple, challenge_inverse}
use elgamal_bn.Ciphertext.{Ciphertext}
use elgamal_bn.Elgamal.Homomorphic.{Encrypts}
use elgamal_bn.Transcript.{Transcript, opened}
use elgamal_bn.Dleq.{DleqProof, dleq_challenge, verify_dleq}
use elgamal_bn.Dleq.Verification.{DleqHolds, verify_dleq_iff}

-- `p * x` stands for `-x`.
split_left : (r s s' i p : ℕ) → i * (r * s + p * (r * s')) ≡ i * (s + p * s') * r
split_left r s s' i p = omega arith

swap_amount : (m c p : ℕ) → m + (c + p * m) ≡ c + m + p * m
swap_amount m c p = omega arith

module _ {g : Gnark} (L : IsLawful g) where
  -- The two equations of a run, in multiples of the generator.
  run_exponents :
      (proof : DleqProof g.Scalar g.Point) (pk : g.Point) (ct : Ciphertext g.Point)
      (amount x r c a b : ℕ) (e : g.Scalar)
      → pk ≡ multiple g x
      → ct.c1 ≡ multiple g r
      → ct.c2 ≡ multiple g c
      → proof.r1 ≡ multiple g a
      → proof.r2 ≡ multiple g b
      → DleqHolds g proof pk ct amount e
      → (multiple g (g.big_int proof.s) ≡ multiple g (a + x * g.big_int e))
        × (multiple g (r * g.big_int proof.s)
            ≡ multiple g (b + (c + (g.modulus - 1) * amount) * g.big_int e))
  run_exponents proof pk ct amount x r c a b e hpk hc1 hc2 ha hb h =
      let d = c + (g.modulus - 1) * amount in
      (
        h.0 ∙ sum_eq L a (x * g.big_int e) ha (scalar_mul_eq L x _ hpk),
        sym (scalar_mul_eq L r _ hc1)
            ∙ h.1
            ∙ sum_eq L b (d * g.big_int e) hb (
                scalar_mul_eq L d _
                  (sum_eq L c ((g.modulus - 1) * amount) hc2 (neg_eq L amount refl))),
      )

  -- The extracted key is `i * (s - s')`, where `i` inverts the difference of the challenges.
  extract_key :
      (x r c a b s s' amount e e' i : ℕ)
      → let p = g.modulus - 1 in
        i * (e + p * e') % g.modulus ≡ 1
        → (multiple g s ≡ multiple g (a + x * e))
          × (multiple g (r * s) ≡ multiple g (b + (c + p * amount) * e))
        → (multiple g s' ≡ multiple g (a + x * e'))
          × (multiple g (r * s') ≡ multiple g (b + (c + p * amount) * e'))
        → (multiple g x ≡ multiple g (i * (s + p * s')))
          × (multiple g c ≡ multiple g (amount + i * (s + p * s') * r))
  extract_key x r c a b s s' amount e e' i hi (h1, h2) (j1, j2) =
      let p = g.modulus - 1 in
      let d = c + p * amount in
      (
        extract_multiple L a x e e' s s' i hi h1 j1,
        sym (neg_cancel L c amount)
            ∙ ap (multiple g) (sym (swap_amount amount c p))
            ∙ sym (sum_multiple L amount d)
            ∙ ap (jacobian_sum g (multiple g amount)) (
                extract_multiple L b d e e' (r * s) (r * s') i hi h2 j2
                ∙ ap (multiple g) (split_left r s s' i p))
            ∙ sum_multiple L amount (i * (s + p * s') * r),
      )

module _ (g : Gnark) (keccak keccak' : Bytes → Bytes) (L : IsLawful g) where
  -- Let the group's order be prime. Take two runs of the verifier on the same statement and
  -- transcript, with two answers of the hash function (the prover rewound), whose proofs share
  -- their commitments, which are points of the curve. If both accept at different challenges, then
  -- some `w` is a secret key of `pk`, and the ciphertext is an encryption of the claimed amount
  -- under it.
  pub verify_dleq_sound :
      HasInverses g
      → (proof proof' : DleqProof g.Scalar g.Point) (pk : g.Point) (ct : Ciphertext g.Point)
        (amount : ℕ) (t : Option Transcript)
      → g.is_on_curve proof.r1 ≡ true
      → g.is_on_curve proof.r2 ≡ true
      → proof'.r1 ≡ proof.r1
      → proof'.r2 ≡ proof.r2
      → (dleq_challenge g keccak pk ct amount proof.r1 proof.r2 (opened t)).0
        ≢ (dleq_challenge g keccak' pk ct amount proof'.r1 proof'.r2 (opened t)).0
      → (verify_dleq g keccak proof (some pk) (some ct) amount t).0 ≡ true
      → (verify_dleq g keccak' proof' (some pk) (some ct) amount t).0 ≡ true
      → (w : ℕ) × (r : ℕ) × (pk ≡ multiple g w) × Encrypts g w amount r ct
  verify_dleq_sound inverses proof proof' pk ct amount t c1 c2 h1 h2 ne accepted accepted' =
      let (key, valid, holds) = (verify_dleq_iff g keccak L proof pk ct amount t).0 accepted in
      let (_, _, holds') = (verify_dleq_iff g keccak' L proof' pk ct amount t).0 accepted' in
      let (x, hx) = L.discrete_log pk key.0 in
      let (r, hr) = L.discrete_log ct.c1 valid.c1_on_curve in
      let (c, hc) = L.discrete_log ct.c2 valid.c2_on_curve in
      let (a, ha) = L.discrete_log proof.r1 c1 in
      let (b, hb) = L.discrete_log proof.r2 c2 in
      let (i, hi) = challenge_inverse L inverses _ _ ne in
      let out =
        extract_key L x r c a b (g.big_int proof.s) (g.big_int proof'.s) amount _ _ i hi
          (run_exponents L proof pk ct amount x r c a b _ hx hr hc ha hb holds)
          (run_exponents L proof' pk ct amount x r c a b _ hx hr hc (h1 ∙ ha) (h2 ∙ hb) holds') in
      (_, r, hx ∙ out.0, (hr, hc ∙ out.1))
