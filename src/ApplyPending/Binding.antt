-- ===== src/ApplyPending/Binding.antt =====
-- What the challenge of `ProveApplyPending` depends on.
use elgamal_bn.Common.{◌≡◌, ◌↔◌, refl, arith, String, Bytes, List, [], ◌∷◌}
use elgamal_bn.Gnark.{Gnark}
use elgamal_bn.Gnark.Format.{IsLawfulFormat}
use elgamal_bn.Ciphertext.{Ciphertext}
use elgamal_bn.Transcript.{Transcript, append_point, challenge_scalar}
use elgamal_bn.Transcript.Framing.{append_all}
use elgamal_bn.Transcript.Binding.{hashed, typed, points, AllOnCurve, IsHashOf, typed-injective}
use elgamal_bn.ApplyPending.{pending_challenge}

module _ (g : Gnark) where
  absorbed :
      g.Point
      → Ciphertext g.Point
      → Ciphertext g.Point
      → g.Point
      → g.Point
      → g.Point
      → g.Point
      → List (String × g.Point)
  absorbed pk pending new_ct r1 r2 r3 r4 =
      ("pk", pk)
      ∷ ("pending_C1", pending.c1)
      ∷ ("pending_C2", pending.c2)
      ∷ ("new_C1", new_ct.c1)
      ∷ ("new_C2", new_ct.c2)
      ∷ ("R1", r1)
      ∷ ("R2", r2)
      ∷ ("R3", r3)
      ∷ ("R4", r4)
      ∷ []

  input :
      g.Point
      → Ciphertext g.Point
      → Ciphertext g.Point
      → g.Point
      → g.Point
      → g.Point
      → g.Point
      → Transcript
      → Bytes
  input pk pending new_ct r1 r2 r3 r4 t =
      hashed "apply_pending_challenge"
        (append_all (typed g "apply_pending" (absorbed pk pending new_ct r1 r2 r3 r4)) t)

  input-IsHashOf :
      (pk : g.Point) (pending new_ct : Ciphertext g.Point) (r1 r2 r3 r4 : g.Point) (t : Transcript)
      → IsHashOf g
          (input pk pending new_ct r1 r2 r3 r4 t)
          (λ keccak. (pending_challenge g keccak pk pending new_ct r1 r2 r3 r4 t).0)
  unfolding pending_challenge append_point challenge_scalar append_all input absorbed
  input-IsHashOf pk pending new_ct r1 r2 r3 r4 t keccak = refl

module _ (g : Gnark) (F : IsLawfulFormat g) where
  -- The challenge of an apply-pending proof is made from the hash of a byte string that the hash
  -- function has no part in. For statements and nonce commitments that are points of the curve,
  -- the strings of two challenges after the same transcript are equal exactly if the key, both
  -- ciphertexts and the nonce commitments agree.
  pub pending_challenge_binds :
      (pk : g.Point) (pending new_ct : Ciphertext g.Point) (r1 r2 r3 r4 : g.Point) (pk' : g.Point)
      (pending' new_ct' : Ciphertext g.Point) (r1' r2' r3' r4' : g.Point) (t : Transcript)
      → AllOnCurve g (pk ∷ pending.c1 ∷ pending.c2 ∷ new_ct.c1 ∷ new_ct.c2 ∷ r1 ∷ r2 ∷ r3 ∷ r4 ∷ [])
      → AllOnCurve g
          (pk' ∷ pending'.c1 ∷ pending'.c2 ∷ new_ct'.c1 ∷ new_ct'.c2 ∷ r1' ∷ r2' ∷ r3' ∷ r4' ∷ [])
      → (m : Bytes) × (m' : Bytes) × IsHashOf g m
          (λ keccak. (pending_challenge g keccak pk pending new_ct r1 r2 r3 r4 t).0)
        × IsHashOf g m'
            (λ keccak. (pending_challenge g keccak pk' pending' new_ct' r1' r2' r3' r4' t).0)
        × ((m ≡ m') ↔ (
            (pk ≡ pk')
            × (pending ≡ pending')
            × (new_ct ≡ new_ct')
            × (r1 ≡ r1')
            × (r2 ≡ r2')
            × (r3 ≡ r3')
            × (r4 ≡ r4')))
  unfolding absorbed input
  pending_challenge_binds pk pending new_ct r1 r2 r3 r4 pk' pending' new_ct' r1' r2' r3' r4' t on
        on' =
      (
        input g pk pending new_ct r1 r2 r3 r4 t,
        input g pk' pending' new_ct' r1' r2' r3' r4' t,
        input-IsHashOf g pk pending new_ct r1 r2 r3 r4 t,
        input-IsHashOf g pk' pending' new_ct' r1' r2' r3' r4' t,
        (
          λ same.
              let e : points g (absorbed g pk pending new_ct r1 r2 r3 r4)
                  ≡ points g (absorbed g pk' pending' new_ct' r1' r2' r3' r4') =
                typed-injective g F "apply_pending_challenge" "apply_pending" t
                  (absorbed g pk pending new_ct r1 r2 r3 r4)
                  (absorbed g pk' pending' new_ct' r1' r2' r3' r4') refl (omega arith) refl refl on
                  on' same in
              let e_pk : pk ≡ pk' = cc in
              let e_pending_c1 : pending.c1 ≡ pending'.c1 = cc in
              let e_pending_c2 : pending.c2 ≡ pending'.c2 = cc in
              let e_new_ct_c1 : new_ct.c1 ≡ new_ct'.c1 = cc in
              let e_new_ct_c2 : new_ct.c2 ≡ new_ct'.c2 = cc in
              let e_r1 : r1 ≡ r1' = cc in
              let e_r2 : r2 ≡ r2' = cc in
              let e_r3 : r3 ≡ r3' = cc in
              let e_r4 : r4 ≡ r4' = cc in
              (
                e_pk,
                (λ i. record { c1 = e_pending_c1 i; c2 = e_pending_c2 i }),
                (λ i. record { c1 = e_new_ct_c1 i; c2 = e_new_ct_c2 i }),
                e_r1,
                e_r2,
                e_r3,
                e_r4,
              ),
          λ (p0, p1, p2, p3, p4, p5, p6).
              λ i. input g (p0 i) (p1 i) (p2 i) (p3 i) (p4 i) (p5 i) (p6 i) t,
        ),
      )
