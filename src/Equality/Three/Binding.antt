-- ===== src/Equality/Three/Binding.antt =====
-- What the challenge of `ProveEquality` depends on.
use elgamal_bn.Common.{◌≡◌, ◌↔◌, refl, arith, String, Bytes, List, [], ◌∷◌}
use elgamal_bn.Gnark.{Gnark}
use elgamal_bn.Gnark.Format.{IsLawfulFormat}
use elgamal_bn.Transcript.{Transcript, append_point, challenge_scalar}
use elgamal_bn.Transcript.Framing.{append_all}
use elgamal_bn.Transcript.Binding.{hashed, typed, points, AllOnCurve, IsHashOf, typed-injective}
use elgamal_bn.Equality.Three.{Statement, equality_challenge}

module _ (g : Gnark) where
  absorbed :
      Statement g.Point
      → g.Point
      → g.Point
      → g.Point
      → g.Point
      → g.Point
      → g.Point
      → List (String × g.Point)
  absorbed x r11 r21 r12 r22 r13 r23 =
      ("pk1", x.pk1)
      ∷ ("pk2", x.pk2)
      ∷ ("pk3", x.pk3)
      ∷ ("ct1_C1", x.ct1.c1)
      ∷ ("ct1_C2", x.ct1.c2)
      ∷ ("ct2_C1", x.ct2.c1)
      ∷ ("ct2_C2", x.ct2.c2)
      ∷ ("ct3_C1", x.ct3.c1)
      ∷ ("ct3_C2", x.ct3.c2)
      ∷ ("R11", r11)
      ∷ ("R21", r21)
      ∷ ("R12", r12)
      ∷ ("R22", r22)
      ∷ ("R13", r13)
      ∷ ("R23", r23)
      ∷ []

  input :
      Statement g.Point
      → g.Point
      → g.Point
      → g.Point
      → g.Point
      → g.Point
      → g.Point
      → Transcript
      → Bytes
  input x r11 r21 r12 r22 r13 r23 t =
      hashed "equality_challenge"
        (append_all (typed g "equality" (absorbed x r11 r21 r12 r22 r13 r23)) t)

  input-IsHashOf :
      (x : Statement g.Point) (r11 r21 r12 r22 r13 r23 : g.Point) (t : Transcript)
      → IsHashOf g
          (input x r11 r21 r12 r22 r13 r23 t)
          (λ keccak. (equality_challenge g keccak x r11 r21 r12 r22 r13 r23 t).0)
  unfolding equality_challenge append_point challenge_scalar append_all input absorbed
  input-IsHashOf x r11 r21 r12 r22 r13 r23 t keccak = refl

module _ (g : Gnark) (F : IsLawfulFormat g) where
  -- The challenge of a three-key equality proof is made from the hash of a byte string that the
  -- hash function has no part in. For statements and nonce commitments that are points of the
  -- curve, the strings of two challenges after the same transcript are equal exactly if the keys,
  -- the ciphertexts and the nonce commitments agree.
  pub equality_challenge_binds :
      (x : Statement g.Point) (r11 r21 r12 r22 r13 r23 : g.Point) (x' : Statement g.Point)
      (r11' r21' r12' r22' r13' r23' : g.Point) (t : Transcript)
      → AllOnCurve g (
          x.pk1 ∷ x.pk2 ∷ x.pk3 ∷ x.ct1.c1 ∷ x.ct1.c2 ∷ x.ct2.c1 ∷ x.ct2.c2 ∷ x.ct3.c1 ∷ x.ct3.c2
          ∷ r11 ∷ r21 ∷ r12 ∷ r22 ∷ r13 ∷ r23 ∷ [])
      → AllOnCurve g (
          x'.pk1 ∷ x'.pk2 ∷ x'.pk3 ∷ x'.ct1.c1 ∷ x'.ct1.c2 ∷ x'.ct2.c1 ∷ x'.ct2.c2 ∷ x'.ct3.c1
          ∷ x'.ct3.c2 ∷ r11' ∷ r21' ∷ r12' ∷ r22' ∷ r13' ∷ r23' ∷ [])
      → (m : Bytes) × (m' : Bytes) × IsHashOf g m
          (λ keccak. (equality_challenge g keccak x r11 r21 r12 r22 r13 r23 t).0)
        × IsHashOf g m'
            (λ keccak. (equality_challenge g keccak x' r11' r21' r12' r22' r13' r23' t).0)
        × ((m ≡ m') ↔ (
            (x ≡ x')
            × (r11 ≡ r11')
            × (r21 ≡ r21')
            × (r12 ≡ r12')
            × (r22 ≡ r22')
            × (r13 ≡ r13')
            × (r23 ≡ r23')))
  unfolding absorbed input
  equality_challenge_binds x r11 r21 r12 r22 r13 r23 x' r11' r21' r12' r22' r13' r23' t on on' = (
    input g x r11 r21 r12 r22 r13 r23 t,
    input g x' r11' r21' r12' r22' r13' r23' t,
    input-IsHashOf g x r11 r21 r12 r22 r13 r23 t,
    input-IsHashOf g x' r11' r21' r12' r22' r13' r23' t,
    (
      λ same.
          let e : points g (absorbed g x r11 r21 r12 r22 r13 r23)
              ≡ points g (absorbed g x' r11' r21' r12' r22' r13' r23') =
            typed-injective g F "equality_challenge" "equality" t
              (absorbed g x r11 r21 r12 r22 r13 r23) (absorbed g x' r11' r21' r12' r22' r13' r23')
              refl (omega arith) refl refl on on' same in
          let e_x_pk1 : x.pk1 ≡ x'.pk1 = cc in
          let e_x_pk2 : x.pk2 ≡ x'.pk2 = cc in
          let e_x_pk3 : x.pk3 ≡ x'.pk3 = cc in
          let e_x_ct1_c1 : x.ct1.c1 ≡ x'.ct1.c1 = cc in
          let e_x_ct1_c2 : x.ct1.c2 ≡ x'.ct1.c2 = cc in
          let e_x_ct2_c1 : x.ct2.c1 ≡ x'.ct2.c1 = cc in
          let e_x_ct2_c2 : x.ct2.c2 ≡ x'.ct2.c2 = cc in
          let e_x_ct3_c1 : x.ct3.c1 ≡ x'.ct3.c1 = cc in
          let e_x_ct3_c2 : x.ct3.c2 ≡ x'.ct3.c2 = cc in
          let e_r11 : r11 ≡ r11' = cc in
          let e_r21 : r21 ≡ r21' = cc in
          let e_r12 : r12 ≡ r12' = cc in
          let e_r22 : r22 ≡ r22' = cc in
          let e_r13 : r13 ≡ r13' = cc in
          let e_r23 : r23 ≡ r23' = cc in
          (
            (λ i. record {
              pk1 = e_x_pk1 i;
              pk2 = e_x_pk2 i;
              pk3 = e_x_pk3 i;
              ct1 = record { c1 = e_x_ct1_c1 i; c2 = e_x_ct1_c2 i };
              ct2 = record { c1 = e_x_ct2_c1 i; c2 = e_x_ct2_c2 i };
              ct3 = record { c1 = e_x_ct3_c1 i; c2 = e_x_ct3_c2 i };
            }),
            e_r11,
            e_r21,
            e_r12,
            e_r22,
            e_r13,
            e_r23,
          ),
      λ (p0, p1, p2, p3, p4, p5, p6).
          λ i. input g (p0 i) (p1 i) (p2 i) (p3 i) (p4 i) (p5 i) (p6 i) t,
    ),
  )
