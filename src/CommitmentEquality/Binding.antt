-- ===== src/CommitmentEquality/Binding.antt =====
-- What the challenge of `ProveCommitmentEquality` depends on.
use elgamal_bn.Common.{◌≡◌, ◌↔◌, refl, arith, String, Bytes, List, [], ◌∷◌}
use elgamal_bn.Gnark.{Gnark}
use elgamal_bn.Gnark.Format.{IsLawfulFormat}
use elgamal_bn.Transcript.{Transcript, append_point, challenge_scalar}
use elgamal_bn.Transcript.Framing.{append_all}
use elgamal_bn.Transcript.Binding.{hashed, typed, points, AllOnCurve, IsHashOf, typed-injective}
use elgamal_bn.CommitmentEquality.{Statement, commitment_challenge, append_commitment_transcript}

module _ (g : Gnark) where
  absorbed : Statement g.Point → g.Point → g.Point → g.Point → List (String × g.Point)
  absorbed x a1 a2 a3 =
      ("pk", x.pk)
      ∷ ("H", x.h)
      ∷ ("C1", x.ct.c1)
      ∷ ("C2", x.ct.c2)
      ∷ ("P", x.commitment)
      ∷ ("A1", a1)
      ∷ ("A2", a2)
      ∷ ("A3", a3)
      ∷ []

  input : Statement g.Point → g.Point → g.Point → g.Point → Transcript → Bytes
  input x a1 a2 a3 t =
      hashed "commitment_equality_challenge"
        (append_all (typed g "commitment-equality" (absorbed x a1 a2 a3)) t)

  input-IsHashOf :
      (x : Statement g.Point) (a1 a2 a3 : g.Point) (t : Transcript)
      → IsHashOf g (input x a1 a2 a3 t) (λ keccak. (commitment_challenge g keccak x a1 a2 a3 t).0)
  unfolding commitment_challenge append_commitment_transcript append_point challenge_scalar
      append_all input absorbed
  input-IsHashOf x a1 a2 a3 t keccak = refl

module _ (g : Gnark) (F : IsLawfulFormat g) where
  -- The challenge of a commitment equality proof is made from the hash of a byte string that the
  -- hash function has no part in. For statements and nonce commitments that are points of the
  -- curve, the strings of two challenges after the same transcript are equal exactly if the
  -- statement and the nonce commitments agree.
  pub commitment_challenge_binds :
      (x : Statement g.Point) (a1 a2 a3 : g.Point) (x' : Statement g.Point) (a1' a2' a3' : g.Point)
      (t : Transcript)
      → AllOnCurve g (x.pk ∷ x.h ∷ x.ct.c1 ∷ x.ct.c2 ∷ x.commitment ∷ a1 ∷ a2 ∷ a3 ∷ [])
      → AllOnCurve g (x'.pk ∷ x'.h ∷ x'.ct.c1 ∷ x'.ct.c2 ∷ x'.commitment ∷ a1' ∷ a2' ∷ a3' ∷ [])
      → (m : Bytes) × (m' : Bytes) × IsHashOf g m
          (λ keccak. (commitment_challenge g keccak x a1 a2 a3 t).0)
        × IsHashOf g m' (λ keccak. (commitment_challenge g keccak x' a1' a2' a3' t).0)
        × ((m ≡ m') ↔ ((x ≡ x') × (a1 ≡ a1') × (a2 ≡ a2') × (a3 ≡ a3')))
  unfolding absorbed input
  commitment_challenge_binds x a1 a2 a3 x' a1' a2' a3' t on on' = (
    input g x a1 a2 a3 t,
    input g x' a1' a2' a3' t,
    input-IsHashOf g x a1 a2 a3 t,
    input-IsHashOf g x' a1' a2' a3' t,
    (
      λ same.
          let e : points g (absorbed g x a1 a2 a3) ≡ points g (absorbed g x' a1' a2' a3') =
            typed-injective g F "commitment_equality_challenge" "commitment-equality" t
              (absorbed g x a1 a2 a3) (absorbed g x' a1' a2' a3') refl (omega arith) refl refl on
              on' same in
          let e_x_pk : x.pk ≡ x'.pk = cc in
          let e_x_h : x.h ≡ x'.h = cc in
          let e_x_ct_c1 : x.ct.c1 ≡ x'.ct.c1 = cc in
          let e_x_ct_c2 : x.ct.c2 ≡ x'.ct.c2 = cc in
          let e_x_commitment : x.commitment ≡ x'.commitment = cc in
          let e_a1 : a1 ≡ a1' = cc in
          let e_a2 : a2 ≡ a2' = cc in
          let e_a3 : a3 ≡ a3' = cc in
          (
            (λ i. record {
              pk = e_x_pk i;
              h = e_x_h i;
              ct = record { c1 = e_x_ct_c1 i; c2 = e_x_ct_c2 i };
              commitment = e_x_commitment i;
            }),
            e_a1,
            e_a2,
            e_a3,
          ),
      λ (p0, p1, p2, p3). λ i. input g (p0 i) (p1 i) (p2 i) (p3 i) t,
    ),
  )
