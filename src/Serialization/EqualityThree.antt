-- ===== src/Serialization/EqualityThree.antt =====
-- `Marshal` and `Unmarshal` of `EqualityProof`.
-- The loops over the arrays of scalars and points are written out.
use elgamal_bn.Common.{ℕ, ◌+◌, ◌*◌, ◌≡◌, ◌↔◌, ◌∙◌, refl, sym, ap, arith, true, Bytes, [], ◌++◌}
use elgamal_bn.Common.{
  Result, ok, wrap, ◌>>=◌, ◌>>◌, length, check_inv, ok-injective, length-append,
}
use elgamal_bn.Common.Buffers.{zeros}
use elgamal_bn.Gnark.{Gnark}
use elgamal_bn.Gnark.Format.{IsLawfulFormat}
use elgamal_bn.Equality.Three.{EqualityProof}
use elgamal_bn.Serialization.{marshal_scalar, marshal_point, unmarshal_scalar, unmarshal_point}
use elgamal_bn.Serialization.Keys.{check_length, check_length_iff}
use elgamal_bn.Serialization.Fields.{
  marshal_scalar_next, marshal_point_next, unmarshal_scalar_next, unmarshal_point_next, drop_to_end,
  read_scalar, read_point,
}
use mathlib.Core.Path.{subst}
use mathlib.Core.List.{append_assoc}

abbrev pub equality_proof_size : ℕ
equality_proof_size = 4 * 32 + 6 * 64

module _ (g : Gnark) where
  unfoldable pub marshal_equality : EqualityProof g.Scalar g.Point → Result Bytes
  marshal_equality p = do
    (b1, o1) ← marshal_scalar g (zeros equality_proof_size) 0 p.sm
    (b2, o2) ← marshal_scalar g b1 o1 p.sr1
    (b3, o3) ← marshal_scalar g b2 o2 p.sr2
    (b4, o4) ← marshal_scalar g b3 o3 p.sr3
    (b5, o5) ← marshal_point g b4 o4 p.r11
    (b6, o6) ← marshal_point g b5 o5 p.r21
    (b7, o7) ← marshal_point g b6 o6 p.r12
    (b8, o8) ← marshal_point g b7 o7 p.r22
    (b9, o9) ← marshal_point g b8 o8 p.r13
    (b10, _) ← marshal_point g b9 o9 p.r23
    ok b10

  unfoldable pub unmarshal_equality : Bytes → Result (EqualityProof g.Scalar g.Point)
  unmarshal_equality input = do
    check_length "invalid EqualityProof length: expected %d bytes, got %d" equality_proof_size input
    (sm, o1) ← wrap "failed to unmarshal Sm" (unmarshal_scalar g input 0)
    (sr1, o2) ← wrap "failed to unmarshal Sr1" (unmarshal_scalar g input o1)
    (sr2, o3) ← wrap "failed to unmarshal Sr2" (unmarshal_scalar g input o2)
    (sr3, o4) ← wrap "failed to unmarshal Sr3" (unmarshal_scalar g input o3)
    (r11, o5) ← wrap "failed to unmarshal R11" (unmarshal_point g input o4)
    (r21, o6) ← wrap "failed to unmarshal R21" (unmarshal_point g input o5)
    (r12, o7) ← wrap "failed to unmarshal R12" (unmarshal_point g input o6)
    (r22, o8) ← wrap "failed to unmarshal R22" (unmarshal_point g input o7)
    (r13, o9) ← wrap "failed to unmarshal R13" (unmarshal_point g input o8)
    (r23, _) ← wrap "failed to unmarshal R23" (unmarshal_point g input o9)
    ok (record {
      sm = sm;
      sr1 = sr1;
      sr2 = sr2;
      sr3 = sr3;
      r11 = r11;
      r21 = r21;
      r12 = r12;
      r22 = r22;
      r13 = r13;
      r23 = r23;
    })

  -- The fields, one after another.
  abbrev layout : EqualityProof g.Scalar g.Point → Bytes
  layout p =
      g.bytes p.sm
      ++ (g.bytes p.sr1
          ++ (g.bytes p.sr2
              ++ (g.bytes p.sr3
                  ++ (g.marshal p.r11
                      ++ (g.marshal p.r21
                          ++ (g.marshal p.r12
                              ++ (g.marshal p.r22
                                  ++ (g.marshal p.r13 ++ (g.marshal p.r23 ++ [])))))))))

module _ (g : Gnark) (F : IsLawfulFormat g) where
  marshal_layout : (p : EqualityProof g.Scalar g.Point) → marshal_equality g p ≡ ok (layout g p)
  unfolding marshal_equality zeros
  marshal_layout p =
      let w1 = g.bytes p.sm in
      let w2 = w1 ++ g.bytes p.sr1 in
      let w3 = w2 ++ g.bytes p.sr2 in
      let w4 = w3 ++ g.bytes p.sr3 in
      let w5 = w4 ++ g.marshal p.r11 in
      let w6 = w5 ++ g.marshal p.r21 in
      let w7 = w6 ++ g.marshal p.r12 in
      let w8 = w7 ++ g.marshal p.r22 in
      let w9 = w8 ++ g.marshal p.r13 in
      let (e1, s1) = marshal_scalar_next g F [] 0 480 p.sm refl in
      let m1 : marshal_scalar g (zeros 512) 0 p.sm ≡ ok (w1 ++ zeros 480, 32) = e1 in
      let (e2, s2) = marshal_scalar_next g F w1 32 448 p.sr1 s1 in
      let m2 : marshal_scalar g (w1 ++ zeros 480) 32 p.sr1 ≡ ok (w2 ++ zeros 448, 64) = e2 in
      let (e3, s3) = marshal_scalar_next g F w2 64 416 p.sr2 s2 in
      let m3 : marshal_scalar g (w2 ++ zeros 448) 64 p.sr2 ≡ ok (w3 ++ zeros 416, 96) = e3 in
      let (e4, s4) = marshal_scalar_next g F w3 96 384 p.sr3 s3 in
      let m4 : marshal_scalar g (w3 ++ zeros 416) 96 p.sr3 ≡ ok (w4 ++ zeros 384, 128) = e4 in
      let (e5, s5) = marshal_point_next g F w4 128 320 p.r11 s4 in
      let m5 : marshal_point g (w4 ++ zeros 384) 128 p.r11 ≡ ok (w5 ++ zeros 320, 192) = e5 in
      let (e6, s6) = marshal_point_next g F w5 192 256 p.r21 s5 in
      let m6 : marshal_point g (w5 ++ zeros 320) 192 p.r21 ≡ ok (w6 ++ zeros 256, 256) = e6 in
      let (e7, s7) = marshal_point_next g F w6 256 192 p.r12 s6 in
      let m7 : marshal_point g (w6 ++ zeros 256) 256 p.r12 ≡ ok (w7 ++ zeros 192, 320) = e7 in
      let (e8, s8) = marshal_point_next g F w7 320 128 p.r22 s7 in
      let m8 : marshal_point g (w7 ++ zeros 192) 320 p.r22 ≡ ok (w8 ++ zeros 128, 384) = e8 in
      let (e9, s9) = marshal_point_next g F w8 384 64 p.r13 s8 in
      let m9 : marshal_point g (w8 ++ zeros 128) 384 p.r13 ≡ ok (w9 ++ zeros 64, 448) = e9 in
      let (e10, _) = marshal_point_next g F w9 448 0 p.r23 s9 in
      rw (m1, m2, m3, m4, m5, m6, m7, m8, m9, e10) (ap ok (simp append_assoc))

  length-layout : (p : EqualityProof g.Scalar g.Point) → length (layout g p) ≡ 512
  length-layout p =
      let t9 = g.marshal p.r23 ++ [] in
      let t8 = g.marshal p.r13 ++ t9 in
      let t7 = g.marshal p.r22 ++ t8 in
      let t6 = g.marshal p.r12 ++ t7 in
      let t5 = g.marshal p.r21 ++ t6 in
      let t4 = g.marshal p.r11 ++ t5 in
      let t3 = g.bytes p.sr3 ++ t4 in
      let t2 = g.bytes p.sr2 ++ t3 in
      let t1 = g.bytes p.sr1 ++ t2 in
      omega (
        arith,
        length-append (g.marshal p.r23) [],
        F.length-marshal p.r23,
        length-append (g.marshal p.r13) t9,
        F.length-marshal p.r13,
        length-append (g.marshal p.r22) t8,
        F.length-marshal p.r22,
        length-append (g.marshal p.r12) t7,
        F.length-marshal p.r12,
        length-append (g.marshal p.r21) t6,
        F.length-marshal p.r21,
        length-append (g.marshal p.r11) t5,
        F.length-marshal p.r11,
        length-append (g.bytes p.sr3) t4,
        F.length-bytes p.sr3,
        length-append (g.bytes p.sr2) t3,
        F.length-bytes p.sr2,
        length-append (g.bytes p.sr1) t2,
        F.length-bytes p.sr1,
        length-append (g.bytes p.sm) t1,
        F.length-bytes p.sm,
      )

  decodes :
      (input : Bytes) (p : EqualityProof g.Scalar g.Point)
      → unmarshal_equality g input ≡ ok p
      → (marshal_equality g p ≡ ok input)
        × (g.is_on_curve p.r11 ≡ true)
        × (g.is_on_curve p.r21 ≡ true)
        × (g.is_on_curve p.r12 ≡ true)
        × (g.is_on_curve p.r22 ≡ true)
        × (g.is_on_curve p.r13 ≡ true)
        × (g.is_on_curve p.r23 ≡ true)
  unfolding unmarshal_equality
  decodes input p h =
      let (sized, h0) = check_inv (check_length _ 512 input) _ h in
      let (sm, d1, h1) = read_scalar g F "failed to unmarshal Sm" input 0 _ h0 in
      let (sr1, d2, h2) = read_scalar g F "failed to unmarshal Sr1" input 32 _ h1 in
      let (sr2, d3, h3) = read_scalar g F "failed to unmarshal Sr2" input 64 _ h2 in
      let (sr3, d4, h4) = read_scalar g F "failed to unmarshal Sr3" input 96 _ h3 in
      let (r11, d5, on_r11, h5) = read_point g F "failed to unmarshal R11" input 128 _ h4 in
      let (r21, d6, on_r21, h6) = read_point g F "failed to unmarshal R21" input 192 _ h5 in
      let (r12, d7, on_r12, h7) = read_point g F "failed to unmarshal R12" input 256 _ h6 in
      let (r22, d8, on_r22, h8) = read_point g F "failed to unmarshal R22" input 320 _ h7 in
      let (r13, d9, on_r13, h9) = read_point g F "failed to unmarshal R13" input 384 _ h8 in
      let (r23, d10, on_r23, h10) = read_point g F "failed to unmarshal R23" input 448 _ h9 in
      let q : EqualityProof g.Scalar g.Point = record {
        sm = sm;
        sr1 = sr1;
        sr2 = sr2;
        sr3 = sr3;
        r11 = r11;
        r21 = r21;
        r12 = r12;
        r22 = r22;
        r13 = r13;
        r23 = r23;
      } in
      let c10 = drop_to_end input 512 ((check_length_iff _ 512 input).0 sized) in
      let c9 = d10 ∙ ap (λ r. g.marshal r23 ++ r) c10 in
      let c8 = d9 ∙ ap (λ r. g.marshal r13 ++ r) c9 in
      let c7 = d8 ∙ ap (λ r. g.marshal r22 ++ r) c8 in
      let c6 = d7 ∙ ap (λ r. g.marshal r12 ++ r) c7 in
      let c5 = d6 ∙ ap (λ r. g.marshal r21 ++ r) c6 in
      let c4 = d5 ∙ ap (λ r. g.marshal r11 ++ r) c5 in
      let c3 = d4 ∙ ap (λ r. g.bytes sr3 ++ r) c4 in
      let c2 = d3 ∙ ap (λ r. g.bytes sr2 ++ r) c3 in
      let c1 = d2 ∙ ap (λ r. g.bytes sr1 ++ r) c2 in
      let c0 : input ≡ layout g q = d1 ∙ ap (λ r. g.bytes sm ++ r) c1 in
      let same = ok-injective q p h10 in
      subst
        (λ r.
          (marshal_equality g r ≡ ok input)
          × (g.is_on_curve r.r11 ≡ true)
          × (g.is_on_curve r.r21 ≡ true)
          × (g.is_on_curve r.r12 ≡ true)
          × (g.is_on_curve r.r22 ≡ true)
          × (g.is_on_curve r.r13 ≡ true)
          × (g.is_on_curve r.r23 ≡ true))
        same (marshal_layout q ∙ ap ok (sym c0), on_r11, on_r21, on_r12, on_r22, on_r13, on_r23)

  encodes :
      (input : Bytes) (p : EqualityProof g.Scalar g.Point)
      → (marshal_equality g p ≡ ok input)
        × (g.is_on_curve p.r11 ≡ true)
        × (g.is_on_curve p.r21 ≡ true)
        × (g.is_on_curve p.r12 ≡ true)
        × (g.is_on_curve p.r22 ≡ true)
        × (g.is_on_curve p.r13 ≡ true)
        × (g.is_on_curve p.r23 ≡ true)
      → unmarshal_equality g input ≡ ok p
  unfolding unmarshal_equality
  encodes input p (e, on_r11, on_r21, on_r12, on_r22, on_r13, on_r23) =
      let d0 : input ≡ layout g p = sym (ok-injective _ _ (sym (marshal_layout p) ∙ e)) in
      let size : length input ≡ 512 = ap length d0 ∙ length-layout p in
      let (f1, d1) = unmarshal_scalar_next g F input _ 0 p.sm (omega arith) d0 in
      let (f2, d2) = unmarshal_scalar_next g F input _ 32 p.sr1 (omega arith) d1 in
      let (f3, d3) = unmarshal_scalar_next g F input _ 64 p.sr2 (omega arith) d2 in
      let (f4, d4) = unmarshal_scalar_next g F input _ 96 p.sr3 (omega arith) d3 in
      let (f5, d5) = unmarshal_point_next g F input _ 128 p.r11 (omega arith) on_r11 d4 in
      let (f6, d6) = unmarshal_point_next g F input _ 192 p.r21 (omega arith) on_r21 d5 in
      let (f7, d7) = unmarshal_point_next g F input _ 256 p.r12 (omega arith) on_r12 d6 in
      let (f8, d8) = unmarshal_point_next g F input _ 320 p.r22 (omega arith) on_r22 d7 in
      let (f9, d9) = unmarshal_point_next g F input _ 384 p.r13 (omega arith) on_r13 d8 in
      let (f10, _) = unmarshal_point_next g F input _ 448 p.r23 (omega arith) on_r23 d9 in
      rw ((check_length_iff _ 512 input).1 size, f1, f2, f3, f4, f5, f6, f7, f8, f9, f10) refl

  -- Bytes decode to `EqualityProof` exactly if they are its encoding and its points are on the curve:
  -- proofs survive the round trip, and no proof has a second encoding.
  pub unmarshal_equality_iff :
      (input : Bytes) (p : EqualityProof g.Scalar g.Point)
      → (unmarshal_equality g input ≡ ok p) ↔ (
          (marshal_equality g p ≡ ok input)
          × (g.is_on_curve p.r11 ≡ true)
          × (g.is_on_curve p.r21 ≡ true)
          × (g.is_on_curve p.r12 ≡ true)
          × (g.is_on_curve p.r22 ≡ true)
          × (g.is_on_curve p.r13 ≡ true)
          × (g.is_on_curve p.r23 ≡ true))
  unmarshal_equality_iff input p = (decodes input p, encodes input p)
