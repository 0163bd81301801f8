-- ===== src/Serialization/Commitment.antt =====
-- `Marshal` and `Unmarshal` of `CommitmentEqualityProof`.
use elgamal_bn.Common.{ℕ, ◌+◌, ◌*◌, ◌≡◌, ◌↔◌, ◌∙◌, refl, sym, ap, arith, true, Bytes, [], ◌++◌}
use elgamal_bn.Common.{
  Result, ok, wrap, ◌>>=◌, ◌>>◌, length, check_inv, ok-injective, length-append,
}
use elgamal_bn.Common.Buffers.{zeros}
use elgamal_bn.Gnark.{Gnark}
use elgamal_bn.Gnark.Format.{IsLawfulFormat}
use elgamal_bn.CommitmentEquality.{CommitmentProof}
use elgamal_bn.Serialization.{marshal_scalar, marshal_point, unmarshal_scalar, unmarshal_point}
use elgamal_bn.Serialization.Keys.{check_length, check_length_iff}
use elgamal_bn.Serialization.Fields.{
  marshal_scalar_next, marshal_point_next, unmarshal_scalar_next, unmarshal_point_next, drop_to_end,
  read_scalar, read_point,
}
use mathlib.Core.Path.{subst}
use mathlib.Core.List.{append_assoc}

abbrev pub commitment_equality_proof_size : ℕ
commitment_equality_proof_size = 3 * 32 + 3 * 64

module _ (g : Gnark) where
  unfoldable pub marshal_commitment_equality : CommitmentProof g.Scalar g.Point → Result Bytes
  marshal_commitment_equality p = do
    (b1, o1) ← marshal_scalar g (zeros commitment_equality_proof_size) 0 p.zv
    (b2, o2) ← marshal_scalar g b1 o1 p.zr
    (b3, o3) ← marshal_scalar g b2 o2 p.zs
    (b4, o4) ← marshal_point g b3 o3 p.a1
    (b5, o5) ← marshal_point g b4 o4 p.a2
    (b6, _) ← marshal_point g b5 o5 p.a3
    ok b6

  unfoldable pub unmarshal_commitment_equality : Bytes → Result (CommitmentProof g.Scalar g.Point)
  unmarshal_commitment_equality input = do
    check_length "invalid CommitmentEqualityProof length: expected %d bytes, got %d"
        commitment_equality_proof_size input
    (zv, o1) ← wrap "failed to unmarshal Zv" (unmarshal_scalar g input 0)
    (zr, o2) ← wrap "failed to unmarshal Zr" (unmarshal_scalar g input o1)
    (zs, o3) ← wrap "failed to unmarshal Zs" (unmarshal_scalar g input o2)
    (a1, o4) ← wrap "failed to unmarshal A1" (unmarshal_point g input o3)
    (a2, o5) ← wrap "failed to unmarshal A2" (unmarshal_point g input o4)
    (a3, _) ← wrap "failed to unmarshal A3" (unmarshal_point g input o5)
    ok (record { zv = zv; zr = zr; zs = zs; a1 = a1; a2 = a2; a3 = a3 })

  -- The fields, one after another.
  abbrev layout : CommitmentProof g.Scalar g.Point → Bytes
  layout p =
      g.bytes p.zv
      ++ (g.bytes p.zr
          ++ (g.bytes p.zs ++ (g.marshal p.a1 ++ (g.marshal p.a2 ++ (g.marshal p.a3 ++ [])))))

module _ (g : Gnark) (F : IsLawfulFormat g) where
  marshal_layout :
      (p : CommitmentProof g.Scalar g.Point) → marshal_commitment_equality g p ≡ ok (layout g p)
  unfolding marshal_commitment_equality zeros
  marshal_layout p =
      let w1 = g.bytes p.zv in
      let w2 = w1 ++ g.bytes p.zr in
      let w3 = w2 ++ g.bytes p.zs in
      let w4 = w3 ++ g.marshal p.a1 in
      let w5 = w4 ++ g.marshal p.a2 in
      let (e1, s1) = marshal_scalar_next g F [] 0 256 p.zv refl in
      let m1 : marshal_scalar g (zeros 288) 0 p.zv ≡ ok (w1 ++ zeros 256, 32) = e1 in
      let (e2, s2) = marshal_scalar_next g F w1 32 224 p.zr s1 in
      let m2 : marshal_scalar g (w1 ++ zeros 256) 32 p.zr ≡ ok (w2 ++ zeros 224, 64) = e2 in
      let (e3, s3) = marshal_scalar_next g F w2 64 192 p.zs s2 in
      let m3 : marshal_scalar g (w2 ++ zeros 224) 64 p.zs ≡ ok (w3 ++ zeros 192, 96) = e3 in
      let (e4, s4) = marshal_point_next g F w3 96 128 p.a1 s3 in
      let m4 : marshal_point g (w3 ++ zeros 192) 96 p.a1 ≡ ok (w4 ++ zeros 128, 160) = e4 in
      let (e5, s5) = marshal_point_next g F w4 160 64 p.a2 s4 in
      let m5 : marshal_point g (w4 ++ zeros 128) 160 p.a2 ≡ ok (w5 ++ zeros 64, 224) = e5 in
      let (e6, _) = marshal_point_next g F w5 224 0 p.a3 s5 in
      rw (m1, m2, m3, m4, m5, e6) (ap ok (simp append_assoc))

  length-layout : (p : CommitmentProof g.Scalar g.Point) → length (layout g p) ≡ 288
  length-layout p =
      let t5 = g.marshal p.a3 ++ [] in
      let t4 = g.marshal p.a2 ++ t5 in
      let t3 = g.marshal p.a1 ++ t4 in
      let t2 = g.bytes p.zs ++ t3 in
      let t1 = g.bytes p.zr ++ t2 in
      omega (
        arith,
        length-append (g.marshal p.a3) [],
        F.length-marshal p.a3,
        length-append (g.marshal p.a2) t5,
        F.length-marshal p.a2,
        length-append (g.marshal p.a1) t4,
        F.length-marshal p.a1,
        length-append (g.bytes p.zs) t3,
        F.length-bytes p.zs,
        length-append (g.bytes p.zr) t2,
        F.length-bytes p.zr,
        length-append (g.bytes p.zv) t1,
        F.length-bytes p.zv,
      )

  decodes :
      (input : Bytes) (p : CommitmentProof g.Scalar g.Point)
      → unmarshal_commitment_equality g input ≡ ok p
      → (marshal_commitment_equality g p ≡ ok input)
        × (g.is_on_curve p.a1 ≡ true)
        × (g.is_on_curve p.a2 ≡ true)
        × (g.is_on_curve p.a3 ≡ true)
  unfolding unmarshal_commitment_equality
  decodes input p h =
      let (sized, h0) = check_inv (check_length _ 288 input) _ h in
      let (zv, d1, h1) = read_scalar g F "failed to unmarshal Zv" input 0 _ h0 in
      let (zr, d2, h2) = read_scalar g F "failed to unmarshal Zr" input 32 _ h1 in
      let (zs, d3, h3) = read_scalar g F "failed to unmarshal Zs" input 64 _ h2 in
      let (a1, d4, on_a1, h4) = read_point g F "failed to unmarshal A1" input 96 _ h3 in
      let (a2, d5, on_a2, h5) = read_point g F "failed to unmarshal A2" input 160 _ h4 in
      let (a3, d6, on_a3, h6) = read_point g F "failed to unmarshal A3" input 224 _ h5 in
      let q : CommitmentProof g.Scalar g.Point = record {
        zv = zv;
        zr = zr;
        zs = zs;
        a1 = a1;
        a2 = a2;
        a3 = a3;
      } in
      let c6 = drop_to_end input 288 ((check_length_iff _ 288 input).0 sized) in
      let c5 = d6 ∙ ap (λ r. g.marshal a3 ++ r) c6 in
      let c4 = d5 ∙ ap (λ r. g.marshal a2 ++ r) c5 in
      let c3 = d4 ∙ ap (λ r. g.marshal a1 ++ r) c4 in
      let c2 = d3 ∙ ap (λ r. g.bytes zs ++ r) c3 in
      let c1 = d2 ∙ ap (λ r. g.bytes zr ++ r) c2 in
      let c0 : input ≡ layout g q = d1 ∙ ap (λ r. g.bytes zv ++ r) c1 in
      let same = ok-injective q p h6 in
      subst
        (λ r.
          (marshal_commitment_equality g r ≡ ok input)
          × (g.is_on_curve r.a1 ≡ true)
          × (g.is_on_curve r.a2 ≡ true)
          × (g.is_on_curve r.a3 ≡ true))
        same (marshal_layout q ∙ ap ok (sym c0), on_a1, on_a2, on_a3)

  encodes :
      (input : Bytes) (p : CommitmentProof g.Scalar g.Point)
      → (marshal_commitment_equality g p ≡ ok input)
        × (g.is_on_curve p.a1 ≡ true)
        × (g.is_on_curve p.a2 ≡ true)
        × (g.is_on_curve p.a3 ≡ true)
      → unmarshal_commitment_equality g input ≡ ok p
  unfolding unmarshal_commitment_equality
  encodes input p (e, on_a1, on_a2, on_a3) =
      let d0 : input ≡ layout g p = sym (ok-injective _ _ (sym (marshal_layout p) ∙ e)) in
      let size : length input ≡ 288 = ap length d0 ∙ length-layout p in
      let (f1, d1) = unmarshal_scalar_next g F input _ 0 p.zv (omega arith) d0 in
      let (f2, d2) = unmarshal_scalar_next g F input _ 32 p.zr (omega arith) d1 in
      let (f3, d3) = unmarshal_scalar_next g F input _ 64 p.zs (omega arith) d2 in
      let (f4, d4) = unmarshal_point_next g F input _ 96 p.a1 (omega arith) on_a1 d3 in
      let (f5, d5) = unmarshal_point_next g F input _ 160 p.a2 (omega arith) on_a2 d4 in
      let (f6, _) = unmarshal_point_next g F input _ 224 p.a3 (omega arith) on_a3 d5 in
      rw ((check_length_iff _ 288 input).1 size, f1, f2, f3, f4, f5, f6) refl

  -- Bytes decode to `CommitmentEqualityProof` exactly if they are its encoding and its points are on the curve:
  -- proofs survive the round trip, and no proof has a second encoding.
  pub unmarshal_commitment_equality_iff :
      (input : Bytes) (p : CommitmentProof g.Scalar g.Point)
      → (unmarshal_commitment_equality g input ≡ ok p) ↔ (
          (marshal_commitment_equality g p ≡ ok input)
          × (g.is_on_curve p.a1 ≡ true)
          × (g.is_on_curve p.a2 ≡ true)
          × (g.is_on_curve p.a3 ≡ true))
  unmarshal_commitment_equality_iff input p = (decodes input p, encodes input p)
