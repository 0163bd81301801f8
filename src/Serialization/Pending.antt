-- ===== src/Serialization/Pending.antt =====
-- `Marshal` and `Unmarshal` of `ApplyPendingProof`.
-- The loops over the arrays of scalars and points are written out.
use elgamal_bn.Common.{ℕ, ◌+◌, ◌*◌, ◌≡◌, ◌↔◌, ◌∙◌, refl, sym, ap, arith, true, Bytes, [], ◌++◌}
use elgamal_bn.Common.{
  Result, ok, wrap, ◌>>=◌, ◌>>◌, length, check_inv, ok-injective, length-append,
}
use elgamal_bn.Common.Buffers.{zeros}
use elgamal_bn.Gnark.{Gnark}
use elgamal_bn.Gnark.Format.{IsLawfulFormat}
use elgamal_bn.ApplyPending.{PendingProof}
use elgamal_bn.Serialization.{marshal_scalar, marshal_point, unmarshal_scalar, unmarshal_point}
use elgamal_bn.Serialization.Keys.{check_length, check_length_iff}
use elgamal_bn.Serialization.Fields.{
  marshal_scalar_next, marshal_point_next, unmarshal_scalar_next, unmarshal_point_next, drop_to_end,
  read_scalar, read_point,
}
use mathlib.Core.Path.{subst}
use mathlib.Core.List.{append_assoc}

abbrev pub apply_pending_proof_size : ℕ
apply_pending_proof_size = 3 * 32 + 4 * 64

module _ (g : Gnark) where
  unfoldable pub marshal_apply_pending : PendingProof g.Scalar g.Point → Result Bytes
  marshal_apply_pending p = do
    (b1, o1) ← marshal_scalar g (zeros apply_pending_proof_size) 0 p.sm
    (b2, o2) ← marshal_scalar g b1 o1 p.ssk
    (b3, o3) ← marshal_scalar g b2 o2 p.srn
    (b4, o4) ← marshal_point g b3 o3 p.r1
    (b5, o5) ← marshal_point g b4 o4 p.r2
    (b6, o6) ← marshal_point g b5 o5 p.r3
    (b7, _) ← marshal_point g b6 o6 p.r4
    ok b7

  unfoldable pub unmarshal_apply_pending : Bytes → Result (PendingProof g.Scalar g.Point)
  unmarshal_apply_pending input = do
    check_length "invalid ApplyPendingProof length: expected %d bytes, got %d"
        apply_pending_proof_size input
    (sm, o1) ← wrap "failed to unmarshal Sm" (unmarshal_scalar g input 0)
    (ssk, o2) ← wrap "failed to unmarshal Ssk" (unmarshal_scalar g input o1)
    (srn, o3) ← wrap "failed to unmarshal Srn" (unmarshal_scalar g input o2)
    (r1, o4) ← wrap "failed to unmarshal R1" (unmarshal_point g input o3)
    (r2, o5) ← wrap "failed to unmarshal R2" (unmarshal_point g input o4)
    (r3, o6) ← wrap "failed to unmarshal R3" (unmarshal_point g input o5)
    (r4, _) ← wrap "failed to unmarshal R4" (unmarshal_point g input o6)
    ok (record { sm = sm; ssk = ssk; srn = srn; r1 = r1; r2 = r2; r3 = r3; r4 = r4 })

  -- The fields, one after another.
  abbrev layout : PendingProof g.Scalar g.Point → Bytes
  layout p =
      g.bytes p.sm
      ++ (g.bytes p.ssk
          ++ (g.bytes p.srn
              ++ (g.marshal p.r1
                  ++ (g.marshal p.r2 ++ (g.marshal p.r3 ++ (g.marshal p.r4 ++ []))))))

module _ (g : Gnark) (F : IsLawfulFormat g) where
  marshal_layout : (p : PendingProof g.Scalar g.Point) → marshal_apply_pending g p ≡ ok (layout g p)
  unfolding marshal_apply_pending zeros
  marshal_layout p =
      let w1 = g.bytes p.sm in
      let w2 = w1 ++ g.bytes p.ssk in
      let w3 = w2 ++ g.bytes p.srn in
      let w4 = w3 ++ g.marshal p.r1 in
      let w5 = w4 ++ g.marshal p.r2 in
      let w6 = w5 ++ g.marshal p.r3 in
      let (e1, s1) = marshal_scalar_next g F [] 0 320 p.sm refl in
      let m1 : marshal_scalar g (zeros 352) 0 p.sm ≡ ok (w1 ++ zeros 320, 32) = e1 in
      let (e2, s2) = marshal_scalar_next g F w1 32 288 p.ssk s1 in
      let m2 : marshal_scalar g (w1 ++ zeros 320) 32 p.ssk ≡ ok (w2 ++ zeros 288, 64) = e2 in
      let (e3, s3) = marshal_scalar_next g F w2 64 256 p.srn s2 in
      let m3 : marshal_scalar g (w2 ++ zeros 288) 64 p.srn ≡ ok (w3 ++ zeros 256, 96) = e3 in
      let (e4, s4) = marshal_point_next g F w3 96 192 p.r1 s3 in
      let m4 : marshal_point g (w3 ++ zeros 256) 96 p.r1 ≡ ok (w4 ++ zeros 192, 160) = e4 in
      let (e5, s5) = marshal_point_next g F w4 160 128 p.r2 s4 in
      let m5 : marshal_point g (w4 ++ zeros 192) 160 p.r2 ≡ ok (w5 ++ zeros 128, 224) = e5 in
      let (e6, s6) = marshal_point_next g F w5 224 64 p.r3 s5 in
      let m6 : marshal_point g (w5 ++ zeros 128) 224 p.r3 ≡ ok (w6 ++ zeros 64, 288) = e6 in
      let (e7, _) = marshal_point_next g F w6 288 0 p.r4 s6 in
      rw (m1, m2, m3, m4, m5, m6, e7) (ap ok (simp append_assoc))

  length-layout : (p : PendingProof g.Scalar g.Point) → length (layout g p) ≡ 352
  length-layout p =
      let t6 = g.marshal p.r4 ++ [] in
      let t5 = g.marshal p.r3 ++ t6 in
      let t4 = g.marshal p.r2 ++ t5 in
      let t3 = g.marshal p.r1 ++ t4 in
      let t2 = g.bytes p.srn ++ t3 in
      let t1 = g.bytes p.ssk ++ t2 in
      omega (
        arith,
        length-append (g.marshal p.r4) [],
        F.length-marshal p.r4,
        length-append (g.marshal p.r3) t6,
        F.length-marshal p.r3,
        length-append (g.marshal p.r2) t5,
        F.length-marshal p.r2,
        length-append (g.marshal p.r1) t4,
        F.length-marshal p.r1,
        length-append (g.bytes p.srn) t3,
        F.length-bytes p.srn,
        length-append (g.bytes p.ssk) t2,
        F.length-bytes p.ssk,
        length-append (g.bytes p.sm) t1,
        F.length-bytes p.sm,
      )

  decodes :
      (input : Bytes) (p : PendingProof g.Scalar g.Point)
      → unmarshal_apply_pending g input ≡ ok p
      → (marshal_apply_pending g p ≡ ok input)
        × (g.is_on_curve p.r1 ≡ true)
        × (g.is_on_curve p.r2 ≡ true)
        × (g.is_on_curve p.r3 ≡ true)
        × (g.is_on_curve p.r4 ≡ true)
  unfolding unmarshal_apply_pending
  decodes input p h =
      let (sized, h0) = check_inv (check_length _ 352 input) _ h in
      let (sm, d1, h1) = read_scalar g F "failed to unmarshal Sm" input 0 _ h0 in
      let (ssk, d2, h2) = read_scalar g F "failed to unmarshal Ssk" input 32 _ h1 in
      let (srn, d3, h3) = read_scalar g F "failed to unmarshal Srn" input 64 _ h2 in
      let (r1, d4, on_r1, h4) = read_point g F "failed to unmarshal R1" input 96 _ h3 in
      let (r2, d5, on_r2, h5) = read_point g F "failed to unmarshal R2" input 160 _ h4 in
      let (r3, d6, on_r3, h6) = read_point g F "failed to unmarshal R3" input 224 _ h5 in
      let (r4, d7, on_r4, h7) = read_point g F "failed to unmarshal R4" input 288 _ h6 in
      let q : PendingProof g.Scalar g.Point = record {
        sm = sm;
        ssk = ssk;
        srn = srn;
        r1 = r1;
        r2 = r2;
        r3 = r3;
        r4 = r4;
      } in
      let c7 = drop_to_end input 352 ((check_length_iff _ 352 input).0 sized) in
      let c6 = d7 ∙ ap (λ r. g.marshal r4 ++ r) c7 in
      let c5 = d6 ∙ ap (λ r. g.marshal r3 ++ r) c6 in
      let c4 = d5 ∙ ap (λ r. g.marshal r2 ++ r) c5 in
      let c3 = d4 ∙ ap (λ r. g.marshal r1 ++ r) c4 in
      let c2 = d3 ∙ ap (λ r. g.bytes srn ++ r) c3 in
      let c1 = d2 ∙ ap (λ r. g.bytes ssk ++ r) c2 in
      let c0 : input ≡ layout g q = d1 ∙ ap (λ r. g.bytes sm ++ r) c1 in
      let same = ok-injective q p h7 in
      subst
        (λ r.
          (marshal_apply_pending g r ≡ ok input)
          × (g.is_on_curve r.r1 ≡ true)
          × (g.is_on_curve r.r2 ≡ true)
          × (g.is_on_curve r.r3 ≡ true)
          × (g.is_on_curve r.r4 ≡ true))
        same (marshal_layout q ∙ ap ok (sym c0), on_r1, on_r2, on_r3, on_r4)

  encodes :
      (input : Bytes) (p : PendingProof g.Scalar g.Point)
      → (marshal_apply_pending g p ≡ ok input)
        × (g.is_on_curve p.r1 ≡ true)
        × (g.is_on_curve p.r2 ≡ true)
        × (g.is_on_curve p.r3 ≡ true)
        × (g.is_on_curve p.r4 ≡ true)
      → unmarshal_apply_pending g input ≡ ok p
  unfolding unmarshal_apply_pending
  encodes input p (e, on_r1, on_r2, on_r3, on_r4) =
      let d0 : input ≡ layout g p = sym (ok-injective _ _ (sym (marshal_layout p) ∙ e)) in
      let size : length input ≡ 352 = ap length d0 ∙ length-layout p in
      let (f1, d1) = unmarshal_scalar_next g F input _ 0 p.sm (omega arith) d0 in
      let (f2, d2) = unmarshal_scalar_next g F input _ 32 p.ssk (omega arith) d1 in
      let (f3, d3) = unmarshal_scalar_next g F input _ 64 p.srn (omega arith) d2 in
      let (f4, d4) = unmarshal_point_next g F input _ 96 p.r1 (omega arith) on_r1 d3 in
      let (f5, d5) = unmarshal_point_next g F input _ 160 p.r2 (omega arith) on_r2 d4 in
      let (f6, d6) = unmarshal_point_next g F input _ 224 p.r3 (omega arith) on_r3 d5 in
      let (f7, _) = unmarshal_point_next g F input _ 288 p.r4 (omega arith) on_r4 d6 in
      rw ((check_length_iff _ 352 input).1 size, f1, f2, f3, f4, f5, f6, f7) refl

  -- Bytes decode to `ApplyPendingProof` exactly if they are its encoding and its points are on the curve:
  -- proofs survive the round trip, and no proof has a second encoding.
  pub unmarshal_apply_pending_iff :
      (input : Bytes) (p : PendingProof g.Scalar g.Point)
      → (unmarshal_apply_pending g input ≡ ok p) ↔ (
          (marshal_apply_pending g p ≡ ok input)
          × (g.is_on_curve p.r1 ≡ true)
          × (g.is_on_curve p.r2 ≡ true)
          × (g.is_on_curve p.r3 ≡ true)
          × (g.is_on_curve p.r4 ≡ true))
  unmarshal_apply_pending_iff input p = (decodes input p, encodes input p)
