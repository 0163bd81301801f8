-- ===== src/Serialization/Dleq.antt =====
-- `Marshal` and `Unmarshal` of `DLEQProof`.
use elgamal_bn.Common.{ℕ, ◌+◌, ◌*◌, ◌≡◌, ◌↔◌, ◌∙◌, refl, sym, ap, arith, true, Bytes, [], ◌++◌}
use elgamal_bn.Common.{
  Result, ok, wrap, ◌>>=◌, ◌>>◌, length, check_inv, ok-injective, length-append,
}
use elgamal_bn.Common.Buffers.{zeros}
use elgamal_bn.Gnark.{Gnark}
use elgamal_bn.Gnark.Format.{IsLawfulFormat}
use elgamal_bn.Dleq.{DleqProof}
use elgamal_bn.Serialization.{marshal_scalar, marshal_point, unmarshal_scalar, unmarshal_point}
use elgamal_bn.Serialization.Keys.{check_length, check_length_iff}
use elgamal_bn.Serialization.Fields.{
  marshal_scalar_next, marshal_point_next, unmarshal_scalar_next, unmarshal_point_next, drop_to_end,
  read_scalar, read_point,
}
use mathlib.Core.Path.{subst}
use mathlib.Core.List.{append_assoc}

abbrev pub dleq_proof_size : ℕ
dleq_proof_size = 32 + 2 * 64

module _ (g : Gnark) where
  unfoldable pub marshal_dleq : DleqProof g.Scalar g.Point → Result Bytes
  marshal_dleq p = do
    (b1, o1) ← marshal_scalar g (zeros dleq_proof_size) 0 p.s
    (b2, o2) ← marshal_point g b1 o1 p.r1
    (b3, _) ← marshal_point g b2 o2 p.r2
    ok b3

  unfoldable pub unmarshal_dleq : Bytes → Result (DleqProof g.Scalar g.Point)
  unmarshal_dleq input = do
    check_length "invalid DLEQProof length: expected %d bytes, got %d" dleq_proof_size input
    (s, o1) ← wrap "failed to unmarshal S" (unmarshal_scalar g input 0)
    (r1, o2) ← wrap "failed to unmarshal R1" (unmarshal_point g input o1)
    (r2, _) ← wrap "failed to unmarshal R2" (unmarshal_point g input o2)
    ok (record { s = s; r1 = r1; r2 = r2 })

  -- The fields, one after another.
  abbrev layout : DleqProof g.Scalar g.Point → Bytes
  layout p = g.bytes p.s ++ (g.marshal p.r1 ++ (g.marshal p.r2 ++ []))

module _ (g : Gnark) (F : IsLawfulFormat g) where
  marshal_layout : (p : DleqProof g.Scalar g.Point) → marshal_dleq g p ≡ ok (layout g p)
  unfolding marshal_dleq zeros
  marshal_layout p =
      let w1 = g.bytes p.s in
      let w2 = w1 ++ g.marshal p.r1 in
      let (e1, s1) = marshal_scalar_next g F [] 0 128 p.s refl in
      let m1 : marshal_scalar g (zeros 160) 0 p.s ≡ ok (w1 ++ zeros 128, 32) = e1 in
      let (e2, s2) = marshal_point_next g F w1 32 64 p.r1 s1 in
      let m2 : marshal_point g (w1 ++ zeros 128) 32 p.r1 ≡ ok (w2 ++ zeros 64, 96) = e2 in
      let (e3, _) = marshal_point_next g F w2 96 0 p.r2 s2 in
      rw (m1, m2, e3) (ap ok (simp append_assoc))

  length-layout : (p : DleqProof g.Scalar g.Point) → length (layout g p) ≡ 160
  length-layout p =
      let t2 = g.marshal p.r2 ++ [] in
      let t1 = g.marshal p.r1 ++ t2 in
      omega (
        arith,
        length-append (g.marshal p.r2) [],
        F.length-marshal p.r2,
        length-append (g.marshal p.r1) t2,
        F.length-marshal p.r1,
        length-append (g.bytes p.s) t1,
        F.length-bytes p.s,
      )

  decodes :
      (input : Bytes) (p : DleqProof g.Scalar g.Point)
      → unmarshal_dleq g input ≡ ok p
      → (marshal_dleq g p ≡ ok input) × (g.is_on_curve p.r1 ≡ true) × (g.is_on_curve p.r2 ≡ true)
  unfolding unmarshal_dleq
  decodes input p h =
      let (sized, h0) = check_inv (check_length _ 160 input) _ h in
      let (s, d1, h1) = read_scalar g F "failed to unmarshal S" input 0 _ h0 in
      let (r1, d2, on_r1, h2) = read_point g F "failed to unmarshal R1" input 32 _ h1 in
      let (r2, d3, on_r2, h3) = read_point g F "failed to unmarshal R2" input 96 _ h2 in
      let q : DleqProof g.Scalar g.Point = record { s = s; r1 = r1; r2 = r2 } in
      let c3 = drop_to_end input 160 ((check_length_iff _ 160 input).0 sized) in
      let c2 = d3 ∙ ap (λ r. g.marshal r2 ++ r) c3 in
      let c1 = d2 ∙ ap (λ r. g.marshal r1 ++ r) c2 in
      let c0 : input ≡ layout g q = d1 ∙ ap (λ r. g.bytes s ++ r) c1 in
      let same = ok-injective q p h3 in
      subst
        (λ r.
          (marshal_dleq g r ≡ ok input) × (g.is_on_curve r.r1 ≡ true) × (g.is_on_curve r.r2 ≡ true))
        same (marshal_layout q ∙ ap ok (sym c0), on_r1, on_r2)

  encodes :
      (input : Bytes) (p : DleqProof g.Scalar g.Point)
      → (marshal_dleq g p ≡ ok input) × (g.is_on_curve p.r1 ≡ true) × (g.is_on_curve p.r2 ≡ true)
      → unmarshal_dleq g input ≡ ok p
  unfolding unmarshal_dleq
  encodes input p (e, on_r1, on_r2) =
      let d0 : input ≡ layout g p = sym (ok-injective _ _ (sym (marshal_layout p) ∙ e)) in
      let size : length input ≡ 160 = ap length d0 ∙ length-layout p in
      let (f1, d1) = unmarshal_scalar_next g F input _ 0 p.s (omega arith) d0 in
      let (f2, d2) = unmarshal_point_next g F input _ 32 p.r1 (omega arith) on_r1 d1 in
      let (f3, _) = unmarshal_point_next g F input _ 96 p.r2 (omega arith) on_r2 d2 in
      rw ((check_length_iff _ 160 input).1 size, f1, f2, f3) refl

  -- Bytes decode to `DLEQProof` exactly if they are its encoding and its points are on the curve:
  -- proofs survive the round trip, and no proof has a second encoding.
  pub unmarshal_dleq_iff :
      (input : Bytes) (p : DleqProof g.Scalar g.Point)
      → (unmarshal_dleq g input ≡ ok p) ↔ (
          (marshal_dleq g p ≡ ok input) × (g.is_on_curve p.r1 ≡ true) × (g.is_on_curve p.r2 ≡ true))
  unmarshal_dleq_iff input p = (decodes input p, encodes input p)
