-- ===== src/Serialization/Pop.antt =====
-- `Marshal` and `Unmarshal` of `PopProof`.
use elgamal_bn.Common.{ℕ, ◌+◌, ◌≡◌, ◌↔◌, ◌∙◌, refl, sym, ap, arith, true, Bytes, [], ◌++◌}
use elgamal_bn.Common.{
  Result, ok, wrap, ◌>>=◌, ◌>>◌, length, check_inv, ok-injective, length-append,
}
use elgamal_bn.Common.Buffers.{zeros}
use elgamal_bn.Gnark.{Gnark}
use elgamal_bn.Gnark.Format.{IsLawfulFormat}
use elgamal_bn.Pop.{PopProof}
use elgamal_bn.Serialization.{marshal_scalar, marshal_point, unmarshal_scalar, unmarshal_point}
use elgamal_bn.Serialization.Keys.{check_length, check_length_iff}
use elgamal_bn.Serialization.Fields.{
  marshal_scalar_next, marshal_point_next, unmarshal_scalar_next, unmarshal_point_next, drop_to_end,
  read_scalar, read_point,
}
use mathlib.Core.Path.{subst}
use mathlib.Core.List.{append_assoc}

abbrev pub pop_proof_size : ℕ
pop_proof_size = 32 + 64

module _ (g : Gnark) where
  unfoldable pub marshal_possession : PopProof g.Scalar g.Point → Result Bytes
  marshal_possession p = do
    (b1, o1) ← marshal_scalar g (zeros pop_proof_size) 0 p.z
    (b2, _) ← marshal_point g b1 o1 p.a
    ok b2

  unfoldable pub unmarshal_possession : Bytes → Result (PopProof g.Scalar g.Point)
  unmarshal_possession input = do
    check_length "invalid PopProof length: expected %d bytes, got %d" pop_proof_size input
    (z, o1) ← wrap "failed to unmarshal Z" (unmarshal_scalar g input 0)
    (a, _) ← wrap "failed to unmarshal A" (unmarshal_point g input o1)
    ok (record { z = z; a = a })

  -- The fields, one after another.
  abbrev layout : PopProof g.Scalar g.Point → Bytes
  layout p = g.bytes p.z ++ (g.marshal p.a ++ [])

module _ (g : Gnark) (F : IsLawfulFormat g) where
  marshal_layout : (p : PopProof g.Scalar g.Point) → marshal_possession g p ≡ ok (layout g p)
  unfolding marshal_possession zeros
  marshal_layout p =
      let w1 = g.bytes p.z in
      let (e1, s1) = marshal_scalar_next g F [] 0 64 p.z refl in
      let m1 : marshal_scalar g (zeros 96) 0 p.z ≡ ok (w1 ++ zeros 64, 32) = e1 in
      let (e2, _) = marshal_point_next g F w1 32 0 p.a s1 in rw (m1, e2) (ap ok (simp append_assoc))

  length-layout : (p : PopProof g.Scalar g.Point) → length (layout g p) ≡ 96
  length-layout p =
      let t1 = g.marshal p.a ++ [] in
      omega (
        arith,
        length-append (g.marshal p.a) [],
        F.length-marshal p.a,
        length-append (g.bytes p.z) t1,
        F.length-bytes p.z,
      )

  decodes :
      (input : Bytes) (p : PopProof g.Scalar g.Point)
      → unmarshal_possession g input ≡ ok p
      → (marshal_possession g p ≡ ok input) × (g.is_on_curve p.a ≡ true)
  unfolding unmarshal_possession
  decodes input p h =
      let (sized, h0) = check_inv (check_length _ 96 input) _ h in
      let (z, d1, h1) = read_scalar g F "failed to unmarshal Z" input 0 _ h0 in
      let (a, d2, on_a, h2) = read_point g F "failed to unmarshal A" input 32 _ h1 in
      let q : PopProof g.Scalar g.Point = record { z = z; a = a } in
      let c2 = drop_to_end input 96 ((check_length_iff _ 96 input).0 sized) in
      let c1 = d2 ∙ ap (λ r. g.marshal a ++ r) c2 in
      let c0 : input ≡ layout g q = d1 ∙ ap (λ r. g.bytes z ++ r) c1 in
      let same = ok-injective q p h2 in
      subst (λ r. (marshal_possession g r ≡ ok input) × (g.is_on_curve r.a ≡ true)) same
        (marshal_layout q ∙ ap ok (sym c0), on_a)

  encodes :
      (input : Bytes) (p : PopProof g.Scalar g.Point)
      → (marshal_possession g p ≡ ok input) × (g.is_on_curve p.a ≡ true)
      → unmarshal_possession g input ≡ ok p
  unfolding unmarshal_possession
  encodes input p (e, on_a) =
      let d0 : input ≡ layout g p = sym (ok-injective _ _ (sym (marshal_layout p) ∙ e)) in
      let size : length input ≡ 96 = ap length d0 ∙ length-layout p in
      let (f1, d1) = unmarshal_scalar_next g F input _ 0 p.z (omega arith) d0 in
      let (f2, _) = unmarshal_point_next g F input _ 32 p.a (omega arith) on_a d1 in
      rw ((check_length_iff _ 96 input).1 size, f1, f2) refl

  -- Bytes decode to `PopProof` exactly if they are its encoding and its points are on the curve:
  -- proofs survive the round trip, and no proof has a second encoding.
  pub unmarshal_possession_iff :
      (input : Bytes) (p : PopProof g.Scalar g.Point)
      → (unmarshal_possession g input ≡ ok p)
        ↔ ((marshal_possession g p ≡ ok input) × (g.is_on_curve p.a ≡ true))
  unmarshal_possession_iff input p = (decodes input p, encodes input p)
