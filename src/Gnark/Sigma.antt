-- ===== src/Gnark/Sigma.antt =====
-- The equations of the Schnorr-style proofs: over the generator, and over the generator and a second
-- base. They hold for honest responses, and two runs give a witness.
use elgamal_bn.Common.{ℕ, ◌+◌, ◌-◌, ◌*◌, ◌%◌, ◌≡◌, ◌∙◌, sym, ap, refl, arith, true}
use elgamal_bn.Gnark.{Gnark, IsLawful}
use elgamal_bn.Gnark.Group.{
  multiple, jacobian_sum, sum_eq, scalar_mul_eq, multiple_response, scalar_mul_response,
}
use elgamal_bn.Gnark.Extraction.{extract_multiple}

module _ (g : Gnark) where
  -- `i * (z - z')`
  abbrev pub extracted : ℕ → g.Scalar → g.Scalar → ℕ
  extracted i z z' = i * (g.big_int z + (g.modulus - 1) * g.big_int z')

  -- `z*G == a + e*t`
  abbrev pub Opens : g.Scalar → g.Scalar → g.Point → g.Point → Type 0
  Opens e z a t = multiple g (g.big_int z) ≡ jacobian_sum g a (g.scalar_mul t (g.big_int e))

  -- `z*G + y*b == a + e*t`
  abbrev pub OpensOver : g.Point → g.Scalar → g.Scalar → g.Scalar → g.Point → g.Point → Type 0
  OpensOver b e z y a t =
      jacobian_sum g (multiple g (g.big_int z)) (g.scalar_mul b (g.big_int y))
      ≡ jacobian_sum g a (g.scalar_mul t (g.big_int e))

honest_exponent : (k l w v b e : ℕ) → k + e * w + b * (l + e * v) ≡ k + b * l + (w + b * v) * e
honest_exponent k l w v b e = omega arith

extract_over :
    (i z z' y y' b p : ℕ)
    → i * (z + b * y + p * (z' + b * y')) ≡ i * (z + p * z') + b * (i * (y + p * y'))
extract_over i z z' y y' b p = omega arith

module _ {g : Gnark} (L : IsLawful g) where
  pub honest-Opens :
      (e k w : g.Scalar) (t : g.Point)
      → t ≡ multiple g (g.big_int w)
      → Opens g e (g.add k (g.mul e w)) (multiple g (g.big_int k)) t
  honest-Opens e k w t ht =
      multiple_response L k e w
      ∙ ap (multiple g) (omega arith)
      ∙ sym (sum_eq L (g.big_int k) (g.big_int w * g.big_int e) refl (scalar_mul_eq L _ _ ht))

  pub honest-OpensOver :
      (e k l w v : g.Scalar) (b t : g.Point) (n : ℕ)
      → b ≡ multiple g n
      → t ≡ multiple g (g.big_int w + n * g.big_int v)
      → OpensOver g b e
          (g.add k (g.mul e w))
          (g.add l (g.mul e v))
          (jacobian_sum g (multiple g (g.big_int k)) (g.scalar_mul b (g.big_int l)))
          t
  honest-OpensOver e k l w v b t n hb ht =
      let k' = g.big_int k in
      let l' = g.big_int l in
      let e' = g.big_int e in
      let w' = g.big_int w in
      let v' = g.big_int v in
      sum_eq L (k' + e' * w') (n * (l' + e' * v')) (multiple_response L k e w) (
        ap (λ p. g.scalar_mul p (g.big_int (g.add l (g.mul e v)))) hb
        ∙ scalar_mul_response L n l e v)
      ∙ ap (multiple g) (honest_exponent k' l' w' v' n e')
      ∙ sym (
          sum_eq L (k' + n * l') ((w' + n * v') * e')
            (sum_eq L k' (n * l') refl (scalar_mul_eq L n l' hb))
            (scalar_mul_eq L (w' + n * v') e' ht))

  module _ (i : ℕ) (e e' : g.Scalar)
      (inverse : i * (g.big_int e + (g.modulus - 1) * g.big_int e') % g.modulus ≡ 1) where
    pub extract-Opens :
        (z z' : g.Scalar) (a a' t : g.Point)
        → g.is_on_curve a ≡ true
        → g.is_on_curve t ≡ true
        → a' ≡ a
        → Opens g e z a t
        → Opens g e' z' a' t
        → t ≡ multiple g (extracted g i z z')
    extract-Opens z z' a a' t ca ct same h h' =
        let (n, hn) = L.discrete_log a ca in
        let (m, hm) = L.discrete_log t ct in
        hm
        ∙ extract_multiple L n m (g.big_int e) (g.big_int e') (g.big_int z) (g.big_int z') i inverse
            (h ∙ sum_eq L n (m * g.big_int e) hn (scalar_mul_eq L m _ hm))
            (h' ∙ sum_eq L n (m * g.big_int e') (same ∙ hn) (scalar_mul_eq L m _ hm))

    pub extract-OpensOver :
        (z z' y y' : g.Scalar) (b a a' t : g.Point) (c : ℕ)
        → b ≡ multiple g c
        → g.is_on_curve a ≡ true
        → g.is_on_curve t ≡ true
        → a' ≡ a
        → OpensOver g b e z y a t
        → OpensOver g b e' z' y' a' t
        → t ≡ multiple g (extracted g i z z' + c * extracted g i y y')
    extract-OpensOver z z' y y' b a a' t c hb ca ct same h h' =
        let (n, hn) = L.discrete_log a ca in
        let (m, hm) = L.discrete_log t ct in
        let left = λ (x w : g.Scalar).
          sum_eq L (g.big_int x) (c * g.big_int w) refl (scalar_mul_eq L c (g.big_int w) hb) in
        hm
        ∙ extract_multiple L n m (g.big_int e) (g.big_int e') (g.big_int z + c * g.big_int y)
            (g.big_int z' + c * g.big_int y') i inverse
            (sym (left z y) ∙ h ∙ sum_eq L n (m * g.big_int e) hn (scalar_mul_eq L m _ hm))
            (sym (left z' y')
              ∙ h'
              ∙ sum_eq L n (m * g.big_int e') (same ∙ hn) (scalar_mul_eq L m _ hm))
        ∙ ap (multiple g) (extract_over i _ _ _ _ c _)
