-- ===== src/Table/Baby.antt =====
-- The baby steps: the table maps the first multiples of its base to their factors.
use elgamal_bn.Common.{ℕ, zero, suc, ◌+◌, ◌*◌, ◌<◌, ◌≡◌, ◌∙◌, sym, ap, refl, arith}
use elgamal_bn.Common.{List, [], ◌∷◌, some, inl, inr, Bool-cases}
use elgamal_bn.Gnark.{Gnark, IsLawful}
use elgamal_bn.Gnark.Group.{multiple}
use native.Mathlib.Decide.{dec_lt}
use elgamal_bn.Common.{◌⊎◌}
use mathlib.Core.Path.{subst}
use native.Mathlib.Nat.{mul-zero}
use elgamal_bn.Table.{lookup, baby_steps}

module _ (g : Gnark) where
  -- The entries of `table` are the points `(c * v) * G` with `v` below `n`, each with its `v`.
  pub record IsBabyTable (c n : ℕ) (table : List (g.Point × ℕ)) : Type 0 where
    pub sound :
        (p : g.Point) (v : ℕ) → lookup g p table ≡ some v → (v < n) × (p ≡ multiple g (c * v))
    pub complete : (v : ℕ) → v < n → (w : ℕ) × (lookup g (multiple g (c * v)) table ≡ some w)

module _ {g : Gnark} (L : IsLawful g) where
  lookup_cons_self :
      (p : g.Point) (i : ℕ) (t : List (g.Point × ℕ)) → lookup g p ((p, i) ∷ t) ≡ some i
  unfolding lookup
  lookup_cons_self p i t = rw ((L.equal_iff p p).1 refl)

  lookup_cons :
      (p r : g.Point) (i v : ℕ) (t : List (g.Point × ℕ))
      → lookup g p ((r, i) ∷ t) ≡ some v
      → ((r ≡ p) × (v ≡ i)) ⊎ (lookup g p t ≡ some v)
  unfolding lookup
  lookup_cons p r i v t h = elim (Bool-cases (g.equal r p)) [
    | inl e ↦ inl ((L.equal_iff r p).0 e, let f : some i ≡ some v = rw e at h in cc)
    | inr e ↦ inr (rw e at h)
  ]

  lookup_cons_some :
      (p r : g.Point) (i w : ℕ) (t : List (g.Point × ℕ))
      → lookup g p t ≡ some w
      → (v : ℕ) × (lookup g p ((r, i) ∷ t) ≡ some v)
  unfolding lookup
  lookup_cons_some p r i w t h = elim (Bool-cases (g.equal r p)) [
    | inl e ↦ (i, rw e)
    | inr e ↦ (w, rw e h)
  ]

  same_multiple : (c v i : ℕ) → v ≡ i → multiple g (c * v) ≡ multiple g (c * i)
  same_multiple c v i e = ap (λ s. multiple g (c * s)) e

  cons-IsBabyTable :
      (c i : ℕ) (p : g.Point) (t : List (g.Point × ℕ))
      → IsBabyTable g c i t
      → p ≡ multiple g (c * i)
      → IsBabyTable g c (i + 1) ((p, i) ∷ t)
  cons-IsBabyTable c i p t b hp = record {
    sound = λ r v h. elim (lookup_cons r p i v t h) [
      | inl (e, f) ↦ (omega arith, sym e ∙ hp ∙ same_multiple c i v (sym f))
      | inr old ↦ let (lt, eq) = b.sound r v old in (omega arith, eq)
    ];
    complete = λ v lt. elim (dec_lt v i) [
      | yes h ↦ let (w, e) = b.complete v h in lookup_cons_some _ p i w t e
      | no h ↦ (
        i,
        ap (λ r. lookup g r ((p, i) ∷ t)) (same_multiple c v i (omega arith) ∙ sym hp)
            ∙ lookup_cons_self p i t,
      )
    ];
  }

  zeroth : (c v : ℕ) → v ≡ 0 → multiple g (c * v) ≡ g.infinity
  zeroth c v e = same_multiple c v 0 e ∙ ap (multiple g) (mul-zero c) ∙ L.infinity_multiple

  -- The table before the loop, which holds the identity alone.
  pub start-IsBabyTable : (c : ℕ) → IsBabyTable g c 1 ((g.infinity, 0) ∷ [])
  unfolding lookup
  start-IsBabyTable c = record {
    sound = λ p v h. elim (lookup_cons p g.infinity 0 v [] h) [
      | inl (e, f) ↦ (omega arith, sym e ∙ sym (zeroth c v f))
      | inr old ↦ absurd (cc)
    ];
    complete = λ v lt. (
      0,
      ap (λ r. lookup g r ((g.infinity, 0) ∷ [])) (zeroth c v (omega arith))
          ∙ lookup_cons_self g.infinity 0 [],
    );
  }

  -- After the loop the table holds `i + 1 + rounds` multiples, and `current` is the last of them.
  pub baby_steps-IsBabyTable :
      (c rounds i : ℕ) (current base : g.Jacobian) (t : List (g.Point × ℕ))
      → g.from_jacobian base ≡ multiple g c
      → g.from_jacobian current ≡ multiple g (c * i)
      → IsBabyTable g c (i + 1) t
      → (g.from_jacobian (baby_steps g rounds (i + 1) current base t).0
          ≡ multiple g (c * (i + rounds)))
        × IsBabyTable g c (i + 1 + rounds) (baby_steps g rounds (i + 1) current base t).1
  unfolding baby_steps
  baby_steps-IsBabyTable c zero i current base t hb hc b = (
    hc ∙ same_multiple c i (i + 0) (omega arith),
    subst (λ n. IsBabyTable g c n t) (omega arith) b,
  )
  baby_steps-IsBabyTable c (suc rounds) i current base t hb hc b =
      let next : g.from_jacobian (g.add_assign current base) ≡ multiple g (c * (i + 1)) =
        L.from_jacobian-add_assign current base (c * i) c hc hb ∙ ap (multiple g) (omega arith) in
      let rest =
        baby_steps-IsBabyTable c rounds (i + 1) (g.add_assign current base) base
          ((g.from_jacobian (g.add_assign current base), i + 1) ∷ t) hb next
          (cons-IsBabyTable c (i + 1) _ t b next) in
      (
        rest.0 ∙ same_multiple c (i + 1 + rounds) (i + suc rounds) (omega arith),
        subst (λ n. IsBabyTable g c n (baby_steps g (suc rounds) (i + 1) current base t).1)
            (omega arith) rest.1,
      )
