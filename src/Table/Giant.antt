-- ===== src/Table/Giant.antt =====
-- The giant steps, over any table of baby steps.
use elgamal_bn.Common.{ℕ, zero, suc, ◌+◌, ◌-◌, ◌*◌, ◌/◌, ◌%◌, ◌≤◌, ◌<◌, ◌≡◌, ◌∙◌, sym, ap, arith}
use elgamal_bn.Common.{List, some, none, ok, inl, inr, Option-cases, ok-injective}
use elgamal_bn.Gnark.{Gnark, IsLawful}
use elgamal_bn.Gnark.Group.{multiple, neg_cancel, multiple-injective, multiple-move}
use mathlib.Core.Path.{subst}
use native.Mathlib.Decide.{dec_lt}
use elgamal_bn.Table.{lookup, giant_steps, u64_mod}
use elgamal_bn.Table.Baby.{IsBabyTable}
use native.Mathlib.Nat.{mod-eq_of_lt, mul-div_cancel_left}

gamma_exponent : (x j y p : ℕ) → x + j * (p * y) ≡ x + p * (j * y)
gamma_exponent x j y p = omega arith

hit_exponent : (c j n i : ℕ) → c * i + j * (c * n) ≡ c * (j * n + i)
hit_exponent c j n i = omega arith

miss_exponent :
    (c j n i p : ℕ) → c * (j * n + i) + j * (p * (c * n)) ≡ c * i + j * (c * n) + p * (j * (c * n))
miss_exponent c j n i p = omega arith

index-lt : (j n i : ℕ) → j < n → i < n → j * n + i < n * n
index-lt j n i hj hi = grind arith

wrap-lt : (m k u : ℕ) → m < k → k ≤ u → m < u
wrap-lt m k u h j = omega arith

mul-injective : (c m k : ℕ) → 0 < c → c * m ≡ c * k → m ≡ k
mul-injective c m k h e =
    sym (mul-div_cancel_left m h) ∙ ap (λ t. t / c) e ∙ mul-div_cancel_left k h

scaled-lt : (c m k q : ℕ) → 0 < c → m < k → c * k ≤ q → c * m < q
scaled-lt c m k q hc hm hq = grind arith

module _ {g : Gnark} (L : IsLawful g) (c n : ℕ) (table : List (g.Point × ℕ)) (giant : g.Jacobian)
    (baby : IsBabyTable g c n table) (fits : n * n ≤ u64_mod)
    (step : g.from_jacobian giant ≡ multiple g ((g.modulus - 1) * (c * n))) where
  -- Where the point is `x * G`, `gamma` is this multiple in round `j`.
  abbrev gamma_at : ℕ → ℕ → g.Point
  gamma_at x j = multiple g (x + j * ((g.modulus - 1) * (c * n)))

  gamma_next :
      (x j : ℕ) (gamma : g.Jacobian)
      → g.from_jacobian gamma ≡ gamma_at x j
      → g.from_jacobian (g.add_assign gamma giant) ≡ gamma_at x (j + 1)
  gamma_next x j gamma h =
      L.from_jacobian-add_assign gamma giant _ _ h step ∙ ap (multiple g) (omega arith)

  -- A hit in round `j` shows the logarithm.
  hit :
      (x j i : ℕ) (gamma : g.Jacobian)
      → g.from_jacobian gamma ≡ gamma_at x j
      → lookup g (g.from_jacobian gamma) table ≡ some i
      → (i < n) × (multiple g x ≡ multiple g (c * (j * n + i)))
  hit x j i gamma h found =
      let (lt, eq) = baby.sound (g.from_jacobian gamma) i found in
      (
        lt,
        multiple-move L x (j * (c * n)) (c * i)
              (ap (multiple g) (sym (gamma_exponent x j (c * n) (g.modulus - 1))) ∙ sym h ∙ eq)
            ∙ ap (multiple g) (hit_exponent c j n i),
      )

  -- Where the logarithm is `c * (j * n + i)`, round `j` hits.
  must_hit :
      (j i : ℕ) (gamma : g.Jacobian)
      → i < n
      → g.from_jacobian gamma ≡ gamma_at (c * (j * n + i)) j
      → (w : ℕ) × (lookup g (g.from_jacobian gamma) table ≡ some w)
  must_hit j i gamma lt h =
      let (w, e) = baby.complete i lt in
      (
        w,
        ap (λ p. lookup g p table)
              (h
                ∙ ap (multiple g) (miss_exponent c j n i (g.modulus - 1))
                ∙ neg_cancel L (c * i) (j * (c * n)))
            ∙ e,
      )

  returned : (j i m : ℕ) → j * n + i < n * n → ok ((j * n + i) % u64_mod) ≡ ok m → j * n + i ≡ m
  returned j i m small e = sym (mod-eq_of_lt (wrap-lt _ _ u64_mod small fits)) ∙ ok-injective _ _ e

  not_last :
      (j a r : ℕ) (gamma : g.Jacobian)
      → r < n
      → j ≤ a
      → g.from_jacobian gamma ≡ gamma_at (c * (a * n + r)) j
      → lookup g (g.from_jacobian gamma) table ≡ none
      → j + 1 ≤ a
  not_last j a r gamma hr hj h miss = elim (dec_lt j a) [
    | yes lt ↦ omega arith
    | no ge ↦
        let same : a ≡ j = omega arith in
        let (w, e) = must_hit j r gamma hr (h ∙ ap (λ s. gamma_at (c * (s * n + r)) j) same) in
        absurd (cc (sym miss ∙ e))
  ]

  -- What the loop finds is a logarithm in range.
  pub giant_steps_sound :
      (rounds j x m : ℕ) (gamma : g.Jacobian)
      → g.from_jacobian gamma ≡ gamma_at x j
      → j + rounds ≡ n
      → giant_steps g table giant n rounds j gamma ≡ ok m
      → (m < n * n) × (multiple g x ≡ multiple g (c * m))
  unfolding giant_steps
  giant_steps_sound zero j x m gamma h hj e = cc
  giant_steps_sound (suc rounds) j x m gamma h hj e =
      elim (Option-cases (lookup g (g.from_jacobian gamma) table)) [
        | inl miss ↦
            giant_steps_sound rounds (j + 1) x m (g.add_assign gamma giant) (gamma_next x j gamma h)
              (omega arith) (rw (miss, giant_steps) at e)
        | inr (i, found) ↦
            let (lt, eq) = hit x j i gamma h found in
            let small : j * n + i < n * n = index-lt j n i (omega arith) lt in
            let value : j * n + i ≡ m = returned j i m small (rw (found, giant_steps) at e) in
            (subst (λ s. s < n * n) value small, eq ∙ ap (λ s. multiple g (c * s)) value)
      ]

  -- A logarithm in range is found, with no wrap-around, if the multiples up to it differ.
  pub giant_steps_complete :
      (rounds j a r : ℕ) (gamma : g.Jacobian)
      → 0 < c
      → c * (n * n) ≤ g.modulus
      → a < n
      → r < n
      → j ≤ a
      → j + rounds ≡ n
      → g.from_jacobian gamma ≡ gamma_at (c * (a * n + r)) j
      → giant_steps g table giant n rounds j gamma ≡ ok (a * n + r)
  unfolding giant_steps
  giant_steps_complete zero j a r gamma hc hq ha hr hj hn h = absurd (omega arith)
  giant_steps_complete (suc rounds) j a r gamma hc hq ha hr hj hn h =
      elim (Option-cases (lookup g (g.from_jacobian gamma) table)) [
        | inl miss ↦
            rw (miss, giant_steps)
              (giant_steps_complete rounds (j + 1) a r (g.add_assign gamma giant) hc hq ha hr
                (not_last j a r gamma hr hj h miss) (omega arith)
                (gamma_next (c * (a * n + r)) j gamma h))
        | inr (i, found) ↦
            let (lt, eq) = hit (c * (a * n + r)) j i gamma h found in
            let small : j * n + i < n * n = index-lt j n i (omega arith) lt in
            let same : c * (a * n + r) ≡ c * (j * n + i) =
              multiple-injective L _ _
                (scaled-lt c (a * n + r) (n * n) g.modulus hc (index-lt a n r ha hr) hq)
                (scaled-lt c (j * n + i) (n * n) g.modulus hc small hq) eq in
            rw (found, giant_steps)
              (ap ok
                (mod-eq_of_lt (wrap-lt _ _ u64_mod small fits) ∙ sym (mul-injective c _ _ hc same)))
      ]
