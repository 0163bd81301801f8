-- ===== src/Split/Search.antt =====
-- The search over the low part.
use elgamal_bn.Common.{ℕ, zero, suc, ◌+◌, ◌-◌, ◌*◌, ◌%◌, ◌^◌, ◌≤◌, ◌<◌, ◌≡◌, ◌∙◌, sym, ap, arith}
use elgamal_bn.Common.{ok, err}
use elgamal_bn.Gnark.{Gnark, IsLawful}
use elgamal_bn.Gnark.Group.{
  multiple, neg_cancel, multiple-injective, multiple-move, neg_eq, from_affine_multiple,
}
use elgamal_bn.Common.{Result-cases, inl, inr, Error}
use native.Mathlib.Nat.{mul_comm}
use native.Mathlib.Decide.{dec_lt}
use elgamal_bn.Table.{DecryptionTable, discrete_log, u64_mod}
use elgamal_bn.Table.Solver.{IsTable, discrete_log_sound, discrete_log_complete}
use elgamal_bn.Table.Generator.{discrete_log-ne-panic}
use elgamal_bn.Split.{low_search}

residual_exponent : (m lo p : ℕ) → m + lo * (p * 1) ≡ m + p * lo
residual_exponent m lo p = omega arith

last_exponent : (a n r p : ℕ) → a * n + r + r * (p * 1) ≡ n * a + r + p * r
last_exponent a n r p = omega arith

split-lt : (n hi lo w q : ℕ) → hi < w → lo < n → n * w ≤ q → n * hi + lo < q
split-lt n hi lo w q hh hl hq = grind arith

module _ {g : Gnark} (L : IsLawful g) (n : ℕ) (hi_table : DecryptionTable g.Point)
    (table : IsTable g n hi_table) (positive : 0 < n)
    (fits : n * (2 ^ hi_table.half_bits * 2 ^ hi_table.half_bits) ≤ g.modulus) where
  -- The residual in round `lo`, where the point is `m * G`.
  abbrev residual_at : ℕ → ℕ → g.Point
  residual_at m lo = multiple g (m + lo * ((g.modulus - 1) * 1))

  -- A round whose low part is not that of `m` finds nothing.
  hit_low :
      (m lo hi : ℕ) (residual : g.Jacobian)
      → g.from_jacobian residual ≡ residual_at m lo
      → m < g.modulus
      → lo < n
      → discrete_log g hi_table (g.from_jacobian residual) ≡ ok hi
      → hi * n + lo ≡ m
  hit_low m lo hi residual h hm hlo found =
      let p = g.modulus - 1 in
      let (small, eq) =
        discrete_log_sound L n (m + lo * (p * 1)) hi hi_table table
          (sym (ap (discrete_log g hi_table) h) ∙ found) in
      let same : m ≡ n * hi + lo =
        multiple-injective L m (n * hi + lo) hm (split-lt n hi lo _ g.modulus small hlo fits)
          (multiple-move L m lo (n * hi) (ap (multiple g) (sym (residual_exponent m lo p)) ∙ eq)) in
      omega arith

  in_group :
      (a r : ℕ)
      → a < 2 ^ hi_table.half_bits * 2 ^ hi_table.half_bits
      → r < n
      → a * n + r < g.modulus
  in_group a r ha hr =
      let small = split-lt n a r _ g.modulus ha hr fits in omega (arith, mul_comm a n)

  residual_next :
      (m lo : ℕ) (residual : g.Jacobian)
      → g.from_jacobian residual ≡ residual_at m lo
      → g.from_jacobian (g.add_assign residual (g.from_affine (g.neg g.generator)))
        ≡ residual_at m (lo + 1)
  residual_next m lo residual h =
      L.from_jacobian-add_assign residual (g.from_affine (g.neg g.generator)) _ _ h (
        ap (λ p. g.from_jacobian (g.from_affine p)) (neg_eq L 1 (sym L.generator_multiple))
        ∙ from_affine_multiple L _)
      ∙ ap (multiple g) (omega arith)

  not_last :
      (lo a r : ℕ) (residual : g.Jacobian) (e : Error)
      → a < 2 ^ hi_table.half_bits * 2 ^ hi_table.half_bits
      → lo ≤ r
      → g.from_jacobian residual ≡ residual_at (a * n + r) lo
      → discrete_log g hi_table (g.from_jacobian residual) ≡ err e
      → lo + 1 ≤ r
  not_last lo a r residual e ha hl h failed = elim (dec_lt lo r) [
    | yes lt ↦ omega arith
    | no ge ↦
        let same : lo ≡ r = omega arith in
        let found : discrete_log g hi_table (g.from_jacobian residual) ≡ ok a =
          ap (discrete_log g hi_table) (
            h
            ∙ ap (residual_at (a * n + r)) same
            ∙ ap (multiple g) (last_exponent a n r (g.modulus - 1))
            ∙ neg_cancel L (n * a) r)
          ∙ discrete_log_complete L n a hi_table table positive fits ha in
        absurd (cc (sym failed ∙ found))
  ]

  -- The search reaches the low part of `m`, and returns `m` as a `uint64`.
  pub low_search_complete :
      (rounds lo a r : ℕ) (residual : g.Jacobian)
      → a < 2 ^ hi_table.half_bits * 2 ^ hi_table.half_bits
      → r < n
      → lo ≤ r
      → lo + rounds ≡ n
      → g.from_jacobian residual ≡ residual_at (a * n + r) lo
      → low_search g hi_table (g.from_affine (g.neg g.generator)) n rounds lo residual
        ≡ ok ((a * n + r) % u64_mod)
  unfolding low_search
  low_search_complete zero lo a r residual ha hr hl hn h = absurd (omega arith)
  low_search_complete (suc rounds) lo a r residual ha hr hl hn h =
      elim (Result-cases (discrete_log g hi_table (g.from_jacobian residual))) [
        | inl (hi, found) ↦
            rw (found, low_search)
              (ap (λ s. ok (s % u64_mod))
                (hit_low (a * n + r) lo hi residual h (in_group a r ha hr) (omega arith) found))
        | inr (inl (e, failed)) ↦
            rw (failed, low_search)
              (low_search_complete rounds (lo + 1) a r _ ha hr
                (not_last lo a r residual e ha hl h failed) (omega arith)
                (residual_next (a * n + r) lo residual h))
        | inr (inr fault) ↦ absurd (discrete_log-ne-panic g hi_table _ fault)
      ]
