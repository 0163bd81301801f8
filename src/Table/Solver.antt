-- ===== src/Table/Solver.antt =====
-- `DiscreteLog` over a table that `NewDecryptionTableWithBase` built.
use elgamal_bn.Common.{
  ℕ, zero, suc, ◌+◌, ◌-◌, ◌*◌, ◌/◌, ◌%◌, ◌^◌, ◌≤◌, ◌<◌, ◌≡◌, ◌∙◌, sym, ap, refl, arith,
}
use elgamal_bn.Common.{ok, ltb, ok, ltb, ok, ltb, ok, ltb, ok, ltb, ok, ltb, ok, ltb, ok, ltb}
use elgamal_bn.Gnark.{Gnark, IsLawful}
use elgamal_bn.Gnark.Group.{multiple, neg_eq, from_affine_multiple}
use elgamal_bn.Common.{false, [], ◌∷◌}
use mathlib.Core.Path.{subst}
use elgamal_bn.Table.{
  DecryptionTable, filled_table, discrete_log, shifted_one, u64_mod, max_half_bits,
  new_decryption_table_with_base,
}
use elgamal_bn.Table.Baby.{IsBabyTable, start-IsBabyTable, baby_steps-IsBabyTable}
use elgamal_bn.Table.Giant.{giant_steps_sound, giant_steps_complete}
use native.Mathlib.Nat.{
  mod-eq_of_lt, mod-lt, pow-le-pow_right, div-add-mod', div-lt_iff_lt-mul, le_trans, mul-le-mul,
  mul-zero,
}

-- A table for the base `c * G` that holds what the constructor puts into it.
pub record IsTable (g : Gnark) (c : ℕ) (dt : DecryptionTable g.Point) : Type 0 where
  pub half_bits-le : dt.half_bits ≤ max_half_bits
  pub baby : IsBabyTable g c (2 ^ dt.half_bits) dt.table
  pub giant : dt.giant_step ≡ multiple g ((g.modulus - 1) * (c * 2 ^ dt.half_bits))

pow-bounds : (h : ℕ) → h ≤ 30 → (1 ≤ 2 ^ h) × (2 ^ h ≤ 2 ^ 30)
pow-bounds h le = (
  pow-le-pow_right {n = 2} (omega arith) {i = 0} {j = h} (omega arith),
  pow-le-pow_right {n = 2} (omega arith) le,
)

shifted_one_lem : (h : ℕ) → h ≤ 30 → shifted_one h ≡ 2 ^ h
unfolding shifted_one
shifted_one_lem h le = mod-eq_of_lt (omega (arith, (pow-bounds h le).1))

square_fits : (n : ℕ) → n ≤ 2 ^ 30 → n * n ≤ u64_mod
square_fits n h = le_trans (mul-le-mul h h) (omega arith)

last_exponent : (c n : ℕ) → 1 ≤ n → c * (0 + (n - 1)) + c ≡ c * n
last_exponent c zero h = absurd (omega arith)
last_exponent c (suc k) h = let e : suc k - 1 ≡ k = omega arith in rw e (omega arith)

start_exponent : (c m k t : ℕ) → k ≡ m → c * m ≡ c * k + 0 * t
start_exponent c m k t e = ap (λ s. c * s) (sym e) ∙ omega arith

not-ltb : (h : ℕ) → h ≤ max_half_bits → ltb max_half_bits h ≡ false
not-ltb h le = ground arith

module _ {g : Gnark} (L : IsLawful g) where
  -- The table and the giant step for `n` baby steps from the base `c * G`.
  filled_table_lem :
      (h n c : ℕ) (base : g.Point)
      → 1 ≤ n
      → base ≡ multiple g c
      → IsBabyTable g c n (filled_table g h n base).table
        × ((filled_table g h n base).giant_step ≡ multiple g ((g.modulus - 1) * (c * n)))
  unfolding filled_table
  filled_table_lem h n c base hn hb =
      let jacobian : g.from_jacobian (g.from_affine base) ≡ multiple g c =
        ap (λ p. g.from_jacobian (g.from_affine p)) hb ∙ from_affine_multiple L c in
      let zeroth : g.from_jacobian g.zero_jacobian ≡ multiple g (c * 0) =
        L.zero_jacobian_lem ∙ sym L.infinity_multiple ∙ ap (multiple g) (sym (mul-zero c)) in
      let loop =
        baby_steps-IsBabyTable L c (n - 1) 0 g.zero_jacobian (g.from_affine base)
          ((g.infinity, 0) ∷ []) jacobian zeroth (start-IsBabyTable L c) in
      (
        subst (λ k. IsBabyTable g c k (filled_table g h n base).table) (omega arith) loop.1,
        neg_eq L (c * n) (
            L.from_jacobian-add_assign _ _ _ c loop.0 jacobian
            ∙ ap (multiple g) (last_exponent c n hn)),
      )

  -- The constructor builds such a table for every size that it does not refuse.
  pub new_decryption_table_with_base-IsTable :
      (h c : ℕ) (base : g.Point)
      → h ≤ max_half_bits
      → base ≡ multiple g c
      → (dt : DecryptionTable g.Point) × (new_decryption_table_with_base g h base ≡ ok dt)
        × (dt.half_bits ≡ h)
        × IsTable g c dt
  unfolding new_decryption_table_with_base
  new_decryption_table_with_base-IsTable h c base le hb =
      let lem = filled_table_lem h (2 ^ h) c base (pow-bounds h le).0 hb in
      (
        filled_table g h (2 ^ h) base,
        rw (not-ltb h le, shifted_one_lem h le) refl,
        refl,
        record { half_bits-le = le; baby = lem.0; giant = lem.1 },
      )

  giant_jacobian :
      (c : ℕ) (dt : DecryptionTable g.Point)
      → IsTable g c dt
      → g.from_jacobian (g.from_affine dt.giant_step)
        ≡ multiple g ((g.modulus - 1) * (c * 2 ^ dt.half_bits))
  giant_jacobian c dt table =
      ap (λ p. g.from_jacobian (g.from_affine p)) table.giant ∙ from_affine_multiple L _

  -- A table finds every logarithm in its range, if the multiples of its base up to there differ.
  pub discrete_log_complete :
      (c m : ℕ) (dt : DecryptionTable g.Point)
      → IsTable g c dt
      → 0 < c
      → c * (2 ^ dt.half_bits * 2 ^ dt.half_bits) ≤ g.modulus
      → m < 2 ^ dt.half_bits * 2 ^ dt.half_bits
      → discrete_log g dt (multiple g (c * m)) ≡ ok m
  unfolding discrete_log
  discrete_log_complete c m dt table hc hq hm =
      let n = 2 ^ dt.half_bits in
      let split : m / n * n + m % n ≡ m = div-add-mod' m n in
      rw (shifted_one_lem dt.half_bits table.half_bits-le) (
        giant_steps_complete L c n dt.table (g.from_affine dt.giant_step) table.baby
          (square_fits n (pow-bounds dt.half_bits table.half_bits-le).1) (giant_jacobian c dt table)
          n 0 (m / n) (m % n) (g.from_affine (multiple g (c * m))) hc hq
          ((div-lt_iff_lt-mul (pow-bounds dt.half_bits table.half_bits-le).0).1 hm)
          (mod-lt m (pow-bounds dt.half_bits table.half_bits-le).0) (omega arith) (omega arith)
          (from_affine_multiple L (c * m) ∙ ap (multiple g) (start_exponent c m _ _ split))
        ∙ ap ok split)

  -- What a table finds is a logarithm in its range.
  pub discrete_log_sound :
      (c x m : ℕ) (dt : DecryptionTable g.Point)
      → IsTable g c dt
      → discrete_log g dt (multiple g x) ≡ ok m
      → (m < 2 ^ dt.half_bits * 2 ^ dt.half_bits) × (multiple g x ≡ multiple g (c * m))
  unfolding discrete_log
  discrete_log_sound c x m dt table found =
      let n = 2 ^ dt.half_bits in
      giant_steps_sound L c n dt.table (g.from_affine dt.giant_step) table.baby
        (square_fits n (pow-bounds dt.half_bits table.half_bits-le).1) (giant_jacobian c dt table) n
        0 x m (g.from_affine (multiple g x))
        (from_affine_multiple L x ∙ ap (multiple g) (omega arith)) (omega arith)
        (rw (shifted_one_lem dt.half_bits table.half_bits-le) at found)
