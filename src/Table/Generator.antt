-- ===== src/Table/Generator.antt =====
-- `NewDecryptionTable`: tables whose base is the generator, and what every table never does.
use elgamal_bn.Common.{ℕ, zero, suc, ◌+◌, ◌*◌, ◌^◌, ◌≤◌, ◌<◌, ◌≡◌, ◌≢◌, ◌∙◌, sym, ap, arith}
use elgamal_bn.Common.{List, Result-cases, inl, inr, Error, ok, err, panic}
use elgamal_bn.Gnark.{Gnark, IsLawful}
use elgamal_bn.Gnark.Group.{multiple, multiple-injective}
use elgamal_bn.Table.{
  DecryptionTable, giant_steps, discrete_log, new_decryption_table, max_half_bits,
}
use elgamal_bn.Table.Solver.{
  IsTable, new_decryption_table_with_base-IsTable, discrete_log_sound, discrete_log_complete,
}
use mathlib.Core.Path.{subst}

-- `DiscreteLog` of a table answers with a value or an error.
giant_steps-ne-panic :
    (g : Gnark) (table : List (g.Point × ℕ)) (giant : g.Jacobian) (n rounds j : ℕ)
    (gamma : g.Jacobian)
    → giant_steps g table giant n rounds j gamma ≢ panic
unfolding giant_steps
giant_steps-ne-panic g table giant n zero j gamma = λ e. cc
giant_steps-ne-panic g table giant n (suc rounds) j gamma =
    ground (arith, giant_steps-ne-panic g table giant n rounds (j + 1) (g.add_assign gamma giant))

pub discrete_log-ne-panic :
    (g : Gnark) (dt : DecryptionTable g.Point) (p : g.Point) → discrete_log g dt p ≢ panic
unfolding discrete_log
discrete_log-ne-panic g dt p = giant_steps-ne-panic g dt.table _ _ _ 0 _

one_times : (x : ℕ) → x ≡ 1 * x
one_times x = omega arith

module _ (g : Gnark) where
  -- For every point `x * G` the table answers with `x` if that is below `range`, and otherwise with
  -- an error.
  abbrev pub Solves : DecryptionTable g.Point → ℕ → Type 0
  Solves dt range =
      (x : ℕ)
      → x < g.modulus
      → (x < range → discrete_log g dt (multiple g x) ≡ ok x)
        × (range ≤ x → (e : Error) × (discrete_log g dt (multiple g x) ≡ err e))

module _ {g : Gnark} (L : IsLawful g) where
  no_answer :
      (w x m : ℕ)
      → w ≤ g.modulus
      → x < g.modulus
      → w ≤ x
      → (m < w) × (multiple g x ≡ multiple g (1 * m))
      → ⊥
  no_answer w x m hw hx ge (lt, eq) =
      let same : x ≡ 1 * m = multiple-injective L x (1 * m) hx (omega arith) eq in
      absurd (omega arith)

  generator_table-Solves :
      (dt : DecryptionTable g.Point)
      → IsTable g 1 dt
      → 2 ^ dt.half_bits * 2 ^ dt.half_bits ≤ g.modulus
      → Solves g dt (2 ^ dt.half_bits * 2 ^ dt.half_bits)
  generator_table-Solves dt table fits x hx =
      let w = 2 ^ dt.half_bits * 2 ^ dt.half_bits in
      (
        λ lt.
            ap (λ s. discrete_log g dt (multiple g s)) (one_times x)
            ∙ discrete_log_complete L 1 x dt table (omega arith) (omega arith) lt,
        λ ge. elim (Result-cases (discrete_log g dt (multiple g x))) [
          | inl (m, found) ↦
              absurd (no_answer w x m fits hx ge (discrete_log_sound L 1 x m dt table found))
          | inr (inl e) ↦ e
          | inr (inr fault) ↦ absurd (discrete_log-ne-panic g dt (multiple g x) fault)
        ],
      )

  -- A table for the generator that the constructor accepts, and whose range does not pass the
  -- group's order, answers for every point `x * G`: with `x` if it lies in the range, and otherwise
  -- with an error.
  pub new_decryption_table-Solves :
      (h : ℕ)
      → h ≤ max_half_bits
      → 2 ^ h * 2 ^ h ≤ g.modulus
      → (dt : DecryptionTable g.Point) × (new_decryption_table g h ≡ ok dt)
        × Solves g dt (2 ^ h * 2 ^ h)
  unfolding new_decryption_table
  new_decryption_table-Solves h le fits =
      let (dt, made, half, table) =
        new_decryption_table_with_base-IsTable L h 1 g.generator le (sym L.generator_multiple) in
      (
        dt,
        made,
        subst (λ k. Solves g dt (2 ^ k * 2 ^ k)) half
            (generator_table-Solves dt table
              (subst (λ k. 2 ^ k * 2 ^ k ≤ g.modulus) (sym half) fits)),
      )
