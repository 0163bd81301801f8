-- ===== src/Table.antt =====
-- decryption_table.go: discrete logarithms by baby steps and giant steps.
pub mod Baby
pub mod Giant
pub mod Solver
pub mod Generator
use elgamal_bn.Common.{ℕ, zero, suc, ◌+◌, ◌-◌, ◌*◌, ◌%◌, ◌^◌, Option, none, some, List, [], ◌∷◌}
use elgamal_bn.Common.{Result, ok, err, panic, message, ltb, if◌then◌else◌}
use elgamal_bn.Gnark.{Gnark}

abbrev pub max_half_bits : ℕ
max_half_bits = 30

-- Arithmetic of `uint64` is modulo this.
abbrev pub u64_mod : ℕ
u64_mod = 2 ^ 64

-- `uint64(1) << bits`
unfoldable pub shifted_one : ℕ → ℕ
shifted_one bits = 2 ^ bits % u64_mod

pub record DecryptionTable (P : Type 0) : Type 0 where
  pub half_bits : ℕ
  pub base : P
  pub table : List (P × ℕ)
  pub giant_step : P

module _ (g : Gnark) where
  -- A Go map as an association list: an entry hides those behind it.
  unfoldable pub lookup : g.Point → List (g.Point × ℕ) → Option ℕ
  lookup p [] = none
  lookup p ((r, i) ∷ t) = if g.equal r p then some i else lookup p t

  -- The loop `for i := uint64(1); i < n; i++`, with the rounds left.
  unfoldable pub baby_steps :
      ℕ → ℕ → g.Jacobian → g.Jacobian → List (g.Point × ℕ) → g.Jacobian × List (g.Point × ℕ)
  baby_steps zero i current base table = (current, table)
  baby_steps (suc rounds) i current base table =
      let next = g.add_assign current base in
      baby_steps rounds (i + 1) next base ((g.from_jacobian next, i) ∷ table)

  -- What `NewDecryptionTableWithBase` builds for `n` baby steps.
  unfoldable pub filled_table : ℕ → ℕ → g.Point → DecryptionTable g.Point
  unfolding baby_steps
  filled_table half_bits n base =
      let base_jacobian = g.from_affine base in
      let (current, table) =
        baby_steps (n - 1) 1 g.zero_jacobian base_jacobian ((g.infinity, 0) ∷ []) in
      let n_base = g.from_jacobian (g.add_assign current base_jacobian) in
      record { half_bits = half_bits; base = base; table = table; giant_step = g.neg n_base }

  -- `NewDecryptionTableWithBase`
  unfoldable pub new_decryption_table_with_base : ℕ → g.Point → Result (DecryptionTable g.Point)
  unfolding shifted_one filled_table
  new_decryption_table_with_base half_bits base =
      if ltb max_half_bits half_bits
      then panic
      else ok (filled_table half_bits (shifted_one half_bits) base)

  -- `NewDecryptionTable`
  unfoldable pub new_decryption_table : ℕ → Result (DecryptionTable g.Point)
  unfolding new_decryption_table_with_base
  new_decryption_table half_bits = new_decryption_table_with_base half_bits g.generator

  -- The loop `for j := uint64(0); j < n; j++`, with the rounds left.
  unfoldable pub giant_steps : List (g.Point × ℕ) → g.Jacobian → ℕ → ℕ → ℕ → g.Jacobian → Result ℕ
  giant_steps table giant n zero j gamma =
      err (message "discrete log not found: value out of table range")
  giant_steps table giant n (suc rounds) j gamma = elim (lookup (g.from_jacobian gamma) table) [
    | some i ↦ ok ((j * n + i) % u64_mod)
    | none ↦ giant_steps table giant n rounds (j + 1) (g.add_assign gamma giant)
  ]

  -- `DiscreteLog`
  unfoldable pub discrete_log : DecryptionTable g.Point → g.Point → Result ℕ
  unfolding shifted_one giant_steps lookup
  discrete_log dt mg =
      let n = shifted_one dt.half_bits in
      giant_steps dt.table (g.from_affine dt.giant_step) n n 0 (g.from_affine mg)
