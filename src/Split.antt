-- ===== src/Split.antt =====
-- split_decryption.go: discrete logarithms of larger amounts, by a search over their low bits.
pub mod Search
pub mod Range
use elgamal_bn.Common.{
  ℕ, zero, suc, ◌+◌, ◌*◌, ◌%◌, ◌^◌, Result, ok, err, panic, ◌>>=◌, message, ltb,
}
use elgamal_bn.Common.{if◌then◌else◌}
use elgamal_bn.Gnark.{Gnark}
use elgamal_bn.Table.{
  DecryptionTable, discrete_log, new_decryption_table_with_base, shifted_one, u64_mod,
}

pub record SplitTable (P : Type 0) : Type 0 where
  pub split_bits : ℕ
  pub hi_table : DecryptionTable P
  pub n_g : P

module _ (g : Gnark) where
  -- `NewSplitDecryptionTable`. `Lsh` on a big integer does not wrap.
  unfoldable pub new_split_table : ℕ → ℕ → Result (SplitTable g.Point)
  unfolding new_decryption_table_with_base
  new_split_table split_bits hi_half_bits = if ltb 32 split_bits then panic else do
    let n_g = g.scalar_mul g.generator (1 * 2 ^ split_bits)
    hi_table ← new_decryption_table_with_base g hi_half_bits n_g
    ok (record { split_bits = split_bits; hi_table = hi_table; n_g = n_g })

  -- The loop `for lo := uint64(0); lo < n; lo++`, with the rounds left.
  unfoldable pub low_search :
      DecryptionTable g.Point → g.Jacobian → ℕ → ℕ → ℕ → g.Jacobian → Result ℕ
  low_search hi_table neg_g n zero lo residual =
      err (message "split discrete log not found: value out of range")
  low_search hi_table neg_g n (suc rounds) lo residual =
      elim (discrete_log g hi_table (g.from_jacobian residual)) [
        | ok hi ↦ ok ((hi * n + lo) % u64_mod)
        | err e ↦ low_search hi_table neg_g n rounds (lo + 1) (g.add_assign residual neg_g)
        | panic ↦ panic
      ]

  -- `DiscreteLog`
  unfoldable pub split_discrete_log : SplitTable g.Point → g.Point → Result ℕ
  unfolding shifted_one low_search discrete_log
  split_discrete_log sdt mg =
      let n = shifted_one sdt.split_bits in
      low_search sdt.hi_table (g.from_affine (g.neg g.generator)) n n 0 (g.from_affine mg)
