-- ===== src/Split/Range.antt =====
-- `DiscreteLog` over a table that `NewSplitDecryptionTable` built.
use elgamal_bn.Common.{ℕ, ◌+◌, ◌*◌, ◌/◌, ◌%◌, ◌^◌, ◌≤◌, ◌<◌, ◌≡◌, ◌∙◌, sym, ap, refl, arith}
use elgamal_bn.Common.{ok, ltb, false}
use mathlib.Core.Path.{subst}
use elgamal_bn.Gnark.{Gnark, IsLawful}
use elgamal_bn.Gnark.Group.{multiple, from_affine_multiple}
use elgamal_bn.Table.{u64_mod, shifted_one, max_half_bits}
use elgamal_bn.Table.Solver.{IsTable, new_decryption_table_with_base-IsTable}
use elgamal_bn.Split.{SplitTable, new_split_table, split_discrete_log}
use elgamal_bn.Split.Search.{low_search_complete}
use native.Mathlib.Nat.{mod-eq_of_lt, mod-lt, pow-le-pow_right, div-add-mod', div-lt_iff_lt-mul}

split_bounds : (s : ℕ) → s ≤ 32 → (1 ≤ 2 ^ s) × (2 ^ s ≤ 2 ^ 32)
split_bounds s le = (
  pow-le-pow_right {n = 2} (omega arith) {i = 0} {j = s} (omega arith),
  pow-le-pow_right {n = 2} (omega arith) le,
)

shifted_one_lem : (s : ℕ) → s ≤ 32 → shifted_one s ≡ 2 ^ s
unfolding shifted_one
shifted_one_lem s le = mod-eq_of_lt (omega (arith, (split_bounds s le).1))

not-ltb : (s : ℕ) → s ≤ 32 → ltb 32 s ≡ false
not-ltb s le = ground arith

start_exponent : (m k t : ℕ) → k ≡ m → m ≡ k + 0 * t
start_exponent m k t e = omega arith

module _ {g : Gnark} (L : IsLawful g) where
  split_discrete_log_complete :
      (m : ℕ) (sdt : SplitTable g.Point)
      → sdt.split_bits ≤ 32
      → IsTable g (2 ^ sdt.split_bits) sdt.hi_table
      → 2 ^ sdt.split_bits * (2 ^ sdt.hi_table.half_bits * 2 ^ sdt.hi_table.half_bits) ≤ g.modulus
      → m < 2 ^ sdt.hi_table.half_bits * 2 ^ sdt.hi_table.half_bits * 2 ^ sdt.split_bits
      → split_discrete_log g sdt (multiple g m) ≡ ok (m % u64_mod)
  unfolding split_discrete_log
  split_discrete_log_complete m sdt le table fits hm =
      let n = 2 ^ sdt.split_bits in
      let pos : 0 < n = (split_bounds sdt.split_bits le).0 in
      let split : m / n * n + m % n ≡ m = div-add-mod' m n in
      rw (shifted_one_lem sdt.split_bits le) (
        low_search_complete L n sdt.hi_table table pos fits n 0 (m / n) (m % n)
          (g.from_affine (multiple g m)) ((div-lt_iff_lt-mul pos).1 hm) (mod-lt m pos) (omega arith)
          (omega arith) (from_affine_multiple L m ∙ ap (multiple g) (start_exponent m _ _ split))
        ∙ ap (λ s. ok (s % u64_mod)) split)

  -- A split table that the constructor accepts, and whose range does not pass the group's order,
  -- answers for every amount `m` in the range with `m` modulo 2^64: with `m` itself if `m` is a
  -- `uint64`, and otherwise with another number and no error.
  pub split_discrete_log-new_split_table :
      (split_bits hi_half_bits m : ℕ)
      → split_bits ≤ 32
      → hi_half_bits ≤ max_half_bits
      → 2 ^ split_bits * (2 ^ hi_half_bits * 2 ^ hi_half_bits) ≤ g.modulus
      → m < 2 ^ hi_half_bits * 2 ^ hi_half_bits * 2 ^ split_bits
      → (sdt : SplitTable g.Point) × (new_split_table g split_bits hi_half_bits ≡ ok sdt)
        × (split_discrete_log g sdt (multiple g m) ≡ ok (m % u64_mod))
  unfolding new_split_table
  split_discrete_log-new_split_table s h m hs hh fits hm =
      let built =
        new_decryption_table_with_base-IsTable L h (1 * 2 ^ s) (multiple g (1 * 2 ^ s)) hh refl in
      let sdt : SplitTable g.Point = record {
        split_bits = s;
        hi_table = built.0;
        n_g = multiple g (1 * 2 ^ s);
      } in
      (
        sdt,
        rw (not-ltb s hs, built.1) refl,
        split_discrete_log_complete m sdt hs
            (subst (λ c. IsTable g c built.0) (omega arith) built.3)
            (subst (λ k. 2 ^ s * (2 ^ k * 2 ^ k) ≤ g.modulus) (sym built.2) fits)
            (subst (λ k. m < 2 ^ k * 2 ^ k * 2 ^ s) (sym built.2) hm),
      )
