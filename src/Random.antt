-- ===== src/Random.antt =====
-- `randomScalar` of elgamal.go, over readers of random bytes that are not part of the repository.
use elgamal_bn.Common.{ℕ, Option, none, some, Result, ok, err, external}
use elgamal_bn.Gnark.{Gnark}

-- `io.Reader` with `rand.Int`, which draws a number below its bound and leaves the reader's next
-- state, or fails.
pub record Random : Type 1 where
  pub Reader : Type 0
  pub int : Reader → ℕ → Option (ℕ × Reader)

-- The caller's reader, which may be nil, and `crypto/rand.Reader`.
pub record Rng (ρ : Random) : Type 0 where
  pub given : Option ρ.Reader
  pub system : ρ.Reader

module _ (g : Gnark) (ρ : Random) where
  unfoldable pub random_scalar : Rng ρ → Result (g.Scalar × Rng ρ)
  random_scalar rng = elim rng.given [
    | some reader ↦ elim (ρ.int reader g.modulus) [
      | some (n, next) ↦ ok (g.set_big_int n, record rng { given = some next })
      | none ↦ err external
    ]
    | none ↦ elim (ρ.int rng.system g.modulus) [
      | some (n, next) ↦ ok (g.set_big_int n, record rng { system = next })
      | none ↦ err external
    ]
  ]
