-- ===== src/Elgamal.antt =====
-- elgamal.go: key generation, encryption, decryption and the homomorphic operations.
pub mod Homomorphic
pub mod RoundTrip
pub mod Negative
use elgamal_bn.Common.{ℕ, Option, none, some, Result, ok, panic, ◌>>=◌, ◌>>◌, deref, load, message}
use elgamal_bn.Gnark.{Gnark}
use elgamal_bn.Gnark.Group.{jacobian_sum}
use elgamal_bn.Random.{Random, Rng, random_scalar}
use elgamal_bn.Ciphertext.{Ciphertext, validate_public_key}

-- `Decryptor`: its method `DiscreteLog`.
abbrev pub Decryptor : Gnark → Type 0
Decryptor g = g.Point → Result ℕ

module _ (g : Gnark) where
  unfoldable pub encrypt_with_randomness :
      ℕ → Option g.Point → Option g.Scalar → Result (Ciphertext g.Point × g.Scalar)
  encrypt_with_randomness amount pk r = do
    validate_public_key g pk
    key ← load pk
    scalar ← deref r (message "randomness r is nil")
    let r_big = g.big_int scalar
    let c1 = g.scalar_mul g.generator r_big
    let amount_g = g.scalar_mul g.generator amount
    let r_pk = g.scalar_mul key r_big
    ok (record { c1 = c1; c2 = jacobian_sum g amount_g r_pk }, scalar)

  unfoldable pub decrypt :
      Option (Ciphertext g.Point) → Option g.Scalar → Option (Decryptor g) → Result ℕ
  decrypt ct sk table = do
    c ← deref ct (message "ciphertext is nil")
    s ← deref sk (message "secret key is nil")
    discrete_log ← deref table (message "decryption table is nil")
    let sk_c1 = g.scalar_mul c.c1 (g.big_int s)
    discrete_log (jacobian_sum g c.c2 (g.neg sk_c1))

  -- `Add`
  unfoldable pub add :
      Option (Ciphertext g.Point) → Option (Ciphertext g.Point) → Result (Ciphertext g.Point)
  add none b = panic
  add (some a) none = panic
  add (some a) (some b) =
      ok (record { c1 = jacobian_sum g a.c1 b.c1; c2 = jacobian_sum g a.c2 b.c2 })

  -- `Sub`
  unfoldable pub sub :
      Option (Ciphertext g.Point) → Option (Ciphertext g.Point) → Result (Ciphertext g.Point)
  unfolding add
  sub none b = panic
  sub (some a) none = panic
  sub (some a) (some b) = add (some a) (some (record { c1 = g.neg b.c1; c2 = g.neg b.c2 }))

module _ (g : Gnark) (ρ : Random) where
  unfoldable pub key_gen : Rng ρ → Result ((g.Scalar × g.Point) × Rng ρ)
  key_gen rng = do
    (sk, rng') ← random_scalar g ρ rng
    ok ((sk, g.scalar_mul g.generator (g.big_int sk)), rng')

  unfoldable pub encrypt :
      ℕ → Option g.Point → Rng ρ → Result ((Ciphertext g.Point × g.Scalar) × Rng ρ)
  encrypt amount pk rng = do
    validate_public_key g pk
    (r, rng') ← random_scalar g ρ rng
    out ← encrypt_with_randomness g amount pk (some r)
    ok (out, rng')
