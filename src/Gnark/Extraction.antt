-- ===== src/Gnark/Extraction.antt =====
-- A witness from two equations with the same commitment and different challenges.
use elgamal_bn.Common.{ℕ, ◌+◌, ◌-◌, ◌*◌, ◌%◌, ◌≡◌, ◌≢◌}
use elgamal_bn.Common.Modular.{extract_exponent, difference-ne-zero}
use elgamal_bn.Gnark.{Gnark, IsLawful, HasInverses}
use elgamal_bn.Gnark.Group.{multiple}

-- `i` is the inverse of `e - f`.
abbrev pub Inverts : (g : Gnark) → ℕ → g.Scalar → g.Scalar → Type 0
Inverts g i e f = i * (g.big_int e + (g.modulus - 1) * g.big_int f) % g.modulus ≡ 1

module _ {g : Gnark} (L : IsLawful g) where
  pub extract_multiple :
      (a t e f m n i : ℕ)
      → i * (e + (g.modulus - 1) * f) % g.modulus ≡ 1
      → multiple g m ≡ multiple g (a + t * e)
      → multiple g n ≡ multiple g (a + t * f)
      → multiple g t ≡ multiple g (i * (m + (g.modulus - 1) * n))
  extract_multiple a t e f m n i hi hm hn = (L.multiple_iff _ _).1 (
      extract_exponent g.modulus a t e f m n i L.one-lt-modulus hi ((L.multiple_iff _ _).0 hm)
        ((L.multiple_iff _ _).0 hn))

  pub challenge_inverse : HasInverses g → (e f : g.Scalar) → e ≢ f → (i : ℕ) × Inverts g i e f
  challenge_inverse inverses e f ne = inverses (g.big_int e + (g.modulus - 1) * g.big_int f) (
      difference-ne-zero g.modulus (g.big_int e) (g.big_int f) L.one-lt-modulus (L.big_int-lt e)
        (L.big_int-lt f) (λ h. ne (L.big_int-injective e f h)))
