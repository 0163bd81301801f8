-- ===== src/Elgamal/Homomorphic.antt =====
-- Decryption undoes encryption, and addition and subtraction act on the amounts.
use elgamal_bn.Common.{ℕ, ◌+◌, ◌-◌, ◌*◌, ◌≡◌, refl, ap, ◌∙◌, arith}
use elgamal_bn.Common.{some, ok}
use elgamal_bn.Gnark.{Gnark, IsLawful}
use elgamal_bn.Gnark.Group.{multiple, jacobian_sum, sum_eq, neg_eq, scalar_mul_eq}
use elgamal_bn.Gnark.Group.{difference_eq, neg_cancel}
use elgamal_bn.Ciphertext.{Ciphertext}
use elgamal_bn.Ciphertext.Validity.{IsKey, validate_public_key_iff}
use elgamal_bn.Elgamal.{Decryptor, encrypt_with_randomness, decrypt, add, sub}

module _ (g : Gnark) where
  -- `ct` is what encrypting `amount` under the key `sk * G` with randomness `r` gives; both count
  -- only modulo the group's order.
  abbrev pub Encrypts : ℕ → ℕ → ℕ → Ciphertext g.Point → Type 0
  Encrypts sk amount r ct = (ct.c1 ≡ multiple g r) × (ct.c2 ≡ multiple g (amount + sk * r))

sub_exponent :
    (m n r s sk t : ℕ) → m + n + sk * r + t * (n + sk * s) ≡ m + sk * (r + t * s) + n + t * n
sub_exponent m n r s sk t = omega arith

module _ {g : Gnark} (L : IsLawful g) where
  pub encrypt_with_randomness-Encrypts :
      (amount sk : ℕ) (r : g.Scalar)
      → IsKey g (multiple g sk)
      → (ct : Ciphertext g.Point) × (encrypt_with_randomness g amount
            (some (multiple g sk))
            (some r)
          ≡ ok (ct, r))
        × Encrypts g sk amount (g.big_int r) ct
  unfolding encrypt_with_randomness
  encrypt_with_randomness-Encrypts amount sk r k = (
    record { c1 = _; c2 = _ },
    rw ((validate_public_key_iff g (multiple g sk)).1 k) refl,
    (refl, sum_eq L amount (sk * g.big_int r) refl (L.scalar_mul_multiple sk (g.big_int r))),
  )

  pub decrypted_point :
      (sk amount r : ℕ) (ct : Ciphertext g.Point)
      → Encrypts g sk amount r ct
      → jacobian_sum g ct.c2 (g.neg (g.scalar_mul ct.c1 sk)) ≡ multiple g amount
  decrypted_point sk amount r ct (h1, h2) =
      difference_eq L amount (sk * r) h2 (scalar_mul_eq L r sk h1 ∙ ap (multiple g) (omega arith))

  -- Decryption hands the point `amount * G` to the solver and returns its answer.
  pub decrypt-Encrypts :
      (sk : g.Scalar) (amount r : ℕ) (ct : Ciphertext g.Point) (solver : Decryptor g)
      → Encrypts g (g.big_int sk) amount r ct
      → decrypt g (some ct) (some sk) (some solver) ≡ solver (multiple g amount)
  unfolding decrypt
  decrypt-Encrypts sk amount r ct solver h = ap solver (decrypted_point _ amount r ct h)

  pub add-Encrypts :
      (sk m n r s : ℕ) (a b : Ciphertext g.Point)
      → Encrypts g sk m r a
      → Encrypts g sk n s b
      → (c : Ciphertext g.Point) × (add g (some a) (some b) ≡ ok c)
        × Encrypts g sk (m + n) (r + s) c
  unfolding add
  add-Encrypts sk m n r s a b (ha1, ha2) (hb1, hb2) = (
    record { c1 = _; c2 = _ },
    refl,
    (
      sum_eq L r s ha1 hb1,
      sum_eq L (m + sk * r) (n + sk * s) ha2 hb2 ∙ ap (multiple g) (omega arith),
    ),
  )

  -- The amounts are subtracted where the difference is not negative.
  pub sub-Encrypts :
      (sk m n r s : ℕ) (a b : Ciphertext g.Point)
      → Encrypts g sk (m + n) r a
      → Encrypts g sk n s b
      → (c : Ciphertext g.Point) × (sub g (some a) (some b) ≡ ok c)
        × Encrypts g sk m (r + (g.modulus - 1) * s) c
  unfolding sub
  sub-Encrypts sk m n r s a b (ha1, ha2) (hb1, hb2) = (
    record { c1 = _; c2 = _ },
    refl,
    (
      sum_eq L r ((g.modulus - 1) * s) ha1 (neg_eq L s hb1),
      sum_eq L (m + n + sk * r) ((g.modulus - 1) * (n + sk * s)) ha2 (neg_eq L (n + sk * s) hb2)
          ∙ ap (multiple g) (sub_exponent m n r s sk (g.modulus - 1))
          ∙ neg_cancel L _ n,
    ),
  )
