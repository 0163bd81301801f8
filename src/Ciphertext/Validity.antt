-- ===== src/Ciphertext/Validity.antt =====
-- What the validators accept.
use elgamal_bn.Common.{◌≡◌, ◌↔◌, true, false, some, ok, arith}
use elgamal_bn.Gnark.{Gnark}
use elgamal_bn.Ciphertext.{Ciphertext, validate, validate_public_key}

module _ (g : Gnark) where
  -- A usable public key: a point of the curve other than the identity.
  abbrev pub IsKey : g.Point → Type 0
  IsKey p = (g.is_on_curve p ≡ true) × (g.is_infinity p ≡ false)

  pub record IsValid (ct : Ciphertext g.Point) : Type 0 where
    pub c1_on_curve : g.is_on_curve ct.c1 ≡ true
    pub c2_on_curve : g.is_on_curve ct.c2 ≡ true
    pub c1_ne_identity : g.is_infinity ct.c1 ≡ false

  pub validate_public_key_iff :
      (pk : g.Point) → (validate_public_key g (some pk) ≡ ok tt) ↔ IsKey pk
  unfolding validate_public_key
  validate_public_key_iff pk = ground arith

  pub validate_iff : (ct : Ciphertext g.Point) → (validate g (some ct) ≡ ok tt) ↔ IsValid ct
  unfolding validate
  validate_iff ct = ground arith
