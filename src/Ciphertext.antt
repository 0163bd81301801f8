-- ===== src/Ciphertext.antt =====
-- ciphertext.go: the type `Ciphertext`, `IsZero`, `Validate` and `ValidatePublicKey`. The byte
-- format is in `Serialization`. A pointer that the code compares with nil is an `Option`.
pub mod Validity
use elgamal_bn.Common.{Bool, not, ◌&&◌, Option, Result, ◌>>=◌, ◌>>◌, guard, deref, message}
use elgamal_bn.Gnark.{Gnark}

pub record Ciphertext (P : Type 0) : Type 0 where
  pub c1 : P
  pub c2 : P

module _ (g : Gnark) where
  unfoldable pub is_zero : Ciphertext g.Point → Bool
  is_zero ct = g.is_infinity ct.c1 && g.is_infinity ct.c2

  unfoldable pub validate : Option (Ciphertext g.Point) → Result (Unit {0})
  validate p = do
    ct ← deref p (message "ciphertext is nil")
    guard (g.is_on_curve ct.c1) (message "C1 is not on the curve")
    guard (g.is_on_curve ct.c2) (message "C2 is not on the curve")
    guard (not (g.is_infinity ct.c1)) (message "C1 is the identity point")

  unfoldable pub validate_public_key : Option g.Point → Result (Unit {0})
  validate_public_key p = do
    pk ← deref p (message "public key is nil")
    guard (g.is_on_curve pk) (message "public key is not on the curve")
    guard (not (g.is_infinity pk)) (message "public key is the identity point")
