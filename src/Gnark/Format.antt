-- ===== src/Gnark/Format.antt =====
-- What the code relies on of gnark-crypto's byte formats.
use elgamal_bn.Common.{ℕ, ◌*◌, ◌/◌, ◌%◌, ◌≡◌, ◌↔◌, true, some, Bytes, length, ◌∷◌}
use elgamal_bn.Gnark.{Gnark}

-- `b & (0b11 << 6)`, the bits of a point's first byte that tell its format
abbrev pub format_bits : ℕ → ℕ
format_bits b = b / 64 % 4 * 64

-- The format bits are clear.
abbrev pub IsUncompressed : Bytes → Type 0
IsUncompressed bytes = (b : ℕ) × (bs : Bytes) × (bytes ≡ b ∷ bs) × (format_bits b ≡ 0)

-- A scalar has one canonical encoding, of 32 bytes. A point has one encoding of 64 bytes with clear
-- format bits, and only points of the curve are decoded.
pub record IsLawfulFormat (g : Gnark) : Type 0 where
  pub length-bytes : (s : g.Scalar) → length (g.bytes s) ≡ 32
  pub set_bytes_canonical_iff :
      (b : Bytes) (s : g.Scalar)
      → length b ≡ 32
      → (g.set_bytes_canonical b ≡ some s) ↔ (b ≡ g.bytes s)
  pub length-marshal : (p : g.Point) → length (g.marshal p) ≡ 64
  pub marshal-IsUncompressed : (p : g.Point) → g.is_on_curve p ≡ true → IsUncompressed (g.marshal p)
  pub unmarshal_iff :
      (b : Bytes) (p : g.Point)
      → length b ≡ 64
      → IsUncompressed b
      → (g.unmarshal b ≡ some p) ↔ ((b ≡ g.marshal p) × (g.is_on_curve p ≡ true))
