-- ===== src/Serialization.antt =====
-- serialization.go: the fields of the byte formats, which are scalars and points.
pub mod Fields
pub mod Keys
pub mod Ciphertexts
pub mod Dleq
pub mod Pop
pub mod Commitment
pub mod Pending
pub mod EqualityThree
pub mod EqualityTwo
use elgamal_bn.Common.{ℕ, ◌+◌, Option, some, none, Bytes, [], ◌∷◌, ◌==◌, Result, ok, err, external}
use elgamal_bn.Common.{message, guard, ◌>>=◌, ◌>>◌}
use elgamal_bn.Common.Buffers.{slice, copy_at}
use elgamal_bn.Gnark.{Gnark}
use elgamal_bn.Gnark.Format.{format_bits}

-- The value, or the error of gnark-crypto.
abbrev pub decoded {ℓ} : {A : Type ℓ} → Option A → Result A
decoded (some a) = ok a
decoded none = err external

-- `requireUncompressedPoint`
unfoldable pub require_uncompressed_point : Bytes → Result (Unit {0})
require_uncompressed_point [] = err (message "point encoding is empty")
require_uncompressed_point (b ∷ bs) =
    guard (format_bits b == 0) (message "point must use the uncompressed 64-byte encoding")

module _ (g : Gnark) where
  -- `marshalScalar` and `marshalPoint`: the buffer afterwards, and the next offset.
  unfoldable pub marshal_scalar : Bytes → ℕ → g.Scalar → Result (Bytes × ℕ)
  marshal_scalar buf offset s = do
    written ← copy_at buf offset (g.bytes s)
    ok (written, offset + 32)

  unfoldable pub marshal_point : Bytes → ℕ → g.Point → Result (Bytes × ℕ)
  marshal_point buf offset p = do
    written ← copy_at buf offset (g.marshal p)
    ok (written, offset + 64)

  -- `unmarshalScalar`
  unfoldable pub unmarshal_scalar : Bytes → ℕ → Result (g.Scalar × ℕ)
  unmarshal_scalar input offset = do
    b ← slice input offset (offset + 32)
    s ← decoded (g.set_bytes_canonical b)
    ok (s, offset + 32)

  -- `unmarshalPoint`
  unfoldable pub unmarshal_point : Bytes → ℕ → Result (g.Point × ℕ)
  unmarshal_point input offset = do
    b ← slice input offset (offset + 64)
    require_uncompressed_point b
    p ← decoded (g.unmarshal b)
    ok (p, offset + 64)
