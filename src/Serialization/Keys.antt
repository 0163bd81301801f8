-- ===== src/Serialization/Keys.antt =====
-- `MarshalPublicKey` and `UnmarshalPublicKey`.
use elgamal_bn.Common.{
  ℕ, String, ◌≡◌, ◌↔◌, refl, arith, some, Bytes, ◌==◌, Result, ok, length_error,
}
use elgamal_bn.Common.{guard, ◌>>=◌, ◌>>◌, length, bind_inv, check_inv, ==_iff}
use mathlib.Core.Path.{subst}
use elgamal_bn.Gnark.{Gnark, IsLawful}
use elgamal_bn.Gnark.Format.{IsLawfulFormat}
use elgamal_bn.Ciphertext.{validate_public_key}
use elgamal_bn.Ciphertext.Validity.{IsKey, validate_public_key_iff}
use elgamal_bn.Serialization.{decoded, require_uncompressed_point}
use elgamal_bn.Serialization.Fields.{require_uncompressed_point_iff, decoded_inv}

abbrev pub public_key_size : ℕ
public_key_size = 64

-- `if len(data) != size { return … }`
abbrev pub check_length : String → ℕ → Bytes → Result (Unit {0})
check_length text size input = guard (length input == size) (length_error text size (length input))

pub check_length_iff :
    (text : String) (size : ℕ) (input : Bytes)
    → (check_length text size input ≡ ok tt) ↔ (length input ≡ size)
check_length_iff text size input = (λ h. ground arith, λ h. rw ((==_iff _ _).1 h) refl)

module _ (g : Gnark) where
  unfoldable pub marshal_public_key : g.Point → Bytes
  marshal_public_key pk = g.marshal pk

  unfoldable pub unmarshal_public_key : Bytes → Result g.Point
  unmarshal_public_key input = do
    check_length "public key must be %d bytes, got %d" public_key_size input
    require_uncompressed_point input
    pk ← decoded (g.unmarshal input)
    validate_public_key g (some pk)
    ok pk

module _ (g : Gnark) (L : IsLawful g) (F : IsLawfulFormat g) where
  -- Bytes decode to a public key exactly if they are its encoding and it is a point of the curve
  -- other than the identity: keys survive the round trip, and no key has a second encoding.
  pub unmarshal_public_key_iff :
      (input : Bytes) (pk : g.Point)
      → (unmarshal_public_key g input ≡ ok pk) ↔ ((input ≡ marshal_public_key g pk) × IsKey g pk)
  unfolding unmarshal_public_key marshal_public_key
  unmarshal_public_key_iff input pk = (
    λ h.
        let (sized, h1) = check_inv (check_length _ 64 input) _ h in
        let (plain, h2) = check_inv (require_uncompressed_point input) _ h1 in
        let (p, dec, h3) = bind_inv (decoded (g.unmarshal input)) _ h2 in
        let (valid, h4) = check_inv (validate_public_key g (some p)) _ h3 in
        let same : p ≡ pk = cc in
        let size = (check_length_iff _ 64 input).0 sized in
        let content =
          (F.unmarshal_iff input p size ((require_uncompressed_point_iff input).0 plain)).0
            (decoded_inv _ dec) in
        subst (λ r. (input ≡ g.marshal r) × IsKey g r) same
          (content.0, (validate_public_key_iff g p).0 valid),
    λ (e, key).
        let size = F.length-marshal pk in
        let plain = F.marshal-IsUncompressed pk key.0 in
        rw
          (
            e,
            (check_length_iff _ 64 (g.marshal pk)).1 size,
            (require_uncompressed_point_iff (g.marshal pk)).1 plain,
            (F.unmarshal_iff (g.marshal pk) pk size plain).1 (refl, key.0),
            (validate_public_key_iff g pk).1 key,
          )
          refl,
  )
