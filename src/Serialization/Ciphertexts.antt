-- ===== src/Serialization/Ciphertexts.antt =====
-- `Marshal` and `Unmarshal` of `Ciphertext`, of ciphertext.go.
use elgamal_bn.Common.{ℕ, ◌≡◌, ◌↔◌, ◌∙◌, refl, sym, ap, arith, some, true, Bytes, [], ◌++◌}
use elgamal_bn.Common.{Result, ok, wrap, wrap_inv, ◌>>=◌, ◌>>◌, length, drop, length-append}
use elgamal_bn.Common.{check_inv, bind_inv, ok-injective}
use elgamal_bn.Common.Buffers.{slice, slice_here, slice_inv, drop-append}
use elgamal_bn.Gnark.{Gnark, IsLawful}
use elgamal_bn.Gnark.Format.{IsLawfulFormat}
use elgamal_bn.Ciphertext.{Ciphertext, validate}
use elgamal_bn.Ciphertext.Validity.{IsValid, validate_iff}
use elgamal_bn.Serialization.{decoded, require_uncompressed_point}
use elgamal_bn.Serialization.Keys.{check_length, check_length_iff}
use elgamal_bn.Serialization.Fields.{require_uncompressed_point_iff, decoded_inv, drop_to_end}
use mathlib.Core.Path.{subst}
use mathlib.Core.List.{append-nil}

abbrev pub ciphertext_size : ℕ
ciphertext_size = 128

module _ (g : Gnark) where
  unfoldable pub marshal_ciphertext : Ciphertext g.Point → Bytes
  marshal_ciphertext ct = ([] ++ g.marshal ct.c1) ++ g.marshal ct.c2

  unfoldable pub unmarshal_ciphertext : Bytes → Result (Ciphertext g.Point)
  unmarshal_ciphertext input = do
    check_length "invalid ciphertext length: expected %d bytes, got %d" ciphertext_size input
    b1 ← slice input 0 64
    wrap "C1" (require_uncompressed_point b1)
    c1 ← wrap "failed to unmarshal C1" (decoded (g.unmarshal b1))
    b2 ← slice input 64 (length input)
    wrap "C2" (require_uncompressed_point b2)
    c2 ← wrap "failed to unmarshal C2" (decoded (g.unmarshal b2))
    validate g (some (record { c1 = c1; c2 = c2 }))
    ok (record { c1 = c1; c2 = c2 })

module _ (g : Gnark) (L : IsLawful g) (F : IsLawfulFormat g) where
  decoded_point :
      (b : Bytes) (p : g.Point)
      → length b ≡ 64
      → require_uncompressed_point b ≡ ok tt
      → decoded (g.unmarshal b) ≡ ok p
      → b ≡ g.marshal p
  decoded_point b p size plain dec =
      ((F.unmarshal_iff b p size ((require_uncompressed_point_iff b).0 plain)).0
        (decoded_inv _ dec)).0

  encoded_point :
      (p : g.Point)
      → g.is_on_curve p ≡ true
      → (require_uncompressed_point (g.marshal p) ≡ ok tt) × (g.unmarshal (g.marshal p) ≡ some p)
  encoded_point p on =
      let plain = F.marshal-IsUncompressed p on in
      (
        (require_uncompressed_point_iff (g.marshal p)).1 plain,
        (F.unmarshal_iff (g.marshal p) p (F.length-marshal p) plain).1 (refl, on),
      )

  decodes :
      (input : Bytes) (ct : Ciphertext g.Point)
      → unmarshal_ciphertext g input ≡ ok ct
      → (input ≡ marshal_ciphertext g ct) × IsValid g ct
  unfolding unmarshal_ciphertext marshal_ciphertext
  decodes input ct h =
      let (sized, h0) = check_inv (check_length _ 128 input) _ h in
      let (b1, r1, h1) = bind_inv (slice input 0 64) _ h0 in
      let (u1, h2) = check_inv (wrap "C1" (require_uncompressed_point b1)) _ h1 in
      let (p1, v1, h3) = bind_inv (wrap "failed to unmarshal C1" (decoded (g.unmarshal b1))) _ h2 in
      let (b2, r2, h4) = bind_inv (slice input 64 (length input)) _ h3 in
      let (u2, h5) = check_inv (wrap "C2" (require_uncompressed_point b2)) _ h4 in
      let (p2, v2, h6) = bind_inv (wrap "failed to unmarshal C2" (decoded (g.unmarshal b2))) _ h5 in
      let q : Ciphertext g.Point = record { c1 = p1; c2 = p2 } in
      let (valid, h7) = check_inv (validate g (some q)) _ h6 in
      let size = (check_length_iff _ 128 input).0 sized in
      let (d1, s1) = slice_inv input b1 0 64 r1 in
      let (d2, s2) = slice_inv input b2 64 64 (ap (slice input 64) (sym size) ∙ r2) in
      let e1 = decoded_point b1 p1 s1 (wrap_inv _ _ u1) (wrap_inv _ _ v1) in
      let e2 = decoded_point b2 p2 s2 (wrap_inv _ _ u2) (wrap_inv _ _ v2) in
      let second : drop 64 input ≡ g.marshal p2 =
        d2 ∙ ap (λ r. b2 ++ r) (drop_to_end input 128 size) ∙ append-nil b2 ∙ e2 in
      let content : input ≡ g.marshal p1 ++ g.marshal p2 =
        d1 ∙ ap (λ r. r ++ drop 64 input) e1 ∙ ap (λ r. g.marshal p1 ++ r) second in
      subst (λ r. (input ≡ g.marshal r.c1 ++ g.marshal r.c2) × IsValid g r) (ok-injective q ct h7)
        (content, (validate_iff g q).0 valid)

  encodes :
      (ct : Ciphertext g.Point)
      → IsValid g ct
      → unmarshal_ciphertext g (marshal_ciphertext g ct) ≡ ok ct
  unfolding unmarshal_ciphertext marshal_ciphertext
  encodes ct v =
      let a = g.marshal ct.c1 in
      let b = g.marshal ct.c2 in
      let size : length (a ++ b) ≡ 128 =
        omega (arith, length-append a b, F.length-marshal ct.c1, F.length-marshal ct.c2) in
      let (u1, v1) = encoded_point ct.c1 v.c1_on_curve in
      let (u2, v2) = encoded_point ct.c2 v.c2_on_curve in
      let r1 = slice_here (a ++ b) a b 0 64 (F.length-marshal ct.c1) refl (omega arith) in
      let rest : drop 64 (a ++ b) ≡ b ++ [] =
        drop-append a b 64 (F.length-marshal ct.c1) ∙ sym (append-nil b) in
      let r2 : slice (a ++ b) 64 (length (a ++ b)) ≡ ok b =
        ap (slice (a ++ b) 64) size
        ∙ slice_here (a ++ b) b [] 64 64 (F.length-marshal ct.c2) rest (omega arith) in
      rw ((check_length_iff _ 128 (a ++ b)).1 size, r1, u1, v1, r2, u2, v2, (validate_iff g ct).1 v)
        refl

  -- Bytes decode to a ciphertext exactly if they are its encoding and it is valid: valid ciphertexts
  -- survive the round trip, and no ciphertext has a second encoding.
  pub unmarshal_ciphertext_iff :
      (input : Bytes) (ct : Ciphertext g.Point)
      → (unmarshal_ciphertext g input ≡ ok ct) ↔ ((input ≡ marshal_ciphertext g ct) × IsValid g ct)
  unmarshal_ciphertext_iff input ct =
      (decodes input ct, λ (e, v). ap (unmarshal_ciphertext g) e ∙ encodes ct v)
