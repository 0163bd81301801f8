-- ===== src/Serialization/Fields.antt =====
-- Writing and reading one field.
use elgamal_bn.Common.{
  ℕ, zero, suc, ◌+◌, ◌≤◌, ◌≡◌, ◌∙◌, ap, sym, refl, arith, true, some, Bytes, [], ◌∷◌, ◌++◌,
}
use elgamal_bn.Common.{
  Option, none, Result, String, wrap, wrap_inv, ◌>>=◌, ok, bind_inv, check_inv, length, drop,
  length-append, ==_iff, ◌↔◌,
}
use elgamal_bn.Common.Buffers.{
  copy_at, drop-drop, drop-append, zeros, slice, copy_at-zeros, slice_here, slice_inv,
}
use elgamal_bn.Gnark.{Gnark}
use elgamal_bn.Gnark.Format.{IsUncompressed, IsLawfulFormat, format_bits}
use elgamal_bn.Serialization.{
  decoded, require_uncompressed_point, marshal_scalar, marshal_point, unmarshal_scalar,
  unmarshal_point,
}

pub require_uncompressed_point_iff :
    (b : Bytes) → (require_uncompressed_point b ≡ ok tt) ↔ IsUncompressed b
unfolding require_uncompressed_point
require_uncompressed_point_iff [] = (λ h. cc, λ (b, bs, e, _). cc)
require_uncompressed_point_iff (b ∷ bs) = (
  λ h. (b, bs, refl, ground arith),
  λ (c, cs, e, clear).
      let same : c ≡ b = cc in
      rw ((==_iff (format_bits b) 0).1 (ap format_bits (sym same) ∙ clear)) refl,
)

pub decoded_inv {ℓ} : {A : Type ℓ} (o : Option A) {a : A} → decoded o ≡ ok a → o ≡ some a
decoded_inv none e = cc
decoded_inv (some x) e = cc

pub advance :
    (input b rest : Bytes) (off n : ℕ)
    → length b ≡ n
    → drop off input ≡ b ++ rest
    → drop (off + n) input ≡ rest
advance input b rest off n h e =
    sym (drop-drop off n input) ∙ ap (drop n) e ∙ drop-append b rest n h

pub drop_to_end : (input : Bytes) (n : ℕ) → length input ≡ n → drop n input ≡ []
drop_to_end [] zero h = refl
drop_to_end [] (suc n) h = refl
drop_to_end (x ∷ xs) zero h = absurd (omega arith)
drop_to_end (x ∷ xs) (suc n) h = drop_to_end xs n (omega arith)

module _ (g : Gnark) (F : IsLawfulFormat g) where
  pub marshal_scalar_next :
      (w : Bytes) (off m : ℕ) (s : g.Scalar)
      → length w ≡ off
      → (marshal_scalar g (w ++ zeros (32 + m)) off s ≡ ok ((w ++ g.bytes s) ++ zeros m, off + 32))
        × (length (w ++ g.bytes s) ≡ off + 32)
  unfolding marshal_scalar
  marshal_scalar_next w off m s h =
      let size = F.length-bytes s in
      let write =
        ap (λ k. copy_at (w ++ zeros (k + m)) off (g.bytes s)) (sym size)
        ∙ copy_at-zeros w (g.bytes s) off m h in
      (rw write refl, omega (arith, length-append w (g.bytes s)))

  pub marshal_point_next :
      (w : Bytes) (off m : ℕ) (p : g.Point)
      → length w ≡ off
      → (marshal_point g (w ++ zeros (64 + m)) off p ≡ ok ((w ++ g.marshal p) ++ zeros m, off + 64))
        × (length (w ++ g.marshal p) ≡ off + 64)
  unfolding marshal_point
  marshal_point_next w off m p h =
      let size = F.length-marshal p in
      let write =
        ap (λ k. copy_at (w ++ zeros (k + m)) off (g.marshal p)) (sym size)
        ∙ copy_at-zeros w (g.marshal p) off m h in
      (rw write refl, omega (arith, length-append w (g.marshal p)))

  pub unmarshal_scalar_next :
      (input rest : Bytes) (off : ℕ) (s : g.Scalar)
      → off ≤ length input
      → drop off input ≡ g.bytes s ++ rest
      → (unmarshal_scalar g input off ≡ ok (s, off + 32)) × (drop (off + 32) input ≡ rest)
  unfolding unmarshal_scalar
  unmarshal_scalar_next input rest off s fits e =
      let size = F.length-bytes s in
      (
        rw
            (
              slice_here input (g.bytes s) rest off 32 size e fits,
              (F.set_bytes_canonical_iff (g.bytes s) s size).1 refl,
            )
            refl,
        advance input (g.bytes s) rest off 32 size e,
      )

  pub unmarshal_scalar_inv :
      (input : Bytes) (off off' : ℕ) (s : g.Scalar)
      → unmarshal_scalar g input off ≡ ok (s, off')
      → (off' ≡ off + 32) × (drop off input ≡ g.bytes s ++ drop (off + 32) input)
  unfolding unmarshal_scalar
  unmarshal_scalar_inv input off off' s h =
      let (b, read, rest) = bind_inv (slice input off (off + 32)) _ h in
      let (here, size) = slice_inv input b off 32 read in
      let (s', dec, end) = bind_inv (decoded (g.set_bytes_canonical b)) _ rest in
      let same : s' ≡ s = cc in
      let next : off + 32 ≡ off' = cc in
      let content = (F.set_bytes_canonical_iff b s' size).0 (decoded_inv _ dec) in
      (sym next, here ∙ ap (λ r. r ++ drop (off + 32) input) (content ∙ ap g.bytes same))

  pub unmarshal_point_next :
      (input rest : Bytes) (off : ℕ) (p : g.Point)
      → off ≤ length input
      → g.is_on_curve p ≡ true
      → drop off input ≡ g.marshal p ++ rest
      → (unmarshal_point g input off ≡ ok (p, off + 64)) × (drop (off + 64) input ≡ rest)
  unfolding unmarshal_point
  unmarshal_point_next input rest off p fits on e =
      let size = F.length-marshal p in
      let plain = F.marshal-IsUncompressed p on in
      (
        rw
            (
              slice_here input (g.marshal p) rest off 64 size e fits,
              (require_uncompressed_point_iff (g.marshal p)).1 plain,
              (F.unmarshal_iff (g.marshal p) p size plain).1 (refl, on),
            )
            refl,
        advance input (g.marshal p) rest off 64 size e,
      )

  pub unmarshal_point_inv :
      (input : Bytes) (off off' : ℕ) (p : g.Point)
      → unmarshal_point g input off ≡ ok (p, off')
      → (off' ≡ off + 64)
        × (drop off input ≡ g.marshal p ++ drop (off + 64) input)
        × (g.is_on_curve p ≡ true)
  unfolding unmarshal_point
  unmarshal_point_inv input off off' p h =
      let (b, read, rest) = bind_inv (slice input off (off + 64)) _ h in
      let (here, size) = slice_inv input b off 64 read in
      let (plain, rest') = check_inv (require_uncompressed_point b) _ rest in
      let (p', dec, end) = bind_inv (decoded (g.unmarshal b)) _ rest' in
      let same : p' ≡ p = cc in
      let next : off + 64 ≡ off' = cc in
      let (content, on) =
        (F.unmarshal_iff b p' size ((require_uncompressed_point_iff b).0 plain)).0
          (decoded_inv _ dec) in
      (
        sym next,
        here ∙ ap (λ r. r ++ drop (off + 64) input) (content ∙ ap g.marshal same),
        ap g.is_on_curve (sym same) ∙ on,
      )

  -- A field at the head of a chain that gives a value.
  pub read_scalar {κ} :
      {T : Type κ} (text : String) (input : Bytes) (off : ℕ) (next : g.Scalar × ℕ → Result T)
      {t : T}
      → (wrap text (unmarshal_scalar g input off) >>= next) ≡ ok t
      → (s : g.Scalar) × (drop off input ≡ g.bytes s ++ drop (off + 32) input)
        × (next (s, off + 32) ≡ ok t)
  read_scalar text input off next h =
      let ((s, off'), read, rest) = bind_inv (wrap text (unmarshal_scalar g input off)) next h in
      let (moved, here) =
        unmarshal_scalar_inv input off off' s (wrap_inv text (unmarshal_scalar g input off) read) in
      (s, here, ap (λ o. next (s, o)) (sym moved) ∙ rest)

  pub read_point {κ} :
      {T : Type κ} (text : String) (input : Bytes) (off : ℕ) (next : g.Point × ℕ → Result T) {t : T}
      → (wrap text (unmarshal_point g input off) >>= next) ≡ ok t
      → (p : g.Point) × (drop off input ≡ g.marshal p ++ drop (off + 64) input)
        × (g.is_on_curve p ≡ true)
        × (next (p, off + 64) ≡ ok t)
  read_point text input off next h =
      let ((p, off'), read, rest) = bind_inv (wrap text (unmarshal_point g input off)) next h in
      let (moved, here, on) =
        unmarshal_point_inv input off off' p (wrap_inv text (unmarshal_point g input off) read) in
      (p, here, on, ap (λ o. next (p, o)) (sym moved) ∙ rest)
