-- ===== src/Memo/RoundTrip.antt =====
-- What the recipient decrypts.
use elgamal_bn.Common.{ℕ, ◌+◌, ◌≤◌, ◌≡◌, ◌∙◌, refl, sym, ap, arith, false, some, Bytes, [], ◌++◌}
use elgamal_bn.Common.{length, drop, length-append, ltb_ge, ok}
use elgamal_bn.Common.Buffers.{slice, slice_here}
use elgamal_bn.Gnark.{Gnark, IsLawful}
use elgamal_bn.Gnark.Format.{IsLawfulFormat}
use elgamal_bn.Gnark.Group.{multiple}
use elgamal_bn.Ciphertext.Validity.{IsKey, validate_public_key_iff}
use elgamal_bn.Serialization.Fields.{require_uncompressed_point_iff, advance}
use elgamal_bn.Memo.{Symmetric, memo_aad, memo_gcm, derive_memo_key, encrypt_memo, decrypt_memo}
use mathlib.Core.List.{append_assoc, append-nil}
use native.Mathlib.Nat.{mul_comm}

-- HKDF gives 32 bytes, AES takes a key of 32 bytes and GCM a block cipher; GCM's nonces have 12 bytes
-- and its tags 16, and it opens what it has sealed.
pub record IsLawfulSymmetric (g : Gnark) (σ : Symmetric g) : Type 0 where
  pub hkdf_key :
      (secret info : Bytes) → (k : Bytes) × (σ.hkdf secret info ≡ some k) × (length k ≡ 32)
  pub new_cipher_block : (k : Bytes) → length k ≡ 32 → (b : σ.Block) × (σ.new_cipher k ≡ some b)
  pub new_gcm_block : (b : σ.Block) → (c : σ.Gcm) × (σ.new_gcm b ≡ some c)
  pub nonce_size_lem : (c : σ.Gcm) → σ.nonce_size c ≡ 12
  pub length-read : (s s' : σ.System) (n : ℕ) (b : Bytes) → σ.read s n ≡ some (b, s') → length b ≡ n
  pub length-seal :
      (c : σ.Gcm) (nonce text aad : Bytes) → length (σ.seal c nonce text aad) ≡ length text + 16
  pub open_sealed-seal :
      (c : σ.Gcm) (nonce text aad : Bytes)
      → length nonce ≡ 12
      → σ.open_sealed c nonce (σ.seal c nonce text aad) aad ≡ some text

module _ (g : Gnark) (σ : Symmetric g) (L : IsLawful g) (F : IsLawfulFormat g)
    (S : IsLawfulSymmetric g σ) where
  memo_gcm_made :
      (shared ephemeral recipient : g.Point)
      → (c : σ.Gcm) × (memo_gcm g σ shared ephemeral recipient ≡ ok c)
  unfolding memo_gcm derive_memo_key
  memo_gcm_made shared ephemeral recipient =
      let (k, made, size) = S.hkdf_key (g.marshal shared) (memo_aad g σ ephemeral recipient) in
      let (b, block) = S.new_cipher_block k size in
      let (c, gcm) = S.new_gcm_block b in (c, rw (made, block, gcm) refl)

  -- The parts of an encrypted memo.
  parts :
      (ephemeral : g.Point) (nonce sealed : Bytes)
      → length nonce ≡ 12
      → let out = (g.marshal ephemeral ++ nonce) ++ sealed in
        (slice out 0 64 ≡ ok (g.marshal ephemeral))
        × (slice out 64 76 ≡ ok nonce)
        × (slice out 76 (length out) ≡ ok sealed)
        × (length out ≡ 76 + length sealed)
  parts ephemeral nonce sealed h =
      let a = g.marshal ephemeral in
      let out = (a ++ nonce) ++ sealed in
      let sa = F.length-marshal ephemeral in
      let size : length out ≡ 76 + length sealed =
        omega (arith, length-append (a ++ nonce) sealed, length-append a nonce) in
      let d0 : drop 0 out ≡ a ++ (nonce ++ sealed) = append_assoc a nonce sealed in
      let d1 : drop 64 out ≡ nonce ++ sealed = advance out a (nonce ++ sealed) 0 64 sa d0 in
      let d2 : drop 76 out ≡ sealed = advance out nonce sealed 64 12 h d1 in
      (
        slice_here out a (nonce ++ sealed) 0 64 sa d0 (omega arith),
        slice_here out nonce sealed 64 12 h d1 (omega arith),
        ap (slice out 76) size
            ∙ slice_here out sealed [] 76 (length sealed) refl (d2 ∙ sym (append-nil sealed))
                (omega arith),
        size,
      )

  opens :
      (text nonce : Bytes) (sk : g.Scalar) (ephemeral : g.Point) (c : σ.Gcm)
      → length text ≤ 1024
      → length nonce ≡ 12
      → IsKey g ephemeral
      → IsKey g (multiple g (g.big_int sk))
      → let recipient = multiple g (g.big_int sk) in
        memo_gcm g σ (g.scalar_mul ephemeral (g.big_int sk)) ephemeral recipient ≡ ok c
        → let sealed = σ.seal c nonce text (memo_aad g σ ephemeral recipient) in
          decrypt_memo g σ ((g.marshal ephemeral ++ nonce) ++ sealed) sk ≡ ok text
  unfolding decrypt_memo
  opens text nonce sk ephemeral c fits h key own gcm =
      let recipient = multiple g (g.big_int sk) in
      let aad = memo_aad g σ ephemeral recipient in
      let sealed = σ.seal c nonce text aad in
      let out = (g.marshal ephemeral ++ nonce) ++ sealed in
      let (r1, r2, r3, size) = parts ephemeral nonce sealed h in
      let tag = S.length-seal c nonce text aad in
      let long = ltb_ge (length out) 92 (omega arith) in
      let short = ltb_ge 1116 (length out) (omega arith) in
      let plain = F.marshal-IsUncompressed ephemeral key.0 in
      rw
        (
          long,
          short,
          r1,
          (require_uncompressed_point_iff (g.marshal ephemeral)).1 plain,
          (F.unmarshal_iff (g.marshal ephemeral) ephemeral (F.length-marshal ephemeral) plain).1
              (refl, key.0),
          (validate_public_key_iff g ephemeral).1 key,
          r2,
          r3,
          (validate_public_key_iff g recipient).1 own,
          gcm,
          S.open_sealed-seal c nonce text aad h,
        )
        refl

  -- Take a secret key whose public key is usable, a text of at most 1024 bytes, and randomness that
  -- gives a nonce and an ephemeral key other than the identity. Then the text can be encrypted to the
  -- public key, the result is 92 bytes longer, and decrypting it with the secret key gives the text.
  pub decrypt_memo-encrypt_memo :
      (text nonce : Bytes) (sk r : g.Scalar) (s s1 s2 : σ.System)
      → length text ≤ 1024
      → IsKey g (multiple g (g.big_int sk))
      → σ.set_random s ≡ some (r, s1)
      → g.is_infinity (multiple g (g.big_int r)) ≡ false
      → σ.read s1 12 ≡ some (nonce, s2)
      → (out : Bytes) × (encrypt_memo g σ text (some (multiple g (g.big_int sk))) s ≡ ok (out, s2))
        × (decrypt_memo g σ out sk ≡ ok text)
        × (length out ≡ length text + 92)
  unfolding encrypt_memo
  decrypt_memo-encrypt_memo text nonce sk r s s1 s2 fits own drawn ne filled =
      let recipient = multiple g (g.big_int sk) in
      let ephemeral = multiple g (g.big_int r) in
      let shared = g.scalar_mul recipient (g.big_int r) in
      let same : g.scalar_mul ephemeral (g.big_int sk) ≡ shared =
        L.scalar_mul_multiple (g.big_int r) (g.big_int sk)
        ∙ ap (multiple g) (mul_comm (g.big_int r) (g.big_int sk))
        ∙ sym (L.scalar_mul_multiple (g.big_int sk) (g.big_int r)) in
      let (c, gcm) = memo_gcm_made shared ephemeral recipient in
      let h = S.length-read s1 s2 12 nonce filled in
      let aad = memo_aad g σ ephemeral recipient in
      let sealed = σ.seal c nonce text aad in
      let (_, _, _, size) = parts ephemeral nonce sealed h in
      let key : IsKey g ephemeral = (L.is_on_curve_multiple (g.big_int r), ne) in
      (
        (g.marshal ephemeral ++ nonce) ++ sealed,
        rw
            (
              (validate_public_key_iff g recipient).1 own,
              ltb_ge 1024 (length text) fits,
              drawn,
              gcm,
              S.nonce_size_lem c,
              filled,
            )
            refl,
        opens text nonce sk ephemeral c fits h key own
            (ap (λ p. memo_gcm g σ p ephemeral recipient) same ∙ gcm),
        omega (arith, S.length-seal c nonce text aad),
      )
