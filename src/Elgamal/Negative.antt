-- ===== src/Elgamal/Negative.antt =====
-- What decryption does with a difference below zero.
use elgamal_bn.Common.{
  ℕ, ◌+◌, ◌-◌, ◌*◌, ◌^◌, ◌≤◌, ◌<◌, ◌≡◌, ◌∙◌, sym, ap, arith, some, ok, err, Error,
}
use elgamal_bn.Gnark.{Gnark, IsLawful}
use elgamal_bn.Gnark.Group.{multiple, multiple-add_order}
use elgamal_bn.Ciphertext.{Ciphertext}
use elgamal_bn.Elgamal.{decrypt, sub}
use elgamal_bn.Elgamal.Homomorphic.{Encrypts, decrypt-Encrypts, sub-Encrypts}
use elgamal_bn.Table.{DecryptionTable, discrete_log, new_decryption_table, max_half_bits}
use elgamal_bn.Table.Generator.{new_decryption_table-Solves}

wrapped_amount : (q m d y : ℕ) → d ≤ q → m + y + 1 * q ≡ q - d + (m + d) + y
wrapped_amount q m d y h = omega arith

module _ {g : Gnark} (L : IsLawful g) where
  -- A larger amount is subtracted as if it were below the group's order.
  sub_below-Encrypts :
      (sk m d r s : ℕ) (a b : Ciphertext g.Point)
      → d ≤ g.modulus
      → Encrypts g sk m r a
      → Encrypts g sk (m + d) s b
      → (c : Ciphertext g.Point) × (sub g (some a) (some b) ≡ ok c)
        × Encrypts g sk (g.modulus - d) (r + (g.modulus - 1) * s) c
  sub_below-Encrypts sk m d r s a b h (ha1, ha2) hb =
      let raised : a.c2 ≡ multiple g (g.modulus - d + (m + d) + sk * r) =
        ha2
        ∙ sym (multiple-add_order L (m + sk * r) 1)
        ∙ ap (multiple g) (wrapped_amount g.modulus m d (sk * r) h) in
      sub-Encrypts L sk (g.modulus - d) (m + d) r s a b (ha1, raised) hb

  -- If the second of two ciphertexts under one key encrypts `d` more than the first, `d > 0`, then the
  -- difference is a ciphertext, and decrypting it with a table of `2^h` baby steps is an error, not a
  -- wrong amount; the constructor must accept the table, and its range and `d` together must not pass
  -- the group's order.
  pub decrypt-sub_below :
      (h m d r s : ℕ) (sk : g.Scalar) (a b : Ciphertext g.Point)
      → h ≤ max_half_bits
      → 0 < d
      → 2 ^ h * 2 ^ h + d ≤ g.modulus
      → Encrypts g (g.big_int sk) m r a
      → Encrypts g (g.big_int sk) (m + d) s b
      → (dt : DecryptionTable g.Point) × (c : Ciphertext g.Point) × (e : Error)
        × (new_decryption_table g h ≡ ok dt)
        × (sub g (some a) (some b) ≡ ok c)
        × (decrypt g (some c) (some sk) (some (discrete_log g dt)) ≡ err e)
  decrypt-sub_below h m d r s sk a b le pos fits ha hb =
      let (dt, built, solves) = new_decryption_table-Solves L h le (omega arith) in
      let (c, made, enc) = sub_below-Encrypts (g.big_int sk) m d r s a b (omega arith) ha hb in
      let (e, none_found) = (solves (g.modulus - d) (omega arith)).1 (omega arith) in
      (
        dt,
        c,
        e,
        built,
        made,
        decrypt-Encrypts L sk (g.modulus - d) (r + (g.modulus - 1) * s) c (discrete_log g dt) enc
            ∙ none_found,
      )
