-- ===== src/Elgamal/RoundTrip.antt =====
-- From encryption through the homomorphic operations to decryption with a table.
use elgamal_bn.Common.{ℕ, ◌+◌, ◌-◌, ◌*◌, ◌^◌, ◌≤◌, ◌<◌, ◌≡◌, ◌∙◌, refl, arith}
use elgamal_bn.Common.{some, ok}
use elgamal_bn.Gnark.{Gnark, IsLawful}
use elgamal_bn.Gnark.Group.{multiple}
use elgamal_bn.Random.{Random, Rng, random_scalar}
use elgamal_bn.Ciphertext.{Ciphertext}
use elgamal_bn.Ciphertext.Validity.{IsKey, validate_public_key_iff}
use elgamal_bn.Elgamal.{encrypt, decrypt, add, sub}
use elgamal_bn.Elgamal.Homomorphic.{
  Encrypts, encrypt_with_randomness-Encrypts, decrypt-Encrypts, add-Encrypts, sub-Encrypts,
}
use elgamal_bn.Table.{DecryptionTable, discrete_log, new_decryption_table, max_half_bits}
use elgamal_bn.Table.Generator.{new_decryption_table-Solves, Solves}

module _ (g : Gnark) (ρ : Random) (L : IsLawful g) where
  encrypt-Encrypts :
      (amount : ℕ) (sk r : g.Scalar) (rng rng' : Rng ρ)
      → IsKey g (multiple g (g.big_int sk))
      → random_scalar g ρ rng ≡ ok (r, rng')
      → (ct : Ciphertext g.Point) × (encrypt g ρ amount (some (multiple g (g.big_int sk))) rng
          ≡ ok ((ct, r), rng'))
        × Encrypts g (g.big_int sk) amount (g.big_int r) ct
  unfolding encrypt
  encrypt-Encrypts amount sk r rng rng' key drawn =
      let (ct, made, enc) = encrypt_with_randomness-Encrypts L amount (g.big_int sk) r key in
      (
        ct,
        rw ((validate_public_key_iff g (multiple g (g.big_int sk))).1 key, drawn, made) refl,
        enc,
      )

  -- What decryption with a table gives for an amount in its range.
  decrypt_in_range :
      (h amount r : ℕ) (sk : g.Scalar) (ct : Ciphertext g.Point) (dt : DecryptionTable g.Point)
      → Solves g dt (2 ^ h * 2 ^ h)
      → 2 ^ h * 2 ^ h ≤ g.modulus
      → amount < 2 ^ h * 2 ^ h
      → Encrypts g (g.big_int sk) amount r ct
      → decrypt g (some ct) (some sk) (some (discrete_log g dt)) ≡ ok amount
  decrypt_in_range h amount r sk ct dt solves fits small enc =
      decrypt-Encrypts L sk amount r ct (discrete_log g dt) enc
      ∙ (solves amount (omega arith)).0 small

  -- Let a table of `2^h` baby steps be one that the constructor accepts, with a range of `2^(2h)` that
  -- does not pass the group's order, and let the public key of `sk` be usable. Decryption gives back
  -- every encrypted amount below the range; both steps succeed whenever randomness can be drawn.
  pub decrypt-encrypt :
      (h amount : ℕ) (sk r : g.Scalar) (rng rng' : Rng ρ)
      → h ≤ max_half_bits
      → 2 ^ h * 2 ^ h ≤ g.modulus
      → amount < 2 ^ h * 2 ^ h
      → IsKey g (multiple g (g.big_int sk))
      → random_scalar g ρ rng ≡ ok (r, rng')
      → (dt : DecryptionTable g.Point) × (ct : Ciphertext g.Point) × (new_decryption_table g h
          ≡ ok dt)
        × (encrypt g ρ amount (some (multiple g (g.big_int sk))) rng ≡ ok ((ct, r), rng'))
        × (decrypt g (some ct) (some sk) (some (discrete_log g dt)) ≡ ok amount)
  decrypt-encrypt h amount sk r rng rng' le fits small key drawn =
      let (dt, built, solves) = new_decryption_table-Solves L h le fits in
      let (ct, made, enc) = encrypt-Encrypts amount sk r rng rng' key drawn in
      (dt, ct, built, made, decrypt_in_range h amount (g.big_int r) sk ct dt solves fits small enc)

  -- The sum of two encryptions under one key decrypts to the sum of the amounts, if that lies in the
  -- range of a table that the constructor accepts, and the range does not pass the group's order.
  pub decrypt-add :
      (h m n r s : ℕ) (sk : g.Scalar) (a b : Ciphertext g.Point)
      → h ≤ max_half_bits
      → 2 ^ h * 2 ^ h ≤ g.modulus
      → m + n < 2 ^ h * 2 ^ h
      → Encrypts g (g.big_int sk) m r a
      → Encrypts g (g.big_int sk) n s b
      → (dt : DecryptionTable g.Point) × (c : Ciphertext g.Point) × (new_decryption_table g h
          ≡ ok dt)
        × (add g (some a) (some b) ≡ ok c)
        × (decrypt g (some c) (some sk) (some (discrete_log g dt)) ≡ ok (m + n))
  decrypt-add h m n r s sk a b le fits small ha hb =
      let (dt, built, solves) = new_decryption_table-Solves L h le fits in
      let (c, made, enc) = add-Encrypts L (g.big_int sk) m n r s a b ha hb in
      (dt, c, built, made, decrypt_in_range h (m + n) (r + s) sk c dt solves fits small enc)

  -- The difference of two encryptions under one key decrypts to the difference `m` of the amounts
  -- `m + n` and `n`, if it lies in the range of a table that the constructor accepts, and the range
  -- does not pass the group's order.
  pub decrypt-sub :
      (h m n r s : ℕ) (sk : g.Scalar) (a b : Ciphertext g.Point)
      → h ≤ max_half_bits
      → 2 ^ h * 2 ^ h ≤ g.modulus
      → m < 2 ^ h * 2 ^ h
      → Encrypts g (g.big_int sk) (m + n) r a
      → Encrypts g (g.big_int sk) n s b
      → (dt : DecryptionTable g.Point) × (c : Ciphertext g.Point) × (new_decryption_table g h
          ≡ ok dt)
        × (sub g (some a) (some b) ≡ ok c)
        × (decrypt g (some c) (some sk) (some (discrete_log g dt)) ≡ ok m)
  decrypt-sub h m n r s sk a b le fits small ha hb =
      let (dt, built, solves) = new_decryption_table-Solves L h le fits in
      let (c, made, enc) = sub-Encrypts L (g.big_int sk) m n r s a b ha hb in
      (
        dt,
        c,
        built,
        made,
        decrypt_in_range h m (r + (g.modulus - 1) * s) sk c dt solves fits small enc,
      )
