-- ===== src/Examples/Amounts.antt =====
-- Encryption, decryption and the tables of discrete logarithms.
use elgamal_bn.Common.{
  ℕ, ◌+◌, ◌*◌, ◌%◌, ◌^◌, ◌≡◌, refl, arith, some, ok, err, panic, message, ◌>>=◌,
}
use elgamal_bn.Gnark.Group.{multiple}
use elgamal_bn.Random.{random_scalar}
use elgamal_bn.Ciphertext.{Ciphertext, validate_public_key}
use elgamal_bn.Elgamal.{encrypt_with_randomness, encrypt, decrypt, add, sub}
use elgamal_bn.Elgamal.RoundTrip.{decrypt-encrypt, decrypt-add, decrypt-sub}
use elgamal_bn.Elgamal.Negative.{decrypt-sub_below}
use elgamal_bn.Common.{Error}
use elgamal_bn.Table.{DecryptionTable, discrete_log, new_decryption_table, u64_mod}
use elgamal_bn.Table.Generator.{Solves, new_decryption_table-Solves}
use elgamal_bn.Split.{SplitTable, new_split_table, split_discrete_log}
use elgamal_bn.Split.Range.{split_discrete_log-new_split_table}
use elgamal_bn.Examples.Setting.{bn254, bn254-IsLawful, counting, rng_at}

abbrev secret : bn254.Scalar
secret = bn254.set_big_int 7

abbrev nonce : bn254.Scalar
nonce = bn254.set_big_int 11

-- A run of the table with four baby steps: 13 is found, and 16 is out of range.
table_run : (new_decryption_table bn254 2 >>= λ dt. discrete_log bn254 dt 13) ≡ ok 13
unfolding new_decryption_table discrete_log
table_run = refl

table_run_outside :
    (new_decryption_table bn254 2 >>= λ dt. discrete_log bn254 dt 16)
    ≡ err (message "discrete log not found: value out of table range")
unfolding new_decryption_table discrete_log
table_run_outside = refl

too_large : new_decryption_table bn254 31 ≡ panic
unfolding new_decryption_table
too_large = refl

-- The low part is 3 bits and the high table has four baby steps: 100 = 12 * 8 + 4.
split_run : (new_split_table bn254 3 2 >>= λ t. split_discrete_log bn254 t 100) ≡ ok 100
unfolding new_split_table split_discrete_log
split_run = refl

-- A negative balance: 3 - 5 is no small amount, and decryption fails.
negative_balance :
    (do
      a ← encrypt bn254 counting 3 (some 7) (rng_at 11)
      b ← encrypt bn254 counting 5 (some 7) (rng_at 20)
      c ← sub bn254 (some a.0.0) (some b.0.0)
      dt ← new_decryption_table bn254 2
      decrypt bn254 (some c) (some secret) (some (discrete_log bn254 dt)))
    ≡ err (message "discrete log not found: value out of table range")
unfolding encrypt encrypt_with_randomness random_scalar validate_public_key sub decrypt
    new_decryption_table discrete_log
negative_balance = refl

decrypt-encrypt_example :
    (dt : DecryptionTable ℕ) × (ct : Ciphertext ℕ) × (new_decryption_table bn254 2 ≡ ok dt)
    × (encrypt bn254 counting 9 (some 7) (rng_at 11) ≡ ok ((ct, nonce), rng_at 12))
    × (decrypt bn254 (some ct) (some secret) (some (discrete_log bn254 dt)) ≡ ok 9)
unfolding random_scalar
decrypt-encrypt_example =
    decrypt-encrypt bn254 counting bn254-IsLawful 2 9 secret nonce (rng_at 11) (rng_at 12)
      (omega arith) (omega arith) (omega arith) (refl, refl) refl

new_decryption_table-Solves_example :
    (dt : DecryptionTable ℕ) × (new_decryption_table bn254 2 ≡ ok dt) × Solves bn254 dt 16
new_decryption_table-Solves_example =
    new_decryption_table-Solves bn254-IsLawful 2 (omega arith) (omega arith)

abbrev encrypted : ℕ → ℕ → Ciphertext ℕ
encrypted amount r = record { c1 = r; c2 = amount + 7 * r }

decrypt-add_example :
    (dt : DecryptionTable ℕ) × (c : Ciphertext ℕ) × (new_decryption_table bn254 2 ≡ ok dt)
    × (add bn254 (some (encrypted 4 11)) (some (encrypted 6 20)) ≡ ok c)
    × (decrypt bn254 (some c) (some secret) (some (discrete_log bn254 dt)) ≡ ok 10)
decrypt-add_example =
    decrypt-add bn254 counting bn254-IsLawful 2 4 6 11 20 secret (encrypted 4 11) (encrypted 6 20)
      (omega arith) (omega arith) (omega arith) (refl, refl) (refl, refl)

decrypt-sub_example :
    (dt : DecryptionTable ℕ) × (c : Ciphertext ℕ) × (new_decryption_table bn254 2 ≡ ok dt)
    × (sub bn254 (some (encrypted 9 11)) (some (encrypted 6 20)) ≡ ok c)
    × (decrypt bn254 (some c) (some secret) (some (discrete_log bn254 dt)) ≡ ok 3)
decrypt-sub_example =
    decrypt-sub bn254 counting bn254-IsLawful 2 3 6 11 20 secret (encrypted 9 11) (encrypted 6 20)
      (omega arith) (omega arith) (omega arith) (refl, refl) (refl, refl)

-- The widest tables that the constructor accepts, at an amount of more than 64 bits.
split_discrete_log-new_split_table_example :
    (sdt : SplitTable ℕ) × (new_split_table bn254 32 30 ≡ ok sdt)
    × (split_discrete_log bn254 sdt (multiple bn254 (2 ^ 64 + 5)) ≡ ok ((2 ^ 64 + 5) % u64_mod))
split_discrete_log-new_split_table_example =
    split_discrete_log-new_split_table bn254-IsLawful 32 30 (2 ^ 64 + 5) (omega arith) (omega arith)
      (omega arith) (omega arith)

decrypt-sub_below_example :
    (dt : DecryptionTable ℕ) × (c : Ciphertext ℕ) × (e : Error) × (new_decryption_table bn254 2
      ≡ ok dt)
    × (sub bn254 (some (encrypted 3 11)) (some (encrypted 5 20)) ≡ ok c)
    × (decrypt bn254 (some c) (some secret) (some (discrete_log bn254 dt)) ≡ err e)
decrypt-sub_below_example =
    decrypt-sub_below bn254-IsLawful 2 3 2 11 20 secret (encrypted 3 11) (encrypted 5 20)
      (omega arith) (omega arith) (omega arith) (refl, refl) (refl, refl)
