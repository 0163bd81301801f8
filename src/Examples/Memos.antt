-- ===== src/Examples/Memos.antt =====
-- A run of the memos, with symmetric cryptography that only pads.
use elgamal_bn.Common.{ℕ, ◌+◌, ◌≡◌, ap, sym, ◌∙◌, refl, arith, some, ok, Bytes, ◌++◌, length, drop}
use elgamal_bn.Common.Buffers.{zeros}
use elgamal_bn.Common.Encoding.{codes, be_bytes}
use elgamal_bn.Gnark.Residues.Format.{length-be_bytes}
use elgamal_bn.Memo.{Symmetric, encrypt_memo, decrypt_memo}
use elgamal_bn.Memo.RoundTrip.{IsLawfulSymmetric, decrypt_memo-encrypt_memo}
use elgamal_bn.Examples.Setting.{five, five-IsLawful, five-IsLawfulFormat}

abbrev padding : Symmetric five
padding = record {
  hkdf = λ secret info. some (be_bytes 32 7);
  Block = Bytes;
  new_cipher = λ k. some k;
  Gcm = Bytes;
  new_gcm = λ b. some b;
  nonce_size = λ c. 12;
  seal = λ c nonce text aad. zeros 16 ++ text;
  open_sealed = λ c nonce sealed aad. some (drop 16 sealed);
  System = ℕ;
  set_random = λ s. some (five.set_big_int s, s + 1);
  read = λ s n. some (be_bytes n s, s + 1);
}

length-padding : (text : Bytes) → length (zeros 16 ++ text) ≡ length text + 16
unfolding zeros
length-padding text = omega arith

drop-padding : (text : Bytes) → drop 16 (zeros 16 ++ text) ≡ text
unfolding zeros
drop-padding text = refl

read_bytes : (s s' n : ℕ) (b : Bytes) → padding.read s n ≡ some (b, s') → length b ≡ n
read_bytes s s' n b h =
    let same : be_bytes n s ≡ b = cc in ap length (sym same) ∙ length-be_bytes n s

padding-IsLawfulSymmetric : IsLawfulSymmetric five padding
padding-IsLawfulSymmetric = record {
  hkdf_key = λ secret info. (be_bytes 32 7, refl, length-be_bytes 32 7);
  new_cipher_block = λ k h. (k, refl);
  new_gcm_block = λ b. (b, refl);
  nonce_size_lem = λ c. refl;
  length-read = read_bytes;
  length-seal = λ c nonce text aad. length-padding text;
  open_sealed-seal = λ c nonce text aad h. ap some (drop-padding text);
}

abbrev secret : five.Scalar
secret = five.set_big_int 2

decrypt_memo-encrypt_memo_example :
    (out : Bytes) × (encrypt_memo five padding (codes "rent") (some 2) 3 ≡ ok (out, 5))
    × (decrypt_memo five padding out secret ≡ ok (codes "rent"))
    × (length out ≡ 4 + 92)
decrypt_memo-encrypt_memo_example =
    decrypt_memo-encrypt_memo five padding five-IsLawful five-IsLawfulFormat
      padding-IsLawfulSymmetric (codes "rent") (be_bytes 12 4) secret (five.set_big_int 3) 3 4 5
      (omega arith) (refl, refl) refl refl refl
