-- ===== src/Memo.antt =====
-- memo.go: memos that are encrypted to a public key.
pub mod RoundTrip
use elgamal_bn.Common.{ℕ, ◌+◌, not, Option, some, Bytes, ◌++◌, length, ltb, Result, ok, message}
use elgamal_bn.Common.{length_error, wrap, guard, load, ◌>>=◌, ◌>>◌}
use elgamal_bn.Common.Encoding.{codes}
use elgamal_bn.Common.Buffers.{slice}
use elgamal_bn.Gnark.{Gnark}
use elgamal_bn.Ciphertext.{validate_public_key}
use elgamal_bn.Serialization.{decoded, require_uncompressed_point}

-- The symmetric cryptography: HKDF over SHA-256, of which 32 bytes are read, AES, GCM, and the
-- system's randomness, for a scalar and for bytes.
pub record Symmetric (g : Gnark) : Type 1 where
  pub hkdf : Bytes → Bytes → Option Bytes
  pub Block : Type 0
  pub new_cipher : Bytes → Option Block
  pub Gcm : Type 0
  pub new_gcm : Block → Option Gcm
  pub nonce_size : Gcm → ℕ
  pub seal : Gcm → Bytes → Bytes → Bytes → Bytes
  pub open_sealed : Gcm → Bytes → Bytes → Bytes → Option Bytes
  pub System : Type 0
  pub set_random : System → Option (g.Scalar × System)
  pub read : System → ℕ → Option (Bytes × System)

-- `MemoEphemeralKeySize`, `MemoNonceSize`, `MemoTagSize`, `MemoOverhead` and `MaxMemoSize`
abbrev pub memo_ephemeral_key_size : ℕ
memo_ephemeral_key_size = 64

abbrev pub memo_nonce_size : ℕ
memo_nonce_size = 12

abbrev pub memo_tag_size : ℕ
memo_tag_size = 16

abbrev pub memo_overhead : ℕ
memo_overhead = memo_ephemeral_key_size + memo_nonce_size

abbrev pub max_memo_size : ℕ
max_memo_size = 1024

module _ (g : Gnark) (σ : Symmetric g) where
  -- `memoAAD`, and the `info` of `deriveMemoKey`
  unfoldable pub memo_aad : g.Point → g.Point → Bytes
  memo_aad ephemeral recipient =
      (codes "elgamal-bn254-memo-v1" ++ g.marshal ephemeral) ++ g.marshal recipient

  unfoldable pub derive_memo_key : g.Point → g.Point → g.Point → Result Bytes
  derive_memo_key shared ephemeral recipient =
      decoded (σ.hkdf (g.marshal shared) (memo_aad ephemeral recipient))

  -- The AES-256-GCM instance that `EncryptMemo` and `DecryptMemo` set up alike.
  unfoldable pub memo_gcm : g.Point → g.Point → g.Point → Result σ.Gcm
  memo_gcm shared ephemeral recipient = do
    key ← wrap "hkdf" (derive_memo_key shared ephemeral recipient)
    block ← wrap "aes cipher" (decoded (σ.new_cipher key))
    wrap "gcm" (decoded (σ.new_gcm block))

  -- `EncryptMemo`, with the state of the system's randomness
  unfoldable pub encrypt_memo : Bytes → Option g.Point → σ.System → Result (Bytes × σ.System)
  encrypt_memo text pk system = do
    wrap "recipient public key" (validate_public_key g pk)
    guard (not (ltb max_memo_size (length text))) (message "memo exceeds max size 1024 bytes")
    recipient ← load pk
    (r, system1) ← wrap "random generation" (decoded (σ.set_random system))
    let r_big = g.big_int r
    let ephemeral = g.scalar_mul g.generator r_big
    let shared = g.scalar_mul recipient r_big
    gcm ← memo_gcm shared ephemeral recipient
    (nonce, system2) ← wrap "nonce" (decoded (σ.read system1 (σ.nonce_size gcm)))
    let sealed = σ.seal gcm nonce text (memo_aad ephemeral recipient)
    ok ((g.marshal ephemeral ++ nonce) ++ sealed, system2)

  -- `DecryptMemo`
  unfoldable pub decrypt_memo : Bytes → g.Scalar → Result Bytes
  decrypt_memo input sk = do
    guard (not (ltb (length input) (memo_overhead + memo_tag_size))) (
        length_error "encrypted memo too short: %d bytes" (memo_overhead + memo_tag_size)
          (length input))
    guard (not (ltb (memo_overhead + memo_tag_size + max_memo_size) (length input))) (
        length_error "encrypted memo too large: %d bytes (max %d)"
          (memo_overhead + memo_tag_size + max_memo_size) (length input))
    b ← slice input 0 memo_ephemeral_key_size
    wrap "ephemeral key" (require_uncompressed_point b)
    ephemeral ← wrap "ephemeral key" (decoded (g.unmarshal b))
    wrap "ephemeral key" (validate_public_key g (some ephemeral))
    nonce ← slice input memo_ephemeral_key_size (memo_ephemeral_key_size + memo_nonce_size)
    sealed ← slice input memo_overhead (length input)
    let sk_big = g.big_int sk
    let recipient = g.scalar_mul g.generator sk_big
    wrap "recipient key derived from sk" (validate_public_key g (some recipient))
    let shared = g.scalar_mul ephemeral sk_big
    gcm ← memo_gcm shared ephemeral recipient
    wrap "decryption failed"
        (decoded (σ.open_sealed gcm nonce sealed (memo_aad ephemeral recipient)))
