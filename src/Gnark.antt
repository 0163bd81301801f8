-- ===== src/Gnark.antt =====
-- What the library takes from gnark-crypto (packages `ecc/bn254` and `ecc/bn254/fr`): its types,
-- the operations that elgamal-bn254 calls, and what the code relies on of them.
pub mod Group
pub mod Extraction
pub mod Sigma
pub mod Residues
pub mod Format
use elgamal_bn.Common.{ℕ, ◌+◌, ◌-◌, ◌*◌, ◌%◌, ◌^◌, ◌≤◌, ◌<◌, ◌≡◌, ◌≢◌, ◌↔◌, Bool, true, Option}
use elgamal_bn.Common.{Bytes}

pub record Gnark : Type 1 where
  -- `fr.Element`
  pub Scalar : Type 0
  pub modulus : ℕ
  pub add : Scalar → Scalar → Scalar
  pub mul : Scalar → Scalar → Scalar
  -- `SetBigInt` and `SetUint64`, `BigInt`, `Bytes`, `SetBytes`, `SetBytesCanonical`
  pub set_big_int : ℕ → Scalar
  pub set_uint64 : ℕ → Scalar
  pub big_int : Scalar → ℕ
  pub bytes : Scalar → Bytes
  pub set_bytes : Bytes → Scalar
  pub set_bytes_canonical : Bytes → Option Scalar
  -- `bn254.G1Affine`; `infinity` is its zero value, and `equal` is also Go's `==` on map keys
  pub Point : Type 0
  pub generator : Point
  pub infinity : Point
  pub is_on_curve : Point → Bool
  pub is_infinity : Point → Bool
  pub equal : Point → Point → Bool
  pub neg : Point → Point
  pub scalar_mul : Point → ℕ → Point
  pub marshal : Point → Bytes
  pub unmarshal : Bytes → Option Point
  -- `bn254.G1Jac`: its zero value, `FromAffine`, `AddAssign`, and `FromJacobian` back
  pub Jacobian : Type 0
  pub zero_jacobian : Jacobian
  pub from_affine : Point → Jacobian
  pub add_assign : Jacobian → Jacobian → Jacobian
  pub from_jacobian : Jacobian → Point

-- The scalars are the numbers modulo `modulus`. The points on the curve are the multiples of the
-- generator, whose order is `modulus`: G1 has cofactor 1. The Jacobian operations compute with the
-- points that their arguments stand for.
pub record IsLawful (g : Gnark) : Type 0 where
  pub one-lt-modulus : 1 < g.modulus
  pub big_int-lt : (s : g.Scalar) → g.big_int s < g.modulus
  pub big_int-injective : (s t : g.Scalar) → g.big_int s ≡ g.big_int t → s ≡ t
  pub big_int-add :
      (s t : g.Scalar) → g.big_int (g.add s t) ≡ (g.big_int s + g.big_int t) % g.modulus
  pub big_int-mul : (s t : g.Scalar) → g.big_int (g.mul s t) ≡ g.big_int s * g.big_int t % g.modulus
  pub big_int-set_big_int : (n : ℕ) → g.big_int (g.set_big_int n) ≡ n % g.modulus
  pub big_int-set_uint64 : (n : ℕ) → g.big_int (g.set_uint64 n) ≡ n % g.modulus
  pub equal_iff : (p r : g.Point) → (g.equal p r ≡ true) ↔ (p ≡ r)
  pub is_infinity_iff : (p : g.Point) → (g.is_infinity p ≡ true) ↔ (p ≡ g.infinity)
  pub is_on_curve_multiple : (n : ℕ) → g.is_on_curve (g.scalar_mul g.generator n) ≡ true
  pub discrete_log :
      (p : g.Point) → g.is_on_curve p ≡ true → (n : ℕ) × (p ≡ g.scalar_mul g.generator n)
  pub generator_multiple : g.scalar_mul g.generator 1 ≡ g.generator
  pub infinity_multiple : g.scalar_mul g.generator 0 ≡ g.infinity
  pub multiple_iff :
      (m n : ℕ)
      → (g.scalar_mul g.generator m ≡ g.scalar_mul g.generator n) ↔ (m % g.modulus ≡ n % g.modulus)
  pub scalar_mul_multiple :
      (m n : ℕ) → g.scalar_mul (g.scalar_mul g.generator m) n ≡ g.scalar_mul g.generator (m * n)
  pub neg_multiple :
      (n : ℕ) → g.neg (g.scalar_mul g.generator n) ≡ g.scalar_mul g.generator ((g.modulus - 1) * n)
  pub zero_jacobian_lem : g.from_jacobian g.zero_jacobian ≡ g.infinity
  pub from_jacobian-from_affine :
      (p : g.Point) → g.is_on_curve p ≡ true → g.from_jacobian (g.from_affine p) ≡ p
  pub from_jacobian-add_assign :
      (j k : g.Jacobian) (m n : ℕ)
      → g.from_jacobian j ≡ g.scalar_mul g.generator m
      → g.from_jacobian k ≡ g.scalar_mul g.generator n
      → g.from_jacobian (g.add_assign j k) ≡ g.scalar_mul g.generator (m + n)

-- The scalars are a field: `modulus` is prime.
abbrev pub HasInverses : Gnark → Type 0
HasInverses g = (n : ℕ) → n % g.modulus ≢ 0 → (i : ℕ) × (i * n % g.modulus ≡ 1)
