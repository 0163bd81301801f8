-- ===== src/Gnark/Residues.antt =====
-- A concrete gnark: the points of the curve are the residues below a modulus, added modulo it, and
-- the generator is 1. It shows that what is assumed of gnark can hold, and runs in the tests.
pub mod Format
use elgamal_bn.Common.{ℕ, suc, ◌+◌, ◌-◌, ◌*◌, ◌%◌, ◌<◌, ◌≡◌, refl, sym, ap, ◌∙◌, ◌↔◌, arith}
use elgamal_bn.Common.{Bool, true, false, ◌&&◌, some, none, [], ◌∷◌, ◌==◌, ==_iff, ltb, ltb_iff}
use elgamal_bn.Common.{if◌then◌else◌, Bytes, length}
use elgamal_bn.Common.Encoding.{be_bytes, be_value}
use elgamal_bn.Gnark.{Gnark, IsLawful}
use mathlib.Core.HLevel.{Σ_prop_path}
use native.Mathlib.Bridge.{le_prop}
use native.Mathlib.Nat.{mod-lt, mod-eq_of_lt, add-mod, one-mul, zero-mod}
use elgamal_bn.Common.Modular.{mod-mul, mul-mod}

abbrev pub same_bytes : Bytes → Bytes → Bool
same_bytes [] [] = true
same_bytes [] (y ∷ ys) = false
same_bytes (x ∷ xs) [] = false
same_bytes (x ∷ xs) (y ∷ ys) = if x == y then same_bytes xs ys else false

-- The bytes are the encoding in `width` bytes of a residue.
unfoldable pub is_residue : ℕ → ℕ → Bytes → Bool
is_residue q width b =
    if ltb (be_value 0 b) q then same_bytes b (be_bytes width (be_value 0 b)) else false

module _ (k : ℕ) where
  abbrev q : ℕ
  q = suc (suc k)

  abbrev pub Residue : Type 0
  Residue = (n : ℕ) × (n < q)

  pub reduce-lt : (n : ℕ) → n % q < q
  reduce-lt n = mod-lt n (omega arith)

  abbrev pub reduce : ℕ → Residue
  reduce n = (n % q, reduce-lt n)

  abbrev pub residues : Gnark
  residues = record {
    Scalar = Residue;
    modulus = q;
    add = λ s t. reduce (s.0 + t.0);
    mul = λ s t. reduce (s.0 * t.0);
    set_big_int = reduce;
    set_uint64 = reduce;
    big_int = λ s. s.0;
    bytes = λ s. be_bytes 32 s.0;
    set_bytes = λ b. reduce (be_value 0 b);
    set_bytes_canonical = λ b. if is_residue q 32 b then some (reduce (be_value 0 b)) else none;
    Point = ℕ;
    generator = 1;
    infinity = 0;
    is_on_curve = λ p. ltb p q;
    is_infinity = λ p. p == 0;
    equal = λ p r. p == r;
    neg = λ p. (q - 1) * p % q;
    scalar_mul = λ p n. p * n % q;
    marshal = λ p. be_bytes 64 p;
    unmarshal = λ b. if is_residue q 64 b then some (be_value 0 b) else none;
    Jacobian = ℕ;
    zero_jacobian = 0;
    from_affine = λ p. p;
    add_assign = λ i j. (i + j) % q;
    from_jacobian = λ j. j;
  }

  one_mul_mod : (n : ℕ) → 1 * n % q ≡ n % q
  one_mul_mod n = ap (λ t. t % q) (one-mul n)

  discrete_log_residue : (p : ℕ) → ltb p q ≡ true → (n : ℕ) × (p ≡ 1 * n % q)
  discrete_log_residue p h = (p, sym (one_mul_mod p ∙ mod-eq_of_lt ((ltb_iff p q).0 h)))

  multiple_iff_residue : (m n : ℕ) → (1 * m % q ≡ 1 * n % q) ↔ (m % q ≡ n % q)
  multiple_iff_residue m n =
      (λ e. sym (one_mul_mod m) ∙ e ∙ one_mul_mod n, λ e. one_mul_mod m ∙ e ∙ sym (one_mul_mod n))

  scalar_mul_residue : (m n : ℕ) → 1 * m % q * n % q ≡ 1 * (m * n) % q
  scalar_mul_residue m n = mod-mul (1 * m) n q ∙ ap (λ t. t % q) (omega arith)

  neg_residue : (n : ℕ) → (q - 1) * (1 * n % q) % q ≡ 1 * ((q - 1) * n) % q
  neg_residue n = mul-mod (q - 1) (1 * n) q ∙ ap (λ t. t % q) (grind arith)

  add_residue : (i j m n : ℕ) → i ≡ 1 * m % q → j ≡ 1 * n % q → (i + j) % q ≡ 1 * (m + n) % q
  add_residue i j m n hi hj =
      ap (λ t. (t + j) % q) hi
      ∙ ap (λ t. (1 * m % q + t) % q) hj
      ∙ sym (add-mod (1 * m) (1 * n) q)
      ∙ ap (λ t. t % q) (omega arith)

  pub residues-IsLawful : IsLawful residues
  residues-IsLawful = record {
    one-lt-modulus = omega arith;
    big_int-lt = λ s. s.1;
    big_int-injective = λ s t e. Σ_prop_path (λ n. le_prop) e;
    big_int-add = λ s t. refl;
    big_int-mul = λ s t. refl;
    big_int-set_big_int = λ n. refl;
    big_int-set_uint64 = λ n. refl;
    equal_iff = ==_iff;
    is_infinity_iff = λ p. ==_iff p 0;
    is_on_curve_multiple = λ n. (ltb_iff _ _).1 (reduce-lt (1 * n));
    discrete_log = λ p h. discrete_log_residue p h;
    generator_multiple = mod-eq_of_lt {n = 1} {m = q} (omega arith);
    infinity_multiple = zero-mod q;
    multiple_iff = λ m n. multiple_iff_residue m n;
    scalar_mul_multiple = λ m n. scalar_mul_residue m n;
    neg_multiple = λ n. neg_residue n;
    zero_jacobian_lem = refl;
    from_jacobian-from_affine = λ p h. refl;
    from_jacobian-add_assign = λ i j m n hi hj. add_residue i j m n hi hj;
  }
