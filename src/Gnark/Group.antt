-- ===== src/Gnark/Group.antt =====
-- The group of curve points, by multiples of the generator.
use elgamal_bn.Common.{ℕ, ◌+◌, ◌-◌, ◌*◌, ◌/◌, ◌%◌, ◌<◌, ◌≡◌, refl, sym, ap, ◌∙◌, arith, true}
use elgamal_bn.Common.Modular.{neg_exponent}
use elgamal_bn.Gnark.{Gnark, IsLawful}
use mathlib.Core.Path.{ap₂}
use native.Mathlib.Nat.{
  mod-add-mod, add-mod-mod, mod-add-div, mod-mod, add-mul-mod_self_right, mod-eq_of_lt,
}

module _ (g : Gnark) where
  -- `n * G`
  abbrev pub multiple : ℕ → g.Point
  multiple n = g.scalar_mul g.generator n

  -- The sum by way of Jacobian coordinates, which the code writes out at each addition.
  abbrev pub jacobian_sum : g.Point → g.Point → g.Point
  jacobian_sum p r = g.from_jacobian (g.add_assign (g.from_affine p) (g.from_affine r))

mul-div-add-mod : (m n q : ℕ) → m * (n % q) + m * (n / q) * q ≡ m * n
mul-div-add-mod m n q = omega (arith, ap (λ (t : ℕ). m * t) (mod-add-div n q))

move_exponent : (x y p : ℕ) → x + y + p * y ≡ x + p * y + y
move_exponent x y p = omega arith

module _ {g : Gnark} (L : IsLawful g) where
  pub multiple-mod : (n : ℕ) → multiple g (n % g.modulus) ≡ multiple g n
  multiple-mod n = (L.multiple_iff _ _).1 (mod-mod n g.modulus)

  -- Multiples of the order vanish.
  pub multiple-add_order : (n k : ℕ) → multiple g (n + k * g.modulus) ≡ multiple g n
  multiple-add_order n k = (L.multiple_iff _ _).1 (add-mul-mod_self_right n k g.modulus)

  pub from_affine_multiple : (n : ℕ) → g.from_jacobian (g.from_affine (multiple g n)) ≡ multiple g n
  from_affine_multiple n = L.from_jacobian-from_affine _ (L.is_on_curve_multiple n)

  pub sum_multiple : (m n : ℕ) → jacobian_sum g (multiple g m) (multiple g n) ≡ multiple g (m + n)
  sum_multiple m n =
      L.from_jacobian-add_assign _ _ m n (from_affine_multiple m) (from_affine_multiple n)

  pub multiple-injective :
      (m n : ℕ) → m < g.modulus → n < g.modulus → multiple g m ≡ multiple g n → m ≡ n
  multiple-injective m n hm hn e =
      sym (mod-eq_of_lt hm) ∙ (L.multiple_iff m n).0 e ∙ mod-eq_of_lt hn

  -- A multiple and its negation cancel.
  pub neg_cancel : (m n : ℕ) → multiple g (m + n + (g.modulus - 1) * n) ≡ multiple g m
  neg_cancel m n =
      ap (multiple g) (neg_exponent g.modulus m n L.one-lt-modulus) ∙ multiple-add_order m n

  pub generator-IsOnCurve : g.is_on_curve g.generator ≡ true
  generator-IsOnCurve = ap g.is_on_curve (sym L.generator_multiple) ∙ L.is_on_curve_multiple 1

  scalar_mul-mod :
      (m n : ℕ) → g.scalar_mul (multiple g m) (n % g.modulus) ≡ g.scalar_mul (multiple g m) n
  scalar_mul-mod m n =
      L.scalar_mul_multiple m (n % g.modulus)
      ∙ sym (multiple-add_order (m * (n % g.modulus)) (m * (n / g.modulus)))
      ∙ ap (multiple g) (mul-div-add-mod m n g.modulus)
      ∙ sym (L.scalar_mul_multiple m n)

  -- The exponent of a response `k + e * s`.
  big_int-response :
      (k e s : g.Scalar)
      → g.big_int (g.add k (g.mul e s)) ≡ (g.big_int k + g.big_int e * g.big_int s) % g.modulus
  big_int-response k e s =
      L.big_int-add k (g.mul e s)
      ∙ ap (λ t. (g.big_int k + t) % g.modulus) (L.big_int-mul e s)
      ∙ add-mod-mod (g.big_int k) (g.big_int e * g.big_int s) g.modulus

  pub scalar_mul_response :
      (n : ℕ) (k e s : g.Scalar)
      → g.scalar_mul (multiple g n) (g.big_int (g.add k (g.mul e s)))
        ≡ multiple g (n * (g.big_int k + g.big_int e * g.big_int s))
  scalar_mul_response n k e s =
      ap (g.scalar_mul (multiple g n)) (big_int-response k e s)
      ∙ scalar_mul-mod n _
      ∙ L.scalar_mul_multiple n _

  pub multiple_response :
      (k e s : g.Scalar)
      → multiple g (g.big_int (g.add k (g.mul e s)))
        ≡ multiple g (g.big_int k + g.big_int e * g.big_int s)
  multiple_response k e s = ap (multiple g) (big_int-response k e s) ∙ multiple-mod _

  -- The operations on points that are known as multiples.
  pub sum_eq :
      {p r : g.Point} (m n : ℕ)
      → p ≡ multiple g m
      → r ≡ multiple g n
      → jacobian_sum g p r ≡ multiple g (m + n)
  sum_eq m n hp hr = ap₂ (jacobian_sum g) hp hr ∙ sum_multiple m n

  pub neg_eq : {p : g.Point} (n : ℕ) → p ≡ multiple g n → g.neg p ≡ multiple g ((g.modulus - 1) * n)
  neg_eq n h = ap g.neg h ∙ L.neg_multiple n

  pub scalar_mul_eq :
      {p : g.Point} (m n : ℕ) → p ≡ multiple g m → g.scalar_mul p n ≡ multiple g (m * n)
  scalar_mul_eq m n h = ap (λ t. g.scalar_mul t n) h ∙ L.scalar_mul_multiple m n

  -- The difference `(m + n) * G - n * G`.
  pub difference_eq :
      {p r : g.Point} (m n : ℕ)
      → p ≡ multiple g (m + n)
      → r ≡ multiple g n
      → jacobian_sum g p (g.neg r) ≡ multiple g m
  difference_eq m n hp hr = sum_eq (m + n) ((g.modulus - 1) * n) hp (neg_eq n hr) ∙ neg_cancel m n

  -- A multiple moves to the other side of an equation.
  pub multiple-move :
      (x y z : ℕ)
      → multiple g (x + (g.modulus - 1) * y) ≡ multiple g z
      → multiple g x ≡ multiple g (z + y)
  multiple-move x y z h =
      sym (neg_cancel x y)
      ∙ ap (multiple g) (move_exponent x y (g.modulus - 1))
      ∙ sym (sum_multiple (x + (g.modulus - 1) * y) y)
      ∙ sum_eq z y h refl

  -- A scalar made from a number stands for it in a multiple.
  pub multiple-set_uint64 :
      (n y : ℕ) → multiple g (n + y) ≡ multiple g (g.big_int (g.set_uint64 n) + y)
  multiple-set_uint64 n y = (L.multiple_iff _ _).1 (
      sym (mod-add-mod n g.modulus y)
      ∙ ap (λ t. (t + y) % g.modulus) (sym (L.big_int-set_uint64 n)))
