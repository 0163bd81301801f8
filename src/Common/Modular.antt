-- ===== src/Common/Modular.antt =====
-- Congruence modulo `q`: products of residues, and the division by which a witness is extracted
-- from two equations.
use Prim.Native.Nat.{ℕ, zero, suc, ◌+◌, ◌-◌, ◌*◌, ◌/◌, ◌%◌, ◌<◌}
use mathlib.Core.Logic.{◌≢◌}
use mathlib.Core.Path.{◌≡◌, refl, sym, ap, ap₂, ◌∙◌}
use native.Mathlib.Omega.{arith}
use native.Mathlib.Nat.{
  mod-add-div, add-mod, add-mul-mod_self_right, mod-eq_of_lt, mul_comm, zero-mod, zero-add,
}

mod-div-mul : (m n q : ℕ) → m % q * n + m / q * n * q ≡ m * n
mod-div-mul m n q = omega (arith, ap (λ (t : ℕ). t * n) (mod-add-div m q))

pub mod-mul : (m n q : ℕ) → m % q * n % q ≡ m * n % q
mod-mul m n q =
    sym (add-mul-mod_self_right (m % q * n) (m / q * n) q) ∙ ap (λ t. t % q) (mod-div-mul m n q)

pub mul-mod : (m n q : ℕ) → m * (n % q) % q ≡ m * n % q
mul-mod m n q =
    ap (λ t. t % q) (mul_comm m (n % q)) ∙ mod-mul n m q ∙ ap (λ t. t % q) (mul_comm n m)

module _ (q : ℕ) where
  abbrev Congruent : ℕ → ℕ → Type 0
  Congruent m n = m % q ≡ n % q

  add_congr : (m n k l : ℕ) → Congruent m n → Congruent k l → Congruent (m + k) (n + l)
  add_congr m n k l h j = add-mod m k q ∙ ap₂ (λ s t. (s + t) % q) h j ∙ sym (add-mod n l q)

  mul_congr : (c m n : ℕ) → Congruent m n → Congruent (c * m) (c * n)
  mul_congr c m n h = sym (mul-mod c m q) ∙ ap (λ t. c * t % q) h ∙ mul-mod c n q

  pub mul-inverse : (t c : ℕ) → c % q ≡ 1 → Congruent (t * c) t
  mul-inverse t c h = sym (mul-mod t c q) ∙ ap (λ s. t * s % q) h ∙ ap (λ s. s % q) (omega arith)

pub neg_exponent : (q m n : ℕ) → 1 < q → m + n + (q - 1) * n ≡ m + n * q
neg_exponent zero m n h = absurd (omega arith)
neg_exponent (suc q) m n h = let e : suc q - 1 ≡ q = omega arith in rw e (omega arith)

combine : (a t e f p : ℕ) → a + t * e + p * (a + t * f) ≡ t * (e + p * f) + a + p * a
combine a t e f p = omega arith

regroup : (i t d : ℕ) → i * (t * d) ≡ t * (i * d)
regroup i t d = omega arith

-- Two equations with the same commitment `a` and target `t`, at challenges `e` and `f` whose
-- difference has the inverse `i`, determine the target from their left sides.
pub extract_exponent :
    (q a t e f m n i : ℕ)
    → 1 < q
    → i * (e + (q - 1) * f) % q ≡ 1
    → m % q ≡ (a + t * e) % q
    → n % q ≡ (a + t * f) % q
    → t % q ≡ i * (m + (q - 1) * n) % q
extract_exponent q a t e f m n i hq hi hm hn =
    sym (mul-inverse q t (i * d) hi)
    ∙ ap (λ s. s % q) (sym (regroup i t d))
    ∙ mul_congr q i (t * d) (m + (q - 1) * n) (sym sum)
  where
    d : ℕ
    d = e + (q - 1) * f

    sum : (m + (q - 1) * n) % q ≡ t * d % q
    sum =
        add_congr q m (a + t * e) ((q - 1) * n) ((q - 1) * (a + t * f)) hm
          (mul_congr q (q - 1) n (a + t * f) hn)
        ∙ ap (λ s. s % q) (combine a t e f (q - 1) ∙ neg_exponent q (t * d) a hq)
        ∙ add-mul-mod_self_right (t * d) a q

-- Different residues have a difference that does not vanish.
pub difference-ne-zero : (q e f : ℕ) → 1 < q → e < q → f < q → e ≢ f → (e + (q - 1) * f) % q ≢ 0
difference-ne-zero q e f hq he hf ne z = ne (
    sym (mod-eq_of_lt he)
    ∙ sym (add-mul-mod_self_right e f q)
    ∙ ap (λ s. s % q) (sym (neg_exponent q e f hq) ∙ swap e f ((q - 1) * f))
    ∙ add_congr q (e + (q - 1) * f) 0 f f (z ∙ sym (zero-mod q)) refl
    ∙ ap (λ s. s % q) (zero-add f)
    ∙ mod-eq_of_lt hf)
  where
    swap : (x y z : ℕ) → x + y + z ≡ x + z + y
    swap x y z = omega arith
