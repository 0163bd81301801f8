-- ===== src/Gnark/Residues/Format.antt =====
-- The byte formats of the concrete gnark.
use elgamal_bn.Common.{
  ℕ, zero, suc, ◌+◌, ◌*◌, ◌/◌, ◌%◌, ◌^◌, ◌<◌, ◌≤◌, ◌≡◌, ◌↔◌, ◌∙◌, refl, sym, ap, arith,
}
use elgamal_bn.Common.{Bool, true, false, some, none, Bytes, [], ◌∷◌, ◌++◌, length, length-append}
use elgamal_bn.Common.{if◌then◌else◌, ltb_iff, ==_iff, and_then_iff}
use elgamal_bn.Common.Encoding.{be_bytes, be_value}
use elgamal_bn.Gnark.Format.{IsLawfulFormat, IsUncompressed}
use elgamal_bn.Gnark.Residues.{residues, is_residue, same_bytes, Residue, reduce}
use mathlib.Core.HLevel.{Σ_prop_path}
use mathlib.Core.Path.{ap₂, subst}
use native.Mathlib.Bridge.{le_prop}
use native.Mathlib.Nat.{mod-eq_of_lt, pow-suc}

pub length-be_bytes : (k n : ℕ) → length (be_bytes k n) ≡ k
unfolding be_bytes
length-be_bytes zero n = refl
length-be_bytes (suc k) n =
    omega
      (arith, length-append (be_bytes k (n / 256)) ((n % 256) ∷ []), length-be_bytes k (n / 256))

be_value-snoc :
    (acc : ℕ) (xs : Bytes) (b : ℕ) → be_value acc (xs ++ (b ∷ [])) ≡ be_value acc xs * 256 + b
unfolding be_value
be_value-snoc acc [] b = refl
be_value-snoc acc (x ∷ xs) b = be_value-snoc (acc * 256 + x) xs b

be_value-be_bytes : (k n : ℕ) → n < 256 ^ k → be_value 0 (be_bytes k n) ≡ n
unfolding be_bytes be_value
be_value-be_bytes zero n h = omega arith
be_value-be_bytes (suc k) n h =
    let small : n / 256 < 256 ^ k = omega (arith, pow-suc 256 k) in
    be_value-snoc 0 (be_bytes k (n / 256)) (n % 256)
    ∙ ap (λ v. v * 256 + n % 256) (be_value-be_bytes k (n / 256) small)
    ∙ omega arith

be_bytes_head : (k n : ℕ) → n < 256 ^ k → be_bytes (suc k) n ≡ 0 ∷ be_bytes k n
unfolding be_bytes
be_bytes_head zero n h = ap (λ b. b ∷ []) (omega arith)
be_bytes_head (suc k) n h =
    let small : n / 256 < 256 ^ k = omega (arith, pow-suc 256 k) in
    ap (λ r. r ++ ((n % 256) ∷ [])) (be_bytes_head k (n / 256) small)

same_bytes_iff : (xs ys : Bytes) → (same_bytes xs ys ≡ true) ↔ (xs ≡ ys)
same_bytes_iff [] [] = (λ _. refl, λ _. refl)
same_bytes_iff [] (y ∷ ys) = (λ h. cc, λ h. cc)
same_bytes_iff (x ∷ xs) [] = (λ h. cc, λ h. cc)
same_bytes_iff (x ∷ xs) (y ∷ ys) =
    let tests = and_then_iff _ _ (==_iff x y) (same_bytes_iff xs ys) in
    (
      λ h. let (a, b) = tests.0 h in ap₂ (λ u us. u ∷ us) a b,
      λ e. let heads : x ≡ y = cc in let tails : xs ≡ ys = cc in tests.1 (heads, tails),
    )

is_residue_iff :
    (q width : ℕ) (b : Bytes)
    → (is_residue q width b ≡ true) ↔ ((be_value 0 b < q) × (b ≡ be_bytes width (be_value 0 b)))
unfolding is_residue
is_residue_iff q width b = and_then_iff _ _ (ltb_iff _ _) (same_bytes_iff _ _)

some_if {ℓ} :
    {A : Type ℓ} (b : Bool) (x y : A)
    → ((if b then some x else none) ≡ some y) ↔ ((b ≡ true) × (x ≡ y))
some_if true x y = (λ h. (refl, cc), λ (_, e). ap some e)
some_if false x y = (λ h. cc, λ (e, _). cc)

module _ (k : ℕ) (bound : suc (suc k) ≤ 256 ^ 32) where
  reduce-value : (s : Residue k) → reduce k s.0 ≡ s
  reduce-value s = Σ_prop_path (λ n. le_prop) (mod-eq_of_lt s.1)

  canonical_iff :
      (b : Bytes) (s : Residue k)
      → ((residues k).set_bytes_canonical b ≡ some s) ↔ (b ≡ be_bytes 32 s.0)
  canonical_iff b s = (
    λ h.
        let (test, value) = (some_if _ _ _).0 h in
        let (small, content) = (is_residue_iff (suc (suc k)) 32 b).0 test in
        let same : be_value 0 b ≡ s.0 =
          sym (mod-eq_of_lt small) ∙ ap (λ (r : Residue k). r.0) value in
        content ∙ ap (be_bytes 32) same,
    λ e.
        let fits : s.0 < 256 ^ 32 = omega (arith, s.1) in
        let value : be_value 0 b ≡ s.0 = ap (be_value 0) e ∙ be_value-be_bytes 32 s.0 fits in
        (some_if _ _ _).1 (
          (is_residue_iff (suc (suc k)) 32 b).1
              (subst (λ v. v < suc (suc k)) (sym value) s.1, e ∙ ap (be_bytes 32) (sym value)),
          ap (reduce k) value ∙ reduce-value s,
        ),
  )

  point_iff :
      (b : Bytes) (p : ℕ)
      → ((residues k).unmarshal b ≡ some p)
        ↔ ((b ≡ be_bytes 64 p) × ((residues k).is_on_curve p ≡ true))
  point_iff b p = (
    λ h.
        let (test, value) = (some_if _ _ _).0 h in
        let (small, content) = (is_residue_iff (suc (suc k)) 64 b).0 test in
        (
          content ∙ ap (be_bytes 64) value,
          (ltb_iff _ _).1 (subst (λ v. v < suc (suc k)) value small),
        ),
    λ (e, on).
        let small = (ltb_iff p (suc (suc k))).0 on in
        let fits : p < 256 ^ 64 = omega arith in
        let value : be_value 0 b ≡ p = ap (be_value 0) e ∙ be_value-be_bytes 64 p fits in
        (some_if _ _ _).1 (
          (is_residue_iff (suc (suc k)) 64 b).1
              (subst (λ v. v < suc (suc k)) (sym value) small, e ∙ ap (be_bytes 64) (sym value)),
          value,
        ),
  )

  clear_format : (p : ℕ) → (residues k).is_on_curve p ≡ true → IsUncompressed (be_bytes 64 p)
  clear_format p on =
      let small = (ltb_iff p (suc (suc k))).0 on in
      let fits : p < 256 ^ 63 = omega arith in (0, be_bytes 63 p, be_bytes_head 63 p fits, refl)

  pub residues-IsLawfulFormat : IsLawfulFormat (residues k)
  residues-IsLawfulFormat = record {
    length-bytes = λ s. length-be_bytes 32 s.0;
    set_bytes_canonical_iff = λ b s h. canonical_iff b s;
    length-marshal = λ p. length-be_bytes 64 p;
    marshal-IsUncompressed = λ p on. clear_format p on;
    unmarshal_iff = λ b p h plain. point_iff b p;
  }
