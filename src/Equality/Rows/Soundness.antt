-- ===== src/Equality/Rows/Soundness.antt =====
-- Two passing rounds with the same nonce commitments and different challenges determine the
-- round's randomness and the amount that all rounds share.
use elgamal_bn.Common.{ℕ, ◌≡◌, true}
use elgamal_bn.Gnark.{Gnark, IsLawful}
use elgamal_bn.Gnark.Group.{multiple}
use elgamal_bn.Gnark.Extraction.{Inverts}
use elgamal_bn.Gnark.Sigma.{extracted, extract-Opens, extract-OpensOver}
use elgamal_bn.Ciphertext.{Ciphertext}
use elgamal_bn.Ciphertext.Validity.{IsKey, IsValid}
use elgamal_bn.Elgamal.Homomorphic.{Encrypts}
use elgamal_bn.Equality.Rows.{RowHolds}

module _ (g : Gnark) where
  -- Two rounds with the same nonce commitments, points of the curve.
  pub record IsRewound (r1 r2 r1' r2' : g.Point) : Type 0 where
    pub r1_on_curve : g.is_on_curve r1 ≡ true
    pub r2_on_curve : g.is_on_curve r2 ≡ true
    pub same_r1 : r1' ≡ r1
    pub same_r2 : r2' ≡ r2

  -- The ciphertext encrypts `amount` under the key.
  abbrev pub Hides : ℕ → g.Point → Ciphertext g.Point → Type 0
  Hides amount pk ct = (x : ℕ) × (r : ℕ) × (pk ≡ multiple g x) × Encrypts g x amount r ct

module _ {g : Gnark} (L : IsLawful g) where
  pub extract-Hides :
      (i : ℕ) (e e' sm sm' sr sr' : g.Scalar) (pk r1 r2 r1' r2' : g.Point) (ct : Ciphertext g.Point)
      → Inverts g i e e'
      → IsKey g pk
      → IsValid g ct
      → IsRewound g r1 r2 r1' r2'
      → RowHolds g e sm (record { pk = pk; ct = ct; sr = sr; r1 = r1; r2 = r2 })
      → RowHolds g e' sm' (record { pk = pk; ct = ct; sr = sr'; r1 = r1'; r2 = r2' })
      → Hides g (extracted g i sm sm') pk ct
  extract-Hides i e e' sm sm' sr sr' pk r1 r2 r1' r2' ct inverse key v c (h1, h2) (j1, j2) =
      let (x, hx) = L.discrete_log pk key.0 in
      (
        x,
        extracted g i sr sr',
        hx,
        (
          extract-Opens L i e e' inverse sr sr' r1 r1' ct.c1 c.r1_on_curve v.c1_on_curve c.same_r1
              h1 j1,
          extract-OpensOver L i e e' inverse sm sm' sr sr' pk r2 r2' ct.c2 x hx c.r2_on_curve
              v.c2_on_curve c.same_r2 h2 j2,
        ),
      )
