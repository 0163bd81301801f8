-- ===== src/Equality/Rows.antt =====
-- What the three-key and the two-key proof of equality.go share: the two loops over the keys.
pub mod Completeness
pub mod Soundness
use elgamal_bn.Common.{
  ◌≡◌, ◌↔◌, refl, Bool, true, false, List, [], ◌∷◌, if◌then◌else◌, and_then_iff, arith,
}
use elgamal_bn.Gnark.{Gnark, IsLawful}
use elgamal_bn.Gnark.Group.{jacobian_sum}
use elgamal_bn.Gnark.Sigma.{Opens, OpensOver}
use elgamal_bn.Ciphertext.{Ciphertext}

-- What round `i` of the verifier's loop reads: `pks[i]`, `cts[i]`, `sr[i]`, `r1s[i]` and `r2s[i]`.
pub record Row (S P : Type 0) : Type 0 where
  pub pk : P
  pub ct : Ciphertext P
  pub sr : S
  pub r1 : P
  pub r2 : P

module _ (g : Gnark) where
  -- A round of the prover's loop: `kr*G` and `km*G + kr*pk`.
  unfoldable pub commit : g.Scalar → g.Scalar → g.Point → g.Point × g.Point
  commit km kr pk =
      let km_g = g.scalar_mul g.generator (g.big_int km) in
      let kr_pk = g.scalar_mul pk (g.big_int kr) in
      (g.scalar_mul g.generator (g.big_int kr), jacobian_sum g km_g kr_pk)

  -- The verifier's loop.
  unfoldable pub check_rows : g.Scalar → g.Scalar → List (Row g.Scalar g.Point) → Bool
  check_rows e sm [] = true
  check_rows e sm (row ∷ rows) =
      let rest = check_rows e sm rows in
      let e_big = g.big_int e in
      let sr_big = g.big_int row.sr in
      let lhs1 = g.scalar_mul g.generator sr_big in
      let rhs1 = jacobian_sum g row.r1 (g.scalar_mul row.ct.c1 e_big) in
      let sm_g = g.scalar_mul g.generator (g.big_int sm) in
      let lhs2 = jacobian_sum g sm_g (g.scalar_mul row.pk sr_big) in
      let rhs2 = jacobian_sum g row.r2 (g.scalar_mul row.ct.c2 e_big) in
      if g.equal lhs1 rhs1 then if g.equal lhs2 rhs2 then rest else false else false

  -- The two equations of each row.
  abbrev pub AllRows : (Row g.Scalar g.Point → Type 0) → List (Row g.Scalar g.Point) → Type 0
  AllRows P [] = Unit
  AllRows P (row ∷ rows) = P row × AllRows P rows

  abbrev pub RowHolds : g.Scalar → g.Scalar → Row g.Scalar g.Point → Type 0
  RowHolds e sm row =
      Opens g e row.sr row.r1 row.ct.c1 × OpensOver g row.pk e sm row.sr row.r2 row.ct.c2

module _ (g : Gnark) (L : IsLawful g) where
  pub check_rows_iff :
      (e sm : g.Scalar) (rows : List (Row g.Scalar g.Point))
      → (check_rows g e sm rows ≡ true) ↔ AllRows g (RowHolds g e sm) rows
  unfolding check_rows
  check_rows_iff e sm [] = (λ _. tt, λ _. refl)
  check_rows_iff e sm (row ∷ rows) =
      let tests =
        and_then_iff _ _ (L.equal_iff _ _)
          (and_then_iff _ _ (L.equal_iff _ _) (check_rows_iff e sm rows)) in
      (
        λ h. let (h1, (h2, h3)) = tests.0 h in ((h1, h2), h3),
        λ ((h1, h2), h3). tests.1 (h1, (h2, h3)),
      )
