-- ===== src/Equality/Rows/Completeness.antt =====
-- A round of the verifier's loop passes for an honest round of the prover's.
use elgamal_bn.Common.{ℕ, ◌*◌, ◌≡◌, ◌∙◌}
use elgamal_bn.Gnark.{Gnark, IsLawful}
use elgamal_bn.Gnark.Group.{multiple, multiple-set_uint64}
use elgamal_bn.Gnark.Sigma.{honest-Opens, honest-OpensOver}
use elgamal_bn.Ciphertext.{Ciphertext}
use elgamal_bn.Elgamal.Homomorphic.{Encrypts}
use elgamal_bn.Equality.Rows.{RowHolds, commit}

module _ {g : Gnark} (L : IsLawful g) where
  pub honest-RowHolds :
      (e km kr r : g.Scalar) (pk : g.Point) (ct : Ciphertext g.Point) (amount x : ℕ)
      → pk ≡ multiple g x
      → Encrypts g x amount (g.big_int r) ct
      → RowHolds g e (g.add km (g.mul e (g.set_uint64 amount))) (record {
        pk = pk;
        ct = ct;
        sr = g.add kr (g.mul e r);
        r1 = (commit g km kr pk).0;
        r2 = (commit g km kr pk).1;
      })
  unfolding commit
  honest-RowHolds e km kr r pk ct amount x hpk (h1, h2) = (
    honest-Opens L e kr r ct.c1 h1,
    honest-OpensOver L e km kr (g.set_uint64 amount) r pk ct.c2 x hpk
        (h2 ∙ multiple-set_uint64 L amount (x * g.big_int r)),
  )
