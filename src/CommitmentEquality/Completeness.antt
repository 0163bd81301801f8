-- ===== src/CommitmentEquality/Completeness.antt =====
-- Honest proofs of commitment equality are accepted.
use elgamal_bn.Common.{ℕ, ◌+◌, ◌*◌, ◌≡◌}
use elgamal_bn.Gnark.{Gnark}
use elgamal_bn.Gnark.Group.{multiple}
use elgamal_bn.Random.{Random}
use elgamal_bn.Elgamal.Homomorphic.{Encrypts}
use elgamal_bn.Transcript.{Transcript}
use elgamal_bn.CommitmentEquality.{Statement}

module _ (g : Gnark) where
  -- `value` and `r` make the ciphertext of the statement and `value` and `s` its commitment
  -- `value*G + s*H`, where the key is `x * G` and the second base is `b * G`.
  pub record IsWitness (value r s : g.Scalar) (b x : ℕ) (st : Statement g.Point) : Type 0 where
    pub key : st.pk ≡ multiple g x
    pub base : st.h ≡ multiple g b
    pub encrypts : Encrypts g x (g.big_int value) (g.big_int r) st.ct
    pub commits : st.commitment ≡ multiple g (g.big_int value + b * g.big_int s)
