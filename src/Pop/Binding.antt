-- ===== src/Pop/Binding.antt =====
-- What the challenge of `ProvePossession` depends on.
use elgamal_bn.Common.{◌≡◌, ◌↔◌, refl, arith, String, Bytes, List, [], ◌∷◌}
use elgamal_bn.Gnark.{Gnark}
use elgamal_bn.Gnark.Format.{IsLawfulFormat}
use elgamal_bn.Transcript.{Transcript, append_point, challenge_scalar}
use elgamal_bn.Transcript.Framing.{append_all}
use elgamal_bn.Transcript.Binding.{hashed, typed, points, AllOnCurve, IsHashOf, typed-injective}
use elgamal_bn.Pop.{pop_challenge, append_pop_transcript}

module _ (g : Gnark) where
  absorbed : g.Point → g.Point → List (String × g.Point)
  absorbed pk a = ("pk", pk) ∷ ("A", a) ∷ []

  input : g.Point → g.Point → Transcript → Bytes
  input pk a t = hashed "pop_challenge" (append_all (typed g "pop" (absorbed pk a)) t)

  input-IsHashOf :
      (pk a : g.Point) (t : Transcript)
      → IsHashOf g (input pk a t) (λ keccak. (pop_challenge g keccak pk a t).0)
  unfolding pop_challenge append_pop_transcript append_point challenge_scalar append_all input
      absorbed
  input-IsHashOf pk a t keccak = refl

module _ (g : Gnark) (F : IsLawfulFormat g) where
  -- The challenge of a proof of possession is made from the hash of a byte string that the hash
  -- function has no part in. For keys and commitments that are points of the curve, the strings of
  -- two challenges after the same transcript are equal exactly if the key and the commitment
  -- agree.
  pub pop_challenge_binds :
      (pk a : g.Point) (pk' a' : g.Point) (t : Transcript)
      → AllOnCurve g (pk ∷ a ∷ [])
      → AllOnCurve g (pk' ∷ a' ∷ [])
      → (m : Bytes) × (m' : Bytes) × IsHashOf g m (λ keccak. (pop_challenge g keccak pk a t).0)
        × IsHashOf g m' (λ keccak. (pop_challenge g keccak pk' a' t).0)
        × ((m ≡ m') ↔ ((pk ≡ pk') × (a ≡ a')))
  unfolding absorbed input
  pop_challenge_binds pk a pk' a' t on on' = (
    input g pk a t,
    input g pk' a' t,
    input-IsHashOf g pk a t,
    input-IsHashOf g pk' a' t,
    (
      λ same.
          let e : points g (absorbed g pk a) ≡ points g (absorbed g pk' a') =
            typed-injective g F "pop_challenge" "pop" t (absorbed g pk a) (absorbed g pk' a') refl
              (omega arith) refl refl on on' same in
          let e_pk : pk ≡ pk' = cc in let e_a : a ≡ a' = cc in (e_pk, e_a),
      λ (p0, p1). λ i. input g (p0 i) (p1 i) t,
    ),
  )
