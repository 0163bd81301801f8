-- ===== src/Dleq/Binding.antt =====
-- What the challenge of `ProveDLEQ` depends on.
use elgamal_bn.Common.{ℕ, ◌^◌, ◌<◌, ◌≡◌, ◌↔◌, refl, arith, String, Bytes, List, [], ◌∷◌}
use elgamal_bn.Common.Encoding.{codes, le_bytes, length-le_bytes}
use elgamal_bn.Gnark.{Gnark}
use elgamal_bn.Gnark.Format.{IsLawfulFormat}
use elgamal_bn.Ciphertext.{Ciphertext}
use elgamal_bn.Dleq.{dleq_challenge}
use elgamal_bn.Transcript.{Transcript, append_point, challenge_scalar}
use elgamal_bn.Transcript.Framing.{append_all, messages, IsShort, le_bytes-injective}
use elgamal_bn.Transcript.Binding.{
  hashed, AllOnCurve, IsHashOf, hashed-injective, marshal-injective,
}

module _ (g : Gnark) where
  absorbed : g.Point → Ciphertext g.Point → ℕ → g.Point → g.Point → List (String × Bytes)
  absorbed pk ct amount r1 r2 =
      ("proof_type", codes "dleq")
      ∷ ("pk", g.marshal pk)
      ∷ ("C1", g.marshal ct.c1)
      ∷ ("C2", g.marshal ct.c2)
      ∷ ("amount", le_bytes 8 amount)
      ∷ ("R1", g.marshal r1)
      ∷ ("R2", g.marshal r2)
      ∷ []

  input : g.Point → Ciphertext g.Point → ℕ → g.Point → g.Point → Transcript → Bytes
  input pk ct amount r1 r2 t = hashed "dleq_challenge" (append_all (absorbed pk ct amount r1 r2) t)

  input-IsHashOf :
      (pk : g.Point) (ct : Ciphertext g.Point) (amount : ℕ) (r1 r2 : g.Point) (t : Transcript)
      → IsHashOf g
          (input pk ct amount r1 r2 t)
          (λ keccak. (dleq_challenge g keccak pk ct amount r1 r2 t).0)
  unfolding dleq_challenge append_point challenge_scalar append_all input absorbed
  input-IsHashOf pk ct amount r1 r2 t keccak = refl

module _ (g : Gnark) (F : IsLawfulFormat g) where
  absorbed-IsShort :
      (pk : g.Point) (ct : Ciphertext g.Point) (amount : ℕ) (r1 r2 : g.Point)
      → IsShort (absorbed g pk ct amount r1 r2)
  unfolding absorbed
  absorbed-IsShort pk ct amount r1 r2 = (
    omega arith,
    omega arith,
    (
      omega arith,
      omega (arith, F.length-marshal pk),
      (
        omega arith,
        omega (arith, F.length-marshal ct.c1),
        (
          omega arith,
          omega (arith, F.length-marshal ct.c2),
          (
            omega arith,
            omega (arith, length-le_bytes 8 amount),
            (
              omega arith,
              omega (arith, F.length-marshal r1),
              (omega arith, omega (arith, F.length-marshal r2), tt),
            ),
          ),
        ),
      ),
    ),
  )

  -- The challenge of a DLEQ proof is made from the hash of a byte string that the hash function
  -- has no part in. For points of the curve and amounts that are `uint64`, the strings of two
  -- challenges after the same transcript are equal exactly if the key, the ciphertext, the amount
  -- and both nonce commitments agree.
  pub dleq_challenge_binds :
      (pk : g.Point) (ct : Ciphertext g.Point) (amount : ℕ) (r1 r2 : g.Point) (pk' : g.Point)
      (ct' : Ciphertext g.Point) (amount' : ℕ) (r1' r2' : g.Point) (t : Transcript)
      → amount < 2 ^ 64
      → amount' < 2 ^ 64
      → AllOnCurve g (pk ∷ ct.c1 ∷ ct.c2 ∷ r1 ∷ r2 ∷ [])
      → AllOnCurve g (pk' ∷ ct'.c1 ∷ ct'.c2 ∷ r1' ∷ r2' ∷ [])
      → (m : Bytes) × (m' : Bytes) × IsHashOf g m
          (λ keccak. (dleq_challenge g keccak pk ct amount r1 r2 t).0)
        × IsHashOf g m' (λ keccak. (dleq_challenge g keccak pk' ct' amount' r1' r2' t).0)
        × ((m ≡ m') ↔ ((pk ≡ pk') × (ct ≡ ct') × (amount ≡ amount') × (r1 ≡ r1') × (r2 ≡ r2')))
  unfolding absorbed input
  dleq_challenge_binds pk ct amount r1 r2 pk' ct' amount' r1' r2' t small small' on on' = (
    input g pk ct amount r1 r2 t,
    input g pk' ct' amount' r1' r2' t,
    input-IsHashOf g pk ct amount r1 r2 t,
    input-IsHashOf g pk' ct' amount' r1' r2' t,
    (
      λ same.
          let e : messages (absorbed g pk ct amount r1 r2)
              ≡ messages (absorbed g pk' ct' amount' r1' r2') =
            hashed-injective "dleq_challenge" t (absorbed g pk ct amount r1 r2)
              (absorbed g pk' ct' amount' r1' r2') refl (absorbed-IsShort pk ct amount r1 r2)
              (absorbed-IsShort pk' ct' amount' r1' r2') same in
          let number : le_bytes 8 amount ≡ le_bytes 8 amount' = cc in
          let m0 : g.marshal pk ≡ g.marshal pk' = cc in
          let m1 : g.marshal ct.c1 ≡ g.marshal ct'.c1 = cc in
          let m2 : g.marshal ct.c2 ≡ g.marshal ct'.c2 = cc in
          let m3 : g.marshal r1 ≡ g.marshal r1' = cc in
          let m4 : g.marshal r2 ≡ g.marshal r2' = cc in
          let (on0, (on1, (on2, (on3, (on4, _))))) = on in
          let (in0, (in1, (in2, (in3, (in4, _))))) = on' in
          (
            marshal-injective g F pk pk' on0 in0 m0,
            λ i. record {
              c1 = marshal-injective g F ct.c1 ct'.c1 on1 in1 m1 i;
              c2 = marshal-injective g F ct.c2 ct'.c2 on2 in2 m2 i;
            },
            le_bytes-injective 8 amount amount' (omega arith) (omega arith) number,
            marshal-injective g F r1 r1' on3 in3 m3,
            marshal-injective g F r2 r2' on4 in4 m4,
          ),
      λ (p0, p1, p2, p3, p4). λ i. input g (p0 i) (p1 i) (p2 i) (p3 i) (p4 i) t,
    ),
  )
