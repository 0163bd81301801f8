-- ===== src/Examples/Challenges.antt =====
-- What the challenges bind, at concrete statements in the group of five elements.
use elgamal_bn.Common.{ℕ, ◌≡◌, ◌↔◌, refl, arith, Bytes}
use elgamal_bn.Ciphertext.{Ciphertext}
use elgamal_bn.Transcript.{default_transcript}
use elgamal_bn.Transcript.Binding.{IsHashOf}
use elgamal_bn.Dleq.{dleq_challenge}
use elgamal_bn.Dleq.Binding.{dleq_challenge_binds}
use elgamal_bn.Pop.{pop_challenge}
use elgamal_bn.Pop.Binding.{pop_challenge_binds}
use elgamal_bn.CommitmentEquality.{Statement, commitment_challenge}
use elgamal_bn.CommitmentEquality.Binding.{commitment_challenge_binds}
use elgamal_bn.ApplyPending.{pending_challenge}
use elgamal_bn.ApplyPending.Binding.{pending_challenge_binds}
use elgamal_bn.Equality.Three
use elgamal_bn.Equality.Three.{equality_challenge}
use elgamal_bn.Equality.Three.Binding.{equality_challenge_binds}
use elgamal_bn.Equality.Two
use elgamal_bn.Equality.Two.{equality2_challenge}
use elgamal_bn.Equality.Two.Binding.{equality2_challenge_binds}
use elgamal_bn.Examples.Setting.{five, five-IsLawfulFormat}

-- Numbers as points of the group, and as amounts.
abbrev n1 : ℕ
n1 = 1

abbrev n2 : ℕ
n2 = 2

abbrev n3 : ℕ
n3 = 3

abbrev n4 : ℕ
n4 = 4

-- The amount 1 under the key 2, with the randomness 1 and 3.
abbrev first_ct : Ciphertext ℕ
first_ct = record { c1 = 1; c2 = 3 }

abbrev second_ct : Ciphertext ℕ
second_ct = record { c1 = 3; c2 = 2 }

abbrev statement : Statement ℕ
statement = record { pk = 2; h = 3; ct = first_ct; commitment = 4 }

abbrev other_statement : Statement ℕ
other_statement = record { pk = 2; h = 3; ct = second_ct; commitment = 4 }

abbrev three : Three.Statement ℕ
three = record { pk1 = 2; pk2 = 2; pk3 = 2; ct1 = first_ct; ct2 = second_ct; ct3 = first_ct }

abbrev other_three : Three.Statement ℕ
other_three = record { pk1 = 2; pk2 = 2; pk3 = 2; ct1 = first_ct; ct2 = first_ct; ct3 = second_ct }

abbrev two : Two.Statement ℕ
two = record { pk1 = 2; pk2 = 2; ct1 = first_ct; ct2 = second_ct }

abbrev other_two : Two.Statement ℕ
other_two = record { pk1 = 2; pk2 = 2; ct1 = second_ct; ct2 = first_ct }

dleq_challenge_binds_example :
    (m : Bytes) × (m' : Bytes) × IsHashOf five m
      (λ keccak. (dleq_challenge five keccak n2 first_ct n1 n3 n3 default_transcript).0)
    × IsHashOf five m'
        (λ keccak. (dleq_challenge five keccak n2 first_ct n4 n3 n3 default_transcript).0)
    × ((m ≡ m') ↔ ((n2 ≡ n2) × (first_ct ≡ first_ct) × (n1 ≡ n4) × (n3 ≡ n3) × (n3 ≡ n3)))
dleq_challenge_binds_example =
    dleq_challenge_binds five five-IsLawfulFormat n2 first_ct n1 n3 n3 n2 first_ct n4 n3 n3
      default_transcript (omega arith) (omega arith) (refl, (refl, (refl, (refl, (refl, tt)))))
      (refl, (refl, (refl, (refl, (refl, tt)))))

pop_challenge_binds_example :
    (m : Bytes) × (m' : Bytes) × IsHashOf five m
      (λ keccak. (pop_challenge five keccak n2 n3 default_transcript).0)
    × IsHashOf five m' (λ keccak. (pop_challenge five keccak n2 n4 default_transcript).0)
    × ((m ≡ m') ↔ ((n2 ≡ n2) × (n3 ≡ n4)))
pop_challenge_binds_example =
    pop_challenge_binds five five-IsLawfulFormat n2 n3 n2 n4 default_transcript (refl, (refl, tt))
      (refl, (refl, tt))

commitment_challenge_binds_example :
    (m : Bytes) × (m' : Bytes) × IsHashOf five m
      (λ keccak. (commitment_challenge five keccak statement n1 n2 n3 default_transcript).0)
    × IsHashOf five m'
        (λ keccak. (commitment_challenge five keccak other_statement n1 n2 n3 default_transcript).0)
    × ((m ≡ m') ↔ ((statement ≡ other_statement) × (n1 ≡ n1) × (n2 ≡ n2) × (n3 ≡ n3)))
commitment_challenge_binds_example =
    commitment_challenge_binds five five-IsLawfulFormat statement n1 n2 n3 other_statement n1 n2 n3
      default_transcript (refl, (refl, (refl, (refl, (refl, (refl, (refl, (refl, tt))))))))
      (refl, (refl, (refl, (refl, (refl, (refl, (refl, (refl, tt))))))))

pending_challenge_binds_example :
    (m : Bytes) × (m' : Bytes) × IsHashOf five m (λ keccak.
      (pending_challenge five keccak n2 first_ct second_ct n1 n2 n3 n4 default_transcript).0)
    × IsHashOf five m' (λ keccak.
      (pending_challenge five keccak n2 second_ct first_ct n1 n2 n3 n4 default_transcript).0)
    × ((m ≡ m') ↔ (
        (n2 ≡ n2)
        × (first_ct ≡ second_ct)
        × (second_ct ≡ first_ct)
        × (n1 ≡ n1)
        × (n2 ≡ n2)
        × (n3 ≡ n3)
        × (n4 ≡ n4)))
pending_challenge_binds_example =
    pending_challenge_binds five five-IsLawfulFormat n2 first_ct second_ct n1 n2 n3 n4 n2 second_ct
      first_ct n1 n2 n3 n4 default_transcript
      (refl, (refl, (refl, (refl, (refl, (refl, (refl, (refl, (refl, tt)))))))))
      (refl, (refl, (refl, (refl, (refl, (refl, (refl, (refl, (refl, tt)))))))))

equality_challenge_binds_example :
    (m : Bytes) × (m' : Bytes) × IsHashOf five m
      (λ keccak. (equality_challenge five keccak three n1 n2 n3 n4 n1 n2 default_transcript).0)
    × IsHashOf five m' (λ keccak.
      (equality_challenge five keccak other_three n1 n2 n3 n4 n1 n2 default_transcript).0)
    × ((m ≡ m') ↔ (
        (three ≡ other_three)
        × (n1 ≡ n1)
        × (n2 ≡ n2)
        × (n3 ≡ n3)
        × (n4 ≡ n4)
        × (n1 ≡ n1)
        × (n2 ≡ n2)))
equality_challenge_binds_example =
    equality_challenge_binds five five-IsLawfulFormat three n1 n2 n3 n4 n1 n2 other_three n1 n2 n3
      n4 n1 n2 default_transcript
      (
        refl,
        (
          refl,
          (
            refl,
            (
              refl,
              (
                refl,
                (refl, (refl, (refl, (refl, (refl, (refl, (refl, (refl, (refl, (refl, tt)))))))))),
              ),
            ),
          ),
        ),
      )
      (
        refl,
        (
          refl,
          (
            refl,
            (
              refl,
              (
                refl,
                (refl, (refl, (refl, (refl, (refl, (refl, (refl, (refl, (refl, (refl, tt)))))))))),
              ),
            ),
          ),
        ),
      )

equality2_challenge_binds_example :
    (m : Bytes) × (m' : Bytes) × IsHashOf five m
      (λ keccak. (equality2_challenge five keccak two n1 n2 n3 n4 default_transcript).0)
    × IsHashOf five m'
        (λ keccak. (equality2_challenge five keccak other_two n1 n2 n3 n4 default_transcript).0)
    × ((m ≡ m') ↔ ((two ≡ other_two) × (n1 ≡ n1) × (n2 ≡ n2) × (n3 ≡ n3) × (n4 ≡ n4)))
equality2_challenge_binds_example =
    equality2_challenge_binds five five-IsLawfulFormat two n1 n2 n3 n4 other_two n1 n2 n3 n4
      default_transcript
      (refl, (refl, (refl, (refl, (refl, (refl, (refl, (refl, (refl, (refl, tt))))))))))
      (refl, (refl, (refl, (refl, (refl, (refl, (refl, (refl, (refl, (refl, tt))))))))))
