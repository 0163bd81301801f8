-- ===== src/Examples/Setting.antt =====
-- The concrete external code of the runs.
use elgamal_bn.Common.{ℕ, zero, suc, ◌+◌, ◌*◌, ◌%◌, ◌<◌, ◌≡◌, ◌≢◌, refl, arith, Bytes, some}
use elgamal_bn.Common.{[], ◌∷◌}
use elgamal_bn.Common.Encoding.{be_bytes}
use elgamal_bn.Common.{sym, ◌∙◌}
use elgamal_bn.Common.Modular.{mul-mod}
use native.Mathlib.Nat.{mod-lt}
use elgamal_bn.Gnark.{Gnark, IsLawful, HasInverses}
use elgamal_bn.Gnark.Residues.{residues, residues-IsLawful}
use elgamal_bn.Gnark.Format.{IsLawfulFormat}
use elgamal_bn.Gnark.Residues.Format.{residues-IsLawfulFormat}
use elgamal_bn.Random.{Random, Rng}

-- The residues modulo the order of BN254's G1.
abbrev pub order_minus_two : ℕ
order_minus_two = 21888242871839275222246405745257275088548364400416034343698204186575808495615

abbrev pub bn254 : Gnark
bn254 = residues order_minus_two

pub bn254-IsLawful : IsLawful bn254
bn254-IsLawful = residues-IsLawful order_minus_two

-- A group of five elements, where inverses can be listed.
abbrev pub five : Gnark
five = residues 3

pub five-IsLawful : IsLawful five
five-IsLawful = residues-IsLawful 3

pub five-IsLawfulFormat : IsLawfulFormat five
five-IsLawfulFormat = residues-IsLawfulFormat 3 (omega arith)

inverse_mod_five : (r : ℕ) → r < 5 → r ≢ 0 → (i : ℕ) × (i * r % 5 ≡ 1)
inverse_mod_five zero h ne = absurd (ne refl)
inverse_mod_five (suc zero) h ne = (1, refl)
inverse_mod_five (suc (suc zero)) h ne = (3, refl)
inverse_mod_five (suc (suc (suc zero))) h ne = (2, refl)
inverse_mod_five (suc (suc (suc (suc zero)))) h ne = (4, refl)
inverse_mod_five (suc (suc (suc (suc (suc r))))) h ne = absurd (omega arith)

pub five-HasInverses : HasInverses five
five-HasInverses n ne =
    let (i, e) = inverse_mod_five (n % 5) (mod-lt n (omega arith)) ne in
    (i, sym (mul-mod i n 5) ∙ e)

-- A reader that counts.
abbrev pub counting : Random
counting = record { Reader = ℕ; int = λ r bound. some (r % bound, r + 1) }

abbrev pub rng_at : ℕ → Rng counting
rng_at n = record { given = some n; system = 0 }

-- A hash that sums the bytes up, and one that adds 1.
total : Bytes → ℕ
total [] = 0
total (b ∷ bs) = b + total bs

unfoldable pub sum_hash : Bytes → Bytes
unfolding total be_bytes
sum_hash b = be_bytes 32 (total b)

unfoldable pub next_hash : Bytes → Bytes
unfolding total be_bytes
next_hash b = be_bytes 32 (total b + 1)
