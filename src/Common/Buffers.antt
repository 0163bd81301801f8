-- ===== src/Common/Buffers.antt =====
-- Byte slices: reading a part of one, and writing into one that was made full of zeros.
use Prim.Native.Nat.{ℕ, zero, suc, ◌+◌, ◌-◌, ◌≤◌}
use mathlib.Core.Path.{◌≡◌, refl, sym, ap, ◌∙◌}
use mathlib.Core.List.{[], ◌∷◌, ◌++◌}
use mathlib.Core.List.{append_assoc}
use mathlib.Core.Bool.{false}
use native.Mathlib.Omega.{arith}
use elgamal_bn.Common.Tests.{ltb, ltb_ge, if◌then◌else◌}
use elgamal_bn.Common.Lists.{
  length, take, drop, length-append, length-take, length-drop, take-append-drop,
}
use elgamal_bn.Common.Results.{Bytes, Result, ok, panic}

-- `input[lo:hi]`, for a slice with no spare capacity
unfoldable pub slice : Bytes → ℕ → ℕ → Result Bytes
slice input lo hi = if ltb (length input) hi then panic else ok (take (hi - lo) (drop lo input))

-- `make([]byte, n)`
unfoldable pub zeros : ℕ → Bytes
zeros zero = []
zeros (suc n) = 0 ∷ zeros n

-- The buffer after `copy(buf[off:], b)`
unfoldable pub copy_at : Bytes → ℕ → Bytes → Result Bytes
copy_at buf off b =
    if ltb (length buf) off
    then panic
    else ok (take off buf ++ (take (length buf - off) b ++ drop (off + length b) buf))

pub length-zeros : (n : ℕ) → length (zeros n) ≡ n
unfolding zeros
length-zeros zero = refl
length-zeros (suc n) = ap suc (length-zeros n)

pub take-append : (xs ys : Bytes) (n : ℕ) → length xs ≡ n → take n (xs ++ ys) ≡ xs
take-append [] ys zero h = refl
take-append [] ys (suc n) h = absurd (omega arith)
take-append (x ∷ xs) ys zero h = absurd (omega arith)
take-append (x ∷ xs) ys (suc n) h = ap (λ r. x ∷ r) (take-append xs ys n (omega arith))

pub drop-append : (xs ys : Bytes) (n : ℕ) → length xs ≡ n → drop n (xs ++ ys) ≡ ys
drop-append [] ys zero h = refl
drop-append [] ys (suc n) h = absurd (omega arith)
drop-append (x ∷ xs) ys zero h = absurd (omega arith)
drop-append (x ∷ xs) ys (suc n) h = drop-append xs ys n (omega arith)

pub take_all : (xs : Bytes) (n : ℕ) → length xs ≤ n → take n xs ≡ xs
take_all [] zero h = refl
take_all [] (suc n) h = refl
take_all (x ∷ xs) zero h = absurd (omega arith)
take_all (x ∷ xs) (suc n) h = ap (λ r. x ∷ r) (take_all xs n (omega arith))

drop_nil : (n : ℕ) → drop {A = ℕ} n [] ≡ []
drop_nil zero = refl
drop_nil (suc n) = refl

suc_add : (m n : ℕ) → suc (m + n) ≡ suc m + n
suc_add m n = omega arith

pub drop-drop : (m n : ℕ) (xs : Bytes) → drop n (drop m xs) ≡ drop (m + n) xs
drop-drop zero n xs = ap (λ k. drop k xs) (omega arith)
drop-drop (suc m) n [] = drop_nil n ∙ sym (drop_nil (suc m + n))
drop-drop (suc m) n (x ∷ xs) = drop-drop m n xs ∙ ap (λ k. drop k (x ∷ xs)) (suc_add m n)

add-sub_left : (m n : ℕ) → m + n - m ≡ n
add-sub_left m n = omega arith

pub drop-zeros : (m n : ℕ) → drop m (zeros (m + n)) ≡ zeros n
unfolding zeros
drop-zeros zero n = ap zeros (omega arith)
drop-zeros (suc m) n = ap (λ k. drop (suc m) (zeros k)) (sym (suc_add m n)) ∙ drop-zeros m n

-- What is written in a buffer moves its end on.
pub copy_at-zeros :
    (w b : Bytes) (off m : ℕ)
    → length w ≡ off
    → copy_at (w ++ zeros (length b + m)) off b ≡ ok ((w ++ b) ++ zeros m)
unfolding copy_at
copy_at-zeros w b off m h =
    let buf = w ++ zeros (length b + m) in
    let size : length buf ≡ off + (length b + m) =
      omega (arith, length-append w (zeros (length b + m)), length-zeros (length b + m)) in
    let kept = take-append w (zeros (length b + m)) off h in
    let written = take_all b (length buf - off) (omega arith) in
    let left : drop (off + length b) buf ≡ zeros m =
      sym (drop-drop off (length b) buf)
      ∙ ap (drop (length b)) (drop-append w (zeros (length b + m)) off h)
      ∙ drop-zeros (length b) m in
    let inside : ltb (length buf) off ≡ false = ltb_ge (length buf) off (omega arith) in
    rw (inside, kept, written, left) (ap ok (sym (append_assoc w b (zeros m))))

-- A slice of what follows the offset.
pub slice_here :
    (input b rest : Bytes) (off n : ℕ)
    → length b ≡ n
    → drop off input ≡ b ++ rest
    → (off ≤ length input)
    → slice input off (off + n) ≡ ok b
unfolding slice
slice_here input b rest off n h e fits =
    let size : off + n ≤ length input =
      omega (arith, length-drop off input, ap length e, length-append b rest) in
    let inside : ltb (length input) (off + n) ≡ false = ltb_ge (length input) (off + n) size in
    rw (inside, add-sub_left off n, e) (ap ok (take-append b rest n h))

slice_ok :
    (input b : Bytes) (off n : ℕ)
    → slice input off (off + n) ≡ ok b
    → (off + n ≤ length input) × (take (off + n - off) (drop off input) ≡ b)
unfolding slice
slice_ok input b off n e = ground arith

pub slice_inv :
    (input b : Bytes) (off n : ℕ)
    → slice input off (off + n) ≡ ok b
    → (drop off input ≡ b ++ drop (off + n) input) × (length b ≡ n)
slice_inv input b off n e =
    let (fits, part) = slice_ok input b off n e in
    let here : take n (drop off input) ≡ b =
      ap (λ k. take k (drop off input)) (sym (add-sub_left off n)) ∙ part in
    (
      sym (take-append-drop n (drop off input))
          ∙ ap (λ r. r ++ drop n (drop off input)) here
          ∙ ap (λ r. b ++ r) (drop-drop off n input),
      omega (arith, ap length here, length-take n (drop off input), length-drop off input),
    )
