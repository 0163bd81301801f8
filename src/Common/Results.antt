-- ===== src/Common/Results.antt =====
-- The outcome of a Go call: a value, an `error`, or a panic. A chain of fallible calls is a `do`
-- block.
use Prim.Native.Nat.{ℕ}
use Prim.Native.String.{String}
use mathlib.Core.Path.{◌≡◌, refl}
use mathlib.Core.Logic.{◌⊎◌, inl, inr}
use mathlib.Core.Bool.{Bool, true, false}
use mathlib.Core.Option.{Option, none, some}
use mathlib.Core.List.{List}

abbrev pub Bytes : Type 0
Bytes = List ℕ

-- Error values: a text, a text with the expected and the given length, a cause with a text put in
-- front (`%w`), an error that a library call returned, and a test that fails with no error value.
pub data Error : Type 0 where
  message : String → Error
  length_error : String → ℕ → ℕ → Error
  wrapped : String → Error → Error
  external : Error
  rejected : Error

pub data Result {ℓ} (T : Type ℓ) : Type ℓ where
  panic : Result T
  err : Error → Result T
  ok : T → Result T

-- The value behind a pointer, or the error for `nil`.
abbrev pub deref {ℓ} : {T : Type ℓ} → Option T → Error → Result T
deref (some t) cause = ok t
deref none cause = err cause

-- A dereference that no test for nil protects.
abbrev pub load {ℓ} : {T : Type ℓ} → Option T → Result T
load (some t) = ok t
load none = panic

-- `if !b { return e }`
abbrev pub guard : Bool → Error → Result (Unit {0})
guard false cause = err cause
guard true cause = ok tt

-- A chain of checks, the answer where one of them fails, and what follows where none does.
abbrev pub after_checks {ℓ κ} : {T : Type ℓ} {S : Type κ} → Result T → S → (T → S) → S
after_checks panic s next = s
after_checks (err cause) s next = s
after_checks (ok t) s next = next t

-- `if err != nil { return fmt.Errorf("…: %w", err) }`
abbrev pub wrap {ℓ} : {T : Type ℓ} → String → Result T → Result T
wrap text panic = panic
wrap text (err cause) = err (wrapped text cause)
wrap text (ok t) = ok t

-- `if err != nil { return e }`: the error of a call is put aside for another.
abbrev pub or_error {ℓ} : {T : Type ℓ} → Result T → Error → Result T
or_error panic other = panic
or_error (err cause) other = err other
or_error (ok t) other = ok t

infixl 5 ◌>>=◌ ◌>>◌
abbrev pub ◌>>=◌ {ℓ κ} : {T : Type ℓ} {S : Type κ} → Result T → (T → Result S) → Result S
panic >>= next = panic
err cause >>= next = err cause
ok t >>= next = next t

abbrev pub ◌>>◌ {ℓ} : {S : Type ℓ} → Result (Unit {0}) → Result S → Result S
panic >> next = panic
err cause >> next = err cause
ok done >> next = next

pub ok-injective {ℓ} : {T : Type ℓ} (s t : T) → ok s ≡ ok t → s ≡ t
ok-injective s t e = cc

pub Result-cases {ℓ} :
    {T : Type ℓ} (r : Result T)
    → ((t : T) × (r ≡ ok t)) ⊎ (((cause : Error) × (r ≡ err cause)) ⊎ (r ≡ panic))
Result-cases panic = inr (inr refl)
Result-cases (err cause) = inr (inl (cause, refl))
Result-cases (ok t) = inl (t, refl)

-- The steps of a chain that gives a value.
pub bind_inv {ℓ κ} :
    {T : Type ℓ} {S : Type κ} (r : Result T) (next : T → Result S) {s : S}
    → (r >>= next) ≡ ok s
    → (t : T) × (r ≡ ok t) × (next t ≡ ok s)
bind_inv panic next e = cc
bind_inv (err cause) next e = cc
bind_inv (ok t) next e = (t, refl, e)

pub check_inv {ℓ} :
    {S : Type ℓ} (r : Result (Unit {0})) (next : Result S) {s : S}
    → (r >> next) ≡ ok s
    → (r ≡ ok tt) × (next ≡ ok s)
check_inv panic next e = cc
check_inv (err cause) next e = cc
check_inv (ok done) next e = (refl, e)

pub wrap_inv {ℓ} :
    {T : Type ℓ} (text : String) (r : Result T) {t : T} → wrap text r ≡ ok t → r ≡ ok t
wrap_inv text panic e = cc
wrap_inv text (err cause) e = cc
wrap_inv text (ok s) e = e
