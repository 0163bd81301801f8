-- ===== src/Transcript/Binding.antt =====
-- What a challenge is the hash of, and that this determines the messages before it.
use elgamal_bn.Common.{◌^◌, ◌<◌, ◌≡◌, ◌∙◌, refl, sym, ap, arith, String, Bytes}
use elgamal_bn.Common.{Bool, true, false, List, [], ◌∷◌, ◌++◌, length, ltb, ltb_iff, some}
use elgamal_bn.Common.{if◌then◌else◌, and_then_iff}
use elgamal_bn.Common.Encoding.{codes}
use elgamal_bn.Gnark.{Gnark}
use elgamal_bn.Gnark.Format.{IsLawfulFormat}
use elgamal_bn.Transcript.{Transcript, framed}
use elgamal_bn.Transcript.Framing.{
  append_all, messages, body, IsShort, append_all-body, framed-injective, append-injective,
}
use mathlib.Core.Path.{ap₂}
use mathlib.Core.List.{append_assoc}
use mathlib.Core.Option.{some-injective}

-- What `ChallengeScalar` gives to Keccak256.
abbrev pub hashed : String → Transcript → Bytes
hashed label t = t.state ++ framed (codes label)

body-append-injective :
    (ms ns : List (String × Bytes)) (us : Bytes)
    → length ms ≡ length ns
    → IsShort ms
    → IsShort ns
    → body ms ++ us ≡ body ns ++ us
    → messages ms ≡ messages ns
body-append-injective [] [] us h hm hn e = refl
body-append-injective [] (n ∷ ns) us h hm hn e = absurd (omega arith)
body-append-injective (m ∷ ms) [] us h hm hn e = absurd (omega arith)
body-append-injective ((label, content) ∷ ms) ((label', content') ∷ ns) us h (h1, h2, hm)
      (j1, j2, hn) e =
    let peel : (l c : Bytes) (r : Bytes) → (l ++ (c ++ r)) ++ us ≡ l ++ (c ++ (r ++ us)) =
      λ l c r. append_assoc l (c ++ r) us ∙ ap (λ z. l ++ z) (append_assoc c r us) in
    let (same_label, rest) =
      framed-injective (codes label) (codes label') (framed content ++ (body ms ++ us))
        (framed content' ++ (body ns ++ us)) h1 j1
        (sym (peel (framed (codes label)) (framed content) (body ms))
          ∙ e
          ∙ peel (framed (codes label')) (framed content') (body ns)) in
    let (same_content, tails) =
      framed-injective content content' (body ms ++ us) (body ns ++ us) h2 j2 rest in
    ap₂ (λ m ms. m ∷ ms) (λ i. (same_label i, same_content i))
      (body-append-injective ms ns us (omega arith) hm hn tails)

-- After one transcript, two sequences of as many messages are hashed alike only if they agree.
pub hashed-injective :
    (label : String) (t : Transcript) (ms ns : List (String × Bytes))
    → length ms ≡ length ns
    → IsShort ms
    → IsShort ns
    → hashed label (append_all ms t) ≡ hashed label (append_all ns t)
    → messages ms ≡ messages ns
hashed-injective label t ms ns h hm hn e =
    let us = framed (codes label) in
    let spread : (ks : List (String × Bytes))
        → hashed label (append_all ks t) ≡ t.state ++ (body ks ++ us) =
      λ ks. ap (λ s. s ++ us) (append_all-body ks t) ∙ append_assoc t.state (body ks) us in
    body-append-injective ms ns us h hm hn
      (append-injective t.state t.state _ _ refl (sym (spread ms) ∙ e ∙ spread ns)).1

module _ (g : Gnark) where
  -- `AppendPoint` calls, as messages.
  abbrev pub marshalled : List (String × g.Point) → List (String × Bytes)
  marshalled [] = []
  marshalled ((label, p) ∷ ps) = (label, g.marshal p) ∷ marshalled ps

  abbrev pub points : List (String × g.Point) → List g.Point
  points [] = []
  points ((label, p) ∷ ps) = p ∷ points ps

  abbrev pub AllOnCurve : List g.Point → Type 0
  AllOnCurve [] = Unit
  AllOnCurve (p ∷ ps) = (g.is_on_curve p ≡ true) × AllOnCurve ps

  abbrev pub short_labels : List (String × g.Point) → Bool
  short_labels [] = true
  short_labels ((label, p) ∷ ps) =
      if ltb (length (codes label)) (2 ^ 32) then short_labels ps else false

  -- The messages of a proof of the type `kind`, all points.
  abbrev pub typed : String → List (String × g.Point) → List (String × Bytes)
  typed kind ps = ("proof_type", codes kind) ∷ marshalled ps

  -- Whatever the hash function, the challenge is made from the hash of `input`.
  abbrev pub IsHashOf : Bytes → ((Bytes → Bytes) → g.Scalar) → Type 0
  IsHashOf input challenge =
      (keccak : Bytes → Bytes) → challenge keccak ≡ g.set_bytes (keccak input)

module _ (g : Gnark) (F : IsLawfulFormat g) where
  pub marshal-injective :
      (p q : g.Point)
      → g.is_on_curve p ≡ true
      → g.is_on_curve q ≡ true
      → g.marshal p ≡ g.marshal q
      → p ≡ q
  marshal-injective p q hp hq e =
      let read : (r : g.Point) → g.is_on_curve r ≡ true → g.unmarshal (g.marshal r) ≡ some r =
        λ r on.
          (F.unmarshal_iff (g.marshal r) r (F.length-marshal r) (F.marshal-IsUncompressed r on)).1
            (refl, on) in
      some-injective p q (sym (read p hp) ∙ ap g.unmarshal e ∙ read q hq)

  pub marshalled-IsShort :
      (ps : List (String × g.Point)) → short_labels g ps ≡ true → IsShort (marshalled g ps)
  marshalled-IsShort [] h = tt
  marshalled-IsShort ((label, p) ∷ ps) h =
      let (short, rest) = (and_then_iff _ _ (ltb_iff _ _) (λ e. e, λ e. e)).0 h in
      (short, omega (arith, F.length-marshal p), marshalled-IsShort ps rest)

  length-marshalled : (ps : List (String × g.Point)) → length (marshalled g ps) ≡ length ps
  length-marshalled [] = refl
  length-marshalled ((label, p) ∷ ps) = omega (arith, length-marshalled ps)

  pub marshalled-injective :
      (ps qs : List (String × g.Point))
      → AllOnCurve g (points g ps)
      → AllOnCurve g (points g qs)
      → messages (marshalled g ps) ≡ messages (marshalled g qs)
      → points g ps ≡ points g qs
  marshalled-injective [] [] hp hq e = refl
  marshalled-injective [] (q ∷ qs) hp hq e = absurd (cc)
  marshalled-injective (p ∷ ps) [] hp hq e = absurd (cc)
  marshalled-injective ((l, p) ∷ ps) ((k, q) ∷ qs) (hp, hps) (hq, hqs) e =
      let here : g.marshal p ≡ g.marshal q = cc in
      let rest : messages (marshalled g ps) ≡ messages (marshalled g qs) = cc in
      ap₂ (λ r rs. r ∷ rs) (marshal-injective p q hp hq here)
        (marshalled-injective ps qs hps hqs rest)

  -- The points of a proof are determined by what its challenge hashes.
  pub typed-injective :
      (label kind : String) (t : Transcript) (ps qs : List (String × g.Point))
      → length ps ≡ length qs
      → length (codes kind) < 2 ^ 32
      → short_labels g ps ≡ true
      → short_labels g qs ≡ true
      → AllOnCurve g (points g ps)
      → AllOnCurve g (points g qs)
      → hashed label (append_all (typed g kind ps) t)
        ≡ hashed label (append_all (typed g kind qs) t)
      → points g ps ≡ points g qs
  typed-injective label kind t ps qs h hk hp hq on on' e =
      let size : length (typed g kind ps) ≡ length (typed g kind qs) =
        omega (arith, length-marshalled ps, length-marshalled qs) in
      let same : messages (typed g kind ps) ≡ messages (typed g kind qs) =
        hashed-injective label t (typed g kind ps) (typed g kind qs) size
          (omega arith, hk, marshalled-IsShort ps hp) (omega arith, hk, marshalled-IsShort qs hq)
          e in
      let rest : messages (marshalled g ps) ≡ messages (marshalled g qs) = cc in
      marshalled-injective ps qs on on' rest
