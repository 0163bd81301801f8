-- ===== src/Transcript/Framing.antt =====
-- The framing of the transcript is unambiguous.
use elgamal_bn.Common.{
  ℕ, zero, suc, String, Bytes, length, ◌/◌, ◌%◌, ◌^◌, ◌<◌, ◌≡◌, ◌∙◌, sym, ap, refl, arith,
}
use elgamal_bn.Common.{List, [], ◌∷◌, ◌++◌}
use mathlib.Core.List.{append_assoc, append-nil}
use mathlib.Core.Path.{ap₂}
use native.Mathlib.Nat.{pow-suc}
use elgamal_bn.Common.Encoding.{codes, le_bytes, length-le_bytes}
use elgamal_bn.Transcript.{Transcript, framed, new_transcript, append_bytes}

-- Equal concatenations with first parts of one length agree in both parts.
pub append-injective {ℓ} :
    {A : Type ℓ} (xs ys us vs : List A)
    → length xs ≡ length ys
    → xs ++ us ≡ ys ++ vs
    → (xs ≡ ys) × (us ≡ vs)
append-injective [] [] us vs h e = (refl, e)
append-injective [] (y ∷ ys) us vs h e = absurd (omega arith)
append-injective (x ∷ xs) [] us vs h e = absurd (omega arith)
append-injective (x ∷ xs) (y ∷ ys) us vs h e =
    let tails = append-injective xs ys us vs (omega arith) (cc) in (cc, tails.1)

quotient-lt : (k m : ℕ) → m < 256 ^ suc k → m / 256 < 256 ^ k
quotient-lt k m h = omega (arith, pow-suc 256 k)

pub le_bytes-injective :
    (k m n : ℕ) → m < 256 ^ k → n < 256 ^ k → le_bytes k m ≡ le_bytes k n → m ≡ n
unfolding le_bytes
le_bytes-injective zero m n hm hn e = omega arith
le_bytes-injective (suc k) m n hm hn e =
    let head : m % 256 ≡ n % 256 = cc in
    let tail : le_bytes k (m / 256) ≡ le_bytes k (n / 256) = cc in
    let rest =
      le_bytes-injective k (m / 256) (n / 256) (quotient-lt k m hm) (quotient-lt k n hn) tail in
    omega arith

-- A frame can be read back from whatever follows it.
pub framed-injective :
    (b c us vs : Bytes)
    → length b < 2 ^ 32
    → length c < 2 ^ 32
    → framed b ++ us ≡ framed c ++ vs
    → (b ≡ c) × (us ≡ vs)
framed-injective b c us vs hb hc e =
    let prefix =
      append-injective (le_bytes 4 (length b)) (le_bytes 4 (length c)) (b ++ us) (c ++ vs)
        (length-le_bytes 4 (length b) ∙ sym (length-le_bytes 4 (length c)))
        (sym (append_assoc (le_bytes 4 (length b)) b us)
          ∙ e
          ∙ append_assoc (le_bytes 4 (length c)) c vs) in
    append-injective b c us vs (le_bytes-injective 4 (length b) (length c) hb hc prefix.0) prefix.1

-- A sequence of `AppendBytes` calls.
unfoldable pub append_all : List (String × Bytes) → Transcript → Transcript
append_all [] t = t
append_all ((label, content) ∷ ms) t = append_all ms (append_bytes label content t)

-- What such a sequence says, and the bytes that it writes.
abbrev pub messages : List (String × Bytes) → List (Bytes × Bytes)
messages [] = []
messages ((label, content) ∷ ms) = (codes label, content) ∷ messages ms

abbrev pub body : List (String × Bytes) → Bytes
body [] = []
body ((label, content) ∷ ms) = framed (codes label) ++ (framed content ++ body ms)

-- `uint32(len(…))` keeps the length of every label and content.
abbrev pub IsShort : List (String × Bytes) → Type 0
IsShort [] = Unit
IsShort ((label, content) ∷ ms) =
    (length (codes label) < 2 ^ 32) × (length content < 2 ^ 32) × IsShort ms

pub append_all-body :
    (ms : List (String × Bytes)) (t : Transcript) → (append_all ms t).state ≡ t.state ++ body ms
unfolding append_all append_bytes
append_all-body [] t = sym (append-nil t.state)
append_all-body ((label, content) ∷ ms) t =
    append_all-body ms (append_bytes label content t)
    ∙ append_assoc (t.state ++ framed (codes label)) (framed content) (body ms)
    ∙ append_assoc t.state (framed (codes label)) (framed content ++ body ms)

body-injective :
    (ms ns : List (String × Bytes))
    → IsShort ms
    → IsShort ns
    → body ms ≡ body ns
    → messages ms ≡ messages ns
body-injective [] [] hm hn e = refl
body-injective [] ((label, content) ∷ ns) hm hn e = unfold le_bytes in absurd (cc)
body-injective ((label, content) ∷ ms) [] hm hn e = unfold le_bytes in absurd (cc)
body-injective ((label, content) ∷ ms) ((label', content') ∷ ns) (h1, h2, hm) (j1, j2, hn) e =
    let (same_label, rest) =
      framed-injective (codes label) (codes label') (framed content ++ body ms)
        (framed content' ++ body ns) h1 j1 e in
    let (same_content, tails) = framed-injective content content' (body ms) (body ns) h2 j2 rest in
    ap₂ (λ m ms. m ∷ ms) (λ i. (same_label i, same_content i)) (body-injective ms ns hm hn tails)

-- Two transcripts, each made by `NewTranscript` and a sequence of `AppendBytes` calls, have the same
-- state only if the domains and the sequences agree, as byte strings; all lengths are below 2^32.
pub append_all-injective :
    (domain domain' : String) (ms ns : List (String × Bytes))
    → length (codes domain) < 2 ^ 32
    → length (codes domain') < 2 ^ 32
    → IsShort ms
    → IsShort ns
    → append_all ms (new_transcript domain) ≡ append_all ns (new_transcript domain')
    → (codes domain ≡ codes domain') × (messages ms ≡ messages ns)
unfolding new_transcript
append_all-injective domain domain' ms ns hd hd' hm hn e =
    let bodies =
      sym (append_all-body ms (new_transcript domain))
      ∙ ap (λ t. t.state) e
      ∙ append_all-body ns (new_transcript domain') in
    let (same, rest) =
      framed-injective (codes domain) (codes domain') (body ms) (body ns) hd hd' bodies in
    (same, body-injective ms ns hm hn rest)
