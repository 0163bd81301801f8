-- ===== src/Transcript.antt =====
-- transcript.go: the Fiat-Shamir transcript. Keccak256 is a parameter. A transcript is its state.
pub mod Framing
pub mod Binding
use elgamal_bn.Common.{ℕ, String, Bytes, length, Option, none, some, ◌++◌}
use elgamal_bn.Common.Encoding.{codes, le_bytes}
use elgamal_bn.Gnark.{Gnark}

pub record Transcript : Type 0 where
  pub state : Bytes

-- `uint32(len(b))` in four bytes, then the bytes.
abbrev pub framed : Bytes → Bytes
framed b = le_bytes 4 (length b) ++ b

unfoldable pub new_transcript : String → Transcript
new_transcript domain = record { state = framed (codes domain) }

unfoldable pub append_bytes : String → Bytes → Transcript → Transcript
append_bytes label content t = record {
  state = ((t.state ++ framed (codes label)) ++ framed content);
}

-- The domain of the transcript that a prover or a verifier makes where it is given nil.
abbrev pub default_transcript : Transcript
default_transcript = new_transcript "x/confidential/v1"

-- The transcript that a prover or a verifier works on.
abbrev pub opened : Option Transcript → Transcript
opened none = default_transcript
opened (some t) = t

-- The caller's transcript after the call: it has been written in place, if there is one.
abbrev pub written : Option Transcript → Transcript → Option Transcript
written none t = none
written (some _) t = some t

module _ (g : Gnark) where
  unfoldable pub append_point : String → g.Point → Transcript → Transcript
  append_point label p t = append_bytes label (g.marshal p) t

  unfoldable pub append_scalar : String → g.Scalar → Transcript → Transcript
  append_scalar label s t = append_bytes label (g.bytes s) t

  -- The challenge, and the transcript that has absorbed it.
  unfoldable pub challenge_scalar : (Bytes → Bytes) → String → Transcript → g.Scalar × Transcript
  challenge_scalar keccak label t =
      let state' = t.state ++ framed (codes label) in
      let hash = keccak state' in (g.set_bytes hash, record { state = (state' ++ hash) })
