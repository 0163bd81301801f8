-- ===== src/Lib.antt =====
-- elgamal-bn254: exponential ElGamal encryption of amounts over BN254's G1, with the zero-knowledge
-- proofs of a confidential-transfer module. Paths are from the repository's root.
--
-- The parts, and the files that model them:
--   Gnark        what the code takes from gnark-crypto (`fr.Element`, `bn254.G1Affine`,
--                `bn254.G1Jac`), as a record of operations `Gnark` and a record of laws `IsLawful`.
--                Scalars are the numbers modulo the group order, the points of the curve are the
--                multiples of the generator. Gnark/Group has arithmetic in the exponent and
--                `jacobian_sum` (`addAffine`, and the same three Jacobian calls written in line
--                elsewhere); Gnark/Sigma has the equations of the proofs; Gnark/Residues is a
--                concrete instance, which shows that the laws can hold and runs the examples.
--   Ciphertext   ciphertext.go: `Ciphertext`, `IsZero`, `Validate`, `ValidatePublicKey`.
--   Random       `randomScalar` of elgamal.go. `Random` is `io.Reader` with `rand.Int`; `Rng` holds
--                the caller's reader, which may be nil, and the system's, and is passed along.
--   Elgamal      elgamal.go: `KeyGen`, `Encrypt`, `EncryptWithRandomness`, `Decrypt`, `Add`, `Sub`.
--                `Decrypt` takes a table through its interface `Decryptor`, a function here.
--   Table        decryption_table.go: `NewDecryptionTable`, `NewDecryptionTableWithBase` and
--                `DiscreteLog`, baby steps and giant steps. The Go map is an association list.
--   Split        split_decryption.go: the two-layer table, whose high layer is a `Table`.
--   Transcript   transcript.go: the Fiat-Shamir transcript. `Keccak256` is the parameter `keccak`.
--   Dleq, Pop, CommitmentEquality, ApplyPending, Equality
--                dleq.go, pop.go, commitment_equality.go, apply_pending_proof.go and equality.go. In
--                each, `prove_…` and `verify_…` are the Go functions; the challenge, the prover's
--                part after the nonces and the verifier's equations are definitions of their own.
--                Equality/Rows has the loops over the keys that Equality/Three (`EqualityProof`) and
--                Equality/Two (`Equality2Proof`) share. The children Verification, Completeness and
--                Soundness say what is accepted, Binding what the challenge depends on.
--   Serialization  serialization.go, with `Marshal` and `Unmarshal` of ciphertext.go and pop.go. Common/
--                Buffers has slices and `copy`. `IsLawfulFormat` (Gnark/Format) is what is taken from
--                gnark-crypto's byte formats. `Unmarshal` returns the value it fills in.
--   Memo         memo.go: `deriveMemoKey`, `memoAAD`, `EncryptMemo`, `DecryptMemo`. `Symmetric` holds
--                HKDF, AES-GCM and the system's randomness, `IsLawfulSymmetric` what is taken of them.
--   Examples     runs over concrete external code, and the theorems at concrete inputs.
--
-- Conventions:
--   * A Go call returns a `Result` (Common/Results): a value, an error or a panic.
--   * A pointer is an `Option` where the code compares it with nil, or gives it to a function that
--     does; other pointers are plain values. A caller's transcript is written in place: provers and
--     verifiers return it, and a transcript that they make themselves is dropped.
--   * `uint64` results carry their `% 2 ^ 64`; amounts that come in as `uint64` are numbers.
--   * The rounds of a loop are a structural argument, as large as the Go loop's bound, so a loop ends
--     exactly where Go's does; no other fuel is used.
--   * Lengths are written by `uint32`, which wraps at 2 ^ 32 (`le_bytes 4`).
--
-- Assumptions. `IsLawful` states what gnark-crypto documents: field arithmetic modulo the order, the
-- group law on points of the curve, cofactor 1. `HasInverses`, that the order is prime, is used for
-- soundness only. Soundness compares two accepting runs with the same nonce commitments under two hash
-- functions, the usual rewinding of the prover. `VerifyDLEQ`, `VerifyApplyPending` and the equality
-- verifiers do not test whether nonce commitments are on the curve (their decoder does); there soundness
-- assumes it.
--
-- Not modelled: what a failed `Unmarshal` leaves in its receiver; the texts of panics; Keccak, HKDF,
-- AES-GCM, curve and field arithmetic, which are not in the repository; tests and benchmarks.
pub mod Common
pub mod Gnark
pub mod Ciphertext
pub mod Random
pub mod Elgamal
pub mod Transcript
pub mod Dleq
pub mod Table
pub mod Split
pub mod Pop
pub mod CommitmentEquality
pub mod ApplyPending
pub mod Equality
pub mod Serialization
pub mod Memo
mod Examples
