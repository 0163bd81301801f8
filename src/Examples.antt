-- ===== src/Examples.antt =====
-- Concrete external code, runs of the development over it, and the theorems at concrete inputs.
mod Setting
mod Amounts
mod Proofs
mod EqualityTwo
mod EqualityThree
mod Pending
mod Commitment
mod Possession
mod Encodings
mod Memos
mod Challenges
