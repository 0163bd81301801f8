-- ===== src/Equality.antt =====
-- equality.go: the proofs that ciphertexts under three or two keys encrypt one amount.
pub mod Rows
pub mod Three
pub mod Two
