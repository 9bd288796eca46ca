-- ===== src/Policy.antt =====
-- agent/policy.py: the deterministic teaching policy. `Types` has its data, `Branches` what each
-- branch returns and `Rules` the ladder that chooses one; the proofs are in the other modules.
pub mod Types
pub mod Branches
pub mod Rules
pub mod Safety
pub mod Recursion
pub mod Raise
pub mod Difficulty
