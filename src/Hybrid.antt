-- ===== src/Hybrid.antt =====
-- agent/hybrid.py: when a model may be asked, and the fail-closed verification of what it proposes.
pub mod Types
pub mod Gate
pub mod Claims
pub mod Verifier
pub mod Stages
pub mod Grounding
