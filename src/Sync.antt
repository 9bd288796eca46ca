-- ===== src/Sync.antt =====
-- app/sync: the offline sync protocol. A store holds the rows that the current tenant sees; what
-- other tenants own shows only as a violated unique constraint.
pub mod Types
pub mod Scoring
pub mod Rows
pub mod Evidence
pub mod Apply
pub mod Answers
pub mod Handlers
pub mod Batch
pub mod Service
pub mod Frame
pub mod Steps
pub mod Delivery
pub mod Guarantees
pub mod Redelivery
pub mod Attempts
pub mod Weights
pub mod Packs
pub mod Handed
