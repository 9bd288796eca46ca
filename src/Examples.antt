-- ===== src/Examples.antt =====
-- Concrete runs of the models, on which the theorems apply.
mod Sync
mod Policy
mod Outbox
mod Worker
mod Deletion
mod Memory
mod Learner
mod Hybrid
mod Agent
mod Tenants
mod Lessons
