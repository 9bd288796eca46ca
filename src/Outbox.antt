-- ===== src/Outbox.antt =====
-- memory/outbox.py, memory/worker.py and memory/tenant_dispatcher.py: the transactional outbox and the delivery of its rows. A
-- table is the list of the rows of the current tenant; a time is in seconds; the values that `uuid4`
-- draws are arguments.
pub mod Rows
pub mod Repository
pub mod Selection
pub mod Claims
pub mod Fencing
pub mod Retries
pub mod Lifecycle
pub mod Worker
pub mod Delivery
pub mod Diagnostics
pub mod Batches
pub mod Students
pub mod Termination
pub mod Dispatcher
pub mod Distinct
pub mod Records
pub mod Tenants
