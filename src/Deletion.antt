-- ===== src/Deletion.antt =====
-- memory/deletion.py: the deletion of a student, from the request to the verified end. A store is
-- what the tables of one tenant hold.
pub mod Store
pub mod Steps
pub mod Moves
pub mod Consistency
pub mod Erasure
pub mod Protocol
