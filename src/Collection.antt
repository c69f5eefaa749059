-- ===== src/Collection.antt =====
-- application/collection.py and application/models.py: how a source's files are collected.
pub mod Budget
pub mod Ledger
pub mod Reservation
pub mod Pages
pub mod Policy
pub mod Checkpoint
pub mod Traversal
