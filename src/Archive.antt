-- ===== src/Archive.antt =====
-- adapters/archive: the raw archive.
pub mod Keys
