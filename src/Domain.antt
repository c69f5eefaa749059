-- ===== src/Domain.antt =====
-- domain/: the errors, the enumerations and the records that the services share.
pub mod Errors
pub mod Status
pub mod Gtin
pub mod Values
pub mod Documents
pub mod Remote
