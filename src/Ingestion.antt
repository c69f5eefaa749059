-- ===== src/Ingestion.antt =====
-- application/ingestion.py: the ingestion service.
pub mod Policy
pub mod Charges
pub mod Summary
pub mod Staging
pub mod Ports
pub mod World
pub mod Download
pub mod Service
