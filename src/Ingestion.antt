-- ===== src/Ingestion.antt =====
-- ingestion/: the validation of two-line elements and their storage.
pub mod Store
pub mod Tle
pub mod Fetch
pub mod Seed
