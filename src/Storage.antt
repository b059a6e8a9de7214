-- ===== src/Storage.antt =====
-- The stored formats of datasets and run plans (vigilo/src/contracts/case_storage): limits, object
-- references, interval indexes, chunk pages, gate-count chains and the two manifests.
pub mod Limits
pub mod Object
pub mod Index
pub mod Batch
pub mod BatchReader
pub mod Chunks
pub mod Gates
pub mod Manifest
