-- ===== src/Scans.antt =====
-- Scans from their request to their report: backend/src/domain/scans and the repositories it uses.
pub mod Lifecycle
pub mod Store
pub mod Requests
pub mod Findings
pub mod Inputs
pub mod Job
pub mod Worker
pub mod Attestations
pub mod Comparison
pub mod Audit
