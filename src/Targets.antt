-- ===== src/Targets.antt =====
-- Targets: registration of what may be scanned (backend/src/domain/targets).
pub mod Urls
pub mod Normalization
pub mod Registry
