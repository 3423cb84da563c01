-- ===== src/Network.antt =====
-- The scan-time network security chain: backend/src/domain/scanning and backend/src/scanning.
pub mod IpAddress
pub mod IpPolicy
pub mod Binding
pub mod Resolution
pub mod Contract
pub mod Redirects
pub mod Transport
