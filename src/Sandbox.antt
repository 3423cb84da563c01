-- ===== src/Sandbox.antt =====
-- The sandbox that a scan runs in, and the executor that stands it up and tears it down:
-- backend/src/scanning.
pub mod Commands
pub mod Rules
pub mod Docker
pub mod Services
pub mod Executor
