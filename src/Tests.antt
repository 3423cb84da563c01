-- ===== src/Tests.antt =====
-- Concrete inputs at which the theorems apply, and runs of the definitions.
mod Samples
mod Sandbox
mod Services
mod Engine
mod Claims
mod Network
mod Transport
mod Targets
mod Sessions
mod Rows
mod Scans
mod Jobs
