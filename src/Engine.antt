-- ===== src/Engine.antt =====
-- The engine that analyses one HTTP response: backend/src/domain/scanning/findings.py and
-- backend/src/scanning/engines/http_analysis.py.
pub mod Findings
pub mod Headers
pub mod Cookies
pub mod Analysis
pub mod Closed
pub mod Bounded
pub mod Traced
pub mod Cuts
pub mod Secrets
