-- ===== src/Sessions.antt =====
-- Refresh credentials: backend/src/domain/users/refresh_service.py and
-- backend/src/infrastructure/database/repositories/refresh_session_repository.py.
pub mod Store
pub mod Refresh
