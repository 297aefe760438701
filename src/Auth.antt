-- ===== src/Auth.antt =====
-- The auth service (backend/services/auth/internal).
pub mod Domain
pub mod Store
pub mod Team
pub mod Admins
pub mod Identity
pub mod Edits
pub mod Calls
pub mod AdminCalls
pub mod History
pub mod Sound
pub mod Owners
pub mod Audit
pub mod AuditUsers
pub mod Tokens
