-- ===== src/Auth/Tokens.antt =====
-- The API tokens of sellers (backend/services/auth/internal/app/credential.go).
pub mod Text
pub mod Draws
pub mod Store
pub mod Service
pub mod RoundTrip
pub mod Dead
pub mod Revoked
