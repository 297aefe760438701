-- ===== src/Order/Cancellation.antt =====
-- The cancellation of orders (backend/services/order/internal/cancellation).
pub mod Domain
pub mod Store
pub mod Service
pub mod Steps
pub mod Writes
pub mod Invariants
pub mod Approval
pub mod Lookups
pub mod Undisturbed
