-- ===== src/Order/Payment.antt =====
-- Payment of orders (backend/services/order/internal/app/order_service.go).
pub mod Store
pub mod Handler
pub mod Keeps
pub mod Once
pub mod Skipped
pub mod Announced
pub mod Published
pub mod Stale
