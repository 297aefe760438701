-- ===== src/Order.antt =====
-- The order service (backend/services/order/internal).
pub mod Discount
pub mod Cancellation
pub mod Payment
