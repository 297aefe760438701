-- ===== src/Coupon.antt =====
-- The coupon service (backend/services/coupon).
pub mod Domain
pub mod Store
pub mod Redemptions
pub mod Reserve
pub mod Refund
pub mod Admin
pub mod Discount
pub mod Limit
pub mod Rules
pub mod Reads
pub mod Seats
pub mod Unrefunded
pub mod Unread
