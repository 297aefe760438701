-- ===== src/Tests.antt =====
-- Runs on concrete data, and each theorem at a concrete input.
mod LoyaltyRuns
mod CouponRuns
mod StockRuns
mod OrderRuns
mod AuthRuns
mod PaymentRuns
mod TokenRuns
