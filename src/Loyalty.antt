-- ===== src/Loyalty.antt =====
-- The loyalty service (backend/services/loyalty): point accounts, the ledger, reservations,
-- cancellation and expiry.
pub mod Domain
pub mod Store
pub mod Service
pub mod Earn
pub mod Reserve
pub mod Commit
pub mod Cancel
pub mod Buckets
pub mod Expire
pub mod Invariant
pub mod Keeps
pub mod History
pub mod Blocked
pub mod Replay
