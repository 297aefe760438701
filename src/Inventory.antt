-- ===== src/Inventory.antt =====
-- The inventory service (backend/services/inventory).
pub mod Store
pub mod Service
pub mod Counts
pub mod Conserved
pub mod Redelivery
