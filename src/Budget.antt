-- ===== src/Budget.antt =====
-- The durable budget: packages/database/src/repositories/budget-repository.ts.
pub mod Store
pub mod Reserve
pub mod Slot
pub mod Settle
pub mod Expiry
pub mod Ledger
