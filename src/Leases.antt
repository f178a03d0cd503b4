-- ===== src/Leases.antt =====
-- The leases of provider resources: packages/database/src/repositories/lease-repository.ts,
-- packages/database/src/repositories/emergency-release-repository.ts and
-- packages/database/src/repositories/unsettled-leases.ts.
pub mod Store
pub mod Cleanup
pub mod Counts
pub mod Emergency
pub mod Settlement
pub mod Fencing
pub mod History
pub mod Sweeps
