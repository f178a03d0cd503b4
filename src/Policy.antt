-- ===== src/Policy.antt =====
-- The decisions of the worker: apps/worker/src/domain/autonomous-policy.ts,
-- apps/worker/src/domain/policy-engine.ts and apps/worker/src/tools/tool-policy.ts.
pub mod Tools
pub mod Canonical
pub mod Autonomous
pub mod Plans
pub mod Deception
