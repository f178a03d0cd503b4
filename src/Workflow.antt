-- ===== src/Workflow.antt =====
-- The provider intents, tool operations, receipts and dead letters of
-- packages/database/src/repositories/autonomous-workflow-repository.ts.
pub mod Intents
pub mod Status
pub mod Register
pub mod Operations
pub mod Ambiguous
pub mod DeadLetters
