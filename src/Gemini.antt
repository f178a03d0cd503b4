-- ===== src/Gemini.antt =====
-- The budget of model calls: apps/worker/src/services/gemini-budget-service.ts.
pub mod Gate
