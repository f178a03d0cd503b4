-- ===== src/Provider.antt =====
-- Errors of the model provider, and the attempts of a call: apps/worker/src/adapters/error-classifier.ts,
-- apps/worker/src/adapters/retry-policy.ts and apps/worker/src/adapters/gemini-adapter.ts.
pub mod Classifier
pub mod Retry
