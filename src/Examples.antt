-- ===== src/Examples.antt =====
-- The theorems at concrete inputs, and runs of the operations.
mod Ledger
mod Settlements
mod Responses
mod Limiters
mod Failures
mod Payloads
mod Leases
mod Workflow
mod Gemini
