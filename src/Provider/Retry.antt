-- ===== src/Provider/Retry.antt =====
-- `calculateDelay` of apps/worker/src/adapters/retry-policy.ts and `executeWithRetries` of
-- apps/worker/src/adapters/gemini-adapter.ts. What the loop meets in its turn number `n` is a value
-- of `Turn`: the times that it reads, the answer of the gate and that of the model, the number that
-- `randomFn` draws, and whether the sleep is aborted.
pub mod Termination
use falseroute.Prelude.{
  ℕ, zero, suc, ◌+◌, ◌*◌, ◌/◌, ◌≡◌, refl, Text, Bool, true, false, ◌||◌, not, Option, none, some,
  List, [], ◌∷◌, leb, if◌then◌else◌, get_or, arith,
}
use falseroute.Provider.Classifier.{
  Thrown, ClassifiedProviderError, ProviderStatus, timed_out, invalid_output, unavailable,
  SanitizedReason, classify_provider_error,
}

pub record RetryPolicy : Type 0 where
  pub max_retries : ℕ
  pub initial_delay_ms : ℕ
  pub max_delay_ms : ℕ
  pub backoff_multiplier : ℕ

unfoldable pub power : ℕ → ℕ → ℕ
power b zero = 1
power b (suc n) = b * power b n

unfoldable pub minimum : ℕ → ℕ → ℕ
minimum a b = if leb a b then a else b

-- `drawn` is what `randomFn` draws, in thousandths: the factor of the jitter is 1 + drawn / 5000.
unfoldable pub calculate_delay : RetryPolicy → (attempt drawn : ℕ) → ℕ
calculate_delay p attempt drawn =
    let base = minimum p.max_delay_ms (p.initial_delay_ms * power p.backoff_multiplier attempt) in
    (base * (5000 + drawn) + 2500) / 5000

-- The answer of the model to one dispatch; a response that does not parse is a failure.
pub data Response {ℓ} (A : Type ℓ) : Type ℓ where
  answered : A → Response A
  answered_nothing : Response A
  failed : Thrown → Response A

pub record Turn {ℓ} (A : Type ℓ) : Type ℓ where
  pub started_at : ℕ
  pub is_aborted : Bool
  pub is_permitted : Bool
  pub response : Response A
  pub failed_at : ℕ
  pub drawn : ℕ
  pub sleep_error : Option Thrown

pub data DegradedReason : Type 0 where
  operation_deadline_exceeded empty_response_text retry_attempts_exhausted : DegradedReason
  attempt_budget_exhausted : Option ClassifiedProviderError → DegradedReason
  sanitized : SanitizedReason → DegradedReason

-- A promise that is rejected is `rejected`.
pub data ModelOutcome {ℓ} (A : Type ℓ) : Type ℓ where
  enriched : A → ModelOutcome A
  degraded_result : ProviderStatus → DegradedReason → ModelOutcome A
  rejected : Thrown → ModelOutcome A

-- The answer of the loop, and how many dispatches it made.
pub record Attempts {ℓ} (A : Type ℓ) : Type ℓ where
  pub enrichment : ModelOutcome A
  pub dispatches : ℕ

unfoldable pub build_degraded_result {ℓ} : {A : Type ℓ} → ClassifiedProviderError → ModelOutcome A
build_degraded_result c = degraded_result c.status (sanitized c.sanitized_reason)

unfoldable pub after_loop {ℓ} : {A : Type ℓ} → Option ClassifiedProviderError → ModelOutcome A
after_loop none = degraded_result unavailable retry_attempts_exhausted
after_loop (some c) = build_degraded_result c

module _ {ℓ} {A : Type ℓ} (p : RetryPolicy) (lower : Text → Text) (deadline_at : ℕ) where
  -- The `catch` of a failed dispatch; `later` is what the turns after it come to.
  unfoldable pub after_failure :
      (attempt : ℕ) → Turn A → ClassifiedProviderError → (later : Attempts A) → Attempts A
  after_failure attempt turn c later =
      if not c.is_retriable || leb p.max_retries attempt
      then record { enrichment = build_degraded_result c; dispatches = 1 }
      else if leb deadline_at (turn.failed_at + calculate_delay p attempt turn.drawn)
      then record { enrichment = build_degraded_result c; dispatches = 1 }
      else elim turn.sleep_error [
        | some e ↦ record { enrichment = rejected e; dispatches = 1 }
        | none ↦ record later { dispatches = later.dispatches + 1 }
      ]

  -- The turns from number `attempt` on, `left` of them.
  unfoldable pub attempts :
      (ℕ → Turn A) → (left attempt : ℕ) → Option ClassifiedProviderError → Attempts A
  attempts turns zero attempt last = record { enrichment = after_loop last; dispatches = 0 }
  attempts turns (suc left) attempt last =
      let turn = turns attempt in
      if leb deadline_at turn.started_at || turn.is_aborted
      then record {
        enrichment = degraded_result timed_out operation_deadline_exceeded;
        dispatches = 0;
      }
      else if not turn.is_permitted
      then record {
        enrichment = degraded_result unavailable (attempt_budget_exhausted last);
        dispatches = 0;
      }
      else elim turn.response [
        | answered a ↦ record { enrichment = enriched a; dispatches = 1 }
        | answered_nothing ↦ record {
          enrichment = degraded_result invalid_output empty_response_text;
          dispatches = 1;
        }
        | failed e ↦
            let c = classify_provider_error lower e in
            after_failure attempt turn c (attempts turns left (suc attempt) (some c))
      ]

  unfoldable pub execute_with_retries : (ℕ → Turn A) → Attempts A
  execute_with_retries turns = attempts turns (suc p.max_retries) 0 none
