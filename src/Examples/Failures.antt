-- ===== src/Examples/Failures.antt =====
-- Runs of `classifyProviderError` of apps/worker/src/adapters/error-classifier.ts and of
-- `executeWithRetries` of apps/worker/src/adapters/gemini-adapter.ts.
use falseroute.Prelude.{
  ℕ, suc, ◌+◌, ◌≤◌, ◌<◌, ◌==◌, ◌≡◌, refl, String, Text, codes, text_eq, starts_with, includes,
  decimal, true, false, ◌&&◌, Option, none, some, [], ◌∷◌, leb, if◌then◌else◌,
}
use falseroute.Provider.Classifier.{
  transient, timed_out, request_timeout, answer, Thrown, thrown_object, is_word, starts_with_word,
  after_three, match_status, status_in, extract_http_status, raw_message, error_code, is_abort,
  by_schema, by_cancellation, by_status, by_code, by_message, classify_provider_error,
}
use falseroute.Provider.Retry.{
  RetryPolicy, Turn, answered, failed, enriched, power, minimum, calculate_delay, after_failure,
  attempts, execute_with_retries,
}
use falseroute.Provider.Retry.Termination.{MayPass, execute_with_retries-bound}

-- Lower case, for the letters of ASCII.
unfoldable lower_ascii : Text → Text
lower_ascii [] = []
lower_ascii (c ∷ s) = (if leb b'A' c && leb c b'Z' then c + 32 else c) ∷ lower_ascii s

abbrev failure : String → Option ℕ → Thrown
failure message status = thrown_object (record {
  is_error = true;
  is_zod_error = false;
  is_syntax_error = false;
  name = some (codes "Error");
  code = some (codes "ECONNRESET");
  message = some (codes message);
  status = status;
  status_code = none;
  response_status = none;
})

-- A status that is not handled leaves the decision to the words of the message.
other_status_retried :
    classify_provider_error lower_ascii (
      thrown_object (record {
        is_error = true;
        is_zod_error = false;
        is_syntax_error = false;
        name = none;
        code = none;
        message = some (codes "Timeout");
        status = some 422;
        status_code = none;
        response_status = none;
      }))
    ≡ answer transient true timed_out request_timeout (some 504)
unfolding classify_provider_error extract_http_status raw_message error_code is_abort by_schema
    by_cancellation by_status by_code by_message lower_ascii text_eq includes starts_with
other_status_retried = refl

-- Two retries; the first dispatch meets a server error, and the second one is answered.
abbrev two_retries : RetryPolicy
two_retries = record {
  max_retries = 2;
  initial_delay_ms = 200;
  max_delay_ms = 1000;
  backoff_multiplier = 2;
}

abbrev recovering : ℕ → Turn ℕ
recovering n = record {
  started_at = 1000;
  is_aborted = false;
  is_permitted = true;
  response = if n == 0 then failed (failure "Error 503" none) else answered 7;
  failed_at = 1500;
  drawn = 500;
  sleep_error = none;
}

recovers :
    execute_with_retries two_retries lower_ascii 9000 recovering
    ≡ record { enrichment = enriched 7; dispatches = 2 }
unfolding execute_with_retries attempts after_failure calculate_delay minimum power
    classify_provider_error extract_http_status raw_message lower_ascii text_eq includes starts_with
    by_schema by_cancellation by_status by_code by_message error_code is_abort match_status
    after_three status_in starts_with_word is_word decimal
recovers = refl

execute_with_retries-bound_example :
    ((execute_with_retries two_retries lower_ascii 9000 recovering).dispatches ≤ 2 + 1)
    × ((k : ℕ)
        → suc k < (execute_with_retries two_retries lower_ascii 9000 recovering).dispatches
        → MayPass two_retries lower_ascii 9000 k (recovering k))
execute_with_retries-bound_example =
    execute_with_retries-bound two_retries lower_ascii 9000 recovering
