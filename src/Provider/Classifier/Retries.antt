-- ===== src/Provider/Classifier/Retries.antt =====
-- Which errors `classifyProviderError` of apps/worker/src/adapters/error-classifier.ts refuses to retry.
use falseroute.Prelude.{ℕ, Text, Bool, false, ◌||◌, not, Option, none, some, [], ◌∷◌, ◌==◌}
use falseroute.Provider.Classifier.{
  ClassifiedProviderError, Thrown, thrown_object, is_named, has_word,
}

-- The answer, if there is one, is not retriable.
abbrev refuses : Option ClassifiedProviderError → Bool
refuses none = false
refuses (some c) = not c.is_retriable

-- Statuses by which the provider refuses a request.
abbrev pub is_refusal : Option ℕ → Bool
is_refusal none = false
is_refusal (some n) = n == 400 || (n == 401 || (n == 403 || n == 404))

abbrev pub is_schema_error : Thrown → Bool
is_schema_error (thrown_object o) =
    (o.is_zod_error || is_named "ZodError" o.name)
    || (o.is_syntax_error || is_named "SyntaxError" o.name)
is_schema_error _ = false

abbrev pub is_cancelled : Text → Bool
is_cancelled message =
    has_word message ("operation deadline" ∷ "overall deadline" ∷ "cancelled" ∷ "canceled" ∷ [])
