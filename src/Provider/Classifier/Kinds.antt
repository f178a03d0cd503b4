-- ===== src/Provider/Classifier/Kinds.antt =====
-- The kinds that `classifyProviderError` of apps/worker/src/adapters/error-classifier.ts lets be retried.
use falseroute.Prelude.{
  ℕ, Text, ◌≡◌, refl, Bool, true, false, not, Option, none, some, arith, get_or,
}
use falseroute.Provider.Classifier.{
  ProviderErrorKind, transient, ClassifiedProviderError, Thrown, thrown_object, thrown_text,
  thrown_other, or_else, extract_http_status, raw_message, error_code, is_abort, by_schema,
  by_cancellation, by_status, by_code, by_message, unclassified, classify_provider_error,
}

abbrev pub is_transient : ProviderErrorKind → Bool
is_transient transient = true
is_transient _ = false

abbrev same : Bool → Bool → Bool
same true b = b
same false b = not b

-- The answer, if there is one, is retriable exactly when its kind is transient.
abbrev agrees : Option ClassifiedProviderError → Bool
agrees none = true
agrees (some c) = same c.is_retriable (is_transient c.kind)

agrees-or_else :
    (o other : Option ClassifiedProviderError)
    → agrees o ≡ true
    → agrees other ≡ true
    → agrees (or_else o other) ≡ true
agrees-or_else none other h h' = h'
agrees-or_else (some c) other h h' = h

schema_agrees : (err : Thrown) → agrees (by_schema err) ≡ true
unfolding by_schema
schema_agrees (thrown_object o) = ground arith
schema_agrees (thrown_text s) = refl
schema_agrees thrown_other = refl

cancellation_agrees :
    (message : Text) (aborts : Bool) → agrees (by_cancellation message aborts) ≡ true
unfolding by_cancellation
cancellation_agrees message aborts = ground arith

status_agrees : (n : Option ℕ) → agrees (by_status n) ≡ true
unfolding by_status
status_agrees none = refl
status_agrees (some n) = ground arith

code_agrees : (code : Text) (aborts : Bool) → agrees (by_code code aborts) ≡ true
unfolding by_code
code_agrees code aborts = ground arith

message_agrees : (message : Text) → agrees (by_message message) ≡ true
unfolding by_message
message_agrees message = ground arith

unclassified-agrees :
    (o : Option ClassifiedProviderError) (n : Option ℕ)
    → agrees o ≡ true
    → (get_or o (unclassified n)).is_retriable ≡ is_transient (get_or o (unclassified n)).kind
unfolding unclassified
unclassified-agrees none none h = refl
unclassified-agrees none (some n) h = refl
unclassified-agrees (some c) n h = ground arith

-- An error is retriable exactly when it is classified as transient, whatever was thrown.
classify-is_transient :
    (lower : Text → Text) (err : Thrown)
    → (classify_provider_error lower err).is_retriable
      ≡ is_transient (classify_provider_error lower err).kind
unfolding classify_provider_error
classify-is_transient lower err =
    let message = lower (raw_message err) in
    unclassified-agrees _ (extract_http_status err) (
      agrees-or_else (by_schema err) _ (schema_agrees err) (
        agrees-or_else (by_cancellation message (is_abort err)) _
          (cancellation_agrees message (is_abort err))
          (agrees-or_else (by_status (extract_http_status err)) _
            (status_agrees (extract_http_status err))
            (agrees-or_else (by_code (error_code err) (is_abort err)) _
              (code_agrees (error_code err) (is_abort err)) (message_agrees message)))))
