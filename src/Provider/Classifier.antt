-- ===== src/Provider/Classifier.antt =====
-- `extractHttpStatus` and `classifyProviderError` of
-- apps/worker/src/adapters/error-classifier.ts. A number is a natural one, and a text is the list of
-- its code units; `lower` is `toLowerCase`, which the platform's Unicode tables give.
pub mod Kinds
pub mod Retries
use falseroute.Prelude.{
  ℕ, String, Text, codes, text_eq, starts_with, includes, decimal, Bool, true, false, ◌&&◌, ◌||◌,
  not, Option, none, some, List, [], ◌∷◌, leb, ◌==◌, if◌then◌else◌, any_where, get_or,
}

pub data ProviderErrorKind : Type 0 where
  transient schema_invalid auth_or_config client_error timeout cancelled : ProviderErrorKind
  concurrency_saturated terminal : ProviderErrorKind

pub data ProviderStatus : Type 0 where
  timed_out invalid_output unavailable degraded : ProviderStatus

-- The texts of `sanitizedReason`, by the status that they interpolate.
pub data SanitizedReason : Type 0 where
  schema_violated invalid_syntax deadline_exceeded request_cancelled : SanitizedReason
  request_timeout network_failure capacity_saturated upstream_failure : SanitizedReason
  invalid_argument access_failure not_found rate_limited server_error other_status :
      ℕ → SanitizedReason

pub record ClassifiedProviderError : Type 0 where
  pub kind : ProviderErrorKind
  pub is_retriable : Bool
  pub status : ProviderStatus
  pub sanitized_reason : SanitizedReason
  pub http_status : Option ℕ

-- An object that was thrown, by what is read of it; `message` and `name` are its texts, if they are.
pub record ThrownObject : Type 0 where
  pub is_error : Bool
  pub is_zod_error : Bool
  pub is_syntax_error : Bool
  pub name : Option Text
  pub code : Option Text
  pub message : Option Text
  pub status : Option ℕ
  pub status_code : Option ℕ
  pub response_status : Option ℕ

pub data Thrown : Type 0 where
  thrown_object : ThrownObject → Thrown
  thrown_text : Text → Thrown
  thrown_other : Thrown

-- `\w` of a regular expression.
unfoldable pub is_word : ℕ → Bool
is_word c =
    (leb b'0' c && leb c b'9')
    || ((leb b'A' c && leb c b'Z') || ((leb b'a' c && leb c b'z') || c == b'_'))

unfoldable pub starts_with_word : Text → Bool
unfolding is_word
starts_with_word [] = false
starts_with_word (c ∷ s) = is_word c

-- The first answer that there is.
abbrev pub or_else : {A : Type 0} → Option A → Option A → Option A
or_else none other = other
or_else (some a) other = some a

abbrev known_statuses : List ℕ
known_statuses = 400 ∷ 401 ∷ 403 ∷ 404 ∷ 429 ∷ 500 ∷ 502 ∷ 503 ∷ 504 ∷ []

unfoldable pub after_three : Text → Text
after_three (a ∷ b ∷ c ∷ s) = s
after_three _ = []

-- One of the statuses stands at the start of the text, and no word goes on after it.
unfoldable pub match_status : List ℕ → Text → Option ℕ
unfolding starts_with_word after_three
match_status [] s = none
match_status (n ∷ statuses) s =
    let later = match_status statuses s in
    if starts_with (decimal n) s && not (starts_with_word (after_three s)) then some n else later

-- The first match of `/\b(400|401|403|404|429|500|502|503|504)\b/`.
unfoldable pub status_in : (is_after_word : Bool) → Text → Option ℕ
unfolding match_status is_word
status_in is_after_word [] = none
status_in is_after_word (c ∷ s) =
    let later = status_in (is_word c) s in
    if is_after_word then later else or_else (match_status known_statuses (c ∷ s)) later

unfoldable pub extract_http_status : Thrown → Option ℕ
unfolding status_in
extract_http_status (thrown_object o) = or_else o.status (
    or_else o.status_code (
      or_else o.response_status
        (elim o.message [ none ↦ none | some message ↦ status_in false message ])))
extract_http_status (thrown_text s) = none
extract_http_status thrown_other = none

abbrev pub is_named : String → Option Text → Bool
is_named n none = false
is_named n (some t) = text_eq t (codes n)

unfoldable pub raw_message : Thrown → Text
raw_message (thrown_object o) = if o.is_error then get_or o.message [] else codes "Unknown error"
raw_message (thrown_text s) = s
raw_message thrown_other = codes "Unknown error"

unfoldable pub error_code : Thrown → Text
error_code (thrown_object o) = get_or o.code []
error_code _ = []

-- `err instanceof Error && err.name === 'AbortError'`.
unfoldable pub is_abort : Thrown → Bool
is_abort (thrown_object o) = o.is_error && is_named "AbortError" o.name
is_abort _ = false

abbrev pub has_word : Text → List String → Bool
has_word message = any_where (λ w. includes (codes w) message)

abbrev pub is_code : Text → List String → Bool
is_code code = any_where (λ c. text_eq code (codes c))

abbrev pub answer :
    ProviderErrorKind → Bool → ProviderStatus → SanitizedReason → Option ℕ → ClassifiedProviderError
answer k r s reason http = record {
  kind = k;
  is_retriable = r;
  status = s;
  sanitized_reason = reason;
  http_status = http;
}

-- Section 1: the output broke the schema or was no JSON.
unfoldable pub by_schema : Thrown → Option ClassifiedProviderError
by_schema (thrown_object o) =
    if o.is_zod_error || is_named "ZodError" o.name
    then some (answer schema_invalid false invalid_output schema_violated none)
    else if o.is_syntax_error || is_named "SyntaxError" o.name
    then some (answer schema_invalid false invalid_output invalid_syntax none)
    else none
by_schema _ = none

-- Section 2: the deadline of the whole operation, and cancellation.
unfoldable pub by_cancellation : Text → Bool → Option ClassifiedProviderError
by_cancellation message aborts =
    if has_word message ("operation deadline" ∷ "overall deadline" ∷ [])
      || (aborts && has_word message ("deadline" ∷ []))
    then some (answer timeout false timed_out deadline_exceeded none)
    else if has_word message ("cancelled" ∷ "canceled" ∷ [])
    then some (answer cancelled false timed_out request_cancelled none)
    else none

-- Sections 3 to 5: the status of the response.
unfoldable pub by_status : Option ℕ → Option ClassifiedProviderError
by_status none = none
by_status (some n) =
    if n == 400
    then some (answer client_error false invalid_output (invalid_argument 400) (some 400))
    else if n == 401 || n == 403
    then some (answer auth_or_config false unavailable (access_failure n) (some n))
    else if n == 404
    then some (answer auth_or_config false unavailable (not_found 404) (some 404))
    else if n == 429
    then some (answer transient true unavailable (rate_limited 429) (some 429))
    else if n == 500 || (n == 502 || (n == 503 || n == 504))
    then some (answer transient true unavailable (server_error n) (some n))
    else none

-- Section 6: codes of the network.
unfoldable pub by_code : Text → Bool → Option ClassifiedProviderError
by_code code aborts =
    if is_code code ("ETIMEDOUT" ∷ "UND_ERR_CONNECT_TIMEOUT" ∷ []) || aborts
    then some (answer transient true timed_out request_timeout (some 504))
    else if is_code code (
        "ECONNRESET" ∷ "EAI_AGAIN" ∷ "ENOTFOUND" ∷ "ECONNREFUSED" ∷ "EPIPE" ∷ "UND_ERR_SOCKET" ∷ [])
    then some (answer transient true unavailable network_failure none)
    else none

-- Saturation and section 7: the words of the message.
unfoldable pub by_message : Text → Option ClassifiedProviderError
by_message message =
    if has_word message ("concurrency" ∷ "saturated" ∷ "queue full" ∷ [])
    then some (answer concurrency_saturated false unavailable capacity_saturated none)
    else if has_word message ("timeout" ∷ "timed out" ∷ "deadline" ∷ [])
    then some (answer transient true timed_out request_timeout (some 504))
    else if has_word message ("resource_exhausted" ∷ "rate limit" ∷ "quota" ∷ [])
    then some (answer transient true unavailable (rate_limited 429) (some 429))
    else if has_word message ("unavailable" ∷ "bad gateway" ∷ "gateway timeout" ∷ [])
    then some (answer transient true unavailable (server_error 503) (some 503))
    else if has_word message ("socket hang up" ∷ "fetch failed" ∷ [])
    then some (answer transient true unavailable network_failure none)
    else if has_word message ("unauthenticated" ∷ "permission_denied" ∷ "invalid api key" ∷ [])
    then some (answer auth_or_config false unavailable (access_failure 401) (some 401))
    else if has_word message ("not found" ∷ [])
    then some (answer auth_or_config false unavailable (not_found 404) (some 404))
    else if has_word message ("invalid_argument" ∷ "bad request" ∷ [])
    then some (answer client_error false invalid_output (invalid_argument 400) (some 400))
    else none

-- Section 8.
unfoldable pub unclassified : Option ℕ → ClassifiedProviderError
unclassified none = answer terminal false unavailable upstream_failure none
unclassified (some n) =
    answer terminal false unavailable (if n == 0 then upstream_failure else other_status n) (some n)

-- `lower` is `toLowerCase`.
unfoldable pub classify_provider_error : (lower : Text → Text) → Thrown → ClassifiedProviderError
classify_provider_error lower err =
    let message = lower (raw_message err) in
    let http_status = extract_http_status err in
    get_or
      (or_else (by_schema err) (
        or_else (by_cancellation message (is_abort err)) (
          or_else (by_status http_status)
            (or_else (by_code (error_code err) (is_abort err)) (by_message message)))))
      (unclassified http_status)
