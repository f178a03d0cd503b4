-- ===== src/Limits/TokenBucket.antt =====
-- `TokenBucketCounter` of apps/api/src/middleware/rate-limit.ts and the budgets of
-- apps/api/src/config/rate-limits.ts. Tokens are counted in six-thousandths, so that every rate of
-- the configuration is a whole number of them for each millisecond. The records of the `Map` stand
-- in the order of insertion.
pub mod Records
pub mod Bounds
pub mod Rate
pub mod Reads
pub mod Matches
pub mod Prune
use falseroute.Prelude.{
  ℕ, ◌+◌, ◌-◌, ◌*◌, ◌/◌, min, String, str_eq, Bool, true, false, ◌&&◌, not, Option, none, some,
  List, [], ◌∷◌, ◌++◌, ltb, leb, if◌then◌else◌, length, filter_where, get_or,
}

-- `refill_per_ms` is `refillRatePerSecond / 1000` in six-thousandths of a token.
pub record RequestClassBudget : Type 0 where
  pub window_ms : ℕ
  pub max_requests : ℕ
  pub burst_capacity : ℕ
  pub refill_per_ms : ℕ

pub data RequestClassName : Type 0 where
  default_class read_class write_class health_class abuse_class : RequestClassName

abbrev budget : ℕ → ℕ → ℕ → RequestClassBudget
budget requests burst rate = record {
  window_ms = 60000;
  max_requests = requests;
  burst_capacity = burst;
  refill_per_ms = rate;
}

-- `getRequestClassBudget`.
unfoldable pub get_request_class_budget : RequestClassName → RequestClassBudget
get_request_class_budget default_class = budget 120 30 12
get_request_class_budget read_class = budget 120 30 12
get_request_class_budget write_class = budget 30 10 3
get_request_class_budget health_class = budget 60 10 6
get_request_class_budget abuse_class = budget 20 20 2

pub record BucketRecord : Type 0 where
  pub tokens : ℕ
  pub last_refill_ms : ℕ
  pub last_access_ms : ℕ

pub record Counter : Type 0 where
  pub records : List (String × BucketRecord)
  pub class_budget : RequestClassBudget
  pub max_keys : ℕ

pub record ConsumeResult : Type 0 where
  pub allowed : Bool
  pub retry_after_ms : ℕ
  pub remaining_tokens : ℕ

-- One token.
abbrev pub token : ℕ
token = 6000

unfoldable pub capacity : RequestClassBudget → ℕ
capacity b = b.burst_capacity * token

-- `records.get(key)`, `records.delete(key)` and `records.set(key, record)` for an absent key.
unfoldable pub get_record : List (String × BucketRecord) → String → Option BucketRecord
get_record [] k = none
get_record ((j, r) ∷ records) k = if str_eq j k then some r else get_record records k

unfoldable pub delete_record : List (String × BucketRecord) → String → List (String × BucketRecord)
delete_record [] k = []
delete_record ((j, r) ∷ records) k =
    let rest = delete_record records k in if str_eq j k then records else (j, r) ∷ rest

abbrev pub set_record :
    List (String × BucketRecord) → String → BucketRecord → List (String × BucketRecord)
set_record records k r = records ++ (k, r) ∷ []

-- The first key of the map, that is the least recently used one, is dropped.
unfoldable pub evict_oldest : List (String × BucketRecord) → List (String × BucketRecord)
evict_oldest [] = []
evict_oldest (r ∷ records) = records

-- `Math.ceil(a / b)`, for a positive rate.
unfoldable pub ceil_div : ℕ → ℕ → ℕ
ceil_div a b = (a + b - 1) / b

-- `Math.min(capacity, tokens + elapsed * rate)`; the elapsed time is never negative.
unfoldable pub refilled : RequestClassBudget → ℕ → BucketRecord → ℕ
refilled b now r = min (capacity b) (r.tokens + (now - r.last_refill_ms) * b.refill_per_ms)

abbrev at_time : ℕ → ℕ → BucketRecord
at_time tokens now = record { tokens = tokens; last_refill_ms = now; last_access_ms = now }

-- A key that has no record.
unfoldable pub consume_new : String → ℕ → ℕ → Counter → Counter × ConsumeResult
consume_new k wanted now c =
    let full = capacity c.class_budget in
    let records = if leb c.max_keys (length c.records) then evict_oldest c.records else c.records in
    if leb wanted full
    then (
      record c { records = set_record records k (at_time (full - wanted) now) },
      record { allowed = true; retry_after_ms = 0; remaining_tokens = full - wanted },
    )
    else (
      record c { records = records },
      record {
        allowed = false;
        retry_after_ms = ceil_div (wanted - full) c.class_budget.refill_per_ms;
        remaining_tokens = 0;
      },
    )

-- A key that has a record, which moves to the end of the map.
unfoldable pub consume_known : String → BucketRecord → ℕ → ℕ → Counter → Counter × ConsumeResult
consume_known k r wanted now c =
    let rest = delete_record c.records k in
    let current = refilled c.class_budget now r in
    if leb wanted current
    then (
      record c { records = set_record rest k (at_time (current - wanted) now) },
      record { allowed = true; retry_after_ms = 0; remaining_tokens = current - wanted },
    )
    else (
      record c { records = set_record rest k (at_time current now) },
      record {
        allowed = false;
        retry_after_ms = ceil_div (wanted - current) c.class_budget.refill_per_ms;
        remaining_tokens = current;
      },
    )

unfoldable pub consume : String → ℕ → ℕ → Counter → Counter × ConsumeResult
consume k wanted now c = elim (get_record c.records k) [
  | none ↦ consume_new k wanted now c
  | some r ↦ consume_known k r wanted now c
]

-- A record that `pruneExpired` deletes.
unfoldable pub is_idle : RequestClassBudget → ℕ → ℕ → BucketRecord → Bool
is_idle b now idle_ms r =
    leb (capacity b) (refilled b now r) && ltb idle_ms (now - r.last_access_ms)

unfoldable pub prune_expired : Option ℕ → ℕ → Counter → Counter × ℕ
prune_expired idle now c =
    let idle_ms = get_or idle (c.class_budget.window_ms * 2) in
    let kept = filter_where (λ e. not (is_idle c.class_budget now idle_ms e.1)) c.records in
    (record c { records = kept }, length c.records - length kept)
