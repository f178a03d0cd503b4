-- ===== src/Examples/Limiters.antt =====
-- Runs of the token bucket of apps/api/src/middleware/rate-limit.ts and of the limiter of
-- apps/worker/src/adapters/concurrency-limiter.ts.
use falseroute.Prelude.{
  ℕ, ◌+◌, ◌-◌, ◌*◌, ◌≤◌, ◌≡◌, refl, false, none, some, List, [], ◌∷◌, arith, length,
}
use falseroute.Limits.TokenBucket.{
  BucketRecord, Counter, prune_expired, is_idle, refilled, read_class, get_request_class_budget,
  token, capacity, get_record, consume, consume_new, consume_known, delete_record, evict_oldest,
}
use falseroute.Limits.TokenBucket.Records.{UniqueRecords}
use falseroute.Limits.TokenBucket.Reads.{answers}
use falseroute.Limits.TokenBucket.Prune.{prune-answers}
use falseroute.Limits.TokenBucket.Bounds.{IsValid, consume-IsValid}
use falseroute.Limits.TokenBucket.Rate.{
  BucketCall, Ordered, spent, is_fresh_start, fresh_starts, worth, spent-le-refilled,
}
use falseroute.Limits.Concurrency.{Limiter, create_limiter}
use falseroute.Limits.Concurrency.Queue.{release_times, release_times-queue}
use falseroute.Limits.Concurrency.Invariant.{
  System, start, Reachable, enters, created, after, IsBounded, Reachable-IsBounded,
}

abbrev bucket : BucketRecord
bucket = record { tokens = 9000; last_refill_ms = 100; last_access_ms = 100 }

abbrev counter : Counter
counter = record {
  records = ("10.0.0.1", bucket) ∷ [];
  class_budget = get_request_class_budget read_class;
  max_keys = 1;
}

counter-IsValid : IsValid counter
unfolding capacity get_request_class_budget
counter-IsValid = record { bounded = omega arith; full = (omega arith, tt) }

consume-IsValid_example : IsValid (consume "10.0.0.2" token 200 counter).0
consume-IsValid_example = consume-IsValid "10.0.0.2" token 200 counter (omega arith) counter-IsValid

counter_unique : UniqueRecords counter.records
unfolding get_record
counter_unique = (refl, tt)

-- Two calls for the key, between which a call for another key evicts it.
abbrev limiter_calls : List BucketCall
limiter_calls =
    record { key = "10.0.0.1"; wanted = token; now = 200 }
    ∷ record { key = "10.0.0.2"; wanted = token; now = 300 }
    ∷ record { key = "10.0.0.1"; wanted = 5 * token; now = 400 }
    ∷ []

calls_in_order : Ordered 200 limiter_calls 400
calls_in_order = (omega arith, (omega arith, (omega arith, omega arith)))

evicted_once :
    (fresh_starts "10.0.0.1" limiter_calls counter ≡ 1)
    × (spent "10.0.0.1" limiter_calls counter ≡ 6 * token)
unfolding fresh_starts is_fresh_start spent consume consume_known consume_new get_record
    delete_record evict_oldest refilled capacity get_request_class_budget
evicted_once = (refl, refl)

spent-le-refilled_example :
    spent "10.0.0.1" limiter_calls counter
    ≤ worth "10.0.0.1" 200 counter
      + (400 - 200) * counter.class_budget.refill_per_ms
      + fresh_starts "10.0.0.1" limiter_calls counter * capacity counter.class_budget
spent-le-refilled_example =
    spent-le-refilled "10.0.0.1" limiter_calls 200 400 counter counter_unique calls_in_order

abbrev limiter : Limiter
limiter = record { max_concurrency = 1; max_queue_size = 2; active = 0; queue = [] }

limiter_created : create_limiter 1 (some 2) ≡ some limiter
unfolding create_limiter
limiter_created = refl

abbrev idle : System
idle = record { limiter = limiter; running = [] }

-- Three calls, of which the first one runs and the others wait.
abbrev busy_system : System
busy_system = start false 3 (start false 2 (start false 1 idle))

busy-Reachable : Reachable limiter busy_system
busy-Reachable =
    after (after (after created (enters false 1 idle)) (enters false 2 (start false 1 idle)))
      (enters false 3 (start false 2 (start false 1 idle)))

Reachable-IsBounded_example :
    IsBounded limiter.max_concurrency limiter.max_queue_size busy_system
    × (limiter.max_concurrency ≡ 1)
Reachable-IsBounded_example =
    Reachable-IsBounded 1 (some 2) limiter busy_system limiter_created busy-Reachable

abbrev waiting_calls : List ℕ
waiting_calls = 2 ∷ 3 ∷ []

abbrev waiting_limiter : Limiter
waiting_limiter = record {
  max_concurrency = 1;
  max_queue_size = 2;
  active = 1;
  queue = waiting_calls;
}

release_times-queue_example :
    release_times (length waiting_calls) waiting_limiter
    ≡ (record waiting_limiter { queue = [] }, waiting_calls)
release_times-queue_example = release_times-queue waiting_calls waiting_limiter (omega arith) refl

-- A bucket that was left alone for a day, and its pruning.
abbrev idle_counter : Counter
idle_counter = record counter { records = ("10.0.0.1", bucket) ∷ ("10.0.0.2", bucket) ∷ [] }

idle_unique : UniqueRecords idle_counter.records
unfolding get_record
idle_unique = (refl, (refl, tt))

pruned_all : (prune_expired none 86400000 idle_counter).1 ≡ 2
unfolding prune_expired is_idle refilled capacity get_request_class_budget
pruned_all = refl

abbrev roomy_counter : Counter
roomy_counter = record idle_counter { max_keys = 10 }

abbrev next_day : List BucketCall
next_day =
    record { key = "10.0.0.1"; wanted = token; now = 86400500 }
    ∷ record { key = "10.0.0.3"; wanted = token; now = 86400600 }
    ∷ record { key = "10.0.0.2"; wanted = token; now = 86400600 }
    ∷ []

next_day_in_order : Ordered 86400000 next_day 86400600
next_day_in_order = (omega arith, (omega arith, (omega arith, omega arith)))

prune-answers_example :
    answers next_day (prune_expired none 86400000 roomy_counter).0 ≡ answers next_day roomy_counter
prune-answers_example =
    prune-answers next_day 86400000 86400600 none roomy_counter idle_unique (omega arith)
      next_day_in_order
