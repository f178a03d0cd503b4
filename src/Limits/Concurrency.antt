-- ===== src/Limits/Concurrency.antt =====
-- `ConcurrencyLimiter` of apps/worker/src/adapters/concurrency-limiter.ts. A call of `execute` is a
-- number; the queue holds the calls whose promise is not settled yet, the oldest one first.
pub mod Invariant
pub mod Queue
use falseroute.Prelude.{
  ℕ, ◌+◌, ◌-◌, ◌≡◌, ◌≢◌, Bool, true, false, Option, none, some, List, [], ◌∷◌, ◌++◌, ltb, leb,
  if◌then◌else◌, length, get_or, ◌==◌,
}

pub record Limiter : Type 0 where
  pub max_concurrency : ℕ
  pub max_queue_size : ℕ
  pub active : ℕ
  pub queue : List ℕ

-- The constructor, which throws for a limit below 1.
unfoldable pub create_limiter : ℕ → Option ℕ → Option Limiter
create_limiter most most_queued =
    if ltb most 1
    then none
    else some (record {
      max_concurrency = most;
      max_queue_size = get_or most_queued 0;
      active = 0;
      queue = [];
    })

-- What a call of `execute` meets: it was aborted before, it runs, it waits, or
-- `ConcurrencySaturationError` is thrown.
pub data Entry : Type 0 where
  aborted_before runs waits saturated : Entry

unfoldable pub acquire : ℕ → Limiter → Limiter × Entry
acquire call l =
    if ltb l.active l.max_concurrency
    then (record l { active = l.active + 1 }, runs)
    else if leb l.max_queue_size (length l.queue)
    then (l, saturated)
    else (record l { queue = l.queue ++ call ∷ [] }, waits)

-- `execute` up to the start of its task.
unfoldable pub enter : Bool → ℕ → Limiter → Limiter × Entry
enter is_aborted call l = if is_aborted then (l, aborted_before) else acquire call l

-- The `finally` of `execute`: the oldest waiting call takes the permit over. Where nothing runs the
-- count of the code would go below 0, and here it stays at 0.
unfoldable pub release : Limiter → Limiter × Option ℕ
release l = elim l.queue [
  | [] ↦ (record l { active = l.active - 1 }, none)
  | next ∷ queue ↦ (record l { active = l.active - 1 + 1; queue = queue }, some next)
]

-- `queue.splice(index, 1)` at the first index of the item, if there is one.
unfoldable pub splice_first : ℕ → List ℕ → List ℕ
splice_first call [] = []
splice_first call (c ∷ queue) =
    let rest = splice_first call queue in if c == call then queue else c ∷ rest

-- `onAbort` of a waiting call.
unfoldable pub on_abort : ℕ → Limiter → Limiter
on_abort call l = record l { queue = splice_first call l.queue }
