-- ===== src/Limits/Concurrency/Invariant.antt =====
-- The states of the limiter of apps/worker/src/adapters/concurrency-limiter.ts, by its events.
use falseroute.Prelude.{
  ℕ, ◌+◌, ◌≤◌, ◌<◌, ◌≡◌, refl, inl, inr, Bool, true, false, Option, none, some, List, [], ◌∷◌,
  arith, ltb, leb, ◌==◌, length, length-append, any_where, Bool-cases,
}
use falseroute.Limits.Concurrency.{
  Limiter, Entry, create_limiter, acquire, enter, release, splice_first, on_abort, aborted_before,
  runs, waits, saturated,
}

-- The limiter with the calls whose task runs.
pub record System : Type 0 where
  pub limiter : Limiter
  pub running : List ℕ

abbrev pub started : Entry → ℕ → List ℕ → List ℕ
started aborted_before call running = running
started runs call running = call ∷ running
started waits call running = running
started saturated call running = running

abbrev pub resumed : Option ℕ → List ℕ → List ℕ
resumed none running = running
resumed (some call) running = call ∷ running

abbrev pub start : Bool → ℕ → System → System
start is_aborted call s =
    let (l, entry) = enter is_aborted call s.limiter in
    record { limiter = l; running = started entry call s.running }

abbrev pub finish : ℕ → System → System
finish call s =
    let (l, next) = release s.limiter in
    record { limiter = l; running = resumed next (splice_first call s.running) }

abbrev pub abort : ℕ → System → System
abort call s = record s { limiter = on_abort call s.limiter }

abbrev pub is_in : ℕ → List ℕ → Bool
is_in call = any_where (λ c. c == call)

-- One event: a call of `execute`, the end of a running task, or the abort of a waiting call.
pub data Step : System → System → Type 0 where
  enters : (is_aborted : Bool) (call : ℕ) (s : System) → Step s (start is_aborted call s)
  finishes : (call : ℕ) (s : System) → is_in call s.running ≡ true → Step s (finish call s)
  aborts : (call : ℕ) (s : System) → is_in call s.limiter.queue ≡ true → Step s (abort call s)

pub data Reachable (l : Limiter) : System → Type 0 where
  created : Reachable l (record { limiter = l; running = [] })
  after : {s t : System} → Reachable l s → Step s t → Reachable l t

-- The bounds; a call waits only while every permit is held.
pub record IsBounded (most most_queued : ℕ) (s : System) : Type 0 where
  pub same : s.limiter.max_concurrency ≡ most
  pub same_queue : s.limiter.max_queue_size ≡ most_queued
  pub counted : s.limiter.active ≡ length s.running
  pub active_bound : s.limiter.active ≤ most
  pub queue_bound : length s.limiter.queue ≤ most_queued
  pub busy : 0 < length s.limiter.queue → s.limiter.active ≡ most

splice-length :
    (call : ℕ) (queue : List ℕ)
    → is_in call queue ≡ true
    → length (splice_first call queue) + 1 ≡ length queue
unfolding splice_first
splice-length call [] h = cc
splice-length call (c ∷ queue) h = ground (arith, splice-length call queue)

module _ (most most_queued : ℕ) where
  start-IsBounded :
      (is_aborted : Bool) (call : ℕ) (s : System)
      → IsBounded most most_queued s
      → IsBounded most most_queued (start is_aborted call s)
  unfolding enter acquire
  start-IsBounded true call s v = v
  start-IsBounded false call s v =
      elim (Bool-cases (ltb s.limiter.active s.limiter.max_concurrency)) [
        | inl free ↦ rw free (record {
          same = v.same;
          same_queue = v.same_queue;
          counted = omega (arith, v.counted);
          active_bound = ground (arith, v.same);
          queue_bound = v.queue_bound;
          busy = λ some_wait. ground (arith, v.same, v.busy some_wait);
        })
        | inr held ↦
            rw held (elim (Bool-cases (leb s.limiter.max_queue_size (length s.limiter.queue))) [
              | inl full ↦ rw full v
              | inr room ↦ rw room (record {
                same = v.same;
                same_queue = v.same_queue;
                counted = v.counted;
                active_bound = v.active_bound;
                queue_bound =
                    ground (arith, v.same_queue, length-append s.limiter.queue (call ∷ []));
                busy = λ some_wait. ground (arith, v.same, v.active_bound);
              })
            ])
      ]

  finish_queue-IsBounded :
      (call : ℕ) (s : System) (queue : List ℕ)
      → length (splice_first call s.running) + 1 ≡ length s.running
      → IsBounded most most_queued s
      → s.limiter.queue ≡ queue
      → IsBounded most most_queued (finish call s)
  unfolding release
  finish_queue-IsBounded call s [] gone v h =
      rw (h, release)
        (record {
          same = v.same;
          same_queue = v.same_queue;
          counted = omega (arith, v.counted, gone);
          active_bound = omega (arith, v.active_bound);
          queue_bound = ground (arith, v.queue_bound);
          busy = λ some_wait. ground arith;
        })
  finish_queue-IsBounded call s (next ∷ queue) gone v h =
      rw (h, release)
        (record {
          same = v.same;
          same_queue = v.same_queue;
          counted = omega (arith, v.counted, gone);
          active_bound = omega (arith, v.active_bound, v.counted, gone);
          queue_bound = ground (arith, v.queue_bound);
          busy = λ some_wait. ground (arith, v.busy);
        })

  finish-IsBounded :
      (call : ℕ) (s : System)
      → is_in call s.running ≡ true
      → IsBounded most most_queued s
      → IsBounded most most_queued (finish call s)
  unfolding release
  finish-IsBounded call s here v =
      finish_queue-IsBounded call s s.limiter.queue (splice-length call s.running here) v refl

  abort-IsBounded :
      (call : ℕ) (s : System)
      → is_in call s.limiter.queue ≡ true
      → IsBounded most most_queued s
      → IsBounded most most_queued (abort call s)
  unfolding on_abort
  abort-IsBounded call s here v =
      let shorter = splice-length call s.limiter.queue here in
      record {
        same = v.same;
        same_queue = v.same_queue;
        counted = v.counted;
        active_bound = v.active_bound;
        queue_bound = omega (arith, v.queue_bound, shorter);
        busy = λ some_wait. v.busy (omega (arith, shorter));
      }

  Step-IsBounded :
      {s t : System} → Step s t → IsBounded most most_queued s → IsBounded most most_queued t
  Step-IsBounded (enters is_aborted call s) v = start-IsBounded is_aborted call s v
  Step-IsBounded (finishes call s here) v = finish-IsBounded call s here v
  Step-IsBounded (aborts call s here) v = abort-IsBounded call s here v

  reached-IsBounded :
      (l : Limiter) {s : System}
      → IsBounded most most_queued (record { limiter = l; running = [] })
      → Reachable l s
      → IsBounded most most_queued s
  reached-IsBounded l v created = v
  reached-IsBounded l v (after r step) = Step-IsBounded step (reached-IsBounded l v r)

-- From a constructed limiter, whatever calls come, end and are aborted in whatever order: no more
-- tasks run than `maxConcurrency`, `currentActive` counts exactly those that run, no more calls wait
-- than `maxQueueSize`, and a call waits only while every permit is held.
pub Reachable-IsBounded :
    (most : ℕ) (most_queued : Option ℕ) (l : Limiter) (s : System)
    → create_limiter most most_queued ≡ some l
    → Reachable l s
    → IsBounded l.max_concurrency l.max_queue_size s × (l.max_concurrency ≡ most)
unfolding create_limiter
Reachable-IsBounded most most_queued l s made r = elim (Bool-cases (ltb most 1)) [
  | inl low ↦ ground arith
  | inr fine ↦ (
    reached-IsBounded l.max_concurrency l.max_queue_size l
        (record {
          same = refl;
          same_queue = refl;
          counted = ground arith;
          active_bound = ground arith;
          queue_bound = ground arith;
          busy = λ some_wait. ground arith;
        })
        r,
    ground arith,
  )
]
