-- ===== src/Limits/Concurrency/Queue.antt =====
-- The order of the queue of apps/worker/src/adapters/concurrency-limiter.ts.
use falseroute.Prelude.{
  ℕ, zero, suc, ◌+◌, ◌-◌, ◌<◌, ◌≡◌, refl, Option, none, some, List, [], ◌∷◌, arith, length, ap,
}
use falseroute.Limits.Concurrency.{Limiter, release}

abbrev listed : Option ℕ → List ℕ → List ℕ
listed none calls = calls
listed (some call) calls = call ∷ calls

-- That many calls of `release` in a row, and the calls that they resume.
unfoldable pub release_times : ℕ → Limiter → Limiter × List ℕ
release_times zero l = (l, [])
release_times (suc n) l =
    let (l', resumed) = release l in
    let (l'', others) = release_times n l' in (l'', listed resumed others)

release-waiting :
    (l : Limiter) (call : ℕ) (queue : List ℕ)
    → 0 < l.active
    → l.queue ≡ call ∷ queue
    → release l ≡ (record l { queue = queue }, some call)
unfolding release
release-waiting l call queue pos h =
    let same : l.active - 1 + 1 ≡ l.active = omega arith in rw (h, same) refl

-- While a permit is held, as many releases as calls wait resume all of them, the oldest first, and
-- hold on to every permit: none is lost and none is made.
pub release_times-queue :
    (waiting : List ℕ) (l : Limiter)
    → 0 < l.active
    → l.queue ≡ waiting
    → release_times (length waiting) l ≡ (record l { queue = [] }, waiting)
unfolding release_times
release_times-queue [] l pos h = ap {A = List ℕ} (λ queue. (record l { queue = queue }, [])) h
release_times-queue (call ∷ waiting) l pos h =
    rw
      (
        release-waiting l call waiting pos h,
        release_times-queue waiting (record l { queue = waiting }) pos refl,
      )
      refl
