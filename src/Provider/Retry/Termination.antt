-- ===== src/Provider/Retry/Termination.antt =====
-- How often `executeWithRetries` of apps/worker/src/adapters/gemini-adapter.ts asks the model.
use falseroute.Prelude.{
  ℕ, zero, suc, ◌+◌, ◌≤◌, ◌<◌, ◌≡◌, ◌⊎◌, refl, subst, Text, true, ◌||◌, Option, none, some, leb,
  arith, Bool-cases, Option-cases, inl, inr,
}
use falseroute.Provider.Classifier.{Thrown, ClassifiedProviderError, classify_provider_error}
use falseroute.Provider.Retry.{
  RetryPolicy, calculate_delay, Response, answered, answered_nothing, failed, Turn, Attempts,
  after_failure, attempts, execute_with_retries,
}

Response-cases {ℓ} :
    {A : Type ℓ} (x : Response A)
    → ((a : A) × (x ≡ answered a)) ⊎ ((x ≡ answered_nothing) ⊎ ((e : Thrown) × (x ≡ failed e)))
Response-cases (answered a) = inl (a, refl)
Response-cases answered_nothing = inr (inl refl)
Response-cases (failed e) = inr (inr (e, refl))

zero_or_more : (n : ℕ) → (n ≤ 1) ⊎ ((m : ℕ) × (n ≡ suc m) × (1 ≤ m))
zero_or_more zero = inl (omega arith)
zero_or_more (suc zero) = inl (omega arith)
zero_or_more (suc (suc m)) = inr (suc m, refl, omega arith)

module _ {ℓ} {A : Type ℓ} (p : RetryPolicy) (lower : Text → Text) (deadline_at : ℕ) where
  -- The dispatch of a turn failed in a way that may pass, its backoff ends before the deadline,
  -- and the sleep was not aborted.
  abbrev pub MayPass : (attempt : ℕ) → Turn A → Type ℓ
  MayPass attempt turn =
      (e : Thrown) × (turn.response ≡ failed e)
      × ((classify_provider_error lower e).is_retriable ≡ true)
      × (turn.failed_at + calculate_delay p attempt turn.drawn < deadline_at)
      × (turn.sleep_error ≡ none)

  -- A further turn is taken only below the limit of the retries.
  after_failure-retries :
      (attempt n : ℕ) (turn : Turn A) (e : Thrown) (later : Attempts A)
      → turn.response ≡ failed e
      → n
        < (after_failure p lower deadline_at attempt turn
            (classify_provider_error lower e)
            later).dispatches
      → 1 ≤ n
      → MayPass attempt turn × (n ≤ later.dispatches)
  unfolding after_failure
  after_failure-retries attempt n turn e later failure below some_turn =
      let c = classify_provider_error lower e in
      elim (Bool-cases c.is_retriable) [
        | inr final ↦ absurd (ground arith)
        | inl again ↦ elim (Bool-cases (leb p.max_retries attempt)) [
          | inl spent ↦ absurd (ground arith)
          | inr left ↦
              elim (Bool-cases
                (leb deadline_at (turn.failed_at + calculate_delay p attempt turn.drawn))) [
                  | inl late ↦ absurd (ground arith)
                  | inr early ↦ elim (Option-cases turn.sleep_error) [
                    | inr (x, loud) ↦ absurd (ground arith)
                    | inl quiet ↦ ((e, failure, again, ground arith, quiet), ground arith)
                  ]
                ]
        ]
      ]

  -- A further dispatch of the loop follows a turn that may pass.
  attempts-retries :
      (turns : ℕ → Turn A) (left attempt n : ℕ) (last : Option ClassifiedProviderError)
      → 1 ≤ n
      → n < (attempts p lower deadline_at turns (suc left) attempt last).dispatches
      → (e : Thrown) × MayPass attempt (turns attempt)
        × (n
            ≤ (attempts p lower deadline_at turns left
                (suc attempt)
                (some (classify_provider_error lower e))).dispatches)
  unfolding attempts
  attempts-retries turns left attempt n last some_turn below =
      elim (Bool-cases (leb deadline_at (turns attempt).started_at || (turns attempt).is_aborted)) [
        | inl over ↦ absurd (ground arith)
        | inr in_time ↦ elim (Bool-cases (turns attempt).is_permitted) [
          | inr refused ↦ absurd (ground arith)
          | inl permitted ↦ elim (Response-cases (turns attempt).response) [
            | inl (a, x) ↦ absurd (ground arith)
            | inr (inl x) ↦ absurd (ground arith)
            | inr (inr (e, x)) ↦
                let (passes, fewer) =
                  after_failure-retries attempt n (turns attempt) e
                    (attempts p lower deadline_at turns left (suc attempt)
                      (some (classify_provider_error lower e)))
                    x (ground arith) some_turn in
                (e, passes, fewer)
          ]
        ]
      ]

  attempts-le :
      (turns : ℕ → Turn A) (left attempt : ℕ) (last : Option ClassifiedProviderError)
      → (attempts p lower deadline_at turns left attempt last).dispatches ≤ left
  attempts-le turns zero attempt last = unfold attempts in omega arith
  attempts-le turns (suc left) attempt last =
      elim (zero_or_more (attempts p lower deadline_at turns (suc left) attempt last).dispatches) [
        | inl few ↦ omega arith
        | inr (n, more, positive) ↦
            let (e, passes, fewer) =
              attempts-retries turns left attempt n last positive (omega arith) in
            let rest =
              attempts-le turns left (suc attempt) (some (classify_provider_error lower e)) in
            omega arith
      ]

  attempts-MayPass :
      (turns : ℕ → Turn A) (left attempt k number : ℕ) (last : Option ClassifiedProviderError)
      → number ≡ attempt + k
      → suc k < (attempts p lower deadline_at turns left attempt last).dispatches
      → MayPass number (turns number)
  attempts-MayPass turns zero attempt k number last numbered below =
      absurd (let none_left = attempts-le turns zero attempt last in omega arith)
  attempts-MayPass turns (suc left) attempt zero number last numbered below =
      let first : attempt ≡ number = omega arith in
      let (e, passes, fewer) = attempts-retries turns left attempt 1 last (omega arith) below in
      subst (λ (n : ℕ). MayPass n (turns n)) first passes
  attempts-MayPass turns (suc left) attempt (suc k) number last numbered below =
      let (e, passes, fewer) =
        attempts-retries turns left attempt (suc (suc k)) last (omega arith) below in
      attempts-MayPass turns left (suc attempt) k number (some (classify_provider_error lower e))
        (omega arith) fewer

  -- However the turns go, the loop asks the model at most once and once more for each retry allowed,
  -- and it asks again only after a dispatch that failed with a retriable error, whose backoff ends
  -- before the deadline, and whose sleep was not aborted.
  pub execute_with_retries-bound :
      (turns : ℕ → Turn A)
      → ((execute_with_retries p lower deadline_at turns).dispatches ≤ p.max_retries + 1)
        × ((k : ℕ)
            → suc k < (execute_with_retries p lower deadline_at turns).dispatches
            → MayPass k (turns k))
  unfolding execute_with_retries
  execute_with_retries-bound turns =
      let bound = attempts-le turns (suc p.max_retries) 0 none in
      (
        omega arith,
        λ k below. attempts-MayPass turns (suc p.max_retries) 0 k k none (omega arith) below,
      )
