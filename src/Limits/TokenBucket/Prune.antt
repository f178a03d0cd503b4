-- ===== src/Limits/TokenBucket/Prune.antt =====
-- What `pruneExpired` of apps/api/src/middleware/rate-limit.ts changes for later calls, as long as the map
-- has room for their keys.
use falseroute.Prelude.{
  ℕ, length, ◌+◌, ◌-◌, ◌*◌, ◌≤◌, ◌≡◌, refl, sym, ap, ◌∙◌, inl, inr, String, str_eq, str_eq_iff,
  Bool, true, not, Option, none, some, List, [], ◌∷◌, arith, if◌then◌else◌, filter_where,
  Bool-cases, get_or,
}
use falseroute.Limits.TokenBucket.{
  RequestClassBudget, BucketRecord, Counter, capacity, get_record, refilled, is_idle, prune_expired,
}
use falseroute.Limits.TokenBucket.Records.{UniqueRecords}
use falseroute.Limits.TokenBucket.Rate.{BucketCall, Ordered}
use falseroute.Limits.TokenBucket.Reads.{answers}
use falseroute.Limits.TokenBucket.Matches.{Alike, answers-same}

-- A record that is found, if it passes the test.
abbrev keep : (BucketRecord → Bool) → Option BucketRecord → Option BucketRecord
keep p none = none
keep p (some r) = if p r then some r else none

get-filter :
    (p : BucketRecord → Bool) (records : List (String × BucketRecord)) (k : String)
    → UniqueRecords records
    → get_record (filter_where (λ e. p e.1) records) k ≡ keep p (get_record records k)
unfolding get_record
get-filter p [] k u = refl
get-filter p ((j, r) ∷ records) k u =
    let ih = get-filter p records k u.1 in
    elim (Bool-cases (str_eq j k)) [
      | inl hit ↦
          let same = (str_eq_iff j k).0 hit in
          let gone : get_record records k ≡ none = rw (sym same) (u.0) in
          let dropped_keep : keep p (get_record records k) ≡ none = rw gone refl in
          elim (Bool-cases (p r)) [
            | inl kept ↦ rw (kept, hit) (rw kept refl)
            | inr dropped ↦ rw (dropped, hit) (rw dropped (ih ∙ dropped_keep))
          ]
      | inr miss ↦ elim (Bool-cases (p r)) [
        | inl kept ↦ rw (kept, miss) ih
        | inr dropped ↦ rw (dropped, miss) ih
      ]
    ]

refilled-full :
    (b : RequestClassBudget) (now now' idle : ℕ) (r : BucketRecord)
    → is_idle b now idle r ≡ true
    → now ≤ now'
    → refilled b now' r ≡ capacity b
unfolding is_idle refilled
refilled-full b now now' idle r h le =
    let more : (now' - r.last_refill_ms) * b.refill_per_ms
        ≡ (now - r.last_refill_ms + (now' - r.last_refill_ms - (now - r.last_refill_ms)))
          * b.refill_per_ms =
      ap (λ d. d * b.refill_per_ms) (omega arith) in
    let split : (now - r.last_refill_ms + (now' - r.last_refill_ms - (now - r.last_refill_ms)))
          * b.refill_per_ms
        ≡ (now - r.last_refill_ms) * b.refill_per_ms
          + (now' - r.last_refill_ms - (now - r.last_refill_ms)) * b.refill_per_ms =
      omega arith in
    ground (arith, more, split)

filter-length :
    (p : BucketRecord → Bool) (records : List (String × BucketRecord))
    → length (filter_where (λ e. p e.1) records) ≤ length records
filter-length p [] = omega arith
filter-length p (e ∷ records) = ground (arith, filter-length p records)

filter-UniqueRecords :
    (p : BucketRecord → Bool) (records : List (String × BucketRecord))
    → UniqueRecords records
    → UniqueRecords (filter_where (λ e. p e.1) records)
filter-UniqueRecords p [] u = tt
filter-UniqueRecords p ((j, r) ∷ records) u =
    let ih = filter-UniqueRecords p records u.1 in
    elim (Bool-cases (p r)) [
      | inl kept ↦ rw kept (get-filter p records j u.1 ∙ rw (u.0) refl, ih)
      | inr dropped ↦ rw dropped ih
    ]

kept-Alike :
    (b : RequestClassBudget) (now idle_ms : ℕ) (o : Option BucketRecord)
    → Alike b now o (keep (λ r. not (is_idle b now idle_ms r)) o)
kept-Alike b now idle_ms none = inl refl
kept-Alike b now idle_ms (some r) = elim (Bool-cases (is_idle b now idle_ms r)) [
  | inl full ↦ inr (r, rw full refl, refl, refilled-full b now now idle_ms r full (omega arith))
  | inr used ↦ inl (rw used refl)
]

-- A pruning changes the answer to none of the calls that follow it, for whatever keys and at times that do not
-- decrease: whether they are allowed and when to come back. The map has room for as many more keys as there are
-- calls, so that no key is evicted among them, and no key stands twice in it.
pub prune-answers :
    (calls : List BucketCall) (now end : ℕ) (idle : Option ℕ) (c : Counter)
    → UniqueRecords c.records
    → length c.records + length calls ≤ c.max_keys
    → Ordered now calls end
    → answers calls (prune_expired idle now c).0 ≡ answers calls c
unfolding prune_expired
prune-answers calls now end idle c u room o =
    let b = c.class_budget in
    let idle_ms = get_or idle (b.window_ms * 2) in
    let test : BucketRecord → Bool = λ r. not (is_idle b now idle_ms r) in
    let c' : Counter = record c { records = filter_where (λ e. test e.1) c.records } in
    let shorter = filter-length test c.records in
    answers-same calls now end c c'
      (record {
        unique = u;
        unique' = filter-UniqueRecords test c.records u;
        room = room;
        room' = omega (arith, shorter);
        budgets = refl;
        alike = λ k.
            rw (get-filter test c.records k u) (kept-Alike b now idle_ms (get_record c.records k));
      })
      o
