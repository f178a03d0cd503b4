-- ===== src/Limits/TokenBucket/Rate.antt =====
-- The rate of one key in `TokenBucketCounter` (apps/api/src/middleware/rate-limit.ts), among the calls
-- of all keys.
use falseroute.Prelude.{
  ℕ, ◌+◌, ◌-◌, ◌*◌, ◌≤◌, ◌≡◌, refl, inl, inr, String, str_eq, str_eq_iff, Bool, true, false, ◌&&◌,
  subst, Option, none, some, List, [], ◌∷◌, arith, leb, if◌then◌else◌, Bool-cases, Option-cases, ap,
  ◌∙◌,
}
use native.Mathlib.Nat.{mul-le-mul_right}
use falseroute.Limits.TokenBucket.{
  RequestClassBudget, BucketRecord, Counter, ConsumeResult, capacity, get_record, delete_record,
  set_record, refilled, consume_new, consume_known, consume, at_time,
}
use falseroute.Limits.TokenBucket.Records.{
  UniqueRecords, get-set, get-delete_self, delete-UniqueRecords, set-UniqueRecords,
  get-delete_other, get-set_miss, roomy, get-roomy, roomy-UniqueRecords,
}

-- A call of `consume`.
pub record BucketCall : Type 0 where
  pub key : String
  pub wanted : ℕ
  pub now : ℕ

-- What the allowed calls for a key take, among the calls of all keys.
unfoldable pub spent : String → List BucketCall → Counter → ℕ
spent k [] c = 0
spent k (x ∷ calls) c =
    let (c', result) = consume x.key x.wanted x.now c in
    (if str_eq x.key k && result.allowed then x.wanted else 0) + spent k calls c'

-- The call is for the key `k`, which has no record.
unfoldable pub is_fresh_start : String → String → Counter → Bool
is_fresh_start k j c = str_eq j k && elim (get_record c.records j) [ none ↦ true | some r ↦ false ]

-- How many calls for a key find no record of it: it is new, or was evicted.
unfoldable pub fresh_starts : String → List BucketCall → Counter → ℕ
fresh_starts k [] c = 0
fresh_starts k (x ∷ calls) c =
    (if is_fresh_start k x.key c then 1 else 0)
    + fresh_starts k calls (consume x.key x.wanted x.now c).0

-- The times do not decrease and end by the last one given.
abbrev pub Ordered : ℕ → List BucketCall → ℕ → Type 0
Ordered start [] end = start ≤ end
Ordered start (x ∷ calls) end = (start ≤ x.now) × Ordered x.now calls end

abbrev worth_of : RequestClassBudget → ℕ → Option BucketRecord → ℕ
worth_of b t none = 0
worth_of b t (some r) = r.tokens + (t - r.last_refill_ms) * b.refill_per_ms

-- The tokens of the record of a key, and those that its rate has added by the time `t`.
abbrev pub worth : String → ℕ → Counter → ℕ
worth k t c = worth_of c.class_budget t (get_record c.records k)

-- After a call for the key `j`, what it takes from the key `k` and what is left come from what was
-- there and from the burst of a fresh start.
pub record Balanced (k j : String) (wanted now : ℕ) (c : Counter) (out : Counter × ConsumeResult)
    : Type 0 where
  pub unique : UniqueRecords out.0.records
  pub same : out.0.class_budget ≡ c.class_budget
  paid :
      (if str_eq j k && out.1.allowed then wanted else 0) + worth k now out.0
      ≤ worth k now c + (if is_fresh_start k j c then capacity c.class_budget else 0)

refilled-le :
    (b : RequestClassBudget) (now : ℕ) (r : BucketRecord)
    → refilled b now r ≤ r.tokens + (now - r.last_refill_ms) * b.refill_per_ms
unfolding refilled
refilled-le b now r = omega arith

-- A write at `now` leaves its tokens.
worth-now :
    (b : RequestClassBudget) (tokens now : ℕ) → worth_of b now (some (at_time tokens now)) ≡ tokens
worth-now b tokens now =
    let none_elapsed : (now - now) * b.refill_per_ms ≡ 0 * b.refill_per_ms =
      ap (λ d. d * b.refill_per_ms) (omega arith) in
    omega (arith, none_elapsed)

-- What a write for the key `j`, which stands at the end of the map, is worth for the key `k`.
write-paid :
    (k j : String) (rest : List (String × BucketRecord)) (old : Option BucketRecord)
    (b : RequestClassBudget) (wanted tokens burst now : ℕ) (allowed : Bool)
    → get_record rest j ≡ none
    → (str_eq j k ≡ true → (if allowed then wanted else 0) + tokens ≤ worth_of b now old + burst)
    → (str_eq j k ≡ false → worth_of b now (get_record rest k) ≤ worth_of b now old)
    → (if str_eq j k && allowed then wanted else 0)
        + worth_of b now (get_record (set_record rest j (at_time tokens now)) k)
      ≤ worth_of b now old + burst
write-paid k j rest old b wanted tokens burst now allowed absent own other =
    elim (Bool-cases (str_eq j k)) [
      | inl hit ↦
          let found : get_record (set_record rest j (at_time tokens now)) k
              ≡ some (at_time tokens now) =
            subst
              (λ i.
                get_record (set_record rest j (at_time tokens now)) i ≡ some (at_time tokens now))
              ((str_eq_iff j k).0 hit) (get-set rest j (at_time tokens now) absent) in
          rw (hit, found) (omega (arith, worth-now b tokens now, own hit))
      | inr miss ↦
          rw (miss, get-set_miss rest j k (at_time tokens now) miss) (omega (arith, other miss))
    ]

known-Balanced :
    (k j : String) (r : BucketRecord) (wanted now : ℕ) (c : Counter)
    → UniqueRecords c.records
    → get_record c.records j ≡ some r
    → Balanced k j wanted now c (consume_known j r wanted now c)
unfolding consume_known is_fresh_start
known-Balanced k j r wanted now c u found =
    let b = c.class_budget in
    let rest = delete_record c.records j in
    let gone = get-delete_self c.records j u in
    let u' = delete-UniqueRecords c.records j u in
    let le = refilled-le b now r in
    let own : str_eq j k ≡ true
        → worth k now c ≡ r.tokens + (now - r.last_refill_ms) * b.refill_per_ms =
      λ hit. rw (← (str_eq_iff j k).0 hit) (rw found refl) in
    let other : str_eq j k ≡ false → worth_of b now (get_record rest k) ≤ worth k now c =
      λ miss. rw (get-delete_other c.records j k miss) (omega arith) in
    elim (Bool-cases (leb wanted (refilled b now r))) [
      | inl enough ↦ rw enough (record {
        unique = set-UniqueRecords rest j (at_time (refilled b now r - wanted) now) u' gone;
        same = refl;
        paid =
            write-paid k j rest (get_record c.records k) b wanted (refilled b now r - wanted) _ now
              true gone (λ hit. ground (arith, own hit, le)) other;
      })
      | inr short ↦ rw short (record {
        unique = set-UniqueRecords rest j (at_time (refilled b now r) now) u' gone;
        same = refl;
        paid =
            write-paid k j rest (get_record c.records k) b wanted (refilled b now r) _ now false
              gone (λ hit. omega (arith, own hit, le)) other;
      })
    ]

roomy-worth :
    (k : String) (now : ℕ) (c : Counter)
    → UniqueRecords c.records
    → worth_of c.class_budget now (get_record (roomy c) k) ≤ worth k now c
roomy-worth k now c u = elim (get-roomy c k u) [
  | inl gone ↦ rw gone (omega arith)
  | inr kept ↦ rw kept (omega arith)
]

new-Balanced :
    (k j : String) (wanted now : ℕ) (c : Counter)
    → UniqueRecords c.records
    → get_record c.records j ≡ none
    → Balanced k j wanted now c (consume_new j wanted now c)
unfolding consume_new is_fresh_start
new-Balanced k j wanted now c u missing =
    let full = capacity c.class_budget in
    let absent : get_record (roomy c) j ≡ none = elim (get-roomy c j u) [
      | inl gone ↦ gone
      | inr kept ↦ kept ∙ missing
    ] in
    let u' = roomy-UniqueRecords c u in
    let burst : str_eq j k ≡ true → is_fresh_start k j c ≡ true =
      λ hit. rw (hit, missing, is_fresh_start) refl in
    let kept_worth = roomy-worth k now c u in
    elim (Bool-cases (leb wanted full)) [
      | inl enough ↦ rw enough (record {
        unique = set-UniqueRecords (roomy c) j (at_time (full - wanted) now) u' absent;
        same = refl;
        paid =
            write-paid k j (roomy c) (get_record c.records k) c.class_budget wanted (full - wanted)
              _ now true absent (λ hit. ground (arith, burst hit)) (λ miss. kept_worth);
      })
      | inr short ↦
          rw short (record { unique = u'; same = refl; paid = ground (arith, kept_worth) })
    ]

pub consume-Balanced :
    (k j : String) (wanted now : ℕ) (c : Counter)
    → UniqueRecords c.records
    → Balanced k j wanted now c (consume j wanted now c)
unfolding consume
consume-Balanced k j wanted now c u = elim (Option-cases (get_record c.records j)) [
  | inl e ↦ rw (e, consume) (new-Balanced k j wanted now c u e)
  | inr (r, e) ↦ rw (e, consume) (known-Balanced k j r wanted now c u e)
]

-- What a record is worth grows at most by its rate.
worth-later :
    (b : RequestClassBudget) (t now : ℕ) (o : Option BucketRecord)
    → worth_of b now o ≤ worth_of b t o + (now - t) * b.refill_per_ms
worth-later b t now none = omega arith
worth-later b t now (some r) =
    let sooner : (now - r.last_refill_ms) * b.refill_per_ms
        ≤ (t - r.last_refill_ms + (now - t)) * b.refill_per_ms =
      mul-le-mul_right b.refill_per_ms (omega arith) in
    omega (arith, sooner)

Ordered-le : (t : ℕ) (calls : List BucketCall) (end : ℕ) → Ordered t calls end → t ≤ end
Ordered-le t [] end o = o
Ordered-le t (x ∷ calls) end o = omega (arith, o.0, Ordered-le x.now calls end o.1)

-- What one call takes and what the later ones take add up.
spent-add :
    (rate start now end taken left old older later cap starts : ℕ) (fresh : Bool)
    → start ≤ now
    → now ≤ end
    → taken + left ≤ old + (if fresh then cap else 0)
    → later ≤ left + (end - now) * rate + starts * cap
    → old ≤ older + (now - start) * rate
    → taken + later ≤ older + (end - start) * rate + ((if fresh then 1 else 0) + starts) * cap
spent-add rate start now end taken left old older later cap starts fresh before after paid rest
      grown =
    let whole : (end - start) * rate ≡ (now - start + (end - now)) * rate =
      ap (λ d. d * rate) (omega arith) in
    let split : (now - start + (end - now)) * rate ≡ (now - start) * rate + (end - now) * rate =
      omega arith in
    ground (arith, whole, split)

-- Whatever calls come, for whatever keys and at times that do not decrease, the allowed calls for one key take no
-- more than the tokens of its record, what its rate adds until the end, and one burst for each of its
-- calls that finds no record, because the key is new or was evicted in between. No key stands twice in the map.
pub spent-le-refilled :
    (k : String) (calls : List BucketCall) (start end : ℕ) (c : Counter)
    → UniqueRecords c.records
    → Ordered start calls end
    → spent k calls c
      ≤ worth k start c
        + (end - start) * c.class_budget.refill_per_ms
        + fresh_starts k calls c * capacity c.class_budget
unfolding spent fresh_starts
spent-le-refilled k [] start end c u o = omega arith
spent-le-refilled k (x ∷ calls) start end c u o =
    let step = consume-Balanced k x.key x.wanted x.now c u in
    let c' = (consume x.key x.wanted x.now c).0 in
    let rest = spent-le-refilled k calls x.now end c' step.unique o.1 in
    let sooner = worth-later c.class_budget start x.now (get_record c.records k) in
    let b = c.class_budget in
    let rest' : spent k calls c'
        ≤ worth k x.now c'
          + (end - x.now) * b.refill_per_ms
          + fresh_starts k calls c' * capacity b =
      subst
        (λ (a : RequestClassBudget).
          spent k calls c'
          ≤ worth k x.now c'
            + (end - x.now) * a.refill_per_ms
            + fresh_starts k calls c' * capacity a)
        step.same rest in
    spent-add b.refill_per_ms start x.now end
      (if str_eq x.key k && (consume x.key x.wanted x.now c).1.allowed then x.wanted else 0)
      (worth k x.now c') (worth k x.now c) (worth k start c) (spent k calls c') (capacity b)
      (fresh_starts k calls c') (is_fresh_start k x.key c) o.0 (Ordered-le x.now calls end o.1)
      step.paid rest' sooner
