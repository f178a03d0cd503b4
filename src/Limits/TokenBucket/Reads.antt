-- ===== src/Limits/TokenBucket/Reads.antt =====
-- What a call of `consume` of apps/api/src/middleware/rate-limit.ts answers, and what the map holds for each
-- key afterwards.
use falseroute.Prelude.{
  ℕ, ◌+◌, ◌-◌, ◌≤◌, ◌≡◌, refl, ◌∙◌, inl, inr, String, str_eq, str_eq_iff, Bool, true, Option, none,
  some, List, [], ◌∷◌, arith, leb, if◌then◌else◌, Bool-cases, Option-cases, false, length, subst,
  ◌<◌, length-append,
}
use falseroute.Limits.TokenBucket.{
  RequestClassBudget, BucketRecord, Counter, ConsumeResult, capacity, get_record, refilled,
  consume_new, consume_known, consume, at_time, set_record, delete_record, ceil_div,
}
use falseroute.Limits.TokenBucket.Records.{
  UniqueRecords, get-set, get-delete_self, get-delete_other, get-set_miss,
}
use falseroute.Limits.TokenBucket.Rate.{BucketCall}

-- The answer that the client gets.
abbrev pub told : ConsumeResult → Bool × ℕ
told result = (result.allowed, result.retry_after_ms)

-- The answers to the calls, one after another.
unfoldable pub answers : List BucketCall → Counter → List (Bool × ℕ)
answers [] c = []
answers (x ∷ calls) c =
    let (c', result) = consume x.key x.wanted x.now c in told result ∷ answers calls c'

-- The answer and the record of a key after a call, by its record before.
abbrev pub reply : RequestClassBudget → ℕ → ℕ → Option BucketRecord → Bool × ℕ
reply b wanted now none =
    if leb wanted (capacity b)
    then (true, 0)
    else (false, ceil_div (wanted - capacity b) b.refill_per_ms)
reply b wanted now (some r) =
    if leb wanted (refilled b now r)
    then (true, 0)
    else (false, ceil_div (wanted - refilled b now r) b.refill_per_ms)

abbrev pub record_after : RequestClassBudget → ℕ → ℕ → Option BucketRecord → Option BucketRecord
record_after b wanted now none =
    if leb wanted (capacity b) then some (at_time (capacity b - wanted) now) else none
record_after b wanted now (some r) =
    if leb wanted (refilled b now r)
    then some (at_time (refilled b now r - wanted) now)
    else some (at_time (refilled b now r) now)

consume-none :
    (k : String) (wanted now : ℕ) (c : Counter)
    → get_record c.records k ≡ none
    → consume k wanted now c ≡ consume_new k wanted now c
unfolding consume
consume-none k wanted now c h = rw (h, consume) refl

consume-some :
    (k : String) (r : BucketRecord) (wanted now : ℕ) (c : Counter)
    → get_record c.records k ≡ some r
    → consume k wanted now c ≡ consume_known k r wanted now c
unfolding consume
consume-some k r wanted now c h = rw (h, consume) refl

pub consume-reply :
    (j : String) (wanted now : ℕ) (c : Counter)
    → told (consume j wanted now c).1 ≡ reply c.class_budget wanted now (get_record c.records j)
unfolding consume consume_new consume_known
consume-reply j wanted now c = elim (Option-cases (get_record c.records j)) [
  | inl e ↦ rw (e, consume) (ground arith)
  | inr (r, e) ↦ rw (e, consume) (ground arith)
]

get-write :
    (rest : List (String × BucketRecord)) (j k : String) (r : BucketRecord)
    → get_record rest j ≡ none
    → get_record (set_record rest j r) k ≡ (if str_eq j k then some r else get_record rest k)
get-write rest j k r absent = elim (Bool-cases (str_eq j k)) [
  | inl hit ↦ rw hit (
      subst (λ i. get_record (set_record rest j r) i ≡ some r) ((str_eq_iff j k).0 hit)
        (get-set rest j r absent))
  | inr miss ↦ rw miss (get-set_miss rest j k r miss)
]

-- A read of `k` after a call for `j`, where the map has room for a new key.
abbrev pub read_after : String → String → ℕ → ℕ → Counter → Option BucketRecord
read_after j k wanted now c =
    if str_eq j k
    then record_after c.class_budget wanted now (get_record c.records j)
    else get_record c.records k

new-record :
    (j k : String) (wanted now : ℕ) (c : Counter)
    → length c.records < c.max_keys
    → get_record c.records j ≡ none
    → get_record (consume_new j wanted now c).0.records k ≡ read_after j k wanted now c
unfolding consume_new
new-record j k wanted now c room e =
    let roomy_same : leb c.max_keys (length c.records) ≡ false = ground arith in
    elim (Bool-cases (leb wanted (capacity c.class_budget))) [
      | inl enough ↦
          rw (enough, roomy_same)
            (get-write c.records j k (at_time (capacity c.class_budget - wanted) now) e
              ∙ rw (e, enough) refl)
      | inr short ↦ elim (Bool-cases (str_eq j k)) [
        | inl hit ↦
            let gone : get_record c.records k ≡ none = rw (← (str_eq_iff j k).0 hit) e in
            rw (short, roomy_same, hit, e) (gone ∙ rw short refl)
        | inr miss ↦ rw (short, roomy_same, miss) refl
      ]
    ]

known-record :
    (j k : String) (r : BucketRecord) (wanted now : ℕ) (c : Counter)
    → UniqueRecords c.records
    → get_record c.records j ≡ some r
    → get_record (consume_known j r wanted now c).0.records k ≡ read_after j k wanted now c
unfolding consume_known
known-record j k r wanted now c u e =
    let rest = delete_record c.records j in
    let gone = get-delete_self c.records j u in
    let wrote : (t : ℕ)
        → get_record (set_record rest j (at_time t now)) k
          ≡ (if str_eq j k then some (at_time t now) else get_record c.records k) =
      λ t. get-write rest j k (at_time t now) gone ∙ elim (Bool-cases (str_eq j k)) [
        | inl hit ↦ rw hit refl
        | inr miss ↦ rw (miss, get-delete_other c.records j k miss) refl
      ] in
    elim (Bool-cases (leb wanted (refilled c.class_budget now r))) [
      | inl enough ↦
          rw enough (wrote (refilled c.class_budget now r - wanted) ∙ rw (e, enough) refl)
      | inr short ↦ rw short (wrote (refilled c.class_budget now r) ∙ rw (e, short) refl)
    ]

pub consume-record :
    (j k : String) (wanted now : ℕ) (c : Counter)
    → UniqueRecords c.records
    → length c.records < c.max_keys
    → get_record (consume j wanted now c).0.records k ≡ read_after j k wanted now c
unfolding consume
consume-record j k wanted now c u room = elim (Option-cases (get_record c.records j)) [
  | inl e ↦ rw (consume-none j wanted now c e) (new-record j k wanted now c room e)
  | inr (r, e) ↦ rw (consume-some j r wanted now c e) (known-record j k r wanted now c u e)
]

delete-length :
    (records : List (String × BucketRecord)) (k : String)
    → length (delete_record records k) ≤ length records
unfolding delete_record
delete-length [] k = omega arith
delete-length ((j, r) ∷ records) k = ground (arith, delete-length records k)

pub consume-length :
    (j : String) (wanted now : ℕ) (c : Counter)
    → length c.records < c.max_keys
    → length (consume j wanted now c).0.records ≤ length c.records + 1
unfolding consume consume_new consume_known
consume-length j wanted now c room =
    let roomy_same : leb c.max_keys (length c.records) ≡ false = ground arith in
    let deleted = delete-length c.records j in
    let longer : (rest : List (String × BucketRecord)) (r : BucketRecord)
        → length (set_record rest j r) ≡ length rest + 1 =
      λ rest r. omega (arith, length-append rest ((j, r) ∷ [])) in
    elim (Option-cases (get_record c.records j)) [
      | inl e ↦ elim (Bool-cases (leb wanted (capacity c.class_budget))) [
        | inl enough ↦ rw (e, consume, enough, roomy_same) (omega (arith, longer c.records _))
        | inr short ↦ rw (e, consume, short, roomy_same) (omega arith)
      ]
      | inr (r, e) ↦ elim (Bool-cases (leb wanted (refilled c.class_budget now r))) [
        | inl enough ↦
            rw (e, consume, enough) (omega (arith, deleted, longer (delete_record c.records j) _))
        | inr short ↦
            rw (e, consume, short) (omega (arith, deleted, longer (delete_record c.records j) _))
      ]
    ]

pub consume-same :
    (j : String) (wanted now : ℕ) (c : Counter)
    → ((consume j wanted now c).0.class_budget ≡ c.class_budget)
      × ((consume j wanted now c).0.max_keys ≡ c.max_keys)
unfolding consume consume_new consume_known
consume-same j wanted now c = elim (Option-cases (get_record c.records j)) [
  | inl e ↦ elim (Bool-cases (leb wanted (capacity c.class_budget))) [
    | inl enough ↦ rw (e, consume, enough) (refl, refl)
    | inr short ↦ rw (e, consume, short) (refl, refl)
  ]
  | inr (r, e) ↦ elim (Bool-cases (leb wanted (refilled c.class_budget now r))) [
    | inl enough ↦ rw (e, consume, enough) (refl, refl)
    | inr short ↦ rw (e, consume, short) (refl, refl)
  ]
]
