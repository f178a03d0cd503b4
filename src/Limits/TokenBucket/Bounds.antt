-- ===== src/Limits/TokenBucket/Bounds.antt =====
-- The size of the map of `TokenBucketCounter` (apps/api/src/middleware/rate-limit.ts) and its tokens.
use falseroute.Prelude.{
  ℕ, ◌+◌, ◌-◌, ◌≤◌, ◌<◌, ◌≡◌, inl, inr, String, str_eq, some, List, [], ◌∷◌, arith, leb,
  if◌then◌else◌, length, length-append, All, All-append, Bool-cases, Option-cases,
}
use falseroute.Limits.TokenBucket.Records.{roomy}
use falseroute.Limits.TokenBucket.{
  RequestClassBudget, BucketRecord, Counter, capacity, get_record, delete_record, set_record,
  evict_oldest, refilled, consume_new, consume_known, consume, at_time,
}

abbrev Fits : RequestClassBudget → String × BucketRecord → Type 0
Fits b entry = entry.1.tokens ≤ capacity b

pub record IsValid (c : Counter) : Type 0 where
  pub bounded : length c.records ≤ c.max_keys
  pub full : All (Fits c.class_budget) c.records

delete-length :
    (records : List (String × BucketRecord)) (k : String) (r : BucketRecord)
    → get_record records k ≡ some r
    → length (delete_record records k) + 1 ≡ length records
unfolding get_record delete_record
delete-length [] k r h = cc
delete-length ((j, s) ∷ records) k r h = ground (arith, delete-length records k r)

delete-Fits :
    (b : RequestClassBudget) (records : List (String × BucketRecord)) (k : String)
    → All (Fits b) records
    → All (Fits b) (delete_record records k)
unfolding delete_record
delete-Fits b [] k h = tt
delete-Fits b ((j, s) ∷ records) k h = elim (Bool-cases (str_eq j k)) [
  | inl hit ↦ rw hit (h.1)
  | inr miss ↦ rw miss (h.0, delete-Fits b records k h.1)
]

evict-length :
    (records : List (String × BucketRecord)) → length (evict_oldest records) ≡ length records - 1
unfolding evict_oldest
evict-length [] = omega arith
evict-length (r ∷ records) = omega arith

evict-Fits :
    (b : RequestClassBudget) (records : List (String × BucketRecord))
    → All (Fits b) records
    → All (Fits b) (evict_oldest records)
unfolding evict_oldest
evict-Fits b [] h = tt
evict-Fits b (r ∷ records) h = h.1

set-length :
    (records : List (String × BucketRecord)) (k : String) (r : BucketRecord)
    → length (set_record records k r) ≡ length records + 1
set-length records k r = omega (arith, length-append records ((k, r) ∷ []))

set-Fits :
    (b : RequestClassBudget) (records : List (String × BucketRecord)) (k : String)
    (r : BucketRecord)
    → All (Fits b) records
    → r.tokens ≤ capacity b
    → All (Fits b) (set_record records k r)
set-Fits b records k r h t = All-append (Fits b) records ((k, r) ∷ []) h (t, tt)

refilled-le : (b : RequestClassBudget) (now : ℕ) (r : BucketRecord) → refilled b now r ≤ capacity b
unfolding refilled
refilled-le b now r = omega arith

room-length :
    (c : Counter)
    → 0 < c.max_keys
    → length c.records ≤ c.max_keys
    → length (if leb c.max_keys (length c.records) then evict_oldest c.records else c.records)
      < c.max_keys
room-length c pos h = ground (arith, evict-length c.records)

room-Fits :
    (c : Counter)
    → All (Fits c.class_budget) c.records
    → All
        (Fits c.class_budget)
        (if leb c.max_keys (length c.records) then evict_oldest c.records else c.records)
room-Fits c h = elim (Bool-cases (leb c.max_keys (length c.records))) [
  | inl full ↦ rw full (evict-Fits c.class_budget c.records h)
  | inr room ↦ rw room h
]

-- The record of a new key.
abbrev fresh_record : Counter → ℕ → ℕ → BucketRecord
fresh_record c wanted now = at_time (capacity c.class_budget - wanted) now

consume_new-IsValid :
    (k : String) (wanted now : ℕ) (c : Counter)
    → 0 < c.max_keys
    → IsValid c
    → IsValid (consume_new k wanted now c).0
unfolding consume_new
consume_new-IsValid k wanted now c pos v =
    let room = room-length c pos v.bounded in
    let fits = room-Fits c v.full in
    elim (Bool-cases (leb wanted (capacity c.class_budget))) [
      | inl enough ↦ rw enough (record {
        bounded = omega (arith, room, set-length (roomy c) k (fresh_record c wanted now));
        full = set-Fits c.class_budget (roomy c) k (fresh_record c wanted now) fits (omega arith);
      })
      | inr short ↦ rw short (record { bounded = omega (arith, room); full = fits })
    ]

consume_known-IsValid :
    (k : String) (r : BucketRecord) (wanted now : ℕ) (c : Counter)
    → get_record c.records k ≡ some r
    → IsValid c
    → IsValid (consume_known k r wanted now c).0
unfolding consume_known
consume_known-IsValid k r wanted now c found v =
    let b = c.class_budget in
    let rest = delete_record c.records k in
    let removed = delete-length c.records k r found in
    let fits = delete-Fits b c.records k v.full in
    let current = refilled-le b now r in
    elim (Bool-cases (leb wanted (refilled b now r))) [
      | inl enough ↦ rw enough (record {
        bounded = omega (
          arith,
          v.bounded,
          removed,
          set-length rest k (at_time (refilled b now r - wanted) now),
        );
        full =
            set-Fits b rest k (at_time (refilled b now r - wanted) now) fits
              (omega (arith, current));
      })
      | inr short ↦ rw short (record {
        bounded =
            omega (arith, v.bounded, removed, set-length rest k (at_time (refilled b now r) now));
        full = set-Fits b rest k (at_time (refilled b now r) now) fits current;
      })
    ]

-- Where the map may hold a key at all, a call keeps the number of its keys within `maxKeys` and the
-- tokens of every record within the burst capacity, whatever the time and the key are.
pub consume-IsValid :
    (k : String) (wanted now : ℕ) (c : Counter)
    → 0 < c.max_keys
    → IsValid c
    → IsValid (consume k wanted now c).0
unfolding consume
consume-IsValid k wanted now c pos v = elim (Option-cases (get_record c.records k)) [
  | inl e ↦ rw (e, consume) (consume_new-IsValid k wanted now c pos v)
  | inr (r, e) ↦ rw (e, consume) (consume_known-IsValid k r wanted now c e v)
]
