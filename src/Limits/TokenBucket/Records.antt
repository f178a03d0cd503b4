-- ===== src/Limits/TokenBucket/Records.antt =====
-- The map of `TokenBucketCounter` (apps/api/src/middleware/rate-limit.ts): reads after writes.
use falseroute.Prelude.{
  ◌≡◌, ◌⊎◌, refl, inl, inr, String, str_eq, str_eq_refl, str_eq_iff, false, none, some, List, [],
  ◌∷◌, arith, leb, length, if◌then◌else◌, Bool-cases,
}
use falseroute.Limits.TokenBucket.{
  BucketRecord, Counter, get_record, delete_record, set_record, evict_oldest,
}

pub get-set :
    (records : List (String × BucketRecord)) (k : String) (r : BucketRecord)
    → get_record records k ≡ none
    → get_record (set_record records k r) k ≡ some r
unfolding get_record
get-set [] k r h = rw (str_eq_refl k)
get-set ((j, s) ∷ records) k r h = ground (arith, get-set records k r)

-- Keys are unique in the map.
abbrev pub UniqueRecords : List (String × BucketRecord) → Type 0
UniqueRecords [] = Unit
UniqueRecords ((j, r) ∷ records) = (get_record records j ≡ none) × UniqueRecords records

get-delete_absent :
    (records : List (String × BucketRecord)) (j k : String)
    → get_record records j ≡ none
    → get_record (delete_record records k) j ≡ none
unfolding get_record delete_record
get-delete_absent [] j k h = refl
get-delete_absent ((i, r) ∷ records) j k h = ground (arith, get-delete_absent records j k)

pub get-delete_self :
    (records : List (String × BucketRecord)) (k : String)
    → UniqueRecords records
    → get_record (delete_record records k) k ≡ none
unfolding get_record delete_record
get-delete_self [] k u = refl
get-delete_self ((j, r) ∷ records) k u =
    ground (arith, str_eq_iff j k, get-delete_self records k u.1)

pub delete-UniqueRecords :
    (records : List (String × BucketRecord)) (k : String)
    → UniqueRecords records
    → UniqueRecords (delete_record records k)
unfolding delete_record
delete-UniqueRecords [] k u = tt
delete-UniqueRecords ((j, r) ∷ records) k u = elim (Bool-cases (str_eq j k)) [
  | inl hit ↦ rw hit (u.1)
  | inr miss ↦ rw miss (get-delete_absent records j k u.0, delete-UniqueRecords records k u.1)
]

get-set_other :
    (records : List (String × BucketRecord)) (j k : String) (r : BucketRecord)
    → get_record records j ≡ none
    → str_eq k j ≡ false
    → get_record (set_record records k r) j ≡ none
unfolding get_record
get-set_other [] j k r h n = rw n
get-set_other ((i, s) ∷ records) j k r h n = ground (arith, get-set_other records j k r)

pub set-UniqueRecords :
    (records : List (String × BucketRecord)) (k : String) (r : BucketRecord)
    → UniqueRecords records
    → get_record records k ≡ none
    → UniqueRecords (set_record records k r)
unfolding get_record
set-UniqueRecords [] k r u h = (refl, tt)
set-UniqueRecords ((j, s) ∷ records) k r u h = (
  get-set_other records j k r u.0 (ground (arith, str_eq_iff j k, str_eq_iff k j)),
  set-UniqueRecords records k r u.1 (ground arith),
)

pub get-delete_other :
    (records : List (String × BucketRecord)) (j k : String)
    → str_eq j k ≡ false
    → get_record (delete_record records j) k ≡ get_record records k
unfolding get_record delete_record
get-delete_other [] j k n = refl
get-delete_other ((i, r) ∷ records) j k n = elim (Bool-cases (str_eq i j)) [
  | inl hit ↦ let other : str_eq i k ≡ false = rw ((str_eq_iff i j).0 hit) n in rw (hit, other) refl
  | inr miss ↦ rw (miss, get-delete_other records j k n) refl
]

pub get-set_miss :
    (records : List (String × BucketRecord)) (j k : String) (r : BucketRecord)
    → str_eq j k ≡ false
    → get_record (set_record records j r) k ≡ get_record records k
unfolding get_record
get-set_miss [] j k r n = rw n refl
get-set_miss ((i, s) ∷ records) j k r n = rw (get-set_miss records j k r n) refl

-- The map as a new key finds it.
abbrev pub roomy : Counter → List (String × BucketRecord)
roomy c = if leb c.max_keys (length c.records) then evict_oldest c.records else c.records

get-evict :
    (records : List (String × BucketRecord)) (k : String)
    → UniqueRecords records
    → (get_record (evict_oldest records) k ≡ none)
      ⊎ (get_record (evict_oldest records) k ≡ get_record records k)
unfolding get_record evict_oldest
get-evict [] k u = inl refl
get-evict ((j, r) ∷ records) k u = elim (Bool-cases (str_eq j k)) [
  | inl hit ↦ inl (rw (← (str_eq_iff j k).0 hit) u.0)
  | inr miss ↦ inr (rw miss refl)
]

pub get-roomy :
    (c : Counter) (k : String)
    → UniqueRecords c.records
    → (get_record (roomy c) k ≡ none) ⊎ (get_record (roomy c) k ≡ get_record c.records k)
get-roomy c k u = elim (Bool-cases (leb c.max_keys (length c.records))) [
  | inl full ↦ rw full (get-evict c.records k u)
  | inr room ↦ rw room (inr refl)
]

evict-UniqueRecords :
    (records : List (String × BucketRecord))
    → UniqueRecords records
    → UniqueRecords (evict_oldest records)
unfolding evict_oldest
evict-UniqueRecords [] u = tt
evict-UniqueRecords (e ∷ records) u = u.1

pub roomy-UniqueRecords : (c : Counter) → UniqueRecords c.records → UniqueRecords (roomy c)
roomy-UniqueRecords c u = elim (Bool-cases (leb c.max_keys (length c.records))) [
  | inl full ↦ rw full (evict-UniqueRecords c.records u)
  | inr room ↦ rw room u
]
