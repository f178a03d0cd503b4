-- ===== src/Limits/TokenBucket/Matches.antt =====
-- Two counters of apps/api/src/middleware/rate-limit.ts that answer the same calls alike, although one of them
-- lacks records of full buckets.
use falseroute.Prelude.{
  ℕ, suc, length, ◌⊎◌, false, ◌+◌, ◌-◌, ◌*◌, ◌≤◌, ◌≡◌, refl, sym, ap, ◌∙◌, inl, inr, String, str_eq,
  Bool, true, Option, none, some, List, [], ◌∷◌, arith, leb, if◌then◌else◌, Bool-cases,
}
use native.Mathlib.Nat.{mul-le-mul_right}
use falseroute.Limits.TokenBucket.{
  RequestClassBudget, BucketRecord, Counter, capacity, get_record, refilled, consume, at_time,
}
use falseroute.Limits.TokenBucket.Records.{UniqueRecords}
use falseroute.Limits.TokenBucket.Rate.{BucketCall, Ordered, consume-Balanced}
use falseroute.Limits.TokenBucket.Reads.{
  told, answers, reply, record_after, consume-reply, consume-record, consume-length, consume-same,
}

refilled-later :
    (b : RequestClassBudget) (t now : ℕ) (r : BucketRecord)
    → refilled b t r ≡ capacity b
    → t ≤ now
    → refilled b now r ≡ capacity b
unfolding refilled
refilled-later b t now r h le =
    let more : (t - r.last_refill_ms) * b.refill_per_ms
        ≤ (now - r.last_refill_ms) * b.refill_per_ms =
      mul-le-mul_right b.refill_per_ms (omega arith) in
    omega (arith, more)

-- What the pruned map holds for a key: the same, or nothing for a bucket that is full by the time `t`.
abbrev pub Alike : RequestClassBudget → ℕ → Option BucketRecord → Option BucketRecord → Type 0
Alike b t o o' =
    (o' ≡ o) ⊎ ((r : BucketRecord) × (o' ≡ none) × (o ≡ some r) × (refilled b t r ≡ capacity b))

Alike-later :
    (b : RequestClassBudget) (t now : ℕ) (o o' : Option BucketRecord)
    → t ≤ now
    → Alike b t o o'
    → Alike b now o o'
Alike-later b t now o o' le (inl same) = inl same
Alike-later b t now o o' le (inr (r, gone, found, full)) =
    inr (r, gone, found, refilled-later b t now r full le)

Alike-reply :
    (b : RequestClassBudget) (wanted now : ℕ) (o o' : Option BucketRecord)
    → Alike b now o o'
    → reply b wanted now o' ≡ reply b wanted now o
Alike-reply b wanted now o o' (inl same) = rw same refl
Alike-reply b wanted now o o' (inr (r, gone, found, full)) = rw (gone, found, full) refl

refilled-full_now :
    (b : RequestClassBudget) (now : ℕ) → refilled b now (at_time (capacity b) now) ≡ capacity b
unfolding refilled
refilled-full_now b now = omega arith

Alike-record_after :
    (b : RequestClassBudget) (wanted now : ℕ) (o o' : Option BucketRecord)
    → Alike b now o o'
    → Alike b now (record_after b wanted now o) (record_after b wanted now o')
Alike-record_after b wanted now o o' (inl same) = inl (rw same refl)
Alike-record_after b wanted now o o' (inr (r, gone, found, full)) =
    elim (Bool-cases (leb wanted (capacity b))) [
      | inl enough ↦ inl (rw (gone, found, full, enough) refl)
      | inr short ↦ inr (
        at_time (capacity b) now,
        rw (gone, short) refl,
        rw (found, full, short) refl,
        refilled-full_now b now,
      )
    ]

-- Two counters that answer alike from the time `t` on, with room for `n` more keys.
pub record Matches (n t : ℕ) (c c' : Counter) : Type 0 where
  pub unique : UniqueRecords c.records
  pub unique' : UniqueRecords c'.records
  pub room : length c.records + n ≤ c.max_keys
  pub room' : length c'.records + n ≤ c'.max_keys
  pub budgets : c'.class_budget ≡ c.class_budget
  pub alike :
      (k : String) → Alike c.class_budget t (get_record c.records k) (get_record c'.records k)

consume-told :
    (n t : ℕ) (j : String) (wanted now : ℕ) (c c' : Counter)
    → Matches n t c c'
    → t ≤ now
    → told (consume j wanted now c').1 ≡ told (consume j wanted now c).1
consume-told n t j wanted now c c' m le =
    consume-reply j wanted now c'
    ∙ ap (λ (b : RequestClassBudget). reply b wanted now (get_record c'.records j)) m.budgets
    ∙ Alike-reply c.class_budget wanted now (get_record c.records j) (get_record c'.records j)
        (Alike-later c.class_budget t now _ _ le (m.alike j))
    ∙ sym (consume-reply j wanted now c)

read_after-Alike :
    (b : RequestClassBudget) (wanted now : ℕ) (o o' p p' : Option BucketRecord) (own : Bool)
    → Alike b now o o'
    → Alike b now p p'
    → Alike b now
        (if own then record_after b wanted now o else p)
        (if own then record_after b wanted now o' else p')
read_after-Alike b wanted now o o' p p' true h h' = Alike-record_after b wanted now o o' h
read_after-Alike b wanted now o o' p p' false h h' = h'

consume-room :
    (n : ℕ) (j : String) (wanted now : ℕ) (c : Counter)
    → length c.records + suc n ≤ c.max_keys
    → length (consume j wanted now c).0.records + n ≤ (consume j wanted now c).0.max_keys
consume-room n j wanted now c room =
    let longer = consume-length j wanted now c (omega arith) in
    rw ((consume-same j wanted now c).1) (omega (arith, longer))

consume-Alike :
    (j k : String) (wanted n t now : ℕ) (c c' : Counter)
    → Matches (suc n) t c c'
    → t ≤ now
    → Alike c.class_budget now
        (get_record (consume j wanted now c).0.records k)
        (get_record (consume j wanted now c').0.records k)
consume-Alike j k wanted n t now c c' m le =
    let b = c.class_budget in
    let room = m.room in
    let room' = m.room' in
    let read = consume-record j k wanted now c m.unique (omega arith) in
    let read' : get_record (consume j wanted now c').0.records k ≡ (
        if str_eq j k
        then record_after b wanted now (get_record c'.records j)
        else get_record c'.records k) =
      consume-record j k wanted now c' m.unique' (omega arith)
      ∙ ap
          (λ (a : RequestClassBudget).
            if str_eq j k
            then record_after a wanted now (get_record c'.records j)
            else get_record c'.records k)
          m.budgets in
    rw (read, read')
      (read_after-Alike b wanted now _ _ _ _ (str_eq j k) (Alike-later b t now _ _ le (m.alike j))
        (Alike-later b t now _ _ le (m.alike k)))

consume-Matches :
    (n t : ℕ) (j : String) (wanted now : ℕ) (c c' : Counter)
    → Matches (suc n) t c c'
    → t ≤ now
    → Matches n now (consume j wanted now c).0 (consume j wanted now c').0
consume-Matches n t j wanted now c c' m le =
    let same = (consume-same j wanted now c).0 in
    let same' = (consume-same j wanted now c').0 in
    record {
      unique = (consume-Balanced j j wanted now c m.unique).unique;
      unique' = (consume-Balanced j j wanted now c' m.unique').unique;
      room = consume-room n j wanted now c m.room;
      room' = consume-room n j wanted now c' m.room';
      budgets = same' ∙ m.budgets ∙ sym same;
      alike = λ k. rw same (consume-Alike j k wanted n t now c c' m le);
    }

pub answers-same :
    (calls : List BucketCall) (t end : ℕ) (c c' : Counter)
    → Matches (length calls) t c c'
    → Ordered t calls end
    → answers calls c' ≡ answers calls c
unfolding answers
answers-same [] t end c c' m o = refl
answers-same (x ∷ calls) t end c c' m o =
    let n = length calls in
    let m' : Matches (suc n) t c c' = m in
    let after = consume-Matches n t x.key x.wanted x.now c c' m' o.0 in
    rw
      (
        consume-told (suc n) t x.key x.wanted x.now c c' m' o.0,
        answers-same calls x.now end _ _ after o.1,
      )
      refl
