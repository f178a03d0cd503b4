-- ===== src/Workflow/DeadLetters/Once.antt =====
-- Whole histories of the dead letters and replay attempts of
-- packages/database/src/repositories/autonomous-workflow-repository.ts.
use falseroute.Prelude.{
  ℕ, ◌+◌, ◌≤◌, ◌≡◌, refl, ap, String, Text, str_eq, str_eq_iff, Bool, true, false, not, Option,
  none, some, List, [], ◌∷◌, ◌++◌, arith, ok, throw_if, or_throw, on_ok, ==_iff, ◌==◌, any_where,
  any-zero, find_first, find_first-true, count_where, count_where-append, count-update_same,
  update_where, Bool-cases, Option-cases, inl, inr,
}
use falseroute.Workflow.DeadLetters.{
  ReplayStatus, replaying, replayed, review_required, AttemptStatus, attempt_completed,
  attempt_failed, DeadLetter, ReplayAttempt, ReplayTables, ReplayError, is_available, has_letter_id,
  has_message_id, has_attempt_id, is_of_letter, is_active_attempt, is_attempt_in, LetterInput,
  new_letter, record_dead_letter, with_status, set_letter_status, mark_dead_letter_replayed,
  ReplayInput, new_attempt, event_of_letter, is_claimable_letter, write_replay_claim,
  claim_dead_letter_for_replay, end_replay_claim, completed_attempt, failed_attempt,
  complete_replay_claim, fail_replay_claim, attempt_claimed, letter_not_found, attempt_not_found,
  claim_inactive, unique_violation, schema_invalid,
}

-- One operation. The database gives a new letter an identifier that no letter has.
pub data ReplayStep : ReplayTables → ReplayTables → Type 0 where
  records :
      (hash : Text → String) (p : LetterInput) (id : String) (t t' : ReplayTables) (d : DeadLetter)
      → any_where (has_letter_id id) t.letters ≡ false
      → record_dead_letter hash p id t ≡ ok (t', d)
      → ReplayStep t t'
  marks :
      (id : String) (t t' : ReplayTables) → mark_dead_letter_replayed id t ≡ ok t' → ReplayStep t t'
  claims :
      (p : ReplayInput) (id : String) (t t' : ReplayTables) (a : Option ReplayAttempt)
      → claim_dead_letter_for_replay p id t ≡ ok (t', a)
      → ReplayStep t t'
  completes :
      (id transport : String) (now : ℕ) (t t' : ReplayTables)
      → complete_replay_claim id transport now t ≡ ok t'
      → ReplayStep t t'
  fails :
      (id : String) (reason : Text) (now : ℕ) (t t' : ReplayTables)
      → fail_replay_claim id reason now t ≡ ok t'
      → ReplayStep t t'

pub data ReplayHistory : ReplayTables → Type 0 where
  no_letters : ReplayHistory (record { letters = []; attempts = [] })
  after : {t t' : ReplayTables} → ReplayHistory t → ReplayStep t t' → ReplayHistory t'

-- A letter has an attempt, or may get one, but not both.
abbrev IsSingle : ReplayTables → Type 0
IsSingle t =
    (i : String)
    → (count_where (is_of_letter i) t.attempts + count_where (is_claimable_letter i) t.letters
        ≤ count_where (has_letter_id i) t.letters)
      × (count_where (has_letter_id i) t.letters ≤ 1)

module _ (i : String) (s : ReplayStatus) (blocked : is_available s ≡ false) where
  status-claimable :
      (w : DeadLetter → Bool) (letters : List DeadLetter)
      → count_where (is_claimable_letter i) (update_where w (with_status s) letters)
        ≤ count_where (is_claimable_letter i) letters
  status-claimable w [] = omega arith
  status-claimable w (d ∷ letters) = ground (arith, status-claimable w letters)

status-ids :
    (i : String) (s : ReplayStatus) (w : DeadLetter → Bool) (letters : List DeadLetter)
    → count_where (has_letter_id i) (update_where w (with_status s) letters)
      ≡ count_where (has_letter_id i) letters
status-ids i s w letters = count-update_same (has_letter_id i) w (with_status s) letters (λ d. refl)

set-IsSingle :
    (id : String) (s : ReplayStatus) (t t' : ReplayTables)
    → is_available s ≡ false
    → set_letter_status id s t ≡ ok t'
    → IsSingle t
    → IsSingle t'
unfolding set_letter_status
set-IsSingle id s t t' blocked h single i =
    let letters : t'.letters ≡ update_where (has_letter_id id) (with_status s) t.letters =
      ground arith in
    let attempts : t'.attempts ≡ t.attempts = ground arith in
    rw letters (
      rw attempts (
        omega (
          arith,
          single i,
          status-claimable i s blocked (has_letter_id id) t.letters,
          status-ids i s (has_letter_id id) t.letters,
        )))

attempt-ids :
    (i : String) (w : ReplayAttempt → Bool) (f : ReplayAttempt → ReplayAttempt)
    (rows : List ReplayAttempt)
    → ((a : ReplayAttempt) → (f a).dead_letter_id ≡ a.dead_letter_id)
    → count_where (is_of_letter i) (update_where w f rows) ≡ count_where (is_of_letter i) rows
attempt-ids i w f rows keep =
    count-update_same (is_of_letter i) w f rows (λ a. ap (λ (x : String). str_eq x i) (keep a))

end-IsSingle :
    (id : String) (s : AttemptStatus) (f : ReplayAttempt → ReplayAttempt) (l : ReplayStatus)
    (t t' : ReplayTables)
    → ((a : ReplayAttempt) → (f a).dead_letter_id ≡ a.dead_letter_id)
    → is_available l ≡ false
    → end_replay_claim id s f l t ≡ ok t'
    → IsSingle t
    → IsSingle t'
unfolding end_replay_claim
end-IsSingle id s f l t t' keep blocked h single =
    on_ok (or_throw (find_first (has_attempt_id id) t.attempts) attempt_not_found) _ h
      λ a found rest.
        on_ok (throw_if (not (count_where (is_active_attempt a.id) t.attempts == 1)) claim_inactive)
          _ rest
          λ x active rest'.
            on_ok
              (throw_if (any_where (is_attempt_in a.dead_letter_id s) t.attempts) unique_violation)
              _ rest'
              λ y fresh written.
                set-IsSingle a.dead_letter_id l
                  (record t { attempts = update_where (is_active_attempt a.id) f t.attempts }) t'
                  blocked written
                  (λ i. rw (attempt-ids i (is_active_attempt a.id) f t.attempts keep) (single i))

record-IsSingle :
    (hash : Text → String) (p : LetterInput) (id : String) (t t' : ReplayTables) (d : DeadLetter)
    → any_where (has_letter_id id) t.letters ≡ false
    → record_dead_letter hash p id t ≡ ok (t', d)
    → IsSingle t
    → IsSingle t'
unfolding record_dead_letter is_available
record-IsSingle hash p id t t' d fresh h single i =
    elim (Option-cases (find_first (has_message_id p.original_message_id) t.letters)) [
      | inr (e, found) ↦ let kept : t' ≡ t = ground arith in rw kept (single i)
      | inl new ↦
          let letters : t'.letters ≡ t.letters ++ new_letter p id ∷ [] = ground arith in
          let attempts : t'.attempts ≡ t.attempts = ground arith in
          let more = count_where-append (has_letter_id i) t.letters (new_letter p id ∷ []) in
          let open_letters =
            count_where-append (is_claimable_letter i) t.letters (new_letter p id ∷ []) in
          rw letters (
            rw attempts (elim (Bool-cases (str_eq id i)) [
              | inl hit ↦
                  let same : id ≡ i = (str_eq_iff id i).0 hit in
                  let none_there = any-zero (has_letter_id i) t.letters (rw (← same) fresh) in
                  let before = single i in (ground arith, ground arith)
              | inr miss ↦ let before = single i in (ground arith, ground arith)
            ]))
    ]

claim-closed :
    (k : String) (letters : List DeadLetter)
    → count_where
        (is_claimable_letter k)
        (update_where (is_claimable_letter k) (with_status replaying) letters)
      ≡ 0
unfolding is_available
claim-closed k [] = refl
claim-closed k (d ∷ letters) = ground (arith, claim-closed k letters)

at_most_one : (q : ReplayAttempt → Bool) (a : ReplayAttempt) → count_where q (a ∷ []) ≤ 1
at_most_one q a = ground arith

write-IsSingle :
    (p : ReplayInput) (d : DeadLetter) (event id : String) (t t' : ReplayTables)
    (a : Option ReplayAttempt)
    → d.id ≡ p.dead_letter_id
    → write_replay_claim p d event id t ≡ ok (t', a)
    → IsSingle t
    → IsSingle t'
unfolding write_replay_claim
write-IsSingle p d event id t t' a same h single i =
    let k = p.dead_letter_id in
    let w : DeadLetter → Bool = is_claimable_letter k in
    elim (Bool-cases (count_where w t.letters == 1)) [
      | inr other ↦ let kept : t' ≡ t = ground arith in rw kept (single i)
      | inl one ↦
          let free : any_where (is_attempt_in d.id attempt_claimed) t.attempts ≡ false =
            ground arith in
          let letters : t'.letters ≡ update_where w (with_status replaying) t.letters =
            ground arith in
          let n = new_attempt p d event id in
          let attempts : t'.attempts ≡ t.attempts ++ n ∷ [] = ground arith in
          let more = count_where-append (is_of_letter i) t.attempts (n ∷ []) in
          let ids = status-ids i replaying w t.letters in
          let before = single i in
          rw letters (
            rw attempts (elim (Bool-cases (str_eq k i)) [
              | inl hit ↦
                  let here : k ≡ i = (str_eq_iff k i).0 hit in
                  let closed : count_where (is_claimable_letter i)
                        (update_where w (with_status replaying) t.letters)
                      ≡ 0 =
                    rw (← here) (claim-closed k t.letters) in
                  let was_open : count_where (is_claimable_letter i) t.letters ≡ 1 =
                    rw (← here) ((==_iff (count_where w t.letters) 1).0 one) in
                  (omega (arith, at_most_one (is_of_letter i) n), omega arith)
              | inr miss ↦
                  let fewer = status-claimable i replaying refl w t.letters in
                  let not_its : str_eq n.dead_letter_id i ≡ false = rw same miss in
                  let none_added : count_where (is_of_letter i) (n ∷ []) ≡ 0 = rw not_its refl in
                  (omega arith, omega arith)
            ]))
    ]

or_throw-some :
    {A : Type 0} (o : Option A) (e : ReplayError) {a : A} → or_throw o e ≡ ok a → o ≡ some a
or_throw-some none e h = cc
or_throw-some (some b) e h = ground arith

claim-IsSingle :
    (p : ReplayInput) (id : String) (t t' : ReplayTables) (a : Option ReplayAttempt)
    → claim_dead_letter_for_replay p id t ≡ ok (t', a)
    → IsSingle t
    → IsSingle t'
unfolding claim_dead_letter_for_replay
claim-IsSingle p id t t' a h single =
    on_ok (or_throw (find_first (has_letter_id p.dead_letter_id) t.letters) letter_not_found) _ h
      λ d found rest.
        on_ok (or_throw (event_of_letter d) schema_invalid) _ rest λ event valid written.
          let keyed : has_letter_id p.dead_letter_id d ≡ true =
            find_first-true (has_letter_id p.dead_letter_id) t.letters
              (or_throw-some _ letter_not_found found) in
          write-IsSingle p d event id t t' a ((str_eq_iff d.id p.dead_letter_id).0 keyed) written
            single

step-IsSingle : {t t' : ReplayTables} → ReplayStep t t' → IsSingle t → IsSingle t'
step-IsSingle (records hash p id t t' d fresh h) single =
    record-IsSingle hash p id t t' d fresh h single
step-IsSingle (marks id t t' h) single =
    set-IsSingle id replayed t t' (unfold is_available in refl)
      (unfold mark_dead_letter_replayed in h) single
step-IsSingle (claims p id t t' a h) single = claim-IsSingle p id t t' a h single
step-IsSingle (completes id transport now t t' h) single =
    end-IsSingle id attempt_completed (completed_attempt transport now) replayed t t' (λ a. refl)
      (unfold is_available in refl) (unfold complete_replay_claim in h) single
step-IsSingle (fails id reason now t t' h) single =
    end-IsSingle id attempt_failed (failed_attempt reason now) review_required t t' (λ a. refl)
      (unfold is_available in refl) (unfold fail_replay_claim in h) single

history-IsSingle : {t : ReplayTables} → ReplayHistory t → IsSingle t
history-IsSingle no_letters = λ i. (omega arith, omega arith)
history-IsSingle (after before m) = step-IsSingle m (history-IsSingle before)

-- Over any history of recorded letters, claims and their ends, from empty tables, a dead letter is
-- available and has no replay attempt, or it has at most one, whatever becomes of that.
pub replay_once :
    (i : String) (t : ReplayTables)
    → ReplayHistory t
    → count_where (is_of_letter i) t.attempts + count_where (is_claimable_letter i) t.letters ≤ 1
replay_once i t h = let single = history-IsSingle h i in omega arith
