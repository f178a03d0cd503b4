-- ===== src/Leases/History/Claims.antt =====
-- What a claim of an emergency release leaves of the order of the releases, in
-- packages/database/src/repositories/emergency-release-repository.ts.
use falseroute.Prelude.{
  ℕ, ◌≤◌, ◌≡◌, refl, String, Bool, true, false, none, some, List, [], ◌∷◌, ◌++◌, ok, arith,
  any_where, count_where, count_where-append, All, All-append, length, filter_where, update_where,
  find_first, str_eq, str_eq_iff, any-zero, not, ◌||◌, Bool-cases, Option-cases, inl, inr, sym, ◌∙◌,
}
use falseroute.Leases.Store.{decoy}
use falseroute.Leases.Emergency.{
  ReleaseStore, ReleaseInput, EmergencyRelease, ClaimAnswer, has_release_id, has_release_key,
  is_completed, is_live_claim, is_conflict, take_leases, resume_release, start_release,
  claim_emergency_release, resumed_release, new_release, is_candidate,
}

abbrev pub is_unfinished : EmergencyRelease → Bool
is_unfinished r = not (is_completed r)

-- Identifiers are unique, a completed release has no claim, and at most one is unfinished.
pub record IsSerial (rows : List EmergencyRelease) : Type 0 where
  pub unique : (i : String) → count_where (has_release_id i) rows ≤ 1
  pub quiet : All (λ r. is_completed r ≡ true → r.claim_expires_at ≡ none) rows
  pub single : count_where is_unfinished rows ≤ 1

pub count-ids :
    (i : String) (w : EmergencyRelease → Bool) (g : EmergencyRelease → EmergencyRelease)
    (rows : List EmergencyRelease)
    → ((r : EmergencyRelease) → (g r).id ≡ r.id)
    → count_where (has_release_id i) (update_where w g rows) ≡ count_where (has_release_id i) rows
count-ids i w g [] kept = refl
count-ids i w g (r ∷ rows) kept = elim (Bool-cases (w r)) [
  | inl hit ↦ rw (hit, kept r, count-ids i w g rows kept) refl
  | inr miss ↦ rw (miss, count-ids i w g rows kept) refl
]

pub update-quiet :
    (w : EmergencyRelease → Bool) (g : EmergencyRelease → EmergencyRelease)
    (rows : List EmergencyRelease)
    → ((r : EmergencyRelease) → is_completed (g r) ≡ true → (g r).claim_expires_at ≡ none)
    → All (λ r. is_completed r ≡ true → r.claim_expires_at ≡ none) rows
    → All (λ r. is_completed r ≡ true → r.claim_expires_at ≡ none) (update_where w g rows)
update-quiet w g [] h q = tt
update-quiet w g (r ∷ rows) h q = elim (Bool-cases (w r)) [
  | inl hit ↦ rw hit (h r, update-quiet w g rows h q.1)
  | inr miss ↦ rw miss (q.0, update-quiet w g rows h q.1)
]

resumed-count :
    (e : EmergencyRelease) (g : EmergencyRelease → EmergencyRelease) (rows : List EmergencyRelease)
    → any_where (is_conflict (some e)) rows ≡ false
    → count_where is_unfinished (update_where (has_release_id e.id) g rows)
      ≤ count_where (has_release_id e.id) rows
resumed-count e g [] h = omega arith
resumed-count e g (r ∷ rows) h = ground (arith, resumed-count e g rows)

resume-IsSerial :
    (e : EmergencyRelease) (token : String) (now : ℕ) (s s' : ReleaseStore) (a : ClaimAnswer)
    → resume_release e token now s ≡ ok (s', a)
    → IsSerial s.releases
    → IsSerial s'.releases
unfolding resume_release
resume-IsSerial e token now s s' a h i =
    let g = resumed_release (take_leases (some e) token s.tables).1 token now in
    let w : EmergencyRelease → Bool = has_release_id e.id in
    let alone : any_where (is_conflict (some e)) s.releases ≡ false = ground arith in
    let written : s'.releases ≡ update_where w g s.releases = ground arith in
    rw written (record {
      unique = λ j. omega (arith, count-ids j w g s.releases (λ r. refl), i.unique j);
      quiet = update-quiet w g s.releases (λ r c. cc) i.quiet;
      single = omega (arith, resumed-count e g s.releases alone, i.unique e.id);
    })

new_id-count :
    (j id : String) (n : EmergencyRelease) (rows : List EmergencyRelease)
    → n.id ≡ id
    → any_where (has_release_id id) rows ≡ false
    → count_where (has_release_id j) rows ≤ 1
    → count_where (has_release_id j) (rows ++ n ∷ []) ≤ 1
new_id-count j id n rows e fresh one = elim (Bool-cases (str_eq n.id j)) [
  | inl hit ↦
      let same : id ≡ j = sym e ∙ (str_eq_iff n.id j).0 hit in
      let zero_rows : count_where (has_release_id j) rows ≡ 0 =
        any-zero (has_release_id j) rows (rw (← same) fresh) in
      ground (arith, count_where-append (has_release_id j) rows (n ∷ []))
  | inr miss ↦ ground (arith, count_where-append (has_release_id j) rows (n ∷ []))
]

all_completed :
    (rows : List EmergencyRelease)
    → any_where (is_conflict none) rows ≡ false
    → count_where is_unfinished rows ≡ 0
all_completed [] h = refl
all_completed (r ∷ rows) h = ground (arith, all_completed rows)

start-IsSerial :
    (p : ReleaseInput) (token : String) (now : ℕ) (id : String) (s s' : ReleaseStore)
    (a : ClaimAnswer)
    → start_release p token now id s ≡ ok (s', a)
    → any_where (has_release_id id) s.releases ≡ false
    → IsSerial s.releases
    → IsSerial s'.releases
unfolding start_release
start-IsSerial p token now id s s' a h fresh i =
    let (tables, ids) = take_leases none token s.tables in
    let alone : any_where (is_conflict none) s.releases ≡ false = ground arith in
    let n =
      new_release p (take_leases none token s.tables).1
        (length (filter_where (is_candidate decoy none []) s.tables.decoys)) token now id in
    let written : s'.releases ≡ s.releases ++ n ∷ [] = ground arith in
    rw written (record {
      unique = λ j. new_id-count j id n s.releases refl fresh (i.unique j);
      quiet = All-append _ s.releases (n ∷ []) i.quiet ((λ c. cc), tt);
      single = omega (
        arith,
        count_where-append is_unfinished s.releases (n ∷ []),
        all_completed s.releases alone,
      );
    })

pub claim-IsSerial :
    (p : ReleaseInput) (token : String) (now : ℕ) (id : String) (s s' : ReleaseStore)
    (a : ClaimAnswer)
    → claim_emergency_release p token now id s ≡ ok (s', a)
    → any_where (has_release_id id) s.releases ≡ false
    → IsSerial s.releases
    → IsSerial s'.releases
unfolding claim_emergency_release
claim-IsSerial p token now id s s' a h fresh i =
    elim (Option-cases (find_first (has_release_key p.idempotency_key) s.releases)) [
      | inl none_found ↦ start-IsSerial p token now id s s' a (ground arith) fresh i
      | inr (e, found) ↦
          elim (Bool-cases (is_completed e || is_live_claim now e.claim_expires_at)) [
            | inl answered ↦ let kept : s'.releases ≡ s.releases = ground arith in rw kept i
            | inr open_release ↦ resume-IsSerial e token now s s' a (ground arith) i
          ]
    ]
