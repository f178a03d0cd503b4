-- ===== src/Leases/History/Serial.antt =====
-- The releases of packages/database/src/repositories/emergency-release-repository.ts over whole
-- histories.
use falseroute.Prelude.{
  ℕ, ◌≤◌, ◌≡◌, refl, String, Bool, true, false, none, some, List, [], ◌∷◌, ok, arith, count_where,
  All, update_where, find_first, count-update, Bool-cases, Option-cases, inl, inr, on_ok, or_throw,
}
use falseroute.Leases.Store.{release_not_found}
use falseroute.Leases.Counts.{completed, EmergencyReleaseCounts, derive_emergency_release_status}
use falseroute.Leases.Emergency.{
  ReleaseStore, EmergencyRelease, has_release_id, is_completed, is_live_claim,
}
use falseroute.Leases.Settlement.{
  CompleteInput, complete_emergency_release, reported_release, settle_emergency_release,
  settled_release, owns_claim,
}
use falseroute.Leases.History.{
  LeaseStep, creates_decoy, creates_route, creates_quarantine, sweeps, cleans_decoy, revokes_route,
  releases_quarantine, fails_decoy, fails_route, fails_quarantine, claims_release, settles_route,
  settles_quarantine, settles_release, completes_release, StepKeepsCompleted, KeepsCompleted,
  History, done, next,
}
use falseroute.Leases.History.Claims.{
  is_unfinished, IsSerial, count-ids, update-quiet, claim-IsSerial,
}

quiet_found :
    (w : EmergencyRelease → Bool) (rows : List EmergencyRelease) (r : EmergencyRelease)
    → find_first w rows ≡ some r
    → All (λ x. is_completed x ≡ true → x.claim_expires_at ≡ none) rows
    → is_completed r ≡ true
    → r.claim_expires_at ≡ none
quiet_found w [] r found q c = cc
quiet_found w (x ∷ rows) r found q c = elim (Bool-cases (w x)) [
  | inl hit ↦ let same : x ≡ r = ground arith in rw (← same) (q.0 (rw same c))
  | inr miss ↦ quiet_found w rows r (ground arith) q.1 c
]

-- A release with a live claim is not completed.
pub live_unfinished :
    (w : EmergencyRelease → Bool) (rows : List EmergencyRelease) (r : EmergencyRelease) (now : ℕ)
    → find_first w rows ≡ some r
    → IsSerial rows
    → is_live_claim now r.claim_expires_at ≡ true
    → is_unfinished r ≡ true
live_unfinished w rows r now found i live = elim (Bool-cases (is_completed r)) [
  | inl c ↦
      let no_claim = quiet_found w rows r found i.quiet c in
      let dead : is_live_claim now r.claim_expires_at ≡ false = rw no_claim refl in cc
  | inr c ↦ rw c
]

owns-live :
    (token : String) (now : ℕ) (r : EmergencyRelease)
    → owns_claim token now r ≡ true
    → is_live_claim now r.claim_expires_at ≡ true
owns-live token now r h = ground arith

settle-write :
    (record_id token : String) (now : ℕ) (s s' : ReleaseStore) (c : EmergencyReleaseCounts)
    → settle_emergency_release record_id token now s ≡ ok (s', c)
    → (r : EmergencyRelease) × (find_first (has_release_id record_id) s.releases ≡ some r)
      × (owns_claim token now r ≡ true)
      × (s'.releases
          ≡ update_where
              (has_release_id record_id)
              (settled_release c (derive_emergency_release_status c) now)
              s.releases)
unfolding settle_emergency_release
settle-write record_id token now s s' c h =
    elim (Option-cases (find_first (has_release_id record_id) s.releases)) [
      | inl missing ↦ absurd (ground arith)
      | inr (r, found) ↦ (r, found, ground arith, ground arith)
    ]

settle-IsSerial :
    (record_id token : String) (now : ℕ) (s s' : ReleaseStore) (c : EmergencyReleaseCounts)
    → settle_emergency_release record_id token now s ≡ ok (s', c)
    → IsSerial s.releases
    → IsSerial s'.releases
settle-IsSerial record_id token now s s' c h i =
    let (r, found, owns, written) = settle-write record_id token now s s' c h in
    let w : EmergencyRelease → Bool = has_release_id record_id in
    let g = settled_release c (derive_emergency_release_status c) now in
    let unfinished = live_unfinished w s.releases r now found i (owns-live token now r owns) in
    rw written (record {
      unique = λ j. omega (arith, count-ids j w g s.releases (λ x. refl), i.unique j);
      quiet = update-quiet w g s.releases (λ x d. refl) i.quiet;
      single = omega (
        arith,
        count-update w is_unfinished g s.releases r found (i.unique record_id) unfinished,
        i.single,
      );
    })

-- A write to rows with the identifier that leaves no completed row unfinished adds no unfinished row.
update-unfinished :
    (w : EmergencyRelease → Bool) (g : EmergencyRelease → EmergencyRelease)
    (rows : List EmergencyRelease)
    → All (λ r. w r ≡ true → is_completed r ≡ true → is_completed (g r) ≡ true) rows
    → count_where is_unfinished (update_where w g rows) ≤ count_where is_unfinished rows
update-unfinished w g [] h = omega arith
update-unfinished w g (r ∷ rows) h = ground (arith, update-unfinished w g rows h.1, h.0)

stays_completed :
    (p : CompleteInput) (now : ℕ) (rows : List EmergencyRelease)
    → All
        (λ r. has_release_id p.record_id r ≡ true → is_completed r ≡ true → p.status ≡ completed)
        rows
    → All
        (λ r.
          has_release_id p.record_id r ≡ true
          → is_completed r ≡ true
          → is_completed (reported_release p now r) ≡ true)
        rows
stays_completed p now [] k = tt
stays_completed p now (r ∷ rows) k =
    ((λ hit c. rw (k.0 hit c) refl), stays_completed p now rows k.1)

complete-write :
    (p : CompleteInput) (now : ℕ) (s s' : ReleaseStore)
    → complete_emergency_release p now s ≡ ok s'
    → s'.releases ≡ update_where (has_release_id p.record_id) (reported_release p now) s.releases
unfolding complete_emergency_release
complete-write p now s s' h =
    on_ok (or_throw (find_first (has_release_id p.record_id) s.releases) release_not_found) _ h
      λ r found checked. ground arith

complete-IsSerial :
    (p : CompleteInput) (now : ℕ) (s s' : ReleaseStore)
    → complete_emergency_release p now s ≡ ok s'
    → All
        (λ r. has_release_id p.record_id r ≡ true → is_completed r ≡ true → p.status ≡ completed)
        s.releases
    → IsSerial s.releases
    → IsSerial s'.releases
complete-IsSerial p now s s' h keeps i =
    let w : EmergencyRelease → Bool = has_release_id p.record_id in
    let g = reported_release p now in
    rw (complete-write p now s s' h) (record {
      unique = λ j. omega (arith, count-ids j w g s.releases (λ x. refl), i.unique j);
      quiet = update-quiet w g s.releases (λ x d. refl) i.quiet;
      single = omega (
        arith,
        update-unfinished w g s.releases (stays_completed p now s.releases keeps),
        i.single,
      );
    })

step-IsSerial :
    {s t : ReleaseStore} (m : LeaseStep s t)
    → StepKeepsCompleted m
    → IsSerial s.releases
    → IsSerial t.releases
step-IsSerial (claims_release p token now id s s' a fresh h) k i =
    claim-IsSerial p token now id s s' a h fresh i
step-IsSerial (settles_release record_id token now s s' c h) k i =
    settle-IsSerial record_id token now s s' c h i
step-IsSerial (completes_release p now s s' h) k i = complete-IsSerial p now s s' h k i
step-IsSerial (creates_decoy n now id s fresh) k i = i
step-IsSerial (creates_route n now id s fresh) k i = i
step-IsSerial (creates_quarantine n now id s fresh) k i = i
step-IsSerial (sweeps sweep as_of s) k i = i
step-IsSerial (cleans_decoy f now s rows h) k i = i
step-IsSerial (revokes_route f now s rows h) k i = i
step-IsSerial (releases_quarantine f now s rows h) k i = i
step-IsSerial (fails_decoy p s rows h) k i = i
step-IsSerial (fails_route p s rows h) k i = i
step-IsSerial (fails_quarantine p s rows h) k i = i
step-IsSerial (settles_route f success defer_to_cleanup now s) k i = i
step-IsSerial (settles_quarantine f success defer_to_cleanup now s) k i = i

pub History-IsSerial :
    {s t : ReleaseStore} (before : History s t)
    → KeepsCompleted before
    → IsSerial s.releases
    → IsSerial t.releases
History-IsSerial (done s) k i = i
History-IsSerial (next before m) k i = step-IsSerial m k.1 (History-IsSerial before k.0 i)

pub empty-IsSerial : (rows : List EmergencyRelease) → rows ≡ [] → IsSerial rows
empty-IsSerial rows e =
    rw e (record { unique = λ j. omega arith; quiet = tt; single = omega arith })
