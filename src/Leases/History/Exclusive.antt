-- ===== src/Leases/History/Exclusive.antt =====
-- What a live claim of an emergency release excludes, in
-- packages/database/src/repositories/emergency-release-repository.ts.
use falseroute.Prelude.{
  ℕ, ◌≤◌, ◌≡◌, refl, String, Bool, true, false, none, some, [], Result, ok, err, count_where,
  find_first, str_eq, found-any, same_found, not, ◌||◌, Bool-cases, Option-cases, inl, inr, ◌⊎◌,
}
use falseroute.Leases.Store.{LeaseError, release_unfinished}
use falseroute.Leases.Emergency.{
  ReleaseStore, ReleaseInput, EmergencyRelease, ClaimAnswer, already_claimed, claimed,
  has_release_id, has_release_key, is_completed, is_live_claim, is_conflict, start_release,
  claim_emergency_release,
}
use falseroute.Leases.History.{History, KeepsCompleted}
use falseroute.Leases.History.Claims.{is_unfinished}
use falseroute.Leases.History.Serial.{History-IsSerial, empty-IsSerial, live_unfinished}

-- The answers to a claim that write nothing, where `r` is the release in progress.
abbrev pub IsExcluded :
    EmergencyRelease → ReleaseStore → Result LeaseError (ReleaseStore × ClaimAnswer) → Type 0
IsExcluded r s (err e) = Unit {0}
IsExcluded r s (ok (s', already_claimed e)) = (s' ≡ s) × ((is_completed e ≡ true) ⊎ (e ≡ r))
IsExcluded r s (ok (s', claimed e)) = ⊥

or_true : (b : Bool) {c : Bool} → c ≡ true → (b || c) ≡ true
or_true true h = refl
or_true false h = h

answers-now :
    (now : ℕ) (e r : EmergencyRelease)
    → ((is_completed e ≡ true) ⊎ (e ≡ r))
    → is_live_claim now r.claim_expires_at ≡ true
    → (is_completed e || is_live_claim now e.claim_expires_at) ≡ true
answers-now now e r (inl c) live = rw c refl
answers-now now e r (inr same) live = rw same (or_true (is_completed r) live)

found-IsExcluded :
    (p : ReleaseInput) (token : String) (now : ℕ) (id : String) (s : ReleaseStore)
    (e r : EmergencyRelease)
    → find_first (has_release_key p.idempotency_key) s.releases ≡ some e
    → ((is_completed e ≡ true) ⊎ (e ≡ r))
    → is_live_claim now r.claim_expires_at ≡ true
    → IsExcluded r s (claim_emergency_release p token now id s)
unfolding claim_emergency_release
found-IsExcluded p token now id s e r found which live =
    elim (Bool-cases
      (not (str_eq e.principal_id p.principal_id) || not (str_eq e.reason p.reason))) [
        | inl bad ↦ rw (found, claim_emergency_release) (rw bad tt)
        | inr same ↦
            let answers : (is_completed e || is_live_claim now e.claim_expires_at) ≡ true =
              answers-now now e r which live in
            rw (found, claim_emergency_release) (rw same (rw answers (refl, which)))
      ]

-- After any history of the lease tables and the releases that starts with no release, and in which no report
-- on a release takes its completion back, at most one release is not completed; and while the claim of one is live, no claim is given: a request for
-- any operation fails, or it is answered with a completed release or the one in progress, and then nothing is written.
pub exclusive_claim :
    (s t : ReleaseStore) (p : ReleaseInput) (token : String) (now : ℕ) (id : String)
    (r : EmergencyRelease)
    → s.releases ≡ []
    → (before : History s t) → KeepsCompleted before
    → find_first (has_release_id r.id) t.releases ≡ some r
    → is_live_claim now r.claim_expires_at ≡ true
    → (count_where is_unfinished t.releases ≤ 1)
      × IsExcluded r t (claim_emergency_release p token now id t)
unfolding claim_emergency_release start_release
exclusive_claim s t p token now id r empty before kept found live =
    let i = History-IsSerial before kept (empty-IsSerial s.releases empty) in
    let unfinished = live_unfinished (has_release_id r.id) t.releases r now found i live in
    (
      i.single,
      elim (Option-cases (find_first (has_release_key p.idempotency_key) t.releases)) [
        | inl fresh ↦
            let conflict =
              found-any (has_release_id r.id) (is_conflict none) t.releases r found unfinished in
            let lost : claim_emergency_release p token now id t ≡ err release_unfinished =
              rw (fresh, claim_emergency_release) (rw (conflict, start_release) refl) in
            rw lost tt
        | inr (e, keyed) ↦ elim (Bool-cases (is_completed e)) [
          | inl c ↦ found-IsExcluded p token now id t e r keyed (inl c) live
          | inr c ↦
              let same =
                same_found (has_release_key p.idempotency_key) (has_release_id r.id) is_unfinished
                  t.releases e r i.single keyed found (rw c) unfinished in
              found-IsExcluded p token now id t e r keyed (inr same) live
        ]
      ],
    )
