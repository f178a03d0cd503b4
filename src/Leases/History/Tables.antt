-- ===== src/Leases/History/Tables.antt =====
-- What the operations of packages/database/src/repositories/lease-repository.ts and of
-- packages/database/src/repositories/emergency-release-repository.ts do to each table.
use falseroute.Prelude.{
  ℕ, ◌≡◌, refl, String, Option, none, some, List, ok, arith, find_first, on_ok, or_throw, ◌||◌,
  Bool-cases, Option-cases, inl, inr,
}
use falseroute.Leases.Store.{
  LeaseKind, decoy, route, quarantine, release_not_found, LeaseStatus, Lease, DecoyDetail,
  RouteDetail, QuarantineDetail, emergency_release_pending, revoked, cleaned_up,
}
use falseroute.Leases.Cleanup.{
  LeaseTables, create_decoy_lease, create_false_route_lease, create_quarantine_lease, claim_table,
  claim_leases_for_cleanup, mark_decoy_cleaned_up, mark_route_revoked, mark_quarantine_released,
  claimed_row, settled_row,
}
use falseroute.Leases.Counts.{EmergencyReleaseCounts}
use falseroute.Leases.Emergency.{
  ReleaseStore, ReleaseInput, EmergencyRelease, ClaimAnswer, has_release_id, has_release_key,
  is_completed, is_live_claim, take_leases, resume_release, start_release, claim_emergency_release,
  taken_row, taken_decoy_row,
}
use falseroute.Leases.Settlement.{
  CompleteInput, complete_emergency_release, mark_emergency_route_released,
  mark_emergency_quarantine_released, settle_emergency_release, Settlement, settlement_of,
  succeeded, deferred, failed_settlement, emergency_row,
}
use falseroute.Leases.Fencing.{
  Advances, TableStep, same, writes, creates, update_lease-TableStep,
  record_lease_cleanup_failure-TableStep,
}
use falseroute.Leases.History.{
  LeaseStep, creates_decoy, creates_route, creates_quarantine, sweeps, cleans_decoy, revokes_route,
  releases_quarantine, fails_decoy, fails_route, fails_quarantine, claims_release, settles_route,
  completes_release, settles_quarantine, settles_release,
}

module _ {D : Type 0} where
  pub claimed_row-Advances :
      (kind : LeaseKind) (sweep : String) → Advances {D = D} (claimed_row kind sweep)
  claimed_row-Advances kind sweep = record { same_id = λ l. refl; not_less = λ l. omega arith }

  settled_row-Advances :
      (status : LeaseStatus) (state : String) (now : ℕ)
      → Advances {D = D} (settled_row status state now)
  settled_row-Advances status state now = record {
    same_id = λ l. refl;
    not_less = λ l. omega arith;
  }

  taken_row-Advances :
      (state : String) (status : LeaseStatus) (token : String)
      → Advances {D = D} (taken_row state status token)
  taken_row-Advances state status token = record {
    same_id = λ l. refl;
    not_less = λ l. omega arith;
  }

  taken_decoy_row-Advances : (token : String) → Advances {D = D} (taken_decoy_row token)
  taken_decoy_row-Advances token = record { same_id = λ l. refl; not_less = λ l. omega arith }

  emergency_row-Advances :
      (status : LeaseStatus) (state failure : String) (now : ℕ) (r : Settlement)
      → Advances {D = D} (emergency_row status state failure now r)
  emergency_row-Advances status state failure now succeeded = record {
    same_id = λ l. refl;
    not_less = λ l. omega arith;
  }
  emergency_row-Advances status state failure now deferred = record {
    same_id = λ l. refl;
    not_less = λ l. omega arith;
  }
  emergency_row-Advances status state failure now failed_settlement = record {
    same_id = λ l. refl;
    not_less = λ l. omega arith;
  }

pub record TableSteps (t t' : LeaseTables) : Type 0 where
  pub decoys : TableStep t.decoys t'.decoys
  pub routes : TableStep t.routes t'.routes
  pub quarantines : TableStep t.quarantines t'.quarantines

unchanged : (t : LeaseTables) → TableSteps t t
unchanged t = record { decoys = same _; routes = same _; quarantines = same _ }

take_leases-TableSteps :
    (e : Option EmergencyRelease) (token : String) (t : LeaseTables)
    → TableSteps t (take_leases e token t).0
unfolding take_leases
take_leases-TableSteps e token t = record {
  decoys = writes _ _ _ (taken_decoy_row-Advances token);
  routes = writes _ _ _ (taken_row-Advances "REVOKED" emergency_release_pending token);
  quarantines = writes _ _ _ (taken_row-Advances "RELEASED" emergency_release_pending token);
}

resume-tables :
    (e : EmergencyRelease) (token : String) (now : ℕ) (s s' : ReleaseStore) (a : ClaimAnswer)
    → resume_release e token now s ≡ ok (s', a)
    → s'.tables ≡ (take_leases (some e) token s.tables).0
unfolding resume_release
resume-tables e token now s s' a h = ground arith

start-tables :
    (p : ReleaseInput) (token : String) (now : ℕ) (id : String) (s s' : ReleaseStore)
    (a : ClaimAnswer)
    → start_release p token now id s ≡ ok (s', a)
    → s'.tables ≡ (take_leases none token s.tables).0
unfolding start_release
start-tables p token now id s s' a h = ground arith

claim-TableSteps :
    (p : ReleaseInput) (token : String) (now : ℕ) (id : String) (s s' : ReleaseStore)
    (a : ClaimAnswer)
    → claim_emergency_release p token now id s ≡ ok (s', a)
    → TableSteps s.tables s'.tables
unfolding claim_emergency_release
claim-TableSteps p token now id s s' a h =
    elim (Option-cases (find_first (has_release_key p.idempotency_key) s.releases)) [
      | inl fresh ↦
          let run : start_release p token now id s ≡ ok (s', a) = ground arith in
          rw (start-tables p token now id s s' a run) (take_leases-TableSteps none token s.tables)
      | inr (e, found) ↦
          elim (Bool-cases (is_completed e || is_live_claim now e.claim_expires_at)) [
            | inl answered ↦
                let kept : s'.tables ≡ s.tables = ground arith in rw kept (unchanged s.tables)
            | inr open_release ↦
                let run : resume_release e token now s ≡ ok (s', a) = ground arith in
                rw (resume-tables e token now s s' a run)
                  (take_leases-TableSteps (some e) token s.tables)
          ]
    ]

settle-tables :
    (record_id token : String) (now : ℕ) (s s' : ReleaseStore) (c : EmergencyReleaseCounts)
    → settle_emergency_release record_id token now s ≡ ok (s', c)
    → s'.tables ≡ s.tables
unfolding settle_emergency_release
settle-tables record_id token now s s' c h = ground arith

complete-tables :
    (p : CompleteInput) (now : ℕ) (s s' : ReleaseStore)
    → complete_emergency_release p now s ≡ ok s'
    → s'.tables ≡ s.tables
unfolding complete_emergency_release
complete-tables p now s s' h =
    on_ok (or_throw (find_first (has_release_id p.record_id) s.releases) release_not_found) _ h
      λ r found checked. ground arith

decoys_step :
    (t : LeaseTables) {rows : List (Lease DecoyDetail)}
    → TableStep t.decoys rows
    → TableSteps t (record t { decoys = rows })
decoys_step t h = record { decoys = h; routes = same _; quarantines = same _ }

routes_step :
    (t : LeaseTables) {rows : List (Lease RouteDetail)}
    → TableStep t.routes rows
    → TableSteps t (record t { routes = rows })
routes_step t h = record { decoys = same _; routes = h; quarantines = same _ }

quarantines_step :
    (t : LeaseTables) {rows : List (Lease QuarantineDetail)}
    → TableStep t.quarantines rows
    → TableSteps t (record t { quarantines = rows })
quarantines_step t h = record { decoys = same _; routes = same _; quarantines = h }

pub step-TableSteps : {s t : ReleaseStore} → LeaseStep s t → TableSteps s.tables t.tables
unfolding create_decoy_lease create_false_route_lease create_quarantine_lease
    claim_leases_for_cleanup claim_table mark_decoy_cleaned_up mark_route_revoked
    mark_quarantine_released mark_emergency_route_released mark_emergency_quarantine_released
step-TableSteps (creates_decoy n now id s fresh) = decoys_step s.tables (creates _ _ fresh)
step-TableSteps (creates_route n now id s fresh) = routes_step s.tables (creates _ _ fresh)
step-TableSteps (creates_quarantine n now id s fresh) =
    quarantines_step s.tables (creates _ _ fresh)
step-TableSteps (sweeps sweep as_of s) = record {
  decoys = writes _ _ _ (claimed_row-Advances decoy sweep);
  routes = writes _ _ _ (claimed_row-Advances route sweep);
  quarantines = writes _ _ _ (claimed_row-Advances quarantine sweep);
}
step-TableSteps (cleans_decoy f now s rows h) =
    decoys_step s.tables
      (update_lease-TableStep _ _ _ _ rows (settled_row-Advances cleaned_up "DELETED" now) h)
step-TableSteps (revokes_route f now s rows h) =
    routes_step s.tables
      (update_lease-TableStep _ _ _ _ rows (settled_row-Advances revoked "REVOKED" now) h)
step-TableSteps (releases_quarantine f now s rows h) =
    quarantines_step s.tables
      (update_lease-TableStep _ _ _ _ rows (settled_row-Advances cleaned_up "RELEASED" now) h)
step-TableSteps (fails_decoy p s rows h) =
    decoys_step s.tables (record_lease_cleanup_failure-TableStep decoy p _ rows h)
step-TableSteps (fails_route p s rows h) =
    routes_step s.tables (record_lease_cleanup_failure-TableStep route p _ rows h)
step-TableSteps (fails_quarantine p s rows h) =
    quarantines_step s.tables (record_lease_cleanup_failure-TableStep quarantine p _ rows h)
step-TableSteps (claims_release p token now id s s' a fresh h) =
    claim-TableSteps p token now id s s' a h
step-TableSteps (settles_route f success defer_to_cleanup now s) = routes_step s.tables (
    writes _ _ _ (
      emergency_row-Advances revoked "REVOKED"
        "Emergency route revocation failed during adapter settlement" now
        (settlement_of success defer_to_cleanup)))
step-TableSteps (settles_quarantine f success defer_to_cleanup now s) = quarantines_step s.tables (
    writes _ _ _ (
      emergency_row-Advances cleaned_up "RELEASED"
        "Emergency quarantine release failed during adapter settlement" now
        (settlement_of success defer_to_cleanup)))
step-TableSteps (settles_release i token now s s' c h) =
    rw (settle-tables i token now s s' c h) (unchanged s.tables)
step-TableSteps (completes_release p now s s' h) =
    rw (complete-tables p now s s' h) (unchanged s.tables)
