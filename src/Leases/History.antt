-- ===== src/Leases/History.antt =====
-- Whole histories of the lease tables: the operations of
-- packages/database/src/repositories/lease-repository.ts and
-- packages/database/src/repositories/emergency-release-repository.ts in any order.
mod Tables
pub mod Fenced
pub mod Claims
pub mod Serial
pub mod Exclusive
use falseroute.Prelude.{
  ℕ, ◌+◌, ◌≤◌, ◌<◌, ◌≡◌, refl, String, Bool, true, false, Option, none, some, List, [], ◌∷◌, Result,
  ok, err, arith, any_where, count_where, All, update_where, find_first, filter_where, length,
  str_eq, not, ◌||◌, ◌&&◌, if◌then◌else◌, Bool-cases, Option-cases, inl, inr, on_ok, or_throw,
  throw_if, sym, ◌>>=◌,
}
use falseroute.Leases.Store.{
  LeaseKind, decoy, route, quarantine, LeaseStatus, Lease, DecoyDetail, RouteDetail,
  QuarantineDetail, LeaseError, lease_fence_lost, has_lease_id, update_lease,
}
use falseroute.Leases.Cleanup.{
  NewLease, LeaseTables, create_decoy_lease, create_false_route_lease, create_quarantine_lease,
  claim_table, claim_leases_for_cleanup, Fence, holds_fence, mark_decoy_cleaned_up,
  mark_route_revoked, mark_quarantine_released, FailureInput, record_lease_cleanup_failure,
  is_claimable,
}
use falseroute.Leases.Counts.{EmergencyReleaseCounts, completed}
use falseroute.Leases.Emergency.{
  ReleaseStore, ReleaseInput, EmergencyRelease, ClaimAnswer, has_release_id, has_release_key,
  is_completed, is_live_claim, is_conflict, take_leases, resume_release, start_release,
  claim_emergency_release,
}
use falseroute.Leases.Settlement.{
  CompleteInput, complete_emergency_release, mark_emergency_route_released,
  mark_emergency_quarantine_released, settle_emergency_release, Settlement, settlement_of,
  succeeded, deferred, failed_settlement, emergency_row,
}
use falseroute.Leases.Fencing.{
  Advances, IsTaken, IsFenced, TableStep, same, writes, creates, TableStep-IsFenced,
  claim-Overtaken, Overtaken-count, update_lease-lost, update_lease-TableStep,
  record_lease_cleanup_failure-TableStep,
}

abbrev pub with_decoys : List (Lease DecoyDetail) → ReleaseStore → ReleaseStore
with_decoys rows s = record s { tables = record s.tables { decoys = rows } }

abbrev pub with_routes : List (Lease RouteDetail) → ReleaseStore → ReleaseStore
with_routes rows s = record s { tables = record s.tables { routes = rows } }

abbrev pub with_quarantines : List (Lease QuarantineDetail) → ReleaseStore → ReleaseStore
with_quarantines rows s = record s { tables = record s.tables { quarantines = rows } }

abbrev pub swept : String → ℕ → ReleaseStore → ReleaseStore
swept sweep as_of s = record s { tables = (claim_leases_for_cleanup sweep as_of s.tables).0 }

-- One successful operation. The database gives a new row an identifier that no row has.
pub data LeaseStep : ReleaseStore → ReleaseStore → Type 0 where
  creates_decoy :
      (n : NewLease DecoyDetail) (now : ℕ) (id : String) (s : ReleaseStore)
      → any_where (has_lease_id id) s.tables.decoys ≡ false
      → LeaseStep s (with_decoys (create_decoy_lease n now id s.tables.decoys).0 s)
  creates_route :
      (n : NewLease RouteDetail) (now : ℕ) (id : String) (s : ReleaseStore)
      → any_where (has_lease_id id) s.tables.routes ≡ false
      → LeaseStep s (with_routes (create_false_route_lease n now id s.tables.routes).0 s)
  creates_quarantine :
      (n : NewLease QuarantineDetail) (now : ℕ) (id : String) (s : ReleaseStore)
      → any_where (has_lease_id id) s.tables.quarantines ≡ false
      → LeaseStep s (with_quarantines (create_quarantine_lease n now id s.tables.quarantines).0 s)
  sweeps : (sweep : String) (as_of : ℕ) (s : ReleaseStore) → LeaseStep s (swept sweep as_of s)
  cleans_decoy :
      (f : Fence) (now : ℕ) (s : ReleaseStore) (rows : List (Lease DecoyDetail))
      → mark_decoy_cleaned_up f now s.tables.decoys ≡ ok rows
      → LeaseStep s (with_decoys rows s)
  revokes_route :
      (f : Fence) (now : ℕ) (s : ReleaseStore) (rows : List (Lease RouteDetail))
      → mark_route_revoked f now s.tables.routes ≡ ok rows
      → LeaseStep s (with_routes rows s)
  releases_quarantine :
      (f : Fence) (now : ℕ) (s : ReleaseStore) (rows : List (Lease QuarantineDetail))
      → mark_quarantine_released f now s.tables.quarantines ≡ ok rows
      → LeaseStep s (with_quarantines rows s)
  fails_decoy :
      (p : FailureInput) (s : ReleaseStore) (rows : List (Lease DecoyDetail))
      → record_lease_cleanup_failure decoy p s.tables.decoys ≡ ok rows
      → LeaseStep s (with_decoys rows s)
  fails_route :
      (p : FailureInput) (s : ReleaseStore) (rows : List (Lease RouteDetail))
      → record_lease_cleanup_failure route p s.tables.routes ≡ ok rows
      → LeaseStep s (with_routes rows s)
  fails_quarantine :
      (p : FailureInput) (s : ReleaseStore) (rows : List (Lease QuarantineDetail))
      → record_lease_cleanup_failure quarantine p s.tables.quarantines ≡ ok rows
      → LeaseStep s (with_quarantines rows s)
  claims_release :
      (p : ReleaseInput) (token : String) (now : ℕ) (id : String) (s s' : ReleaseStore)
      (a : ClaimAnswer)
      → any_where (has_release_id id) s.releases ≡ false
      → claim_emergency_release p token now id s ≡ ok (s', a)
      → LeaseStep s s'
  settles_route :
      (f : Fence) (success defer_to_cleanup : Bool) (now : ℕ) (s : ReleaseStore)
      → LeaseStep s (
          with_routes
            (mark_emergency_route_released f success defer_to_cleanup now s.tables.routes).0
            s)
  settles_quarantine :
      (f : Fence) (success defer_to_cleanup : Bool) (now : ℕ) (s : ReleaseStore)
      → LeaseStep s (
          with_quarantines
            (mark_emergency_quarantine_released f success defer_to_cleanup now
              s.tables.quarantines).0
            s)
  settles_release :
      (record_id token : String) (now : ℕ) (s s' : ReleaseStore) (c : EmergencyReleaseCounts)
      → settle_emergency_release record_id token now s ≡ ok (s', c)
      → LeaseStep s s'
  completes_release :
      (p : CompleteInput) (now : ℕ) (s s' : ReleaseStore)
      → complete_emergency_release p now s ≡ ok s'
      → LeaseStep s s'

-- Any number of operations.
pub data History : ReleaseStore → ReleaseStore → Type 0 where
  done : (s : ReleaseStore) → History s s
  next : {s t u : ReleaseStore} → History s t → LeaseStep t u → History s u

-- No report on a release takes its completion back: one that is written over a completed release has the
-- status of a completed one.
abbrev pub StepKeepsCompleted : {s t : ReleaseStore} → LeaseStep s t → Type 0
StepKeepsCompleted (completes_release p now s s' h) =
    All (λ r. has_release_id p.record_id r ≡ true → is_completed r ≡ true → p.status ≡ completed)
      s.releases
StepKeepsCompleted _ = Unit

abbrev pub KeepsCompleted : {s t : ReleaseStore} → History s t → Type 0
KeepsCompleted (done s) = Unit
KeepsCompleted (next before m) = KeepsCompleted before × StepKeepsCompleted m
