-- ===== src/Leases/Settlement.antt =====
-- The settlement of an emergency release, of
-- packages/database/src/repositories/emergency-release-repository.ts.
pub mod Totals
use falseroute.Prelude.{
  ℕ, ◌+◌, ◌-◌, String, codes, str_eq, Bool, true, false, not, ◌&&◌, Option, none, some, List, ◌++◌,
  map, Result, ok, ◌>>=◌, ◌>>◌, throw_if, or_throw, ◌==◌, length, find_first, count_where,
  filter_where, update_where, get_or,
}
use falseroute.Leases.Store.{
  LeaseKind, decoy, route, quarantine, LeaseStatus, cleaned_up, revoked, Lease, RouteDetail,
  QuarantineDetail, LeaseError, release_not_found, release_fence_lost, counter_invariant_violated,
}
use falseroute.Leases.Cleanup.{LeaseTables, Fence, holds_fence}
use falseroute.Leases.Counts.{
  EmergencyLeaseState, EmergencyReleaseCounts, summarize_emergency_leases,
  derive_emergency_release_status, ReleaseStatus, completed,
}
use falseroute.Leases.Emergency.{
  ClaimedLeaseIds, EmergencyRelease, ReleaseStore, has_release_id, is_one_of, is_live_claim,
  route_settleable_statuses,
}

pub data Settlement : Type 0 where
  succeeded deferred failed_settlement : Settlement

-- `params.success` before `params.deferToCleanup`.
abbrev pub settlement_of : (success defer_to_cleanup : Bool) → Settlement
settlement_of true defer_to_cleanup = succeeded
settlement_of false true = deferred
settlement_of false false = failed_settlement

-- What an emergency settlement writes.
abbrev pub emergency_row :
    {D : Type 0} → LeaseStatus → (state failure : String) → ℕ → Settlement → Lease D → Lease D
emergency_row status state failure now succeeded l = record l {
  lease_status = status;
  observed_state = state;
  settled_at = some now;
  version = l.version + 1;
}
emergency_row status state failure now deferred l = record l {
  expires_at = 0;
  version = l.version + 1;
}
emergency_row status state failure now failed_settlement l = record l {
  last_failure_reason = some (codes failure);
  cleanup_attempts = l.cleanup_attempts + 1;
  expires_at = 0;
  version = l.version + 1;
}

-- The changed table and the count of `updateMany`.
unfoldable pub mark_emergency_route_released :
    Fence
    → (success defer_to_cleanup : Bool) → ℕ
    → List (Lease RouteDetail)
    → List (Lease RouteDetail) × ℕ
unfolding holds_fence
mark_emergency_route_released f success defer_to_cleanup now rows =
    let w = holds_fence f route_settleable_statuses in
    let failure : String = "Emergency route revocation failed during adapter settlement" in
    (
      update_where w
          (emergency_row revoked "REVOKED" failure now (settlement_of success defer_to_cleanup))
          rows,
      count_where w rows,
    )

unfoldable pub mark_emergency_quarantine_released :
    Fence
    → (success defer_to_cleanup : Bool) → ℕ
    → List (Lease QuarantineDetail)
    → List (Lease QuarantineDetail) × ℕ
unfolding holds_fence
mark_emergency_quarantine_released f success defer_to_cleanup now rows =
    let w = holds_fence f route_settleable_statuses in
    let failure : String = "Emergency quarantine release failed during adapter settlement" in
    (
      update_where w
          (emergency_row cleaned_up "RELEASED" failure now (settlement_of success defer_to_cleanup))
          rows,
      count_where w rows,
    )

-- The rows of a table that the operation has claimed, as the summary reads them.
abbrev pub states_of :
    {D : Type 0} → LeaseKind → List String → List (Lease D) → List EmergencyLeaseState
states_of kind ids rows =
    map
      (λ l. record {
        kind = kind;
        lease_status = l.lease_status;
        last_failure_reason = l.last_failure_reason;
      })
      (filter_where (λ l. is_one_of ids l.id) rows)

unfoldable pub lease_states : ClaimedLeaseIds → LeaseTables → List EmergencyLeaseState
lease_states ids t =
    states_of route ids.routes t.routes
    ++ (states_of quarantine ids.quarantines t.quarantines ++ states_of decoy ids.decoys t.decoys)

abbrev missing_of : {D : Type 0} → List String → List (Lease D) → ℕ
missing_of ids rows = length ids - length (filter_where (λ l. is_one_of ids l.id) rows)

-- The claimed leases that have no row; identifiers are unique, so no difference is negative.
unfoldable pub missing_leases : ClaimedLeaseIds → LeaseTables → ℕ
missing_leases ids t =
    missing_of ids.routes t.routes
    + missing_of ids.quarantines t.quarantines
    + missing_of ids.decoys t.decoys

unfoldable pub are_counts_consistent :
    (requested verified pending failed : ℕ) → ReleaseStatus → Bool
are_counts_consistent requested verified pending failed completed =
    verified + pending + failed == requested
are_counts_consistent requested verified pending failed _ = true

abbrev pub settled_release :
    EmergencyReleaseCounts → ReleaseStatus → ℕ → EmergencyRelease → EmergencyRelease
settled_release c status now r = record r {
  requested_count = c.requested_count;
  verified_count = c.verified_count;
  pending_count = c.pending_count;
  failed_count = c.failed_count;
  status = status;
  completed_at = elim status [ completed ↦ some now | _ ↦ none ];
  claim_expires_at = none;
}

abbrev pub owns_claim : String → ℕ → EmergencyRelease → Bool
owns_claim token now r = elim r.claim_owner [
  | none ↦ false
  | some o ↦ str_eq o token && is_live_claim now r.claim_expires_at
]

unfoldable pub settle_emergency_release :
    (record_id token : String)
    → ℕ
    → ReleaseStore
    → Result LeaseError (ReleaseStore × EmergencyReleaseCounts)
settle_emergency_release record_id token now s = do
  r ← or_throw (find_first (has_release_id record_id) s.releases) release_not_found
  throw_if (not (owns_claim token now r)) release_fence_lost
  let counts =
      summarize_emergency_leases (lease_states r.details s.tables)
        (missing_leases r.details s.tables)
  let status = derive_emergency_release_status counts
  throw_if
      (not (
        are_counts_consistent counts.requested_count counts.verified_count counts.pending_count
          counts.failed_count status))
      counter_invariant_violated
  ok (
    record s {
      releases =
          update_where (has_release_id record_id) (settled_release counts status now) s.releases;
    },
    counts,
  )

pub record CompleteInput : Type 0 where
  pub record_id : String
  pub verified_count : ℕ
  pub pending_count : ℕ
  pub failed_count : ℕ
  pub status : ReleaseStatus
  pub details : Option ClaimedLeaseIds

-- The row that the completion writes.
abbrev pub reported_release : CompleteInput → ℕ → EmergencyRelease → EmergencyRelease
reported_release p now x = record x {
  verified_count = p.verified_count;
  pending_count = p.pending_count;
  failed_count = p.failed_count;
  status = p.status;
  completed_at = some now;
  claim_expires_at = none;
  details = get_or p.details x.details;
}

unfoldable pub complete_emergency_release :
    CompleteInput → ℕ → ReleaseStore → Result LeaseError ReleaseStore
complete_emergency_release p now s = do
  r ← or_throw (find_first (has_release_id p.record_id) s.releases) release_not_found
  throw_if
      (not (
        are_counts_consistent r.requested_count p.verified_count p.pending_count p.failed_count
          p.status))
      counter_invariant_violated
  ok (record s {
    releases = update_where (has_release_id p.record_id) (reported_release p now) s.releases;
  })
