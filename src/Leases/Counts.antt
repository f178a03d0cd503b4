-- ===== src/Leases/Counts.antt =====
-- packages/database/src/repositories/unsettled-leases.ts, and `findAllUnsettledLeases` and
-- `findLeaseOwnershipKeys` of packages/database/src/repositories/lease-repository.ts. A set of
-- operation keys is a list here.
pub mod Completion
use Prim.Native.String.{◌++◌ as concat}
use falseroute.Prelude.{
  ℕ, ◌+◌, String, Text, codes, str_eq, starts_with, Bool, true, false, not, ◌||◌, Option, none,
  some, List, [], ◌∷◌, map, ltb, if◌then◌else◌, filter_where, length,
}
use falseroute.Leases.Store.{
  LeaseKind, decoy, route, quarantine, LeaseStatus, active, cleanup_pending, pending_cleanup,
  cleaned_up, revoked, released, terminal_failure, Lease, lease_status_in,
}
use falseroute.Leases.Cleanup.{LeaseTables, settled_state}

pub record EmergencyLeaseState : Type 0 where
  pub kind : LeaseKind
  pub lease_status : LeaseStatus
  pub last_failure_reason : Option Text

pub data EmergencyLeaseOutcome : Type 0 where
  verified failed pending : EmergencyLeaseOutcome

pub record EmergencyReleaseCounts : Type 0 where
  pub requested_count : ℕ
  pub verified_count : ℕ
  pub pending_count : ℕ
  pub failed_count : ℕ
  pub pending_settlement_count : ℕ

unfoldable pub terminal_success_statuses : LeaseKind → List LeaseStatus
terminal_success_statuses route = revoked ∷ cleaned_up ∷ []
terminal_success_statuses quarantine = cleaned_up ∷ released ∷ []
terminal_success_statuses decoy = cleaned_up ∷ []

-- `lastFailureReason?.startsWith('Emergency ') ?? false`.
unfoldable pub is_emergency_failure : Option Text → Bool
is_emergency_failure none = false
is_emergency_failure (some reason) = starts_with (codes "Emergency ") reason

unfoldable pub classify_emergency_lease : EmergencyLeaseState → EmergencyLeaseOutcome
unfolding lease_status_in terminal_success_statuses
classify_emergency_lease l =
    if lease_status_in l.lease_status (terminal_success_statuses l.kind)
    then verified
    else if lease_status_in l.lease_status (terminal_failure ∷ [])
        || is_emergency_failure l.last_failure_reason
    then failed
    else pending

abbrev pub is_decoy_kind : LeaseKind → Bool
is_decoy_kind decoy = true
is_decoy_kind _ = false

-- The loop of `summarizeEmergencyLeases`, with its four counters; the requested count is set at the
-- end.
unfoldable pub count_lease : EmergencyLeaseState → EmergencyReleaseCounts → EmergencyReleaseCounts
count_lease l c = elim (classify_emergency_lease l) [
  | verified ↦ record c { verified_count = c.verified_count + 1 }
  | failed ↦ record c { failed_count = c.failed_count + 1 }
  | pending ↦ record c {
    pending_count = c.pending_count + 1;
    pending_settlement_count =
        if is_decoy_kind l.kind then c.pending_settlement_count else c.pending_settlement_count + 1;
  }
]

unfoldable pub count_leases :
    List EmergencyLeaseState → EmergencyReleaseCounts → EmergencyReleaseCounts
count_leases [] c = c
count_leases (l ∷ leases) c = count_leases leases (count_lease l c)

unfoldable pub summarize_emergency_leases : List EmergencyLeaseState → ℕ → EmergencyReleaseCounts
summarize_emergency_leases leases missing =
    let c = count_leases leases (record {
      requested_count = 0;
      verified_count = missing;
      pending_count = 0;
      failed_count = 0;
      pending_settlement_count = 0;
    }) in
    record c { requested_count = c.verified_count + c.pending_count + c.failed_count }

pub data ReleaseStatus : Type 0 where
  release_pending partial_failure completed : ReleaseStatus

unfoldable pub derive_emergency_release_status : EmergencyReleaseCounts → ReleaseStatus
derive_emergency_release_status c =
    if ltb 0 c.failed_count
    then partial_failure
    else if ltb 0 c.pending_settlement_count
    then release_pending
    else completed

-- What `findAllUnsettledLeases` counts of one table.
pub record Unsettled : Type 0 where
  pub active_leases : ℕ
  pub pending_leases : ℕ
  pub failed_leases : ℕ

abbrev pub pending_statuses : LeaseKind → List LeaseStatus
pending_statuses decoy = cleanup_pending ∷ pending_cleanup ∷ []
pending_statuses _ = cleanup_pending ∷ []

-- One round of the loop over a table.
unfoldable pub count_unsettled : {D : Type 0} → LeaseKind → Lease D → Unsettled → Unsettled
unfolding lease_status_in settled_state
count_unsettled kind l u =
    if lease_status_in l.lease_status (active ∷ [])
    then record u { active_leases = u.active_leases + 1 }
    else if lease_status_in l.lease_status (pending_statuses kind)
    then record u { pending_leases = u.pending_leases + 1 }
    else if lease_status_in l.lease_status (terminal_failure ∷ [])
        || not (str_eq l.observed_state (settled_state kind))
    then record u { failed_leases = u.failed_leases + 1 }
    else u

unfoldable pub unsettled_of : {D : Type 0} → LeaseKind → List (Lease D) → Unsettled → Unsettled
unsettled_of kind [] u = u
unsettled_of kind (l ∷ rows) u = unsettled_of kind rows (count_unsettled kind l u)

pub record UnsettledLeasesResult : Type 0 where
  pub decoys : Unsettled
  pub routes : Unsettled
  pub quarantines : Unsettled
  pub ambiguous_intents : ℕ
  pub total_unsettled : ℕ

abbrev pub sum_of : Unsettled → ℕ
sum_of u = u.active_leases + u.pending_leases + u.failed_leases

abbrev none_unsettled : Unsettled
none_unsettled = record { active_leases = 0; pending_leases = 0; failed_leases = 0 }

-- `intent_statuses` are the statuses of the provider intents.
unfoldable pub find_all_unsettled_leases :
    LeaseTables → (intent_statuses : List String) → UnsettledLeasesResult
find_all_unsettled_leases t intent_statuses =
    let intents =
      length (filter_where (λ s. str_eq s "PENDING" || str_eq s "CLAIMED") intent_statuses) in
    let decoys = unsettled_of decoy t.decoys none_unsettled in
    let routes = unsettled_of route t.routes none_unsettled in
    let quarantines = unsettled_of quarantine t.quarantines none_unsettled in
    record {
      decoys = decoys;
      routes = routes;
      quarantines = quarantines;
      ambiguous_intents = intents;
      total_unsettled = sum_of decoys + sum_of routes + sum_of quarantines + intents;
    }

pub record LeaseOwnershipKeys : Type 0 where
  pub decoy_operation_keys : List String
  pub route_operation_keys : List String
  pub quarantine_operation_keys : List String

unfoldable pub find_lease_ownership_keys : LeaseTables → LeaseOwnershipKeys
find_lease_ownership_keys t = record {
  decoy_operation_keys = map (λ l. concat "idem-request_decoy_deployment-" l.event_id) t.decoys;
  route_operation_keys =
      map (λ l. concat "idem-request_false_route_assignment-" l.event_id) t.routes;
  quarantine_operation_keys =
      map (λ l. concat "idem-request_source_quarantine-" l.event_id) t.quarantines;
}
