-- ===== src/Leases/Store.antt =====
-- The tables `decoy_deployment_leases`, `false_route_leases` and `quarantine_leases` of
-- packages/database/prisma/schema.prisma. They share all columns but a few, which stand in `detail`;
-- `target` is the template name, the source address or the source network, and `settled_at` is
-- `cleanedUpAt`, `revokedAt` or `releasedAt`. Times are milliseconds.
use falseroute.Prelude.{
  ℕ, String, Text, str_eq, Bool, true, false, ◌||◌, Option, List, [], ◌∷◌, Result, ok, err, ◌==◌,
  if◌then◌else◌, count_where, update_where,
}

pub data LeaseKind : Type 0 where
  decoy route quarantine : LeaseKind

-- The texts that stand in `leaseStatus`.
pub data LeaseStatus : Type 0 where
  active cleanup_pending pending_cleanup emergency_release_pending pending_release : LeaseStatus
  cleaned_up revoked released terminal_failure : LeaseStatus

pub record Lease (D : Type 0) : Type 0 where
  pub id : String
  pub event_id : String
  pub target : String
  pub detail : D
  pub desired_state : String
  pub observed_state : String
  pub lease_status : LeaseStatus
  pub expires_at : ℕ
  pub settled_at : Option ℕ
  pub ownership_key : String
  pub owner_id : String
  pub fencing_token : ℕ
  pub version : ℕ
  pub cleanup_attempts : ℕ
  pub last_failure_reason : Option Text

pub record DecoyDetail : Type 0 where
  pub image_digest : String
  pub service_url : Option String
  pub health_status : String

pub record RouteDetail : Type 0 where
  pub assigned_route : String

pub record QuarantineDetail : Type 0 where
  pub policy_name : String
  pub rule_priority : ℕ

unfoldable pub lease_status_eq : LeaseStatus → LeaseStatus → Bool
lease_status_eq active active = true
lease_status_eq cleanup_pending cleanup_pending = true
lease_status_eq pending_cleanup pending_cleanup = true
lease_status_eq emergency_release_pending emergency_release_pending = true
lease_status_eq pending_release pending_release = true
lease_status_eq cleaned_up cleaned_up = true
lease_status_eq revoked revoked = true
lease_status_eq released released = true
lease_status_eq terminal_failure terminal_failure = true
lease_status_eq _ _ = false

unfoldable pub lease_status_in : LeaseStatus → List LeaseStatus → Bool
unfolding lease_status_eq
lease_status_in s [] = false
lease_status_in s (t ∷ statuses) =
    let rest = lease_status_in s statuses in lease_status_eq s t || rest

pub data LeaseError : Type 0 where
  stale_cleanup_owner stale_cleanup_token : LeaseError
  lease_fence_lost : LeaseKind → LeaseError
  sweep_token_taken sweep_not_found : LeaseError
  release_collision release_unfinished release_not_found release_fence_lost : LeaseError
  counter_invariant_violated : LeaseError

abbrev pub has_lease_id : {D : Type 0} → String → Lease D → Bool
has_lease_id i l = str_eq l.id i

-- An `updateMany` that must change exactly one row.
unfoldable pub update_lease :
    {D : Type 0}
    → (Lease D → Bool)
    → (Lease D → Lease D)
    → LeaseError
    → List (Lease D)
    → Result LeaseError (List (Lease D))
update_lease w f e rows = if count_where w rows == 1 then ok (update_where w f rows) else err e
