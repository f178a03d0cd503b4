-- ===== src/Leases/Cleanup.antt =====
-- `LeaseRepository` of packages/database/src/repositories/lease-repository.ts: the creation of leases,
-- their claim by a cleanup sweep, and what the sweep records of them. A unique violation of
-- `create` comes from the ownership key; the identifier of a new row is the database's.
use falseroute.Prelude.{
  ℕ, ◌+◌, ◌*◌, zero, suc, String, Text, str_eq, ◌>>=◌, ◌>>◌, Bool, true, not, ◌&&◌, ◌||◌, Option,
  none, some, List, [], ◌∷◌, ◌++◌, map, Result, ok, throw_if, leb, ◌==◌, if◌then◌else◌, find_first,
  filter_where, update_where, get_or,
}
use Prim.Native.String.{◌++◌ as concat}
use falseroute.Leases.Store.{
  LeaseKind, decoy, route, quarantine, LeaseStatus, active, cleanup_pending, pending_cleanup,
  emergency_release_pending, pending_release, cleaned_up, revoked, terminal_failure, Lease,
  DecoyDetail, RouteDetail, QuarantineDetail, lease_status_in, LeaseError, stale_cleanup_owner,
  stale_cleanup_token, lease_fence_lost, has_lease_id, update_lease,
}

pub record NewLease (D : Type 0) : Type 0 where
  pub event_id : String
  pub target : String
  pub detail : D
  pub desired_state : Option String
  pub observed_state : Option String
  pub ttl_seconds : Option ℕ
  pub owner_id : Option String

abbrev pub has_ownership_key : {D : Type 0} → String → Lease D → Bool
has_ownership_key k l = str_eq l.ownership_key k

-- `create`, or on a unique violation the row that has the ownership key.
unfoldable pub create_or_find : {D : Type 0} → Lease D → List (Lease D) → List (Lease D) × Lease D
create_or_find l rows = elim (find_first (has_ownership_key l.ownership_key) rows) [
  | none ↦ (rows ++ l ∷ [], l)
  | some found ↦ (rows, found)
]

-- `prefix:eventId:target`.
unfoldable pub ownership_key_of : String → String → String → String
ownership_key_of prefix event target = concat prefix (concat ":" (concat event (concat ":" target)))

abbrev fresh_lease :
    {D : Type 0} → NewLease D → (prefix desired observed : String) (ttl now : ℕ) → String → Lease D
fresh_lease n prefix desired observed ttl now id = record {
  id = id;
  event_id = n.event_id;
  target = n.target;
  detail = n.detail;
  desired_state = desired;
  observed_state = observed;
  lease_status = active;
  expires_at = now + get_or n.ttl_seconds ttl * 1000;
  settled_at = none;
  ownership_key = ownership_key_of prefix n.event_id n.target;
  owner_id = get_or n.owner_id "worker-autonomous-01";
  fencing_token = 1;
  version = 1;
  cleanup_attempts = 0;
  last_failure_reason = none;
}

unfoldable pub create_decoy_lease :
    NewLease DecoyDetail
    → ℕ
    → String
    → List (Lease DecoyDetail)
    → List (Lease DecoyDetail) × Lease DecoyDetail
unfolding ownership_key_of
create_decoy_lease n now id = create_or_find (
    fresh_lease n "decoy" (get_or n.desired_state "READY") (get_or n.observed_state "PENDING") 300
      now id)

-- The states of a route and of a quarantine are not parameters: they are written as constants.
unfoldable pub create_false_route_lease :
    NewLease RouteDetail
    → ℕ
    → String
    → List (Lease RouteDetail)
    → List (Lease RouteDetail) × Lease RouteDetail
unfolding ownership_key_of
create_false_route_lease n now id =
    create_or_find (fresh_lease n "route" "ACTIVE" "ACTIVE" 300 now id)

unfoldable pub create_quarantine_lease :
    NewLease QuarantineDetail
    → ℕ
    → String
    → List (Lease QuarantineDetail)
    → List (Lease QuarantineDetail) × Lease QuarantineDetail
unfolding ownership_key_of
create_quarantine_lease n now id =
    create_or_find (fresh_lease n "quarantine" "ENFORCED" "ENFORCED" 600 now id)

-- The statuses in which an expired lease is cleaned up.
unfoldable pub claimable_statuses : LeaseKind → List LeaseStatus
claimable_statuses decoy =
    active ∷ cleanup_pending ∷ pending_cleanup ∷ emergency_release_pending ∷ []
claimable_statuses _ = active ∷ cleanup_pending ∷ emergency_release_pending ∷ pending_release ∷ []

-- The `where` of `findExpiredLeases` and of the claim.
unfoldable pub is_claimable : {D : Type 0} → LeaseKind → ℕ → Lease D → Bool
unfolding lease_status_in claimable_statuses
is_claimable kind as_of l =
    lease_status_in l.lease_status (claimable_statuses kind) && leb l.expires_at as_of

unfoldable pub settled_state : LeaseKind → String
settled_state decoy = "DELETED"
settled_state route = "REVOKED"
settled_state quarantine = "RELEASED"

-- What the claim of a sweep writes.
abbrev pub claimed_row : {D : Type 0} → LeaseKind → String → Lease D → Lease D
claimed_row kind sweep l = record l {
  owner_id = sweep;
  desired_state = settled_state kind;
  lease_status = cleanup_pending;
  fencing_token = l.fencing_token + 1;
  version = l.version + 1;
}

-- The claim of one table: the rows that are found are updated one by one, by identifier and version,
-- in the transaction that read them. The table and the claimed rows.
unfoldable pub claim_table :
    {D : Type 0} → LeaseKind → String → ℕ → List (Lease D) → List (Lease D) × List (Lease D)
unfolding is_claimable settled_state
claim_table kind sweep as_of rows = (
  update_where (is_claimable kind as_of) (claimed_row kind sweep) rows,
  map (claimed_row kind sweep) (filter_where (is_claimable kind as_of) rows),
)

pub record LeaseTables : Type 0 where
  pub decoys : List (Lease DecoyDetail)
  pub routes : List (Lease RouteDetail)
  pub quarantines : List (Lease QuarantineDetail)

unfoldable pub claim_leases_for_cleanup : String → ℕ → LeaseTables → LeaseTables × LeaseTables
unfolding claim_table
claim_leases_for_cleanup sweep as_of t =
    let (decoys, claimed_decoys) = claim_table decoy sweep as_of t.decoys in
    let (routes, claimed_routes) = claim_table route sweep as_of t.routes in
    let (quarantines, claimed_quarantines) = claim_table quarantine sweep as_of t.quarantines in
    (
      record { decoys = decoys; routes = routes; quarantines = quarantines },
      record {
        decoys = claimed_decoys;
        routes = claimed_routes;
        quarantines = claimed_quarantines;
      },
    )

unfoldable pub find_expired_leases : ℕ → LeaseTables → LeaseTables
find_expired_leases as_of t = record {
  decoys = filter_where (is_claimable decoy as_of) t.decoys;
  routes = filter_where (is_claimable route as_of) t.routes;
  quarantines = filter_where (is_claimable quarantine as_of) t.quarantines;
}

-- A settlement names the lease, its owner and the fencing token that the claim gave.
pub record Fence : Type 0 where
  pub lease_id : String
  pub owner_id : String
  pub fencing_token : ℕ

-- The `where` of a settlement, for the statuses that it settles.
unfoldable pub holds_fence : {D : Type 0} → Fence → List LeaseStatus → Lease D → Bool
unfolding lease_status_in
holds_fence f statuses l =
    has_lease_id f.lease_id l
    && (str_eq l.owner_id f.owner_id
        && (l.fencing_token == f.fencing_token && lease_status_in l.lease_status statuses))

abbrev pub settled_row : {D : Type 0} → LeaseStatus → String → ℕ → Lease D → Lease D
settled_row status state now l = record l {
  lease_status = status;
  desired_state = state;
  observed_state = state;
  settled_at = some now;
  version = l.version + 1;
}

unfoldable pub mark_decoy_cleaned_up :
    Fence → ℕ → List (Lease DecoyDetail) → Result LeaseError (List (Lease DecoyDetail))
unfolding update_lease holds_fence
mark_decoy_cleaned_up f now =
    update_lease (holds_fence f (active ∷ cleanup_pending ∷ pending_cleanup ∷ []))
      (settled_row cleaned_up "DELETED" now) (lease_fence_lost decoy)

unfoldable pub mark_route_revoked :
    Fence → ℕ → List (Lease RouteDetail) → Result LeaseError (List (Lease RouteDetail))
unfolding update_lease holds_fence
mark_route_revoked f now =
    update_lease (holds_fence f (active ∷ cleanup_pending ∷ [])) (settled_row revoked "REVOKED" now)
      (lease_fence_lost route)

unfoldable pub mark_quarantine_released :
    Fence → ℕ → List (Lease QuarantineDetail) → Result LeaseError (List (Lease QuarantineDetail))
unfolding update_lease holds_fence
mark_quarantine_released f now =
    update_lease (holds_fence f (active ∷ cleanup_pending ∷ []))
      (settled_row cleaned_up "RELEASED" now) (lease_fence_lost quarantine)

pub record FailureInput : Type 0 where
  pub lease_id : String
  pub error : Text
  pub owner_id : Option String
  pub fencing_token : Option ℕ
  pub max_attempts : Option ℕ

-- `params.ownerId` counts as absent when it is empty.
unfoldable pub owner_fits : Option String → String → Bool
owner_fits none owner = true
owner_fits (some p) owner = str_eq p "" || str_eq owner p

unfoldable pub token_fits : Option ℕ → ℕ → Bool
token_fits none token = true
token_fits (some p) token = token == p

-- `slice(0, n)`.
unfoldable pub slice : ℕ → Text → Text
slice zero s = []
slice (suc n) [] = []
slice (suc n) (c ∷ s) = c ∷ slice n s

-- What a failure of the cleanup writes, for the row as it was read.
abbrev pub failed_row : {D : Type 0} → FailureInput → LeaseStatus → ℕ → Lease D → Lease D
failed_row p status attempts l = record l {
  cleanup_attempts = attempts;
  last_failure_reason = some (slice 512 p.error);
  lease_status = if leb (get_or p.max_attempts 3) attempts then terminal_failure else status;
  version = l.version + 1;
}

-- The `where` of that write; `version` is that of the row that was read.
unfoldable pub failure_where : {D : Type 0} → FailureInput → ℕ → Lease D → Bool
unfolding owner_fits token_fits
failure_where p version l =
    has_lease_id p.lease_id l
    && (owner_fits p.owner_id l.owner_id
        && (token_fits p.fencing_token l.fencing_token && l.version == version))

-- The write, after the row `l` was read and checked.
unfoldable pub write_failure :
    {D : Type 0}
    → LeaseKind
    → FailureInput
    → Lease D
    → List (Lease D)
    → Result LeaseError (List (Lease D))
unfolding slice
write_failure kind p l =
    update_lease (failure_where p l.version) (failed_row p l.lease_status (l.cleanup_attempts + 1))
      (lease_fence_lost kind)

unfoldable pub check_failure : {D : Type 0} → FailureInput → Lease D → Result LeaseError (Lease D)
check_failure p l = do
  throw_if (not (owner_fits p.owner_id l.owner_id)) stale_cleanup_owner
  throw_if (not (token_fits p.fencing_token l.fencing_token)) stale_cleanup_token
  ok l

-- Each branch of `recordLeaseCleanupFailure` on its table; an unknown lease is passed over.
unfoldable pub record_lease_cleanup_failure :
    {D : Type 0} → LeaseKind → FailureInput → List (Lease D) → Result LeaseError (List (Lease D))
record_lease_cleanup_failure kind p rows = elim (find_first (has_lease_id p.lease_id) rows) [
  | none ↦ ok rows
  | some l ↦ (check_failure p l >>= λ read. write_failure kind p read rows)
]
