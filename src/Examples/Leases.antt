-- ===== src/Examples/Leases.antt =====
-- Runs of the lease tables, the cleanup sweeps and the emergency releases of
-- packages/database/src/repositories.
use falseroute.Prelude.{◌≤◌, ◌≡◌, refl, true, none, [], ◌∷◌, ok, arith, count_where}
use falseroute.Leases.Store.{route, Lease, RouteDetail, active, emergency_release_pending, revoked}
use falseroute.Leases.Cleanup.{
  Fence, claim_leases_for_cleanup, is_claimable, mark_route_revoked, claimed_row, settled_row,
}
use falseroute.Leases.Emergency.{
  ReleaseStore, ReleaseInput, EmergencyRelease, claimed, claim_emergency_release, start_release,
  take_leases, new_release, taken_row,
}
use falseroute.Leases.Settlement.Totals.{Settles, settle-Settles, HasUniqueIds}
use falseroute.Leases.History.{done, next, revokes_route, claims_release, swept, with_routes}
use falseroute.Leases.History.Fenced.{IsRefused, lost_claim}
use falseroute.Leases.History.Exclusive.{IsExcluded, exclusive_claim}
use falseroute.Leases.History.Claims.{is_unfinished}
use falseroute.Leases.Sweeps.{
  Sweep, no_sweeps, acquires, acquire_cleanup_sweep_lock, acquired, held, is_live_sweep, new_sweep,
  one_sweep,
}

abbrev route_lease : Lease RouteDetail
route_lease = record {
  id = "lease-1";
  event_id = "event-1";
  target = "203.0.113.7";
  detail = record { assigned_route = "decoy-a" };
  desired_state = "ACTIVE";
  observed_state = "ACTIVE";
  lease_status = active;
  expires_at = 100;
  settled_at = none;
  ownership_key = "route:event-1:203.0.113.7";
  owner_id = "worker-1";
  fencing_token = 1;
  version = 1;
  cleanup_attempts = 0;
  last_failure_reason = none;
}

abbrev one_route : ReleaseStore
one_route = record {
  tables = record { decoys = []; routes = route_lease ∷ []; quarantines = [] };
  releases = [];
}

abbrev worker_fence : Fence
worker_fence = record { lease_id = "lease-1"; owner_id = "worker-1"; fencing_token = 1 }

abbrev sweep_fence : Fence
sweep_fence = record { lease_id = "lease-1"; owner_id = "sweep-1"; fencing_token = 2 }

abbrev settled_route : Lease RouteDetail
settled_route = settled_row revoked "REVOKED" 220 (claimed_row route "sweep-1" route_lease)

abbrev after_sweep : ReleaseStore
after_sweep = with_routes (settled_route ∷ []) (swept "sweep-1" 200 one_route)

sweep_settles :
    mark_route_revoked sweep_fence 220 (swept "sweep-1" 200 one_route).tables.routes
    ≡ ok (settled_route ∷ [])
unfolding mark_route_revoked claim_leases_for_cleanup is_claimable
sweep_settles = refl

route_claimable : is_claimable route 200 route_lease ≡ true
unfolding is_claimable
route_claimable = refl

lost_claim_example : IsRefused route worker_fence after_sweep
lost_claim_example =
    lost_claim route worker_fence "sweep-1" 200 one_route after_sweep refl
      ((λ e. (route_claimable, omega arith)), tt)
      (next (done (swept "sweep-1" 200 one_route))
        (revokes_route sweep_fence 220 _ _ sweep_settles))

abbrev request : ReleaseInput
request = record {
  idempotency_key = "release-1";
  principal_id = "operator";
  reason = "drill";
  correlation_id = "correlation-1";
}

abbrev in_progress : EmergencyRelease
in_progress =
    new_release request (record { routes = "lease-1" ∷ []; quarantines = []; decoys = [] }) 0
      "owner-1" 1000 "record-1"

abbrev claimed_store : ReleaseStore
claimed_store = record {
  tables = record {
    decoys = [];
    routes = taken_row "REVOKED" emergency_release_pending "owner-1" route_lease ∷ [];
    quarantines = [];
  };
  releases = in_progress ∷ [];
}

request_claims :
    claim_emergency_release request "owner-1" 1000 "record-1" one_route
    ≡ ok (claimed_store, claimed in_progress)
unfolding claim_emergency_release start_release take_leases
request_claims = refl

exclusive_claim_example :
    (count_where is_unfinished claimed_store.releases ≤ 1)
    × IsExcluded in_progress claimed_store (
        claim_emergency_release
          (record request { idempotency_key = "release-2" })
          "owner-2"
          2000
          "record-2"
          claimed_store)
exclusive_claim_example =
    exclusive_claim one_route claimed_store (record request { idempotency_key = "release-2" })
      "owner-2" 2000 "record-2" in_progress refl
      (next (done one_route) (
        claims_release request "owner-1" 1000 "record-1" one_route claimed_store _ refl
          request_claims))
      (tt, tt) refl refl

claimed_store_unique : HasUniqueIds claimed_store.tables
claimed_store_unique i = (ground arith, omega arith, omega arith)

settle-Settles_example : Settles "record-1" "owner-1" 2000 claimed_store in_progress
settle-Settles_example =
    settle-Settles "record-1" "owner-1" 2000 claimed_store in_progress refl refl
      claimed_store_unique

abbrev first_sweep : Sweep
first_sweep = new_sweep "sweep-1" 61000 "sweep-record-1"

first_acquired :
    acquire_cleanup_sweep_lock "sweep-1" none 1000 1001 "sweep-record-1" []
    ≡ ok (first_sweep ∷ [], acquired "sweep-record-1")
unfolding acquire_cleanup_sweep_lock
first_acquired = refl

second_held :
    acquire_cleanup_sweep_lock "sweep-2" none 2000 2001 "sweep-record-2" (first_sweep ∷ [])
    ≡ ok (first_sweep ∷ [], held "sweep-1")
unfolding acquire_cleanup_sweep_lock
second_held = refl

one_sweep_example : count_where (is_live_sweep 3000) (first_sweep ∷ []) ≤ 1
one_sweep_example =
    one_sweep 3000
      (acquires "sweep-2" none 2000 "sweep-record-2"
        (acquires "sweep-1" none 1000 "sweep-record-1" (no_sweeps 0) (omega arith) first_acquired)
        (omega arith) second_held)
      (omega arith)
