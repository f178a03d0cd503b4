-- ===== src/Leases/History/Fenced.antt =====
-- What becomes of the settlements of an older claim of a lease, over the tables of
-- packages/database/src/repositories/lease-repository.ts and
-- packages/database/src/repositories/emergency-release-repository.ts.
use falseroute.Prelude.{ℕ, ◌≡◌, String, Bool, true, List, [], ◌∷◌, err, any_where, count_where, ◌∙◌}
use falseroute.Leases.Store.{
  LeaseKind, decoy, route, quarantine, LeaseStatus, Lease, LeaseError, lease_fence_lost,
  has_lease_id, update_lease, active, cleanup_pending, pending_cleanup, revoked, cleaned_up,
}
use falseroute.Leases.Cleanup.{
  claim_table, claim_leases_for_cleanup, Fence, holds_fence, mark_decoy_cleaned_up,
  mark_route_revoked, mark_quarantine_released, settled_row,
}
use falseroute.Leases.Emergency.{ReleaseStore, route_settleable_statuses}
use falseroute.Leases.Settlement.{mark_emergency_route_released, mark_emergency_quarantine_released}
use falseroute.Leases.Fencing.{
  IsTaken, IsFenced, TableStep-IsFenced, claim-Overtaken, Overtaken-count, update_lease-lost,
  update-present,
}
use falseroute.Leases.History.{LeaseStep, History, done, next, swept}
use falseroute.Leases.History.Tables.{step-TableSteps, claimed_row-Advances}

-- What no settlement by `f` of a lease of that kind does any more.
abbrev pub IsRefused : LeaseKind → Fence → ReleaseStore → Type 0
IsRefused decoy f s =
    (now : ℕ) → mark_decoy_cleaned_up f now s.tables.decoys ≡ err (lease_fence_lost decoy)
IsRefused route f s =
    (now : ℕ)
    → (mark_route_revoked f now s.tables.routes ≡ err (lease_fence_lost route))
      × ((success defer_to_cleanup : Bool)
          → (mark_emergency_route_released f success defer_to_cleanup now s.tables.routes).1 ≡ 0)
IsRefused quarantine f s =
    (now : ℕ)
    → (mark_quarantine_released f now s.tables.quarantines ≡ err (lease_fence_lost quarantine))
      × ((success defer_to_cleanup : Bool)
          → (mark_emergency_quarantine_released f success defer_to_cleanup now
              s.tables.quarantines).1
            ≡ 0)

abbrev pub HasLease : LeaseKind → Fence → ReleaseStore → Type 0
HasLease decoy f s = any_where (has_lease_id f.lease_id) s.tables.decoys ≡ true
HasLease route f s = any_where (has_lease_id f.lease_id) s.tables.routes ≡ true
HasLease quarantine f s = any_where (has_lease_id f.lease_id) s.tables.quarantines ≡ true

abbrev pub WillBeTaken : LeaseKind → ℕ → Fence → ReleaseStore → Type 0
WillBeTaken decoy as_of f s = IsTaken decoy as_of f s.tables.decoys
WillBeTaken route as_of f s = IsTaken route as_of f s.tables.routes
WillBeTaken quarantine as_of f s = IsTaken quarantine as_of f s.tables.quarantines

abbrev FencedIn : LeaseKind → Fence → ReleaseStore → Type 0
FencedIn decoy f s = IsFenced f s.tables.decoys
FencedIn route f s = IsFenced f s.tables.routes
FencedIn quarantine f s = IsFenced f s.tables.quarantines

step-FencedIn :
    (kind : LeaseKind) (f : Fence) {s t : ReleaseStore}
    → LeaseStep s t
    → FencedIn kind f s
    → FencedIn kind f t
step-FencedIn decoy f m h = TableStep-IsFenced f (step-TableSteps m).decoys h
step-FencedIn route f m h = TableStep-IsFenced f (step-TableSteps m).routes h
step-FencedIn quarantine f m h = TableStep-IsFenced f (step-TableSteps m).quarantines h

History-FencedIn :
    (kind : LeaseKind) (f : Fence) {s t : ReleaseStore}
    → History s t
    → FencedIn kind f s
    → FencedIn kind f t
History-FencedIn kind f (done s) h = h
History-FencedIn kind f (next before m) h =
    step-FencedIn kind f m (History-FencedIn kind f before h)

swept-FencedIn :
    (kind : LeaseKind) (f : Fence) (sweep : String) (as_of : ℕ) (s : ReleaseStore)
    → HasLease kind f s
    → WillBeTaken kind as_of f s
    → FencedIn kind f (swept sweep as_of s)
unfolding claim_leases_for_cleanup claim_table
swept-FencedIn decoy f sweep as_of s present h = record {
  present = update-present f.lease_id _ _ _ (claimed_row-Advances decoy sweep) ∙ present;
  overtaken = unfold claim_table in claim-Overtaken decoy sweep as_of f s.tables.decoys h;
}
swept-FencedIn route f sweep as_of s present h = record {
  present = update-present f.lease_id _ _ _ (claimed_row-Advances route sweep) ∙ present;
  overtaken = claim-Overtaken route sweep as_of f s.tables.routes h;
}
swept-FencedIn quarantine f sweep as_of s present h = record {
  present = update-present f.lease_id _ _ _ (claimed_row-Advances quarantine sweep) ∙ present;
  overtaken = claim-Overtaken quarantine sweep as_of f s.tables.quarantines h;
}

-- A settlement of a fenced lease writes nothing, whatever the statuses that it settles.
fenced-lost :
    {D : Type 0} (f : Fence) (statuses : List LeaseStatus) (g : Lease D → Lease D) (e : LeaseError)
    (rows : List (Lease D))
    → IsFenced f rows
    → (update_lease (holds_fence f statuses) g e rows ≡ err e)
      × (count_where (holds_fence f statuses) rows ≡ 0)
fenced-lost f statuses g e rows h =
    let count = Overtaken-count f statuses rows h.overtaken in
    (update_lease-lost (holds_fence f statuses) g e rows count, count)

FencedIn-IsRefused :
    (kind : LeaseKind) (f : Fence) (s : ReleaseStore) → FencedIn kind f s → IsRefused kind f s
unfolding mark_decoy_cleaned_up mark_route_revoked mark_quarantine_released
    mark_emergency_route_released mark_emergency_quarantine_released
FencedIn-IsRefused decoy f s h = λ now.
    (fenced-lost f (active ∷ cleanup_pending ∷ pending_cleanup ∷ [])
      (settled_row cleaned_up "DELETED" now) (lease_fence_lost decoy) s.tables.decoys h).0
FencedIn-IsRefused route f s h = λ now. (
  (fenced-lost f (active ∷ cleanup_pending ∷ []) (settled_row revoked "REVOKED" now)
      (lease_fence_lost route) s.tables.routes h).0,
  λ success defer_to_cleanup.
      Overtaken-count f route_settleable_statuses s.tables.routes h.overtaken,
)
FencedIn-IsRefused quarantine f s h = λ now. (
  (fenced-lost f (active ∷ cleanup_pending ∷ []) (settled_row cleaned_up "RELEASED" now)
      (lease_fence_lost quarantine) s.tables.quarantines h).0,
  λ success defer_to_cleanup.
      Overtaken-count f route_settleable_statuses s.tables.quarantines h.overtaken,
)

-- A worker that holds a lease with a fencing token, and whose lease a cleanup sweep then claims, cannot
-- settle it any more: after any number of further operations on the tables, by sweeps, workers and
-- emergency releases, its settlement is refused with `lease_fence_lost`, and an emergency
-- settlement with its token changes no row. It is assumed that the row of the lease is claimable at
-- the time of the sweep, and that its token is not older than the worker's.
pub lost_claim :
    (kind : LeaseKind) (f : Fence) (sweep : String) (as_of : ℕ) (s t : ReleaseStore)
    → HasLease kind f s
    → WillBeTaken kind as_of f s
    → History (swept sweep as_of s) t
    → IsRefused kind f t
lost_claim kind f sweep as_of s t present h later =
    FencedIn-IsRefused kind f t
      (History-FencedIn kind f later (swept-FencedIn kind f sweep as_of s present h))
