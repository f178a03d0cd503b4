-- ===== src/Leases/Emergency.antt =====
-- `EmergencyReleaseRepository` of
-- packages/database/src/repositories/emergency-release-repository.ts. The claim and the settlement run
-- under one advisory lock, so each is one step. Of the JSON in `details` the model keeps the
-- identifiers that `readClaimedLeaseIds` reads, none of them where it is of another form.
use falseroute.Prelude.{
  ℕ, ◌+◌, String, str_eq, Bool, true, false, not, ◌&&◌, ◌||◌, Option, none, some, List, [], ◌∷◌,
  ◌++◌, map, Result, ok, err, ltb, if◌then◌else◌, length, find_first, any_where, filter_where,
  update_where,
}
use falseroute.Leases.Store.{
  LeaseKind, decoy, route, quarantine, LeaseStatus, active, cleanup_pending, pending_cleanup,
  emergency_release_pending, pending_release, Lease, lease_status_in, LeaseError, release_collision,
  release_unfinished,
}
use falseroute.Leases.Cleanup.{LeaseTables}
use falseroute.Leases.Counts.{ReleaseStatus, release_pending, completed}

pub record ClaimedLeaseIds : Type 0 where
  pub routes : List String
  pub quarantines : List String
  pub decoys : List String

pub record EmergencyRelease : Type 0 where
  pub id : String
  pub idempotency_key : String
  pub principal_id : String
  pub reason : String
  pub correlation_id : String
  pub status : ReleaseStatus
  pub requested_count : ℕ
  pub verified_count : ℕ
  pub pending_count : ℕ
  pub failed_count : ℕ
  pub details : ClaimedLeaseIds
  pub claim_owner : Option String
  pub claim_expires_at : Option ℕ
  pub completed_at : Option ℕ
  pub version : ℕ

pub record ReleaseStore : Type 0 where
  pub tables : LeaseTables
  pub releases : List EmergencyRelease

pub record ReleaseInput : Type 0 where
  pub idempotency_key : String
  pub principal_id : String
  pub reason : String
  pub correlation_id : String

abbrev pub is_completed : EmergencyRelease → Bool
is_completed r = elim r.status [ completed ↦ true | _ ↦ false ]

abbrev pub has_release_key : String → EmergencyRelease → Bool
has_release_key k r = str_eq r.idempotency_key k

abbrev pub has_release_id : String → EmergencyRelease → Bool
has_release_id i r = str_eq r.id i

abbrev pub is_one_of : List String → String → Bool
is_one_of ids i = any_where (λ j. str_eq j i) ids

-- `Array.from(new Set([...previous, ...next]))`: the first of equal texts stays.
unfoldable pub distinct : List String → List String → List String
distinct seen [] = []
distinct seen (i ∷ ids) =
    let skipped = distinct seen ids in
    let kept = distinct (i ∷ seen) ids in if is_one_of seen i then skipped else i ∷ kept

unfoldable pub merge_ids : List String → List String → List String
unfolding distinct
merge_ids previous next = distinct [] (previous ++ next)

abbrev pub route_settleable_statuses : List LeaseStatus
route_settleable_statuses = active ∷ emergency_release_pending ∷ pending_release ∷ []

abbrev pub resumable_statuses : LeaseKind → List LeaseStatus
resumable_statuses decoy = pending_cleanup ∷ cleanup_pending ∷ []
resumable_statuses _ = route_settleable_statuses

-- The leases that a claim takes: every active one, and what `owner` has left of `ids`.
unfoldable pub is_candidate :
    {D : Type 0} → LeaseKind → Option String → List String → Lease D → Bool
unfolding lease_status_in
is_candidate kind none ids l = lease_status_in l.lease_status (active ∷ [])
is_candidate kind (some owner) ids l =
    lease_status_in l.lease_status (active ∷ [])
    || (is_one_of ids l.id
        && (str_eq l.owner_id owner && lease_status_in l.lease_status (resumable_statuses kind)))

abbrev pub taken_row : {D : Type 0} → String → LeaseStatus → String → Lease D → Lease D
taken_row state status token l = record l {
  desired_state = state;
  lease_status = status;
  owner_id = token;
  fencing_token = l.fencing_token + 1;
  version = l.version + 1;
}

abbrev pub taken_decoy_row : {D : Type 0} → String → Lease D → Lease D
taken_decoy_row token l = record (taken_row "CLEANUP_PENDING" pending_cleanup token l) {
  expires_at = 0;
}

abbrev pub taken_ids : {D : Type 0} → (Lease D → Bool) → List (Lease D) → List String
taken_ids w rows = map (λ l. l.id) (filter_where w rows)

abbrev pub owner_of : Option EmergencyRelease → Option String
owner_of none = none
owner_of (some r) = elim r.claim_owner [
  | none ↦ none
  | some o ↦ if str_eq o "" then none else some o
]

abbrev no_ids : ClaimedLeaseIds
no_ids = record { routes = []; quarantines = []; decoys = [] }

abbrev pub ids_of : Option EmergencyRelease → ClaimedLeaseIds
ids_of none = no_ids
ids_of (some r) = r.details

-- The leases after the claim of an operation that may be resumed, and the identifiers of all its
-- leases.
unfoldable pub take_leases :
    Option EmergencyRelease → String → LeaseTables → LeaseTables × ClaimedLeaseIds
unfolding is_candidate merge_ids
take_leases existing token t =
    let owner = owner_of existing in
    let ids = ids_of existing in
    (
      record {
        routes =
            update_where (is_candidate route owner ids.routes)
              (taken_row "REVOKED" emergency_release_pending token) t.routes;
        quarantines =
            update_where (is_candidate quarantine owner ids.quarantines)
              (taken_row "RELEASED" emergency_release_pending token) t.quarantines;
        decoys =
            update_where (is_candidate decoy owner ids.decoys) (taken_decoy_row token) t.decoys;
      },
      record {
        routes = merge_ids ids.routes (taken_ids (is_candidate route owner ids.routes) t.routes);
        quarantines =
            merge_ids ids.quarantines
              (taken_ids (is_candidate quarantine owner ids.quarantines) t.quarantines);
        decoys = merge_ids ids.decoys (taken_ids (is_candidate decoy owner ids.decoys) t.decoys);
      },
    )

abbrev pub size_of : ClaimedLeaseIds → ℕ
size_of ids = length ids.routes + length ids.quarantines + length ids.decoys

-- What is written for an operation that is resumed, and the row of a new one.
abbrev pub resumed_release : ClaimedLeaseIds → String → ℕ → EmergencyRelease → EmergencyRelease
resumed_release ids token now r = record r {
  requested_count = size_of ids;
  details = ids;
  status = release_pending;
  claim_owner = some token;
  claim_expires_at = some (now + 60000);
  version = r.version + 1;
}

abbrev pub new_release :
    ReleaseInput → ClaimedLeaseIds → (claimed_decoys : ℕ) → String → ℕ → String → EmergencyRelease
new_release p ids claimed_decoys token now id = record {
  id = id;
  idempotency_key = p.idempotency_key;
  principal_id = p.principal_id;
  reason = p.reason;
  correlation_id = p.correlation_id;
  status = release_pending;
  requested_count = size_of ids;
  verified_count = 0;
  pending_count = claimed_decoys;
  failed_count = 0;
  details = ids;
  claim_owner = some token;
  claim_expires_at = some (now + 60000);
  completed_at = none;
  version = 1;
}

pub data ClaimAnswer : Type 0 where
  already_claimed : EmergencyRelease → ClaimAnswer
  claimed : EmergencyRelease → ClaimAnswer

abbrev pub is_live_claim : ℕ → Option ℕ → Bool
is_live_claim now none = false
is_live_claim now (some expires) = ltb now expires

-- `status: { not: 'COMPLETED' }, id: { not: existing.id }`.
abbrev pub is_conflict : Option EmergencyRelease → EmergencyRelease → Bool
is_conflict none r = not (is_completed r)
is_conflict (some e) r = not (is_completed r) && not (has_release_id e.id r)

unfoldable pub resume_release :
    EmergencyRelease → String → ℕ → ReleaseStore → Result LeaseError (ReleaseStore × ClaimAnswer)
unfolding take_leases
resume_release e token now s =
    let (tables, ids) = take_leases (some e) token s.tables in
    if any_where (is_conflict (some e)) s.releases
    then err release_unfinished
    else ok (
      record {
        tables = tables;
        releases = update_where (has_release_id e.id) (resumed_release ids token now) s.releases;
      },
      claimed (resumed_release ids token now e),
    )

unfoldable pub start_release :
    ReleaseInput
    → String
    → ℕ
    → String
    → ReleaseStore
    → Result LeaseError (ReleaseStore × ClaimAnswer)
unfolding take_leases
start_release p token now id s =
    let (tables, ids) = take_leases none token s.tables in
    let taken = length (filter_where (is_candidate decoy none []) s.tables.decoys) in
    if any_where (is_conflict none) s.releases
    then err release_unfinished
    else ok (
      record {
        tables = tables;
        releases = s.releases ++ new_release p ids taken token now id ∷ [];
      },
      claimed (new_release p ids taken token now id),
    )

-- `token` is the owner token, and `id` the identifier that the database gives to a new row.
unfoldable pub claim_emergency_release :
    ReleaseInput
    → String
    → ℕ
    → String
    → ReleaseStore
    → Result LeaseError (ReleaseStore × ClaimAnswer)
claim_emergency_release p token now id s =
    elim (find_first (has_release_key p.idempotency_key) s.releases) [
      | none ↦ start_release p token now id s
      | some e ↦
          if not (str_eq e.principal_id p.principal_id) || not (str_eq e.reason p.reason)
          then err release_collision
          else if is_completed e || is_live_claim now e.claim_expires_at
          then ok (s, already_claimed e)
          else resume_release e token now s
    ]
