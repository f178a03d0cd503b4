-- ===== src/Leases/Settlement/Totals.antt =====
-- The settlement of an emergency release, of
-- packages/database/src/repositories/emergency-release-repository.ts.
use falseroute.Prelude.{
  ℕ, ◌+◌, ◌≤◌, ◌≡◌, ◌↔◌, refl, String, str_eq, true, some, List, [], ◌∷◌, map, ok, length,
  length-append, find_first, count_where, filter_where, update_where, All, arith, ap, ◌∙◌,
  str_eq_iff,
}
use falseroute.Leases.Store.{LeaseKind, decoy, route, quarantine, Lease, has_lease_id}
use falseroute.Leases.Cleanup.{LeaseTables}
use falseroute.Leases.Counts.{
  EmergencyReleaseCounts, summarize_emergency_leases, derive_emergency_release_status,
  ReleaseStatus, release_pending, partial_failure, completed,
}
use falseroute.Leases.Emergency.{
  ClaimedLeaseIds, EmergencyRelease, ReleaseStore, has_release_id, is_one_of, size_of,
}
use falseroute.Leases.Settlement.{
  states_of, lease_states, missing_leases, are_counts_consistent, settled_release, owns_claim,
  settle_emergency_release,
}
use falseroute.Leases.Counts.Completion.{
  IsDone, sum_of_counts, summarize-sum, requested-sum, summarize-completed,
}

str_eq_comm : (a b : String) → str_eq a b ≡ str_eq b a
str_eq_comm a b = ground (arith, str_eq_iff a b, str_eq_iff b a)

module _ {D : Type 0} where
  count-any :
      (i : String) (ids : List String) (rows : List (Lease D))
      → length (filter_where (λ l. is_one_of (i ∷ ids) l.id) rows)
        ≤ count_where (has_lease_id i) rows + length (filter_where (λ l. is_one_of ids l.id) rows)
  count-any i ids [] = omega arith
  count-any i ids (l ∷ rows) = ground (arith, count-any i ids rows, str_eq_comm i l.id)

  none_found : (rows : List (Lease D)) → length (filter_where (λ l. is_one_of [] l.id) rows) ≤ 0
  none_found [] = omega arith
  none_found (l ∷ rows) = omega (arith, none_found rows)

  -- No more rows are found by identifier than there are identifiers.
  found-le :
      (ids : List String) (rows : List (Lease D))
      → ((i : String) → count_where (has_lease_id i) rows ≤ 1)
      → length (filter_where (λ l. is_one_of ids l.id) rows) ≤ length ids
  found-le [] rows unique = none_found rows
  found-le (i ∷ ids) rows unique =
      omega (arith, found-le ids rows unique, unique i, count-any i ids rows)

abbrev pub HasUniqueIds : LeaseTables → Type 0
HasUniqueIds t =
    (i : String)
    → (count_where (has_lease_id i) t.routes ≤ 1)
      × (count_where (has_lease_id i) t.quarantines ≤ 1)
      × (count_where (has_lease_id i) t.decoys ≤ 1)

length-map {ℓ κ} :
    {A : Type ℓ} {B : Type κ} (f : A → B) (xs : List A) → length (map f xs) ≡ length xs
length-map f [] = refl
length-map f (x ∷ xs) = omega (arith, length-map f xs)

states_of-length :
    {D : Type 0} (kind : LeaseKind) (ids : List String) (rows : List (Lease D))
    → length (states_of kind ids rows) ≡ length (filter_where (λ l. is_one_of ids l.id) rows)
states_of-length kind ids rows = length-map _ (filter_where (λ l. is_one_of ids l.id) rows)

lease_states-length :
    (ids : ClaimedLeaseIds) (t : LeaseTables)
    → length (lease_states ids t)
      ≡ length (states_of route ids.routes t.routes)
        + (length (states_of quarantine ids.quarantines t.quarantines)
            + length (states_of decoy ids.decoys t.decoys))
unfolding lease_states
lease_states-length ids t =
    length-append (states_of route ids.routes t.routes) _
    ∙ ap (λ (n : ℕ). length (states_of route ids.routes t.routes) + n)
        (length-append (states_of quarantine ids.quarantines t.quarantines) _)

states-missing :
    (ids : ClaimedLeaseIds) (t : LeaseTables)
    → HasUniqueIds t
    → missing_leases ids t + length (lease_states ids t) ≡ size_of ids
unfolding missing_leases
states-missing ids t unique = omega (
  arith,
  lease_states-length ids t,
  states_of-length route ids.routes t.routes,
  states_of-length quarantine ids.quarantines t.quarantines,
  states_of-length decoy ids.decoys t.decoys,
  found-le ids.routes t.routes (λ i. (unique i).0),
  found-le ids.quarantines t.quarantines (λ i. (unique i).1),
  found-le ids.decoys t.decoys (λ i. (unique i).2),
)

-- What a settlement of `r` at that time writes and answers.
pub record Settles (record_id token : String) (now : ℕ) (s : ReleaseStore) (r : EmergencyRelease)
    : Type 0 where
  pub counts : EmergencyReleaseCounts
  pub settled :
      settle_emergency_release record_id token now s
      ≡ ok (
        record s {
          releases =
              update_where
                (has_release_id record_id)
                (settled_release counts (derive_emergency_release_status counts) now)
                s.releases;
        },
        counts,
      )
  pub requested : counts.requested_count ≡ size_of r.details
  pub added :
      counts.requested_count ≡ counts.verified_count + counts.pending_count + counts.failed_count
  pub finished :
      (derive_emergency_release_status counts ≡ completed)
      ↔ All IsDone (lease_states r.details s.tables)

consistent :
    (c : EmergencyReleaseCounts) (status : ReleaseStatus)
    → c.requested_count ≡ sum_of_counts c
    → are_counts_consistent c.requested_count c.verified_count c.pending_count c.failed_count status
      ≡ true
unfolding are_counts_consistent
consistent c release_pending h = refl
consistent c partial_failure h = refl
consistent c completed h = ground arith

-- While the owner holds its claim, a settlement of an emergency release succeeds, and the assertion on
-- its counts never throws: the requested count is the number of leases that the operation has
-- claimed and the sum of the verified, the pending and the failed ones; and the release is
-- completed exactly when each claimed route and quarantine that the tables hold is verified, and
-- each such decoy verified or pending. It is assumed that no two leases of a table share an identifier.
pub settle-Settles :
    (record_id token : String) (now : ℕ) (s : ReleaseStore) (r : EmergencyRelease)
    → find_first (has_release_id record_id) s.releases ≡ some r
    → owns_claim token now r ≡ true
    → HasUniqueIds s.tables
    → Settles record_id token now s r
unfolding settle_emergency_release
settle-Settles record_id token now s r found owns unique =
    let leases = lease_states r.details s.tables in
    let missing = missing_leases r.details s.tables in
    let c = summarize_emergency_leases leases missing in
    let added : c.requested_count ≡ sum_of_counts c = requested-sum leases missing in
    record {
      counts = c;
      settled =
          rw found (rw owns (rw (consistent c (derive_emergency_release_status c) added) refl));
      requested =
          omega (arith, summarize-sum leases missing, states-missing r.details s.tables unique);
      added = added;
      finished = summarize-completed leases missing;
    }
