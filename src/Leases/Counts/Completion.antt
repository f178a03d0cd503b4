-- ===== src/Leases/Counts/Completion.antt =====
-- What the counts of an emergency release say of its leases:
-- packages/database/src/repositories/unsettled-leases.ts.
use falseroute.Prelude.{
  ℕ, ◌+◌, ◌≤◌, ◌<◌, ◌≡◌, ◌↔◌, ◌⊎◌, refl, true, false, List, [], ◌∷◌, length, All, inl, inr, arith,
  ap,
}
use falseroute.Leases.Store.{LeaseKind, decoy, route, quarantine}
use falseroute.Leases.Counts.{
  EmergencyLeaseState, EmergencyLeaseOutcome, verified, failed, pending, EmergencyReleaseCounts,
  classify_emergency_lease, is_decoy_kind, count_lease, count_leases, summarize_emergency_leases,
  derive_emergency_release_status, completed,
}

-- A lease that does not stand in the way of completion.
abbrev pub IsDone : EmergencyLeaseState → Type 0
IsDone l =
    (classify_emergency_lease l ≡ verified)
    ⊎ ((l.kind ≡ decoy) × (classify_emergency_lease l ≡ pending))

abbrev pub sum_of_counts : EmergencyReleaseCounts → ℕ
sum_of_counts c = c.verified_count + c.pending_count + c.failed_count

count_lease-sum :
    (l : EmergencyLeaseState) (c : EmergencyReleaseCounts)
    → sum_of_counts (count_lease l c) ≡ sum_of_counts c + 1
unfolding count_lease
count_lease-sum l c = ground arith

count_leases-sum :
    (leases : List EmergencyLeaseState) (c : EmergencyReleaseCounts)
    → sum_of_counts (count_leases leases c) ≡ sum_of_counts c + length leases
unfolding count_leases
count_leases-sum [] c = omega arith
count_leases-sum (l ∷ leases) c =
    omega (arith, count_leases-sum leases (count_lease l c), count_lease-sum l c)

-- What stands in the way of completion: failures, and routes and quarantines that are not settled.
abbrev obstacles : EmergencyReleaseCounts → ℕ
obstacles c = c.failed_count + c.pending_settlement_count

kind_cases : (kind : LeaseKind) → (kind ≡ decoy) ⊎ (is_decoy_kind kind ≡ false)
kind_cases decoy = inl refl
kind_cases route = inr refl
kind_cases quarantine = inr refl

outcome_cases : (o : EmergencyLeaseOutcome) → (o ≡ verified) ⊎ ((o ≡ failed) ⊎ (o ≡ pending))
outcome_cases verified = inl refl
outcome_cases failed = inr (inl refl)
outcome_cases pending = inr (inr refl)

count_lease_done :
    (l : EmergencyLeaseState) (c : EmergencyReleaseCounts)
    → IsDone l
    → obstacles (count_lease l c) ≡ obstacles c
unfolding count_lease
count_lease_done l c (inl h) = ground arith
count_lease_done l c (inr (decoy_lease, h)) =
    let is_decoy : is_decoy_kind l.kind ≡ true = ap is_decoy_kind decoy_lease in ground arith

count_lease_open :
    (l : EmergencyLeaseState) (c : EmergencyReleaseCounts)
    → IsDone l ⊎ (obstacles c < obstacles (count_lease l c))
unfolding count_lease
count_lease_open l c = elim (outcome_cases (classify_emergency_lease l)) [
  | inl h ↦ inl (inl h)
  | inr (inl h) ↦ inr (ground arith)
  | inr (inr h) ↦ elim (kind_cases l.kind) [
    | inl decoy_lease ↦ inl (inr (decoy_lease, h))
    | inr other ↦ inr (ground arith)
  ]
]

count_leases-obstacles :
    (leases : List EmergencyLeaseState) (c : EmergencyReleaseCounts)
    → obstacles c ≤ obstacles (count_leases leases c)
unfolding count_leases
count_leases-obstacles [] c = omega arith
count_leases-obstacles (l ∷ leases) c = elim (count_lease_open l c) [
  | inl h ↦ omega (arith, count_leases-obstacles leases (count_lease l c), count_lease_done l c h)
  | inr h ↦ omega (arith, count_leases-obstacles leases (count_lease l c))
]

count_leases-IsDone :
    (leases : List EmergencyLeaseState) (c : EmergencyReleaseCounts)
    → (obstacles (count_leases leases c) ≡ obstacles c) ↔ All IsDone leases
unfolding count_leases
count_leases-IsDone [] c = (λ h. tt, λ h. refl)
count_leases-IsDone (l ∷ leases) c =
    let rest = count_leases-IsDone leases (count_lease l c) in
    (
      λ h. elim (count_lease_open l c) [
        | inl d ↦ (d, rest.0 (omega (arith, count_lease_done l c d)))
        | inr d ↦ absurd (omega (arith, count_leases-obstacles leases (count_lease l c)))
      ],
      λ h. omega (arith, rest.1 h.1, count_lease_done l c h.0),
    )

derive-completed :
    (c : EmergencyReleaseCounts)
    → (derive_emergency_release_status c ≡ completed) ↔ (obstacles c ≡ 0)
unfolding derive_emergency_release_status
derive-completed c = ground arith

abbrev pub no_counts : ℕ → EmergencyReleaseCounts
no_counts missing = record {
  requested_count = 0;
  verified_count = missing;
  pending_count = 0;
  failed_count = 0;
  pending_settlement_count = 0;
}

pub summarize-sum :
    (leases : List EmergencyLeaseState) (missing : ℕ)
    → sum_of_counts (summarize_emergency_leases leases missing) ≡ missing + length leases
unfolding summarize_emergency_leases
summarize-sum leases missing = omega (arith, count_leases-sum leases (no_counts missing))

pub requested-sum :
    (leases : List EmergencyLeaseState) (missing : ℕ)
    → (summarize_emergency_leases leases missing).requested_count
      ≡ sum_of_counts (summarize_emergency_leases leases missing)
unfolding summarize_emergency_leases
requested-sum leases missing = refl

pub summarize-completed :
    (leases : List EmergencyLeaseState) (missing : ℕ)
    → (derive_emergency_release_status (summarize_emergency_leases leases missing) ≡ completed)
      ↔ All IsDone leases
unfolding summarize_emergency_leases
summarize-completed leases missing =
    let c = summarize_emergency_leases leases missing in
    let status = derive-completed c in
    let rest = count_leases-IsDone leases (no_counts missing) in
    (λ h. rest.0 (status.0 h), λ h. status.1 (rest.1 h))
