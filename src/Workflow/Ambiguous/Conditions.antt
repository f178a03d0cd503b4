-- ===== src/Workflow/Ambiguous/Conditions.antt =====
-- The conditions of `settleAmbiguousToolReservation` of
-- packages/database/src/repositories/autonomous-workflow-repository.ts.
use falseroute.Prelude.{
  ℕ, ◌≡◌, ◌↔◌, ◌⊎◌, refl, ap, String, str_eq, str_eq_iff, str_eq_refl, true, ◌||◌, Option, none,
  some, List, arith, find_first, Bool-cases, inl, inr,
}
use falseroute.Budget.Store.{Reservation, reserved, find_unique}
use falseroute.Budget.Settle.Spend.{status_eq_sound}
use falseroute.Workflow.Intents.{ProviderIntentRecord, intent_status_eq_sound, has_intent_key}
use falseroute.Workflow.Operations.{ToolOperation, has_operation_key}
use falseroute.Workflow.Ambiguous.{
  WorkflowTables, AmbiguousInput, settled_as, is_own_key, required_status, is_same_event,
  write_ambiguous, check_operation, check_outcome, check_reservation,
}

-- The conditions that the documentation of the operation lists.
pub record IsSettleable (p : AmbiguousInput) (t : WorkflowTables) : Type 0 where
  pub same_operation : p.provider_intent_key ≡ p.tool_operation_key
  pub own_key : is_own_key p.reservation_key p.tool_operation_key ≡ true
  pub reservation : Reservation
  pub intent : ProviderIntentRecord
  pub operation : ToolOperation
  pub reservation_found : find_unique p.reservation_key t.reservations ≡ some reservation
  pub intent_found : find_first (has_intent_key p.provider_intent_key) t.intents ≡ some intent
  pub operation_found :
      find_first (has_operation_key p.tool_operation_key) t.operations ≡ some operation
  pub is_reserved : reservation.status ≡ reserved
  pub owner : reservation.owner_id ≡ p.expected_owner_id
  pub version : reservation.version ≡ p.expected_version
  pub outcome : intent.status ≡ required_status p.settlement
  pub stage : (operation.stage ≡ "AUTHORIZED") ⊎ (operation.stage ≡ "FAILED")
  pub event : operation.event_id ≡ intent.event_id
  pub tool : operation.tool_name ≡ intent.operation_type
  pub reservation_event :
      (reservation.event_id ≡ none) ⊎ (reservation.event_id ≡ some intent.event_id)

module _ (p : AmbiguousInput) (as_of : ℕ) (rows : List Reservation) where
  -- What is left to hold once the reservation, the intent and the operation are read.
  abbrev pub ReservationOk : Reservation → Type 0
  ReservationOk r =
      (r.status ≡ reserved) × (r.owner_id ≡ p.expected_owner_id) × (r.version ≡ p.expected_version)

  abbrev pub OperationOk : Reservation → ProviderIntentRecord → ToolOperation → Type 0
  OperationOk r i o =
      ((o.stage ≡ "AUTHORIZED") ⊎ (o.stage ≡ "FAILED"))
      × (o.event_id ≡ i.event_id)
      × (o.tool_name ≡ i.operation_type)
      × ((r.event_id ≡ none) ⊎ (r.event_id ≡ some i.event_id))

  pub same_event :
      (e : Option String) (event : String)
      → (is_same_event e event ≡ true) ↔ ((e ≡ none) ⊎ (e ≡ some event))
  unfolding is_same_event
  same_event none event = (λ h. inl refl, λ h. refl)
  same_event (some e) event =
      (λ h. inr (ap some ((str_eq_iff e event).0 h)), λ h. ground (arith, str_eq_refl event))

  stage_ok :
      (s : String)
      → (str_eq s "AUTHORIZED" || str_eq s "FAILED") ≡ true
      → (s ≡ "AUTHORIZED") ⊎ (s ≡ "FAILED")
  stage_ok s h = elim (Bool-cases (str_eq s "AUTHORIZED")) [
    | inl e ↦ inl ((str_eq_iff s "AUTHORIZED").0 e)
    | inr e ↦ inr ((str_eq_iff s "FAILED").0 (ground arith))
  ]

  pub operation-ok :
      (r : Reservation) (i : ProviderIntentRecord) (o : ToolOperation)
      → (check_operation p as_of r i (some o) rows).2 ≡ settled_as p.settlement
      → OperationOk r i o
  unfolding check_operation write_ambiguous
  operation-ok r i o h = (
    stage_ok o.stage (ground arith),
    (str_eq_iff o.event_id i.event_id).0 (ground arith),
    (str_eq_iff o.tool_name i.operation_type).0 (ground arith),
    (same_event r.event_id i.event_id).0 (ground arith),
  )

  pub reservation_ok :
      (r : Reservation) (i : Option ProviderIntentRecord) (o : Option ToolOperation)
      → (check_reservation p as_of (some r) i o rows).2 ≡ settled_as p.settlement
      → ReservationOk r × ((check_outcome p as_of r i o rows).2 ≡ settled_as p.settlement)
  unfolding check_reservation
  reservation_ok r i o h = (
    (
      status_eq_sound r.status reserved (ground arith),
      (str_eq_iff r.owner_id p.expected_owner_id).0 (ground arith),
      ground arith,
    ),
    ground arith,
  )

  pub outcome_ok :
      (r : Reservation) (i : ProviderIntentRecord) (o : Option ToolOperation)
      → (check_outcome p as_of r (some i) o rows).2 ≡ settled_as p.settlement
      → (i.status ≡ required_status p.settlement)
        × ((check_operation p as_of r i o rows).2 ≡ settled_as p.settlement)
  unfolding check_outcome
  outcome_ok r i o h =
      (intent_status_eq_sound i.status (required_status p.settlement) (ground arith), ground arith)
