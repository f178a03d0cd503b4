-- ===== src/Workflow/Ambiguous.antt =====
-- `settleAmbiguousToolReservation` of
-- packages/database/src/repositories/autonomous-workflow-repository.ts, on the tables of reservations,
-- provider intents and tool operations. Its reads and its update are one transaction.
pub mod Conditions
pub mod Exact
use falseroute.Prelude.{
  ℕ, ◌+◌, String, Text, codes, str_eq, text_eq, Bool, true, false, not, ◌&&◌, ◌||◌, Option, none,
  some, List, [], ◌∷◌, ◌++◌, ◌==◌, if◌then◌else◌, find_first, count_where, update_where,
}
use falseroute.Budget.Store.{
  Reservation, Status, reserved, consumed, reconciled, released, expired, status_eq, has_key,
  find_unique,
}
use falseroute.Workflow.Intents.{
  ProviderIntentRecord, IntentStatus, executed, failed, intent_status_eq, has_intent_key,
}
use falseroute.Workflow.Operations.{ToolOperation, has_operation_key}

pub record WorkflowTables : Type 0 where
  pub reservations : List Reservation
  pub intents : List ProviderIntentRecord
  pub operations : List ToolOperation

pub data AmbiguousSettlement : Type 0 where
  reconcile release : AmbiguousSettlement

pub record AmbiguousInput : Type 0 where
  pub reservation_key : Text
  pub tool_operation_key : String
  pub provider_intent_key : String
  pub expected_owner_id : String
  pub expected_version : ℕ
  pub settlement : AmbiguousSettlement

pub data AmbiguousReason : Type 0 where
  provider_intent_identity_mismatch reservation_not_found already_settled : AmbiguousReason
  reservation_status : Status → AmbiguousReason
  stale_reservation_owner stale_reservation_version : AmbiguousReason
  provider_intent_not : IntentStatus → AmbiguousReason
  tool_operation_not_found : AmbiguousReason
  tool_operation_not_ambiguous : (stage : String) → AmbiguousReason
  concurrent_modification : AmbiguousReason
  settled_as : AmbiguousSettlement → AmbiguousReason

-- The table of reservations, whether the reservation is settled, and the reason.
abbrev pub Settling : Type 0
Settling = List Reservation × Bool × AmbiguousReason

-- `budget:tool:<key>` and `budget:usd:<key>`.
unfoldable pub is_own_key : Text → String → Bool
is_own_key k operation =
    text_eq k (codes "budget:tool:" ++ codes operation)
    || text_eq k (codes "budget:usd:" ++ codes operation)

abbrev pub required_status : AmbiguousSettlement → IntentStatus
required_status reconcile = executed
required_status release = failed

abbrev pub settled_reservation : AmbiguousSettlement → ℕ → Reservation → Reservation
settled_reservation reconcile as_of r = record r {
  status = reconciled;
  amount_consumed = some r.amount_reserved;
  reconciled_at = some as_of;
  version = r.version + 1;
}
settled_reservation release as_of r = record r {
  status = released;
  released_at = some as_of;
  version = r.version + 1;
}

-- The `where` of the update.
unfoldable pub ambiguous_where : AmbiguousInput → Reservation → Bool
unfolding status_eq
ambiguous_where p r =
    has_key p.reservation_key r
    && (str_eq r.owner_id p.expected_owner_id
        && (status_eq r.status reserved && r.version == p.expected_version))

unfoldable pub is_same_event : Option String → String → Bool
is_same_event none event = true
is_same_event (some e) event = str_eq e event

-- The update, after all reads.
unfoldable pub write_ambiguous : AmbiguousInput → ℕ → List Reservation → Settling
unfolding ambiguous_where
write_ambiguous p as_of rows =
    if count_where (ambiguous_where p) rows == 1
    then (
      update_where (ambiguous_where p) (settled_reservation p.settlement as_of) rows,
      true,
      settled_as p.settlement,
    )
    else (rows, false, concurrent_modification)

-- The tests on the tool operation that was read.
unfoldable pub check_operation :
    AmbiguousInput
    → ℕ
    → Reservation
    → ProviderIntentRecord
    → Option ToolOperation
    → List Reservation
    → Settling
unfolding write_ambiguous is_same_event
check_operation p as_of r i none rows = (rows, false, tool_operation_not_found)
check_operation p as_of r i (some o) rows =
    if not (str_eq o.stage "AUTHORIZED") && not (str_eq o.stage "FAILED")
    then (rows, false, tool_operation_not_ambiguous o.stage)
    else if not (str_eq o.event_id i.event_id)
        || (not (str_eq o.tool_name i.operation_type) || not (is_same_event r.event_id i.event_id))
    then (rows, false, provider_intent_identity_mismatch)
    else write_ambiguous p as_of rows

-- The tests on the provider intent that was read.
unfoldable pub check_outcome :
    AmbiguousInput
    → ℕ
    → Reservation
    → Option ProviderIntentRecord
    → Option ToolOperation
    → List Reservation
    → Settling
unfolding check_operation intent_status_eq
check_outcome p as_of r none o rows =
    (rows, false, provider_intent_not (required_status p.settlement))
check_outcome p as_of r (some i) o rows =
    if not (intent_status_eq i.status (required_status p.settlement))
    then (rows, false, provider_intent_not (required_status p.settlement))
    else check_operation p as_of r i o rows

-- The tests on the reservation that was read.
unfoldable pub check_reservation :
    AmbiguousInput
    → ℕ
    → Option Reservation
    → Option ProviderIntentRecord
    → Option ToolOperation
    → List Reservation
    → Settling
unfolding check_outcome status_eq
check_reservation p as_of none i o rows = (rows, false, reservation_not_found)
check_reservation p as_of (some r) i o rows =
    if status_eq r.status consumed || status_eq r.status reconciled
    then (rows, true, already_settled)
    else if not (status_eq r.status reserved)
    then (rows, false, reservation_status r.status)
    else if not (str_eq r.owner_id p.expected_owner_id)
    then (rows, false, stale_reservation_owner)
    else if not (r.version == p.expected_version)
    then (rows, false, stale_reservation_version)
    else check_outcome p as_of r i o rows

unfoldable pub settle_ambiguous_tool_reservation : AmbiguousInput → ℕ → WorkflowTables → Settling
unfolding is_own_key check_reservation
settle_ambiguous_tool_reservation p as_of t =
    if not (str_eq p.provider_intent_key p.tool_operation_key)
      || not (is_own_key p.reservation_key p.tool_operation_key)
    then (t.reservations, false, provider_intent_identity_mismatch)
    else check_reservation p as_of (find_unique p.reservation_key t.reservations)
        (find_first (has_intent_key p.provider_intent_key) t.intents)
        (find_first (has_operation_key p.tool_operation_key) t.operations) t.reservations
