-- ===== src/Workflow/Operations.antt =====
-- The tables `tool_operation_ledger` and `ingestion_receipts`: `reserveToolOperation`,
-- `updateToolOperationStage` and `recordIngestionReceipt` of
-- packages/database/src/repositories/autonomous-workflow-repository.ts. A stage is its text, and the
-- hash of an input is given; `details` is left out.
use falseroute.Prelude.{
  ℕ, ◌+◌, String, Text, str_eq, Bool, true, false, not, ◌&&◌, Option, none, some, List, [], ◌∷◌,
  ◌++◌, Result, ok, err, ◌==◌, if◌then◌else◌, any_where, find_first, count_where, update_where,
  get_or,
}
use falseroute.Leases.Cleanup.{slice}

pub record ToolOperation : Type 0 where
  pub id : String
  pub idempotency_key : String
  pub event_id : String
  pub tool_name : String
  pub input_hash : String
  pub stage : String
  pub authorized : Bool
  pub policy_reason : Text
  pub provider_resource_id : Option String
  pub observed_state : Option String
  pub version : ℕ

pub record OperationInput : Type 0 where
  pub idempotency_key : String
  pub event_id : String
  pub tool_name : String
  pub input_hash : String
  pub authorized : Bool
  pub policy_reason : Text
  pub initial_stage : Option String

pub data OperationError : Type 0 where
  operation_collision stage_changed receipt_collision : OperationError

pub record OperationReservation : Type 0 where
  pub is_existing : Bool
  pub operation : ToolOperation

abbrev pub has_operation_key : String → ToolOperation → Bool
has_operation_key k o = str_eq o.idempotency_key k

abbrev pub bool_eq : Bool → Bool → Bool
bool_eq true b = b
bool_eq false b = not b

-- `id` is the database's.
abbrev pub new_operation : OperationInput → String → ToolOperation
new_operation p id = record {
  id = id;
  idempotency_key = p.idempotency_key;
  event_id = p.event_id;
  tool_name = p.tool_name;
  input_hash = p.input_hash;
  stage = get_or p.initial_stage (if p.authorized then "AUTHORIZED" else "REJECTED");
  authorized = p.authorized;
  policy_reason = slice 500 p.policy_reason;
  provider_resource_id = none;
  observed_state = none;
  version = 1;
}

-- The row that has the key already is the same request.
unfoldable pub is_same_operation : OperationInput → ToolOperation → Bool
is_same_operation p o =
    str_eq o.event_id p.event_id
    && (str_eq o.tool_name p.tool_name
        && (str_eq o.input_hash p.input_hash && bool_eq o.authorized p.authorized))

-- `create`, or on a unique violation the row that has the key.
unfoldable pub reserve_tool_operation :
    OperationInput
    → String
    → List ToolOperation
    → Result OperationError (List ToolOperation × OperationReservation)
unfolding is_same_operation slice
reserve_tool_operation p id rows = elim (find_first (has_operation_key p.idempotency_key) rows) [
  | none ↦ ok (
    rows ++ new_operation p id ∷ [],
    record { is_existing = false; operation = new_operation p id },
  )
  | some o ↦
      if is_same_operation p o
      then ok (rows, record { is_existing = true; operation = o })
      else err operation_collision
]

pub record StageInput : Type 0 where
  pub idempotency_key : String
  pub stage : String
  pub expected_prior_stages : Option (List String)
  pub provider_resource_id : Option String
  pub observed_state : Option String

abbrev pub is_expected_stage : Option (List String) → String → Bool
is_expected_stage none stage = true
is_expected_stage (some stages) stage = any_where (λ s. str_eq s stage) stages

abbrev or_kept : Option String → Option String → Option String
or_kept none old = old
or_kept (some new) old = some new

abbrev pub staged_operation : StageInput → ToolOperation → ToolOperation
staged_operation p o = record o {
  stage = p.stage;
  provider_resource_id = or_kept p.provider_resource_id o.provider_resource_id;
  observed_state = or_kept p.observed_state o.observed_state;
  version = o.version + 1;
}

unfoldable pub update_tool_operation_stage :
    StageInput → List ToolOperation → Result OperationError (List ToolOperation)
update_tool_operation_stage p rows =
    let w : ToolOperation → Bool = λ o.
      has_operation_key p.idempotency_key o && is_expected_stage p.expected_prior_stages o.stage in
    if count_where w rows == 1
    then ok (update_where w (staged_operation p) rows)
    else err stage_changed

pub record Receipt : Type 0 where
  pub id : String
  pub event_id : String
  pub transport_id : String
  pub source : String
  pub received_at : ℕ
  pub status : String

pub record ReceiptInput : Type 0 where
  pub event_id : String
  pub transport_id : String
  pub source : String
  pub status : Option String

abbrev pub is_receipt_of : ReceiptInput → Receipt → Bool
is_receipt_of p r = str_eq r.event_id p.event_id && str_eq r.transport_id p.transport_id

abbrev pub new_receipt : ReceiptInput → ℕ → String → Receipt
new_receipt p now id = record {
  id = id;
  event_id = p.event_id;
  transport_id = p.transport_id;
  source = p.source;
  received_at = now;
  status = get_or p.status "ACCEPTED";
}

-- The table, whether the receipt is a duplicate, and the receipt.
unfoldable pub record_ingestion_receipt :
    ReceiptInput → ℕ → String → List Receipt → Result OperationError (List Receipt × Bool × Receipt)
record_ingestion_receipt p now id rows = elim (find_first (is_receipt_of p) rows) [
  | none ↦ ok (rows ++ new_receipt p now id ∷ [], false, new_receipt p now id)
  | some r ↦ if str_eq r.source p.source then ok (rows, true, r) else err receipt_collision
]
