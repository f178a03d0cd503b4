-- ===== src/Gemini/Gate.antt =====
-- `DurableAttemptGate` and `GeminiBudgetService.executeWithBudget` of
-- apps/worker/src/services/gemini-budget-service.ts, over the operations of the budget table. The calls
-- of one gate follow one another with no other writer between them. `execute` is given by
-- the calls of `beginAttempt` that it makes, whatever they answer, and by its end.
pub mod Grows
mod Slots
pub mod Ceiling
use falseroute.Prelude.{
  ℕ, zero, suc, ◌+◌, ◌-◌, String, Text, codes, Bool, true, false, not, ◌&&◌, ◌||◌, Option, none,
  some, List, [], ◌∷◌, ◌++◌, Result, ok, err, ltb, leb, ◌==◌, if◌then◌else◌, min,
}
use falseroute.Budget.Store.{
  daily_gemini_tokens, Reservation, Clock, Numeric, not_finite, negative, amount, BudgetError,
  AttemptOutcome, dispatched, pre_call_failed,
}
use falseroute.Budget.Reserve.{Reason}
use falseroute.Budget.Slot.{
  SlotInput, SlotOutcome, slot_granted, slot_denied, ParsedInt, acquire_event_attempt_slot,
}
use falseroute.Budget.Settle.{
  SettleInput, consume_budget, release_budget, record_gemini_attempt_outcome,
}

pub record GateConfig : Type 0 where
  pub event_id : String
  pub window_key : String
  pub amount_per_attempt : Numeric
  pub daily_token_limit : Numeric
  pub max_calls_per_event : ℕ

pub record GeminiAttempt : Type 0 where
  pub attempt_number : ParsedInt
  pub claim_token : String

pub record OpenAttempt : Type 0 where
  pub attempt_number : ParsedInt
  pub idempotency_key : Text
  pub owner_id : String
  pub amount_reserved : ℕ
  pub version : ℕ

pub record Gate : Type 0 where
  pub opened : Option OpenAttempt
  pub primed : Option GeminiAttempt

pub data GateError : Type 0 where
  budget_error : BudgetError → GateError
  ceiling_exceeded : Reason → GateError
  invalid_attempt_number : GateError
  execute_failed : GateError

-- One `beginAttempt`: the owner that `randomUUID` gives, the clocks, and the identifier of a new row.
pub record Call : Type 0 where
  pub owner : String
  pub clock : Clock
  pub id : String

-- What a call leaves, and its answer.
pub record Called : Type 0 where
  pub gate : Gate
  pub rows : List Reservation
  pub answer : Result GateError GeminiAttempt

pub record UsageMetadata : Type 0 where
  pub prompt_token_count : Option Numeric
  pub candidates_token_count : Option Numeric

-- `Math.min(a - b, limit)`.
unfoldable pub min_difference : (a b limit : ℕ) → Numeric
min_difference a b limit = if ltb a b then negative (b - a - 1) else amount (min (a - b) limit)

unfoldable pub clamp_known : ℕ → Option Numeric → (max_tokens : ℕ) → Numeric
unfolding min_difference
clamp_known p (some (amount c)) max_tokens = amount (min (p + c) max_tokens)
clamp_known p (some (negative n)) max_tokens = min_difference p (n + 1) max_tokens
clamp_known p _ max_tokens = amount (min p max_tokens)

unfoldable pub clamp_tokens : Option UsageMetadata → (max_tokens : ℕ) → Numeric
unfolding clamp_known
clamp_tokens none max_tokens = amount max_tokens
clamp_tokens (some u) max_tokens = elim u.prompt_token_count [
  | some (amount p) ↦
      if p == 0 then amount max_tokens else clamp_known p u.candidates_token_count max_tokens
  | _ ↦ amount max_tokens
]

abbrev pub slot_input : GateConfig → String → SlotInput
slot_input cfg owner = record {
  event_id = cfg.event_id;
  category = daily_gemini_tokens;
  window_key = cfg.window_key;
  amount_reserved = cfg.amount_per_attempt;
  limit = cfg.daily_token_limit;
  owner_id = owner;
  max_attempts = cfg.max_calls_per_event;
  key_prefix = codes "gemini-tokens:" ++ codes cfg.event_id;
  ttl_ms = some 60000;
}

abbrev pub open_of : ParsedInt → Reservation → OpenAttempt
open_of n r = record {
  attempt_number = n;
  idempotency_key = r.idempotency_key;
  owner_id = r.owner_id;
  amount_reserved = r.amount_reserved;
  version = r.version;
}

abbrev pub input_of : OpenAttempt → SettleInput
input_of o = record {
  idempotency_key = o.idempotency_key;
  owner_id = o.owner_id;
  expected_version = some o.version;
  expected_status = none;
}

-- The marker of a dispatch, after the slot was granted.
unfoldable pub mark_dispatched : ParsedInt → Reservation → Gate → List Reservation → Called
mark_dispatched n r g rows =
    elim (record_gemini_attempt_outcome (input_of (open_of n r)) dispatched rows) [
      | err e ↦ record { gate = g; rows = rows; answer = err (budget_error e) }
      | ok rows' ↦ record {
        gate = g;
        rows = rows';
        answer = ok (record { attempt_number = n; claim_token = r.owner_id });
      }
    ]

-- What follows the answer of the repository.
unfoldable pub answer_slot : Gate → List Reservation → SlotOutcome → Called
unfolding mark_dispatched
answer_slot g rows (slot_denied reason total limit) = record {
  gate = g;
  rows = rows;
  answer = err (ceiling_exceeded reason);
}
answer_slot g rows (slot_granted duplicate n r) =
    mark_dispatched n r (record g { opened = some (open_of n r) }) rows

unfoldable pub acquire_attempt : GateConfig → Call → Gate → List Reservation → Called
unfolding answer_slot
acquire_attempt cfg call g rows =
    elim (acquire_event_attempt_slot (slot_input cfg call.owner) call.clock call.id rows) [
      | err e ↦ record { gate = g; rows = rows; answer = err (budget_error e) }
      | ok (rows', o) ↦ answer_slot g rows' o
    ]

-- A settlement that fails leaves the reservation as it is.
unfoldable pub settle : Option UsageMetadata → ℕ → Gate → List Reservation → Gate × List Reservation
unfolding clamp_tokens
settle usage now g rows = elim g.opened [
  | none ↦ (g, rows)
  | some o ↦ (
    record { opened = none; primed = none },
    elim (consume_budget (input_of o) (clamp_tokens usage o.amount_reserved) now rows) [
      | err e ↦ rows
      | ok (rows', r) ↦ rows'
    ],
  )
]

unfoldable pub begin_attempt : GateConfig → Call → Gate → List Reservation → Called
unfolding acquire_attempt settle
begin_attempt cfg call g rows = elim g.primed [
  | some a ↦ record { gate = record g { primed = none }; rows = rows; answer = ok a }
  | none ↦
      let (settled, rows') = settle none call.clock.app g rows in
      acquire_attempt cfg call settled rows'
]

-- The release of a call that failed before its dispatch: the table, and the error that it throws.
unfoldable pub release_verified_pre_call :
    ℕ → Gate → List Reservation → List Reservation × Option GateError
release_verified_pre_call now g rows = elim g.opened [
  | none ↦ (rows, none)
  | some o ↦ elim (record_gemini_attempt_outcome (input_of o) pre_call_failed rows) [
    | err e ↦ (rows, some (budget_error e))
    | ok marked ↦ elim (release_budget (input_of o) now marked) [
      | err e ↦ (marked, none)
      | ok (released_rows, r) ↦ (released_rows, none)
    ]
  ]
]

abbrev pub is_granted : Called → ℕ
is_granted c = elim c.answer [ ok a ↦ 1 | err e ↦ 0 ]

-- The calls of `execute`: the gate and the table after them, and how many were granted.
pub record Run : Type 0 where
  pub gate : Gate
  pub rows : List Reservation
  pub granted : ℕ

unfoldable pub run_calls : GateConfig → List Call → Gate → List Reservation → Run
run_calls cfg [] g rows = record { gate = g; rows = rows; granted = 0 }
run_calls cfg (call ∷ calls) g rows =
    let c = begin_attempt cfg call g rows in
    let rest = run_calls cfg calls c.gate c.rows in
    record rest { granted = is_granted c + rest.granted }

pub data Execution : Type 0 where
  returned : Option UsageMetadata → Execution
  thrown : (is_pre_call_error : Bool) → Execution

pub data AttemptArgument : Type 0 where
  absent not_integer : AttemptArgument
  integer : ℕ → AttemptArgument

unfoldable pub is_valid_attempt : GateConfig → AttemptArgument → Bool
is_valid_attempt cfg absent = true
is_valid_attempt cfg not_integer = false
is_valid_attempt cfg (integer n) = leb 1 n && leb n cfg.max_calls_per_event

-- What is left of one run: the table, the error that it throws, and how many dispatches it authorised.
pub record Executed : Type 0 where
  pub rows : List Reservation
  pub error : Option GateError
  pub dispatches : ℕ

-- The end of a run, at the time of its last operation.
unfoldable pub finish_execution : Execution → ℕ → Run → Executed
unfolding settle release_verified_pre_call
finish_execution (returned usage) now run = record {
  rows = (settle usage now run.gate run.rows).1;
  error = none;
  dispatches = run.granted;
}
finish_execution (thrown false) now run = record {
  rows = run.rows;
  error = some execute_failed;
  dispatches = run.granted;
}
finish_execution (thrown true) now run =
    let (rows, error) = release_verified_pre_call now run.gate run.rows in
    record {
      rows = rows;
      error = elim error [ none ↦ some execute_failed | some e ↦ some e ];
      dispatches = run.granted;
    }

-- What follows the priming of the gate.
unfoldable pub after_prime : GateConfig → List Call → Execution → ℕ → Called → Executed
unfolding run_calls finish_execution
after_prime cfg calls execution now c = elim c.answer [
  | err e ↦ record { rows = c.rows; error = some e; dispatches = 0 }
  | ok a ↦
      finish_execution execution now
        (run_calls cfg calls (record c.gate { primed = some a }) c.rows)
]

unfoldable pub execute_with_budget :
    GateConfig
    → AttemptArgument
    → (prime : Call) → List Call
    → Execution
    → ℕ
    → List Reservation
    → Executed
unfolding is_valid_attempt acquire_attempt after_prime
execute_with_budget cfg argument prime calls execution now rows =
    if not (is_valid_attempt cfg argument)
    then record { rows = rows; error = some invalid_attempt_number; dispatches = 0 }
    else after_prime cfg calls execution now
        (acquire_attempt cfg prime (record { opened = none; primed = none }) rows)
