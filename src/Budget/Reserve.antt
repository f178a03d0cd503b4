-- ===== src/Budget/Reserve.antt =====
-- `BudgetRepository.reserveBudget`. The advisory lock serialises the competing calls of one budget
-- window, so a call is one step from the table before it to the table after it.
pub mod Errors
pub mod Ceiling
pub mod Replay
pub mod EventCap
use falseroute.Prelude.{
  ℕ, ◌+◌, String, Text, str_eq, Bool, true, false, ◌&&◌, ◌||◌, not, Option, none, some, List,
  Result, ok, err, ◌>>=◌, ◌>>◌, throw_if, ltb, leb, ◌==◌, if◌then◌else◌, get_or,
}
use falseroute.Budget.Store.{
  Category, daily_gemini_tokens, Status, reserved, consumed, Reservation, Clock, Numeric,
  amount_reserved_name, limit_name, BudgetError, idempotency_collision, validate_numeric_positive,
  category_eq, event_eq, find_unique, create, sum_committed_in_window, count_event_reservations,
}

pub record ReserveInput : Type 0 where
  pub idempotency_key : Text
  pub category : Category
  pub window_key : String
  pub amount_reserved : Numeric
  pub limit : Numeric
  pub owner_id : String
  pub ttl_ms : Option ℕ
  pub event_id : Option String

-- The texts of `reason`, by what they interpolate.
pub data Reason : Type 0 where
  has_expired : Text → ℕ → Reason
  held_by_another already_consumed : Text → Reason
  in_terminal_status : Text → Status → Reason
  event_call_limit : String → ℕ → Reason
  attempt_limit : String → ℕ → ℕ → Reason
  no_free_slot : String → ℕ → Reason
  ceiling_exceeded : Category → ℕ → ℕ → ℕ → Reason

pub data Outcome : Type 0 where
  granted : (is_duplicate : Bool) → Reservation → Outcome
  denied : (is_duplicate : Bool) → Reason → (current_committed limit : ℕ) → Outcome

-- Section 2: the answer to a call whose idempotency key has a row.
unfoldable pub answer_existing : Reservation → Text → String → ℕ → ℕ → Outcome
answer_existing r key owner limit now = elim r.status [
  | reserved ↦
      if leb r.expires_at now
      then denied true (has_expired key r.expires_at) limit limit
      else if not (str_eq r.owner_id owner)
      then denied true (held_by_another key) limit limit
      else granted true r
  | consumed ↦ denied true (already_consumed key) limit limit
  | other ↦ denied true (in_terminal_status key other) limit limit
]

-- The parameters that a replay must repeat.
unfoldable pub is_same_request : Reservation → ReserveInput → ℕ → Bool
unfolding category_eq event_eq
is_same_request r p requested =
    category_eq r.category p.category
    && (str_eq r.window_key p.window_key
        && (r.amount_reserved == requested && event_eq r.event_id p.event_id))

-- `params.eventId && params.category === 'DAILY_GEMINI_TOKENS'`, and the count of section 3.
unfoldable pub event_calls : Option String → Category → List Reservation → Option (String × ℕ)
unfolding count_event_reservations
event_calls (some e) daily_gemini_tokens rows =
    if str_eq e "" then none else some (e, count_event_reservations e daily_gemini_tokens rows)
event_calls _ _ rows = none

unfoldable pub fresh_reservation : ReserveInput → ℕ → Clock → String → Reservation
fresh_reservation p requested c id = record {
  id = id;
  idempotency_key = p.idempotency_key;
  category = p.category;
  window_key = p.window_key;
  amount_reserved = requested;
  amount_consumed = none;
  status = reserved;
  owner_id = p.owner_id;
  expires_at = c.app + get_or p.ttl_ms 60000;
  consumed_at = none;
  released_at = none;
  reconciled_at = none;
  event_id = p.event_id;
  version = 1;
  gemini_attempt_outcome = none;
}

-- Sections 4 and 5: the ceiling of the window, and the new row.
unfoldable pub reserve_within_ceiling :
    ReserveInput
    → ℕ
    → ℕ
    → Clock
    → String
    → List Reservation
    → Result BudgetError (List Reservation × Outcome)
reserve_within_ceiling p requested limit c id rows =
    let total = sum_committed_in_window p.category p.window_key c.db rows in
    let r = fresh_reservation p requested c id in
    if ltb limit (total + requested)
    then ok (rows, denied false (ceiling_exceeded p.category total requested limit) total limit)
    else (create r rows >>= λ rows'. ok (rows', granted false r))

-- Sections 3 to 5: a call whose idempotency key has no row.
unfoldable pub reserve_new :
    ReserveInput
    → ℕ
    → ℕ
    → Clock
    → String
    → List Reservation
    → Result BudgetError (List Reservation × Outcome)
reserve_new p requested limit c id rows = elim (event_calls p.event_id p.category rows) [
  | none ↦ reserve_within_ceiling p requested limit c id rows
  | some (e, n) ↦
      if leb 2 n
      then ok (rows, denied false (event_call_limit e n) limit limit)
      else reserve_within_ceiling p requested limit c id rows
]

-- Sections 2 to 5, for validated amounts.
unfoldable pub reserve_validated :
    ReserveInput
    → ℕ
    → ℕ
    → Clock
    → String
    → List Reservation
    → Result BudgetError (List Reservation × Outcome)
reserve_validated p requested limit c id rows = elim (find_unique p.idempotency_key rows) [
  | none ↦ reserve_new p requested limit c id rows
  | some r ↦
      if is_same_request r p requested
      then ok (rows, answer_existing r p.idempotency_key p.owner_id limit c.app)
      else err idempotency_collision
]

-- `id` is the identifier that the database gives to a new row.
unfoldable pub reserve_budget :
    ReserveInput
    → Clock
    → String
    → List Reservation
    → Result BudgetError (List Reservation × Outcome)
reserve_budget p c id rows = do
  requested ← validate_numeric_positive p.amount_reserved amount_reserved_name
  limit ← validate_numeric_positive p.limit limit_name
  reserve_validated p requested limit c id rows
