-- ===== src/Budget/Store.antt =====
-- The table `budget_reservation_records` and the reads that the operations of
-- packages/database/src/repositories/budget-repository.ts share. Amounts are counted in
-- ten-thousandths, the scale of the table's `Decimal(12, 4)` columns; times are milliseconds.
pub mod Sums
pub mod Keys
use falseroute.Prelude.{
  ℕ, ◌+◌, String, Text, str_eq, text_eq, Bool, true, false, ◌&&◌, ◌||◌, not, Option, none, some,
  List, [], ◌∷◌, ◌++◌, Result, ok, err, ltb, leb, ◌==◌, if◌then◌else◌, find_first, any_where,
  count_where, get_or,
}

pub data Category : Type 0 where
  daily_usd daily_gemini_tokens hourly_tool_operations : Category

pub data Status : Type 0 where
  reserved consumed released expired reconciled : Status

-- What is recorded of a reservation's own provider attempt.
pub data AttemptOutcome : Type 0 where
  dispatched pre_call_failed : AttemptOutcome

pub record Reservation : Type 0 where
  pub id : String
  pub idempotency_key : Text
  pub category : Category
  pub window_key : String
  pub amount_reserved : ℕ
  pub amount_consumed : Option ℕ
  pub status : Status
  pub owner_id : String
  pub expires_at : ℕ
  pub consumed_at : Option ℕ
  pub released_at : Option ℕ
  pub reconciled_at : Option ℕ
  pub event_id : Option String
  pub version : ℕ
  pub gemini_attempt_outcome : Option AttemptOutcome

-- The two clocks that an operation reads: `new Date()` in the process and `NOW()` in the database.
pub record Clock : Type 0 where
  pub app : ℕ
  pub db : ℕ

-- A JavaScript number that a caller hands over: `negative n` is -(n + 1) ten-thousandths.
pub data Numeric : Type 0 where
  not_finite : Numeric
  negative : ℕ → Numeric
  amount : ℕ → Numeric

pub data NumericName : Type 0 where
  amount_reserved_name limit_name amount_consumed_name : NumericName

-- The errors that the operations throw; `unique_violation` is the database's, on a second row with
-- the same idempotency key.
pub data BudgetError : Type 0 where
  not_positive not_non_negative : NumericName → BudgetError
  invalid_max_attempts idempotency_collision unique_violation : BudgetError
  reservation_not_found amount_exceeds_reserved stale_owner invalid_status : BudgetError
  stale_version fence_lost outcome_not_recorded : BudgetError

unfoldable pub validate_numeric_positive : Numeric → NumericName → Result BudgetError ℕ
validate_numeric_positive not_finite name = err (not_positive name)
validate_numeric_positive (negative n) name = err (not_positive name)
validate_numeric_positive (amount n) name = if n == 0 then err (not_positive name) else ok n

unfoldable pub validate_numeric_non_negative : Numeric → NumericName → Result BudgetError ℕ
validate_numeric_non_negative not_finite name = err (not_non_negative name)
validate_numeric_non_negative (negative n) name = err (not_non_negative name)
validate_numeric_non_negative (amount n) name = ok n

unfoldable pub category_eq : Category → Category → Bool
category_eq daily_usd daily_usd = true
category_eq daily_gemini_tokens daily_gemini_tokens = true
category_eq hourly_tool_operations hourly_tool_operations = true
category_eq _ _ = false

unfoldable pub status_eq : Status → Status → Bool
status_eq reserved reserved = true
status_eq consumed consumed = true
status_eq released released = true
status_eq expired expired = true
status_eq reconciled reconciled = true
status_eq _ _ = false

unfoldable pub event_eq : Option String → Option String → Bool
event_eq none none = true
event_eq (some a) (some b) = str_eq a b
event_eq _ _ = false

-- `ATTEMPT_COUNTING_STATUSES`, and the `status: { in: [...] }` of the two counts.
unfoldable pub is_counting : Status → Bool
is_counting reserved = true
is_counting consumed = true
is_counting reconciled = true
is_counting _ = false

abbrev pub has_key : Text → Reservation → Bool
has_key k r = text_eq r.idempotency_key k

-- `findUnique({ where: { idempotencyKey } })`.
abbrev pub find_unique : Text → List Reservation → Option Reservation
find_unique k = find_first (has_key k)

-- `create`: the idempotency key is unique in the table.
unfoldable pub create : Reservation → List Reservation → Result BudgetError (List Reservation)
create r rows =
    if any_where (has_key r.idempotency_key) rows then err unique_violation else ok (rows ++ r ∷ [])

-- The `CASE` of the sums: what a row contributes to the spend of its window at the time `t`.
unfoldable pub committed_of : Status → ℕ → Option ℕ → ℕ → ℕ → ℕ
committed_of consumed reserved_amount spent expires t = get_or spent reserved_amount
committed_of reconciled reserved_amount spent expires t = get_or spent reserved_amount
committed_of reserved reserved_amount spent expires t = if ltb t expires then reserved_amount else 0
committed_of _ reserved_amount spent expires t = 0

unfoldable pub in_window : Category → String → Reservation → Bool
unfolding category_eq
in_window c w r = category_eq r.category c && str_eq r.window_key w

unfoldable pub row_committed : Category → String → ℕ → Reservation → ℕ
unfolding committed_of
row_committed c w t r =
    if in_window c w r
    then committed_of r.status r.amount_reserved r.amount_consumed r.expires_at t
    else 0

-- `sumCommittedInWindow`: both of its sums, added.
unfoldable pub sum_committed_in_window : Category → String → ℕ → List Reservation → ℕ
sum_committed_in_window c w t [] = 0
sum_committed_in_window c w t (r ∷ rows) =
    row_committed c w t r + sum_committed_in_window c w t rows

unfoldable pub counts_for_event : String → Category → Reservation → Bool
unfolding is_counting category_eq event_eq
counts_for_event e c r =
    event_eq r.event_id (some e) && (category_eq r.category c && is_counting r.status)

-- `countEventReservations`.
unfoldable pub count_event_reservations : String → Category → List Reservation → ℕ
unfolding counts_for_event
count_event_reservations e c rows = count_where (counts_for_event e c) rows
