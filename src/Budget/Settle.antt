-- ===== src/Budget/Settle.antt =====
-- `consumeBudget`, `releaseBudget`, `reconcileBudgetReservation` and `recordGeminiAttemptOutcome` of
-- the budget repository. The first three read the row, check it, and then write by an `updateMany`
-- whose `where` repeats the version that was read; between the two another call may change the
-- table, so each is a read and a write, and the whole operation is their composition.
mod Write
pub mod Fence
pub mod Spend
use falseroute.Prelude.{
  ℕ, ◌+◌, String, Text, str_eq, Bool, true, ◌&&◌, not, Option, none, some, List, Result, ok, err,
  ◌>>=◌, ◌>>◌, throw_if, or_throw, ltb, ◌==◌, if◌then◌else◌, get_or, count_where, update_where,
}
use falseroute.Budget.Store.{
  Status, reserved, consumed, released, reconciled, AttemptOutcome, Reservation, Numeric,
  amount_consumed_name, BudgetError, reservation_not_found, amount_exceeds_reserved, stale_owner,
  invalid_status, stale_version, fence_lost, outcome_not_recorded, validate_numeric_non_negative,
  status_eq, has_key, find_unique,
}

pub record SettleInput : Type 0 where
  pub idempotency_key : Text
  pub owner_id : String
  pub expected_version : Option ℕ
  pub expected_status : Option Status

-- An `updateMany` that must change exactly one row.
unfoldable pub update_one :
    (Reservation → Bool)
    → (Reservation → Reservation)
    → BudgetError
    → List Reservation
    → Result BudgetError (List Reservation)
update_one w f e rows = if count_where w rows == 1 then ok (update_where w f rows) else err e

abbrev pub is_version : Option ℕ → Reservation → Bool
is_version none r = true
is_version (some v) r = r.version == v

abbrev pub reread : Text → List Reservation → Result BudgetError (List Reservation × Reservation)
reread k rows = or_throw (find_unique k rows) reservation_not_found >>= λ r. ok (rows, r)

-- The checks that `consumeBudget` and `releaseBudget` make on the row that was read.
unfoldable pub check_settle : SettleInput → Reservation → Result BudgetError Reservation
unfolding status_eq
check_settle p r = do
  throw_if (not (str_eq r.owner_id p.owner_id)) stale_owner
  throw_if (not (status_eq r.status (get_or p.expected_status reserved))) invalid_status
  throw_if (not (is_version p.expected_version r)) stale_version
  ok r

-- The `where` of their writes: `version` is that of the row that was read.
abbrev pub settle_where : SettleInput → ℕ → Reservation → Bool
settle_where p version r =
    has_key p.idempotency_key r
    && (str_eq r.owner_id p.owner_id
        && (status_eq r.status (get_or p.expected_status reserved) && r.version == version))

unfoldable pub consume_read : SettleInput → ℕ → List Reservation → Result BudgetError Reservation
consume_read p amount rows = do
  r ← or_throw (find_unique p.idempotency_key rows) reservation_not_found
  throw_if (ltb r.amount_reserved amount) amount_exceeds_reserved
  check_settle p r

abbrev pub consume_row : ℕ → ℕ → Reservation → Reservation
consume_row amount now r = record r {
  status = consumed;
  amount_consumed = some amount;
  consumed_at = some now;
  version = r.version + 1;
}

unfoldable pub consume_write :
    SettleInput → ℕ → ℕ → ℕ → List Reservation → Result BudgetError (List Reservation × Reservation)
unfolding update_one
consume_write p amount version now rows = do
  rows' ← update_one (settle_where p version) (consume_row amount now) fence_lost rows
  reread p.idempotency_key rows'

unfoldable pub consume_budget :
    SettleInput
    → Numeric
    → ℕ
    → List Reservation
    → Result BudgetError (List Reservation × Reservation)
consume_budget p n now rows = do
  amount ← validate_numeric_non_negative n amount_consumed_name
  r ← consume_read p amount rows
  consume_write p amount r.version now rows

unfoldable pub release_read : SettleInput → List Reservation → Result BudgetError Reservation
release_read p rows = do
  r ← or_throw (find_unique p.idempotency_key rows) reservation_not_found
  check_settle p r

abbrev pub release_row : ℕ → Reservation → Reservation
release_row now r = record r { status = released; released_at = some now; version = r.version + 1 }

unfoldable pub release_write :
    SettleInput → ℕ → ℕ → List Reservation → Result BudgetError (List Reservation × Reservation)
unfolding update_one
release_write p version now rows = do
  rows' ← update_one (settle_where p version) (release_row now) fence_lost rows
  reread p.idempotency_key rows'

unfoldable pub release_budget :
    SettleInput → ℕ → List Reservation → Result BudgetError (List Reservation × Reservation)
release_budget p now rows = do r ← release_read p rows; release_write p r.version now rows

-- Reconciliation asks neither for the owner nor for a status.
unfoldable pub reconcile_read :
    Text → ℕ → Option ℕ → List Reservation → Result BudgetError Reservation
reconcile_read k amount expected rows = do
  r ← or_throw (find_unique k rows) reservation_not_found
  throw_if (ltb r.amount_reserved amount) amount_exceeds_reserved
  throw_if (not (is_version expected r)) stale_version
  ok r

abbrev pub reconcile_row : ℕ → ℕ → Reservation → Reservation
reconcile_row amount as_of r = record r {
  status = reconciled;
  amount_consumed = some amount;
  reconciled_at = some as_of;
  version = r.version + 1;
}

unfoldable pub reconcile_write :
    Text → ℕ → ℕ → ℕ → List Reservation → Result BudgetError (List Reservation × Reservation)
unfolding update_one
reconcile_write k amount version as_of rows = do
  rows' ←
      update_one (λ r. has_key k r && r.version == version) (reconcile_row amount as_of) fence_lost
        rows
  reread k rows'

unfoldable pub reconcile_budget_reservation :
    Text
    → Numeric
    → Option ℕ
    → ℕ
    → List Reservation
    → Result BudgetError (List Reservation × Reservation)
reconcile_budget_reservation k n expected as_of rows = do
  amount ← validate_numeric_non_negative n amount_consumed_name
  r ← reconcile_read k amount expected rows
  reconcile_write k amount r.version as_of rows

abbrev pub record_row : AttemptOutcome → Reservation → Reservation
record_row o r = record r { gemini_attempt_outcome = some o }

-- `expected_status` of the input is not read: the row must be reserved.
unfoldable pub record_gemini_attempt_outcome :
    SettleInput → AttemptOutcome → List Reservation → Result BudgetError (List Reservation)
unfolding update_one
record_gemini_attempt_outcome p o rows =
    update_one
      (λ r.
        has_key p.idempotency_key r
        && (str_eq r.owner_id p.owner_id
            && (status_eq r.status reserved && is_version p.expected_version r)))
      (record_row o) outcome_not_recorded rows
