-- ===== src/Budget/Expiry.antt =====
-- `reconcileExpiredReservations` and `getBudgetStatus` of the budget repository. The reconciliation
-- reads the expired reservations once and then updates each of them by its identifier and version;
-- the provider intents and the deception decisions are those of the moment.
pub mod Reconcile
pub mod Report
use falseroute.Prelude.{
  ℕ, suc, ◌+◌, ◌-◌, String, str_eq, Bool, true, false, ◌&&◌, ◌||◌, not, Option, none, some, List,
  [], ◌∷◌, Result, ok, err, ◌>>=◌, leb, ltb, ◌==◌, if◌then◌else◌, length, any_where, all_where,
  filter_where, count_where, update_where, get_or,
}
use falseroute.Budget.Store.{
  Category, daily_gemini_tokens, Status, reserved, consumed, reconciled, expired, AttemptOutcome,
  pre_call_failed, dispatched, Reservation, Numeric, limit_name, BudgetError,
  validate_numeric_positive, status_eq, in_window,
}

-- A row of `provider_intent_records`, as far as it is read here.
pub record ProviderIntent : Type 0 where
  pub event_id : String
  pub status : String

-- The tables besides the reservations; `decisions` holds the events that have a deception decision.
pub record Evidence : Type 0 where
  pub intents : List ProviderIntent
  pub decisions : List String

unfoldable pub is_pre_call_failed : Option AttemptOutcome → Bool
is_pre_call_failed (some pre_call_failed) = true
is_pre_call_failed _ = false

-- The branch for a record with an event that is not of the Gemini category.
unfoldable pub event_was_not_executed : Evidence → String → Bool
event_was_not_executed ev e =
    let intents = filter_where (λ i. str_eq i.event_id e) ev.intents in
    let executed =
      any_where (λ i. str_eq i.status "EXECUTED" || str_eq i.status "CLAIMED") intents in
    let all_failed = all_where (λ i. str_eq i.status "FAILED") intents in
    if not executed && (ltb 0 (length intents) && all_failed)
    then true
    else if length intents == 0
    then not (any_where (λ d. str_eq d e) ev.decisions)
    else false

-- The branches for the other categories: `else if (record.eventId)`.
unfoldable pub should_expire_event : Evidence → Option String → Bool
should_expire_event ev none = true
should_expire_event ev (some e) = if str_eq e "" then true else event_was_not_executed ev e

unfoldable pub should_expire_of : Evidence → Category → Option AttemptOutcome → Option String → Bool
unfolding is_pre_call_failed
should_expire_of ev daily_gemini_tokens o e = is_pre_call_failed o
should_expire_of ev _ o e = should_expire_event ev e

unfoldable pub should_expire : Evidence → Reservation → Bool
should_expire ev r = should_expire_of ev r.category r.gemini_attempt_outcome r.event_id

abbrev pub is_expired : ℕ → Reservation → Bool
is_expired as_of r = status_eq r.status reserved && leb r.expires_at as_of

-- The `where` of the updates: the record as it was read.
abbrev pub is_record : Reservation → Reservation → Bool
is_record record_read r =
    str_eq r.id record_read.id && (r.version == record_read.version && status_eq r.status reserved)

abbrev pub expire_row : ℕ → Reservation → Reservation
expire_row as_of r = record r {
  status = expired;
  reconciled_at = some as_of;
  version = r.version + 1;
}

abbrev pub retain_row : ℕ → ℕ → Reservation → Reservation
retain_row as_of spent r = record r {
  status = reconciled;
  amount_consumed = some spent;
  reconciled_at = some as_of;
  version = r.version + 1;
}

-- What is written for a record that was read.
unfoldable pub expiry_row : ℕ → Evidence → Reservation → Reservation → Reservation
expiry_row as_of ev record_read r =
    if should_expire ev record_read
    then expire_row as_of r
    else retain_row as_of record_read.amount_reserved r

-- The updates, one after the other, and the sum of their counts.
unfoldable pub reconcile_each :
    ℕ → Evidence → List Reservation → List Reservation → List Reservation × ℕ
reconcile_each as_of ev [] rows = (rows, 0)
reconcile_each as_of ev (d ∷ ds) rows =
    let (rows', n) =
      reconcile_each as_of ev ds (update_where (is_record d) (expiry_row as_of ev d) rows) in
    (rows', count_where (is_record d) rows + n)

unfoldable pub reconcile_expired_reservations :
    ℕ → Evidence → List Reservation → List Reservation × ℕ
reconcile_expired_reservations as_of ev rows =
    reconcile_each as_of ev (filter_where (is_expired as_of) rows) rows

pub record BudgetStatus : Type 0 where
  pub limit : ℕ
  pub total_consumed : ℕ
  pub total_active_reserved : ℕ
  pub total_committed : ℕ
  pub remaining_available : ℕ
  pub is_exceeded : Bool

-- The two sums of the query.
unfoldable pub consumed_of : Status → ℕ → Option ℕ → ℕ
consumed_of consumed amount spent = get_or spent amount
consumed_of reconciled amount spent = get_or spent amount
consumed_of _ amount spent = 0

unfoldable pub active_of : Status → ℕ → ℕ → ℕ → ℕ
active_of reserved amount expires t = if ltb t expires then amount else 0
active_of _ amount expires t = 0

unfoldable pub sum_consumed : Category → String → List Reservation → ℕ
unfolding consumed_of
sum_consumed c w [] = 0
sum_consumed c w (r ∷ rows) =
    (if in_window c w r then consumed_of r.status r.amount_reserved r.amount_consumed else 0)
    + sum_consumed c w rows

unfoldable pub sum_active : Category → String → ℕ → List Reservation → ℕ
unfolding active_of
sum_active c w t [] = 0
sum_active c w t (r ∷ rows) =
    (if in_window c w r then active_of r.status r.amount_reserved r.expires_at t else 0)
    + sum_active c w t rows

-- `Math.max(0, limit - total)` is the truncated difference.
unfoldable pub get_budget_status :
    Category → String → Numeric → ℕ → List Reservation → Result BudgetError BudgetStatus
unfolding validate_numeric_positive sum_consumed sum_active
get_budget_status c w l as_of rows = do
  limit ← validate_numeric_positive l limit_name
  let spent = sum_consumed c w rows
  let active = sum_active c w as_of rows
  ok (record {
    limit = limit;
    total_consumed = spent;
    total_active_reserved = active;
    total_committed = spent + active;
    remaining_available = limit - (spent + active);
    is_exceeded = leb limit (spent + active);
  })
