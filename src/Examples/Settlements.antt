-- ===== src/Examples/Settlements.antt =====
-- Runs of the settlements, the expiry and the report of
-- packages/database/src/repositories/budget-repository.ts.
use falseroute.Prelude.{
  ℕ, ◌≤◌, ◌<◌, ◌≡◌, refl, ◌↔◌, String, codes, text_eq, true, false, none, some, List, [], ◌∷◌, ok,
  err, arith, any_where, if◌then◌else◌,
}
use falseroute.Budget.Store.{
  Category, daily_usd, daily_gemini_tokens, reserved, Reservation, Clock, amount,
  validate_numeric_positive, validate_numeric_non_negative, category_eq, status_eq, find_unique,
  committed_of, in_window, row_committed, sum_committed_in_window, fence_lost,
}
use falseroute.Budget.Store.Keys.{UniqueKeys}
use falseroute.Budget.Reserve.{ReserveInput, reserve_within_ceiling}
use falseroute.Budget.Settle.{
  SettleInput, update_one, check_settle, consume_read, consume_row, consume_write, consume_budget,
}
use falseroute.Budget.Settle.Spend.{
  Settled, consume_budget-Settled, consume_budget-no_overspend, consume_budget-overshoot,
}
use falseroute.Budget.Settle.Fence.{consumes, releases, run_write, settle_once}
use falseroute.Budget.Expiry.{
  Evidence, is_pre_call_failed, is_expired, expire_row, retain_row, reconcile_expired_reservations,
  BudgetStatus, consumed_of, active_of, sum_consumed, sum_active, get_budget_status,
}
use falseroute.Budget.Expiry.Reconcile.{
  UniqueIds, reconcile_expired-settled, reconcile_expired-gemini,
}
use falseroute.Budget.Expiry.Report.{is_ceiling_denial, get_budget_status-agrees}

-- A reserved row, which expires at the time 500.
abbrev reserved_row : Category → String → Reservation
reserved_row c k = record {
  id = k;
  idempotency_key = codes k;
  category = c;
  window_key = "2026-07-30";
  amount_reserved = 10000;
  amount_consumed = none;
  status = reserved;
  owner_id = "worker-1";
  expires_at = 500;
  consumed_at = none;
  released_at = none;
  reconciled_at = none;
  event_id = none;
  version = 1;
  gemini_attempt_outcome = none;
}

abbrev settle_input : SettleInput
settle_input = record {
  idempotency_key = codes "k1";
  owner_id = "worker-1";
  expected_version = some 1;
  expected_status = none;
}

abbrev row : Reservation
row = reserved_row daily_usd "k1"

abbrev spent_row : Reservation
spent_row = consume_row 4000 100 row

row_unique : UniqueKeys (row ∷ [])
row_unique = (refl, tt)

row_found : find_unique settle_input.idempotency_key (row ∷ []) ≡ some row
unfolding text_eq
row_found = refl

row_consumed :
    consume_budget settle_input (amount 4000) 100 (row ∷ []) ≡ ok (spent_row ∷ [], spent_row)
unfolding consume_budget consume_read consume_write check_settle update_one
    validate_numeric_non_negative text_eq status_eq
row_consumed = refl

consume_budget-Settled_example :
    (r : Reservation) × (a : ℕ) × (amount 4000 ≡ amount a)
    × (a ≤ r.amount_reserved)
    × (spent_row ≡ consume_row a 100 r)
    × Settled settle_input (row ∷ []) (spent_row ∷ []) r spent_row
consume_budget-Settled_example =
    consume_budget-Settled settle_input (amount 4000) 100 (row ∷ []) (spent_row ∷ []) spent_row
      row_unique row_consumed

consume_budget-no_overspend_example :
    sum_committed_in_window daily_usd "2026-07-30" 100 (spent_row ∷ [])
    ≤ sum_committed_in_window daily_usd "2026-07-30" 100 (row ∷ [])
consume_budget-no_overspend_example =
    consume_budget-no_overspend settle_input (amount 4000) 100 100 (row ∷ []) (spent_row ∷ []) row
      spent_row daily_usd "2026-07-30" row_unique row_found refl (omega arith) row_consumed

-- A second reservation took the window to its limit of 10000 after the first one had expired.
abbrev second_row : Reservation
second_row = record (reserved_row daily_usd "k2") { expires_at = 900 }

abbrev late_row : Reservation
late_row = consume_row 4000 600 row

two_unique : UniqueKeys (row ∷ second_row ∷ [])
unfolding text_eq
two_unique = (refl, (refl, tt))

two_found : find_unique settle_input.idempotency_key (row ∷ second_row ∷ []) ≡ some row
unfolding text_eq
two_found = refl

window_full : 10000 ≤ sum_committed_in_window daily_usd "2026-07-30" 600 (row ∷ second_row ∷ [])
unfolding sum_committed_in_window row_committed in_window committed_of category_eq
window_full = omega arith

late_consumed :
    consume_budget settle_input (amount 4000) 600 (row ∷ second_row ∷ [])
    ≡ ok (late_row ∷ second_row ∷ [], late_row)
unfolding consume_budget consume_read consume_write check_settle update_one
    validate_numeric_non_negative text_eq status_eq
late_consumed = refl

consume_budget-overshoot_example :
    10000 < sum_committed_in_window daily_usd "2026-07-30" 600 (late_row ∷ second_row ∷ [])
consume_budget-overshoot_example =
    consume_budget-overshoot settle_input (amount 4000) 600 600 10000 3999 (row ∷ second_row ∷ [])
      (late_row ∷ second_row ∷ []) row late_row two_unique two_found refl (omega arith) window_full
      refl late_consumed

row_written :
    run_write (consumes settle_input 4000) 1 100 (row ∷ []) ≡ ok (spent_row ∷ [], spent_row)
unfolding run_write consume_write update_one text_eq status_eq
row_written = refl

settle_once_example : run_write (releases settle_input) 1 200 (spent_row ∷ []) ≡ err fence_lost
settle_once_example =
    settle_once (consumes settle_input 4000) (releases settle_input) 100 200 (row ∷ [])
      (spent_row ∷ []) row spent_row row_unique row_found refl row_written

abbrev no_evidence : Evidence
no_evidence = record { intents = []; decisions = [] }

-- An expired reservation of money and one of model tokens.
abbrev expired_rows : List Reservation
expired_rows = row ∷ reserved_row daily_gemini_tokens "g1" ∷ []

expired_unique : UniqueIds expired_rows
expired_unique = (refl, (refl, tt))

reconcile_expired-settled_example :
    (any_where (is_expired 600) (reconcile_expired_reservations 600 no_evidence expired_rows).0
      ≡ false)
    × (reconcile_expired_reservations 600 no_evidence
          (reconcile_expired_reservations 600 no_evidence expired_rows).0
        ≡ ((reconcile_expired_reservations 600 no_evidence expired_rows).0, 0))
reconcile_expired-settled_example =
    reconcile_expired-settled 600 no_evidence no_evidence expired_rows expired_unique

gemini_found : find_unique (codes "g1") expired_rows ≡ some (reserved_row daily_gemini_tokens "g1")
unfolding text_eq
gemini_found = refl

gemini_expired : is_expired 600 (reserved_row daily_gemini_tokens "g1") ≡ true
unfolding status_eq
gemini_expired = refl

reconcile_expired-gemini_example :
    find_unique (codes "g1") (reconcile_expired_reservations 600 no_evidence expired_rows).0
    ≡ some (
        if is_pre_call_failed none
        then expire_row 600 (reserved_row daily_gemini_tokens "g1")
        else retain_row 600 10000 (reserved_row daily_gemini_tokens "g1"))
reconcile_expired-gemini_example =
    reconcile_expired-gemini 600 no_evidence (codes "g1") expired_rows
      (reserved_row daily_gemini_tokens "g1") expired_unique gemini_found refl gemini_expired

abbrev request : ReserveInput
request = record {
  idempotency_key = codes "k3";
  category = daily_usd;
  window_key = "2026-07-30";
  amount_reserved = amount 6000;
  limit = amount 15000;
  owner_id = "worker-1";
  ttl_ms = none;
  event_id = none;
}

abbrev clock : Clock
clock = record { app = 600; db = 600 }

abbrev report : BudgetStatus
report = record {
  limit = 15000;
  total_consumed = 0;
  total_active_reserved = 10000;
  total_committed = 10000;
  remaining_available = 5000;
  is_exceeded = false;
}

reported :
    get_budget_status daily_usd "2026-07-30" (amount 15000) 600 (row ∷ second_row ∷ []) ≡ ok report
unfolding get_budget_status sum_consumed sum_active consumed_of active_of in_window category_eq
    validate_numeric_positive
reported = refl

get_budget_status-agrees_example :
    (request.limit ≡ amount report.limit)
    × (report.total_committed
        ≡ sum_committed_in_window daily_usd "2026-07-30" 600 (row ∷ second_row ∷ []))
    × ((report.is_exceeded ≡ true) ↔ (report.remaining_available ≡ 0))
    × ((is_ceiling_denial
            (reserve_within_ceiling request 6000 15000 clock "r3" (row ∷ second_row ∷ []))
          ≡ true)
        ↔ (report.remaining_available < 6000))
get_budget_status-agrees_example =
    get_budget_status-agrees request clock "r3" (row ∷ second_row ∷ []) 6000 report reported
      (omega arith)
