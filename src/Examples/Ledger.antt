-- ===== src/Examples/Ledger.antt =====
-- Runs of `reserveBudget` and `acquireEventAttemptSlot` of
-- packages/database/src/repositories/budget-repository.ts.
use falseroute.Prelude.{
  ℕ, ◌≤◌, ◌<◌, ◌≡◌, refl, ◌≢◌, String, codes, text_eq, starts_with, includes, decimal, decimal_fuel,
  true, false, none, some, List, [], ◌∷◌, ◌++◌, ok, arith, any_where,
}
use falseroute.Budget.Store.{
  daily_usd, daily_gemini_tokens, reserved, consumed, Reservation, Clock, amount,
  validate_numeric_positive, category_eq, status_eq, event_eq, is_counting, has_key, find_unique,
  create, committed_of, in_window, row_committed, sum_committed_in_window, counts_for_event,
  count_event_reservations,
}
use falseroute.Budget.Reserve.{
  ReserveInput, ceiling_exceeded, event_call_limit, granted, denied, event_calls, fresh_reservation,
  reserve_within_ceiling, reserve_new, reserve_validated, reserve_budget,
}
use falseroute.Budget.Reserve.Ceiling.{reserve_budget-ceiling}
use falseroute.Budget.Reserve.Replay.{reserve_budget-replay, reserve_budget-existing}
use falseroute.Budget.Reserve.EventCap.{reserve_budget-event_cap}
use falseroute.Budget.Slot.{
  SlotInput, number, slot_granted, attempt_prefix, attempt_key, first_free, is_taken,
  slot_reservation, claim_slot, choose_slot, acquire_validated, acquire_event_attempt_slot,
}
use falseroute.Budget.Slot.Again.{acquire-replay}
use falseroute.Budget.Slot.Attempts.{Claimed, acquire_event_attempt_slot-Claimed}

abbrev noon : Clock
noon = record { app = 1000; db = 1001 }

abbrev later : Clock
later = record { app = 2000; db = 2001 }

-- One unit of the daily spend, with a limit of one and a half.
abbrev spend : String → ReserveInput
spend k = record {
  idempotency_key = codes k;
  category = daily_usd;
  window_key = "2026-07-30";
  amount_reserved = amount 10000;
  limit = amount 15000;
  owner_id = "worker-1";
  ttl_ms = none;
  event_id = none;
}

abbrev spend_row : Reservation
spend_row = fresh_reservation (spend "k1") 10000 noon "r1"

reserve_first :
    reserve_budget (spend "k1") noon "r1" [] ≡ ok (spend_row ∷ [], granted false spend_row)
unfolding reserve_budget reserve_validated reserve_new reserve_within_ceiling event_calls
    sum_committed_in_window create fresh_reservation validate_numeric_positive text_eq
reserve_first = refl

reserve_budget-ceiling_example :
    (limit : ℕ) × ((spend "k1").limit ≡ amount limit)
    × (spend_row ∷ [] ≡ [] ++ spend_row ∷ [])
    × (any_where (has_key (spend "k1").idempotency_key) [] ≡ false)
    × (sum_committed_in_window
          (spend "k1").category
          (spend "k1").window_key
          noon.db
          (spend_row ∷ [])
        ≤ limit)
reserve_budget-ceiling_example =
    reserve_budget-ceiling (spend "k1") noon "r1" [] (spend_row ∷ []) spend_row reserve_first

over_ceiling :
    reserve_budget (spend "k2") later "r2" (spend_row ∷ [])
    ≡ ok (spend_row ∷ [], denied false (ceiling_exceeded daily_usd 10000 10000 15000) 10000 15000)
unfolding reserve_budget reserve_validated reserve_new reserve_within_ceiling event_calls
    sum_committed_in_window create fresh_reservation validate_numeric_positive text_eq row_committed
    in_window committed_of category_eq status_eq
over_ceiling = refl

before_expiry : later.app < spend_row.expires_at
unfolding fresh_reservation
before_expiry = omega arith

reserve_budget-replay_example :
    reserve_budget (spend "k1") later "r2" (spend_row ∷ [])
    ≡ ok (spend_row ∷ [], granted true spend_row)
reserve_budget-replay_example =
    reserve_budget-replay (spend "k1") noon later "r1" "r2" [] (spend_row ∷ []) spend_row
      reserve_first before_expiry

found_first : find_unique (spend "k1").idempotency_key (spend_row ∷ []) ≡ some spend_row
unfolding fresh_reservation text_eq
found_first = refl

reserve_budget-existing_example :
    (true ≡ true)
    × (spend_row ∷ [] ≡ spend_row ∷ [])
    × (spend_row ≡ spend_row)
    × (spend_row.status ≡ reserved)
    × (spend_row.owner_id ≡ (spend "k1").owner_id)
    × (later.app < spend_row.expires_at)
    × ((spend "k1").amount_reserved ≡ amount spend_row.amount_reserved)
    × (spend_row.category ≡ (spend "k1").category)
    × (spend_row.window_key ≡ (spend "k1").window_key)
    × (spend_row.event_id ≡ (spend "k1").event_id)
reserve_budget-existing_example =
    reserve_budget-existing (spend "k1") later "r2" (spend_row ∷ []) (spend_row ∷ []) spend_row
      spend_row true found_first reserve_budget-replay_example

-- A model call of one event.
abbrev call : String → ReserveInput
call k = record {
  idempotency_key = codes k;
  category = daily_gemini_tokens;
  window_key = "2026-07-30";
  amount_reserved = amount 10000;
  limit = amount 90000;
  owner_id = "worker-1";
  ttl_ms = some 500;
  event_id = some "e1";
}

abbrev call_row : String → Reservation
call_row k = fresh_reservation (call k) 10000 noon k

abbrev two_calls : List Reservation
two_calls = call_row "c1" ∷ call_row "c2" ∷ []

two_counted : count_event_reservations "e1" daily_gemini_tokens two_calls ≤ 2
unfolding count_event_reservations counts_for_event fresh_reservation event_eq category_eq
    is_counting
two_counted = omega arith

third_denied :
    reserve_budget (call "c3") noon "c3" two_calls
    ≡ ok (two_calls, denied false (event_call_limit "e1" 2) 90000 90000)
unfolding reserve_budget reserve_validated reserve_new event_calls fresh_reservation
    validate_numeric_positive text_eq category_eq count_event_reservations counts_for_event event_eq
    is_counting
third_denied = refl

abbrev event_name : String
event_name = "e1"

named : event_name ≢ ""
named h = cc

reserve_budget-event_cap_example : count_event_reservations "e1" daily_gemini_tokens two_calls ≤ 2
reserve_budget-event_cap_example =
    reserve_budget-event_cap (call "c3") noon "c3" "e1" two_calls two_calls
      (denied false (event_call_limit "e1" 2) 90000 90000) named two_counted third_denied

-- The second attempt of an event whose first one is consumed.
abbrev slot : SlotInput
slot = record {
  event_id = "e1";
  category = daily_gemini_tokens;
  window_key = "2026-07-30";
  amount_reserved = amount 10000;
  limit = amount 90000;
  owner_id = "worker-2";
  max_attempts = 2;
  key_prefix = codes "p";
  ttl_ms = none;
}

abbrev first_attempt : Reservation
first_attempt = record (slot_reservation slot 1 10000 noon "a1") { status = consumed }

abbrev second_attempt : Reservation
second_attempt = slot_reservation slot 2 10000 later "a2"

abbrev both_attempts : List Reservation
both_attempts = first_attempt ∷ second_attempt ∷ []

slot_two :
    acquire_event_attempt_slot slot later "a2" (first_attempt ∷ [])
    ≡ ok (both_attempts, slot_granted false (number 2) second_attempt)
unfolding acquire_event_attempt_slot acquire_validated choose_slot claim_slot slot_reservation
    create sum_committed_in_window row_committed in_window committed_of first_free is_taken
    attempt_key attempt_prefix decimal decimal_fuel validate_numeric_positive text_eq category_eq
    status_eq event_eq is_counting starts_with
slot_two = refl

acquire_event_attempt_slot-Claimed_example :
    (n : ℕ) × (limit : ℕ) × (number 2 ≡ number n)
    × (slot.limit ≡ amount limit)
    × Claimed slot later (first_attempt ∷ []) both_attempts second_attempt n limit
acquire_event_attempt_slot-Claimed_example =
    acquire_event_attempt_slot-Claimed slot later "a2" (first_attempt ∷ []) both_attempts (number 2)
      second_attempt slot_two

plain_prefix : includes (codes "attempt-") slot.key_prefix ≡ false
unfolding includes starts_with
plain_prefix = refl

still_live : 2600 < second_attempt.expires_at
unfolding slot_reservation
still_live = omega arith

acquire-replay_example :
    acquire_event_attempt_slot slot (record { app = 2600; db = 2601 }) "a3" both_attempts
    ≡ ok (both_attempts, slot_granted true (number 2) second_attempt)
acquire-replay_example =
    acquire-replay slot later (record { app = 2600; db = 2601 }) "a2" "a3" (first_attempt ∷ [])
      both_attempts (number 2) second_attempt plain_prefix slot_two (omega arith) still_live

-- The row of a reservation, and then that of an attempt slot.
slot_one :
    acquire_event_attempt_slot slot later "a1" (spend_row ∷ [])
    ≡ ok (
      spend_row ∷ slot_reservation slot 1 10000 later "a1" ∷ [],
      slot_granted false (number 1) (slot_reservation slot 1 10000 later "a1"),
    )
unfolding acquire_event_attempt_slot acquire_validated choose_slot claim_slot slot_reservation
    create sum_committed_in_window row_committed in_window committed_of first_free is_taken
    attempt_key attempt_prefix decimal decimal_fuel validate_numeric_positive text_eq category_eq
    status_eq event_eq is_counting starts_with fresh_reservation
slot_one = refl

-- The key of a row, asked for another amount.
abbrev other_request : ReserveInput
other_request = record (spend "k1") { amount_reserved = amount 20000 }
