-- ===== src/Examples/Gemini.antt =====
-- A run of apps/worker/src/services/gemini-budget-service.ts.
use falseroute.Prelude.{
  ℕ, ◌+◌, ◌≤◌, ◌≡◌, ◌⊎◌, refl, none, List, [], ◌∷◌, String, text_eq, starts_with, decimal,
}
use falseroute.Budget.Store.{
  amount, sum_committed_in_window, row_committed, create, validate_numeric_positive,
  validate_numeric_non_negative, status_eq, event_eq, category_eq, is_counting, in_window,
}
use falseroute.Budget.Slot.{
  acquire_event_attempt_slot, acquire_validated, choose_slot, first_free, is_taken, claim_slot,
  slot_reservation, attempt_prefix,
}
use falseroute.Budget.Settle.{
  record_gemini_attempt_outcome, consume_budget, consume_read, consume_write, check_settle,
}
use falseroute.Gemini.Gate.{GateConfig, Call, absent, returned, begin_attempt, execute_with_budget}
use falseroute.Gemini.Gate.Grows.{counted}
use falseroute.Gemini.Gate.Ceiling.{dispatch_ceiling}

abbrev config : GateConfig
config = record {
  event_id = "e1";
  window_key = "2026-01-01";
  amount_per_attempt = amount 81920000;
  daily_token_limit = amount 10000000000;
  max_calls_per_event = 2;
}

abbrev call_at : String → ℕ → Call
call_at owner now = record { owner = owner; clock = record { app = now; db = now }; id = owner }

-- Three calls of a gate that may give two attempts.
abbrev three_calls : List Call
three_calls = call_at "owner-2" 20 ∷ call_at "owner-3" 30 ∷ call_at "owner-4" 40 ∷ []

dispatch_ceiling_example :
    ((execute_with_budget config absent
        (call_at "owner-1" 10)
        three_calls
        (returned none)
        50
        []).dispatches
      ≡ 0)
    ⊎ (counted config []
          + (execute_with_budget config absent
              (call_at "owner-1" 10)
              three_calls
              (returned none)
              50
              []).dispatches
        ≤ 2)
dispatch_ceiling_example =
    dispatch_ceiling config absent (call_at "owner-1" 10) three_calls (returned none) 50 [] (
      refl,
      (refl, (refl, (refl, tt))),
      (refl, (refl, (refl, tt)), (refl, (refl, tt), (refl, tt, tt))),
    )

two_dispatches :
    (execute_with_budget config absent
      (call_at "owner-1" 10)
      three_calls
      (returned none)
      50
      []).dispatches
    ≡ 2
unfolding execute_with_budget begin_attempt acquire_event_attempt_slot acquire_validated choose_slot
    first_free is_taken claim_slot sum_committed_in_window row_committed create
    record_gemini_attempt_outcome text_eq starts_with slot_reservation decimal consume_budget
    consume_read consume_write check_settle validate_numeric_positive validate_numeric_non_negative
    status_eq attempt_prefix event_eq category_eq is_counting in_window
two_dispatches = refl
