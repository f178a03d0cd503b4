-- ===== src/Examples/Workflow.antt =====
-- Runs of the provider intents, the ambiguous settlements and the dead letters of
-- packages/database/src/repositories/autonomous-workflow-repository.ts.
use falseroute.Prelude.{
  ◌+◌, ◌≤◌, ◌≡◌, ◌↔◌, ◌⊎◌, refl, String, codes, text_eq, true, none, some, List, [], ◌∷◌, ok, arith,
  count_where,
}
use falseroute.Budget.Store.{Reservation, reserved, hourly_tool_operations}
use falseroute.Workflow.Intents.{
  ProviderIntentRecord, executed, ClaimInput, claimed_with, reconciliation_required, new_intent,
  create_intent, claimed_intent, write_claim, claim_provider_intent,
}
use falseroute.Workflow.Register.{IntentEvent, opened, won, silent, opens, claims}
use falseroute.Workflow.Register.Once.{
  IntentHistory, no_intents, after, IsReplayed, history-IsReplayed, wins, claim_once,
}
use falseroute.Workflow.Operations.{ToolOperation}
use falseroute.Workflow.Ambiguous.{
  WorkflowTables, reconcile, AmbiguousInput, settled_as, settle_ambiguous_tool_reservation,
}
use falseroute.Workflow.Ambiguous.Conditions.{IsSettleable}
use falseroute.Workflow.Ambiguous.Exact.{IsSettled, settle_ambiguous_iff}
use falseroute.Workflow.DeadLetters.{
  LetterInput, DeadLetter, ReplayTables, ReplayInput, ReplayAttempt, new_letter, new_attempt,
  record_dead_letter, claim_dead_letter_for_replay, is_of_letter, is_claimable_letter, with_status,
  replaying,
}
use falseroute.Workflow.DeadLetters.Once.{
  no_letters, after as then_replay, records, claims as claims_letter, replay_once,
}

abbrev claim_input : ClaimInput
claim_input = record {
  idempotency_key = "key-1";
  event_id = "event-1";
  operation_type = "request_false_route_assignment";
  provider = "local";
  claim_owner = "worker-1";
  claim_ttl_ms = none;
  payload = none;
}

abbrev opened_rows : List ProviderIntentRecord
opened_rows = new_intent claim_input ∷ []

abbrev token_a : String
token_a = "00000000-0000-4000-8000-00000000000a"

abbrev token_b : String
token_b = "00000000-0000-4000-8000-00000000000b"

abbrev claimed_rows : List ProviderIntentRecord
claimed_rows = claimed_intent claim_input token_a 1000 (new_intent claim_input) ∷ []

-- Two workers read the new intent, and both claim it.
abbrev race_log : List (String × IntentEvent)
race_log = ("key-1", silent) ∷ ("key-1", won token_a) ∷ ("key-1", opened) ∷ []

race : IntentHistory race_log claimed_rows
unfolding create_intent write_claim
race =
    after
      (after (after no_intents (opens claim_input [] refl))
        (claims claim_input token_a 1000 1 opened_rows))
      (claims claim_input token_b 1001 1 claimed_rows)

history-IsReplayed_example : IsReplayed race_log claimed_rows
history-IsReplayed_example = history-IsReplayed race

claim_once_example : count_where (wins "key-1") race_log ≤ 1
claim_once_example = claim_once "key-1" race

-- A worker that no other comes between has the claim.
claim_alone :
    claim_provider_intent claim_input token_a 1000 (λ rows. rows) (λ rows. rows) (λ rows. rows) []
    ≡ ok (
      claimed_rows,
      claimed_with token_a (claimed_intent claim_input token_a 1000 (new_intent claim_input)),
    )
unfolding claim_provider_intent
claim_alone = refl

-- Where another claims between the read and the update, it has to reconcile.
claim_raced :
    claim_provider_intent claim_input token_b 1001
      (λ rows. rows)
      (λ rows. (write_claim claim_input token_a 1000 1 rows).0)
      (λ rows. rows)
      []
    ≡ ok (
      claimed_rows,
      reconciliation_required (claimed_intent claim_input token_a 1000 (new_intent claim_input)),
    )
unfolding claim_provider_intent write_claim
claim_raced = refl

abbrev hold : Reservation
hold = record {
  id = "reservation-1";
  idempotency_key = codes "budget:tool:key-1";
  category = hourly_tool_operations;
  window_key = "2026-01-01T00";
  amount_reserved = 10000;
  amount_consumed = none;
  status = reserved;
  owner_id = "worker-0";
  expires_at = 5000;
  consumed_at = none;
  released_at = none;
  reconciled_at = none;
  event_id = some "event-1";
  version = 1;
  gemini_attempt_outcome = none;
}

abbrev executed_intent : ProviderIntentRecord
executed_intent = record (new_intent claim_input) { status = executed; version = 3 }

abbrev authorized_operation : ToolOperation
authorized_operation = record {
  id = "operation-1";
  idempotency_key = "key-1";
  event_id = "event-1";
  tool_name = "request_false_route_assignment";
  input_hash = "hash";
  stage = "AUTHORIZED";
  authorized = true;
  policy_reason = [];
  provider_resource_id = none;
  observed_state = none;
  version = 1;
}

abbrev workflow_tables : WorkflowTables
workflow_tables = record {
  reservations = hold ∷ [];
  intents = executed_intent ∷ [];
  operations = authorized_operation ∷ [];
}

abbrev ambiguous_input : AmbiguousInput
ambiguous_input = record {
  reservation_key = codes "budget:tool:key-1";
  tool_operation_key = "key-1";
  provider_intent_key = "key-1";
  expected_owner_id = "worker-0";
  expected_version = 1;
  settlement = reconcile;
}

settle_ambiguous_iff_example :
    (((settle_ambiguous_tool_reservation ambiguous_input 6000 workflow_tables).2
        ≡ settled_as reconcile)
      ↔ IsSettleable ambiguous_input workflow_tables)
    × (IsSettled ambiguous_input 6000 workflow_tables
        ⊎ ((¬ IsSettleable ambiguous_input workflow_tables)
            × ((settle_ambiguous_tool_reservation ambiguous_input 6000 workflow_tables).0
                ≡ hold ∷ [])))
unfolding text_eq
settle_ambiguous_iff_example =
    settle_ambiguous_iff ambiguous_input 6000 workflow_tables (omega arith)

hold_settles : (settle_ambiguous_tool_reservation ambiguous_input 6000 workflow_tables).1 ≡ true
unfolding settle_ambiguous_tool_reservation text_eq
hold_settles = refl

abbrev letter_input : LetterInput
letter_input = record {
  original_message_id = "message-1";
  original_event_id = some "event-1";
  failure_reason = codes "timeout";
  payload = codes "{}";
  retry_count = some 3;
}

abbrev letter : DeadLetter
letter = new_letter letter_input "letter-1"

abbrev replay_input : ReplayInput
replay_input = record {
  dead_letter_id = "letter-1";
  requested_by = "operator";
  rationale = codes "retry";
}

abbrev replay : ReplayAttempt
replay = new_attempt replay_input letter "event-1" "attempt-1"

abbrev recorded : ReplayTables
recorded = record { letters = letter ∷ []; attempts = [] }

abbrev replay_claimed : ReplayTables
replay_claimed = record { letters = with_status replaying letter ∷ []; attempts = replay ∷ [] }

letter-recorded :
    record_dead_letter
      (λ s. "hash")
      letter_input
      "letter-1"
      (record { letters = []; attempts = [] })
    ≡ ok (recorded, letter)
unfolding record_dead_letter
letter-recorded = refl

letter_claimed :
    claim_dead_letter_for_replay replay_input "attempt-1" recorded
    ≡ ok (replay_claimed, some replay)
unfolding claim_dead_letter_for_replay
letter_claimed = refl

letter_claimed_again :
    claim_dead_letter_for_replay replay_input "attempt-2" replay_claimed ≡ ok (replay_claimed, none)
unfolding claim_dead_letter_for_replay
letter_claimed_again = refl

replay_once_example :
    count_where (is_of_letter "letter-1") replay_claimed.attempts
      + count_where (is_claimable_letter "letter-1") replay_claimed.letters
    ≤ 1
replay_once_example = replay_once "letter-1" replay_claimed (
    then_replay
      (then_replay
        (then_replay no_letters
          (records (λ s. "hash") letter_input "letter-1" _ recorded letter refl letter-recorded))
        (claims_letter replay_input "attempt-1" recorded replay_claimed (some replay)
          letter_claimed))
      (claims_letter replay_input "attempt-2" replay_claimed replay_claimed none
        letter_claimed_again))
