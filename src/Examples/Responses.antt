-- ===== src/Examples/Responses.antt =====
-- Runs of apps/worker/src/domain/autonomous-policy.ts, of apps/worker/src/domain/policy-engine.ts and
-- of the catalog of packages/contracts/src/scenario.ts.
use falseroute.Prelude.{
  ◌&&◌, ◌≤◌, ◌≡◌, ◌≢◌, refl, ◌↔◌, String, true, false, not, ◌||◌, Option, none, some, List, [], ◌∷◌,
  map, ok, arith, All, count_where,
}
use falseroute.Scenario.{ScenarioKind, env_file_probe, decoy_credential_use, ControlEvidence}
use falseroute.Scenario.Catalog.{scenario_catalog}
use falseroute.Scenario.Ownership.{is_valid_ownership}
use falseroute.Scenario.Ownership.Distinct.{
  fits_schema, has_repeat, all_actions, is_valid_ownership_iff,
}
use falseroute.Policy.Tools.{
  ToolName, request_false_route_assignment, request_operator_alert, request_decoy_deployment,
  ToolCall, ToolExecutionContext,
}
use falseroute.Policy.Canonical.{Envelope, Built, build_canonical_tool_call}
use falseroute.Policy.Autonomous.{success, degraded_result}
use falseroute.Policy.Plans.{is_negative, is_positive, evaluate_autonomous_policy}
use falseroute.Policy.Plans.Owned.{IsCanonical, evaluate_autonomous_policy-IsCanonical}
use falseroute.Policy.Plans.Model.{IsAllowed, plans-IsAllowed}
use falseroute.Policy.Plans.Mandatory.{decoy_credential-calls}
use falseroute.Policy.Plans.Requests.{is_accepted, evaluations-once, low_confidence-degraded}
use falseroute.Policy.Deception.{
  Enrichment, IntrusionEvent, assign_false_route, simulated, DeceptionDecision,
  decoy_credential_trigger, derived, is_other_correlation, is_decoy, choose_action,
  evaluate_deception_policy, evaluate_deception_policy-route,
}

abbrev envelope : ScenarioKind → Envelope
envelope k = record { event_id = "e1"; scenario_kind = k; source_ip = "198.51.100.7" }

abbrev match_found : Option ControlEvidence
match_found = some (record { is_positive_match = true; is_negative_control = none })

-- The model asks twice for the decoy and once for an alert.
abbrev requested : ToolName → String → ToolCall
requested t i = record { tool_call_id = i; tool_name = t; parameters = []; requested_at = "12:00" }

abbrev requests : List ToolCall
requests =
    requested request_decoy_deployment "t1"
    ∷ requested request_operator_alert "t2"
    ∷ requested request_decoy_deployment "t3"
    ∷ []

is_valid_ownership_iff_example :
    is_valid_ownership (scenario_catalog env_file_probe).action_ownership ≡ (
      fits_schema (scenario_catalog env_file_probe).action_ownership
      && not (has_repeat (all_actions (scenario_catalog env_file_probe).action_ownership)))
is_valid_ownership_iff_example =
    is_valid_ownership_iff (scenario_catalog env_file_probe).action_ownership

evaluate_autonomous_policy-IsCanonical_example :
    All
      (λ plan.
        IsCanonical (envelope env_file_probe) (scenario_catalog env_file_probe) plan.tool_call)
      (evaluate_autonomous_policy
        (envelope env_file_probe)
        match_found
        (success requests 9000)
        "12:00").canonical_action_plans
evaluate_autonomous_policy-IsCanonical_example =
    evaluate_autonomous_policy-IsCanonical (envelope env_file_probe) match_found
      (success requests 9000) "12:00"

abbrev context : ToolExecutionContext
context = record {
  event_id = "e1";
  correlation_id = "c1";
  scenario_kind = env_file_probe;
  source_ip = "198.51.100.7";
  is_positive_match = true;
  is_negative_control = false;
}

no_negative : context.is_negative_control ≡ is_negative match_found
unfolding is_negative
no_negative = refl

positive : context.is_positive_match ≡ is_positive match_found
unfolding is_positive
positive = refl

plans-IsAllowed_example :
    All
      (λ plan. IsAllowed (scenario_catalog env_file_probe) context plan.tool_call.tool_name)
      (evaluate_autonomous_policy
        (envelope env_file_probe)
        match_found
        (success requests 9000)
        "12:00").canonical_action_plans
    × (((is_negative match_found || not (is_positive match_found)) ≡ true)
        → ((evaluate_autonomous_policy
              (envelope env_file_probe)
              match_found
              (success requests 9000)
              "12:00").canonical_action_plans
            ≡ [])
          × ((evaluate_autonomous_policy
                (envelope env_file_probe)
                match_found
                (success requests 9000)
                "12:00").canonical_actions_to_execute
              ≡ []))
plans-IsAllowed_example =
    plans-IsAllowed (envelope env_file_probe) match_found (success requests 9000) "12:00" context
      refl no_negative positive

is_match : (is_negative match_found || not (is_positive match_found)) ≡ false
unfolding is_negative is_positive
is_match = refl

decoy_credential-calls_example :
    (route : Built) × (alert : Built) × (build_canonical_tool_call request_false_route_assignment
        (envelope decoy_credential_use)
        (scenario_catalog decoy_credential_use)
        "12:00"
      ≡ some route)
    × (build_canonical_tool_call request_operator_alert
          (envelope decoy_credential_use)
          (scenario_catalog decoy_credential_use)
          "12:00"
        ≡ some alert)
    × ((evaluate_autonomous_policy
          (envelope decoy_credential_use)
          match_found
          (success requests 9000)
          "12:00").canonical_actions_to_execute
        ≡ route.canonical ∷ alert.canonical ∷ [])
decoy_credential-calls_example =
    decoy_credential-calls (envelope decoy_credential_use) match_found (success requests 9000)
      "12:00" refl is_match

evaluations-once_example :
    (map
        (λ v. v.requested_tool)
        (evaluate_autonomous_policy
          (envelope env_file_probe)
          match_found
          (success requests 9000)
          "12:00").request_evaluations
      ≡ requests)
    × (count_where is_accepted
          (evaluate_autonomous_policy
            (envelope env_file_probe)
            match_found
            (success requests 9000)
            "12:00").request_evaluations
        ≤ 5)
evaluations-once_example =
    evaluations-once (envelope env_file_probe) match_found requests 9000 "12:00"

low_confidence-degraded_example :
    ((evaluate_autonomous_policy
        (envelope env_file_probe)
        match_found
        (success requests 4000)
        "12:00").canonical_action_plans
      ≡ (evaluate_autonomous_policy
          (envelope env_file_probe)
          match_found
          degraded_result
          "12:00").canonical_action_plans)
    × ((evaluate_autonomous_policy
          (envelope env_file_probe)
          match_found
          (success requests 4000)
          "12:00").canonical_actions_to_execute
        ≡ (evaluate_autonomous_policy
            (envelope env_file_probe)
            match_found
            degraded_result
            "12:00").canonical_actions_to_execute)
low_confidence-degraded_example =
    low_confidence-degraded (envelope env_file_probe) match_found requests 4000 "12:00"
      (omega arith)

abbrev decoy_event : IntrusionEvent
decoy_event = record {
  id = "e1";
  correlation_id = "c1";
  used_decoy_credential = true;
  decoy_identifier = some "mock-admin-decoy-creds";
  failed_login_count = 0;
  risk_indicators = [];
}

abbrev enrichment : Enrichment
enrichment = record { correlation_id = "c1"; content = "summary" }

abbrev decoy_decision : DeceptionDecision
decoy_decision = record {
  id = "d1";
  event_id = "e1";
  correlation_id = "c1";
  action = assign_false_route;
  assigned_false_route = some "mock-admin-decoy";
  matched_policy = decoy_credential_trigger;
  containment_mode = simulated;
  decision_provenance = derived;
  decided_at = "12:00";
  model_enrichment = none;
  rule_version = "2026.08.1";
  evaluated_at = "12:00";
}

decided : evaluate_deception_policy decoy_event none "d1" "12:00" ≡ ok decoy_decision
unfolding evaluate_deception_policy choose_action is_decoy is_other_correlation
decided = refl

evaluate_deception_policy-route_example :
    ((decoy_decision.action ≡ assign_false_route) ↔ (
      (decoy_event.used_decoy_credential ≡ true)
      × (decoy_event.decoy_identifier ≡ some "mock-admin-decoy-creds")))
    × ((decoy_decision.assigned_false_route ≡ some "mock-admin-decoy")
        ↔ (decoy_decision.action ≡ assign_false_route))
    × ((decoy_decision.assigned_false_route ≡ none) ↔ (decoy_decision.action ≢ assign_false_route))
    × (decoy_decision.containment_mode ≡ simulated)
evaluate_deception_policy-route_example =
    evaluate_deception_policy-route decoy_event none "d1" "12:00" decoy_decision decided
