-- ===== src/Policy/Plans.antt =====
-- `buildCanonicalActionPlans` and the whole of `evaluateAutonomousPolicy`
-- (apps/worker/src/domain/autonomous-policy.ts).
pub mod Owned
pub mod Model
pub mod Mandatory
pub mod Requests
use falseroute.Prelude.{
  ℕ, String, Bool, true, false, ◌&&◌, ◌||◌, not, Option, none, some, List, [], ◌∷◌, ◌++◌, map, ltb,
  if◌then◌else◌, get_or,
}
use falseroute.Scenario.{
  ScenarioKind, ResponseAction, ScenarioPreset, ControlEvidence, includes_action,
}
use falseroute.Scenario.Catalog.{scenario_catalog}
use falseroute.Policy.Tools.{
  ToolName, request_decoy_deployment, request_false_route_assignment, request_source_quarantine,
  request_operator_alert, ToolCall,
}
use falseroute.Policy.Canonical.{
  Envelope, Built, baseline_traffic, degraded_selection, action_for_tool_name,
  build_canonical_tool_call,
}
use falseroute.Policy.Autonomous.{
  authorized, rejected, ModelRequestEvaluation, model_request, mandatory_rule, degraded_fallback,
  CanonicalActionPlan, EvaluatedAction, ModelAnalysis, success, degraded_result, ModelDisposition,
  valid_analysis, degraded, AutonomousPolicyEvaluation, ActionMap, action_map_get,
  evaluate_requests,
}

abbrev pub action_tools : List ToolName
action_tools =
    request_decoy_deployment ∷ request_false_route_assignment ∷ request_source_quarantine
    ∷ request_operator_alert ∷ []

unfoldable pub is_mandatory : ScenarioPreset → Option ResponseAction → Bool
is_mandatory p none = false
is_mandatory p (some a) = includes_action p.action_ownership.mandatory_actions a

unfoldable pub is_degraded_fallback : Bool → ScenarioPreset → Option ResponseAction → Bool
is_degraded_fallback model_available p none = false
is_degraded_fallback model_available p (some a) =
    not model_available && includes_action p.action_ownership.degraded_fallback_actions a

-- The plan that policy makes by itself for a tool that has a canonical call.
unfoldable pub policy_plan : Bool → ScenarioPreset → ToolName → Built → List CanonicalActionPlan
policy_plan model_available p t b =
    let mandatory = is_mandatory p (action_for_tool_name t) in
    let fallback = is_degraded_fallback model_available p (action_for_tool_name t) in
    if mandatory || fallback
    then record {
      tool_call = b.canonical;
      outcome = authorized;
      policy_reason = if mandatory then b.auth_reason else degraded_selection t;
      origin = if fallback then degraded_fallback else mandatory_rule;
    }
      ∷ []
    else []

-- The plan of one tool: that of the model's request for an action that is not mandatory, or policy's.
unfoldable pub plan_built :
    Bool → ScenarioPreset → ToolName → Option EvaluatedAction → Built → List CanonicalActionPlan
plan_built model_available p t evaluated b = elim evaluated [
  | none ↦ policy_plan model_available p t b
  | some a ↦
      if is_mandatory p (action_for_tool_name t)
      then policy_plan model_available p t b
      else record {
        tool_call = a.canonical;
        outcome = a.outcome;
        policy_reason = a.policy_reason;
        origin = model_request;
      }
        ∷ []
]

-- No plan for a tool without a canonical call.
unfoldable pub plan_option :
    Bool
    → ScenarioPreset
    → ToolName
    → Option EvaluatedAction
    → Option Built
    → List CanonicalActionPlan
plan_option model_available p t evaluated none = []
plan_option model_available p t evaluated (some b) = plan_built model_available p t evaluated b

-- One round of the loop; `now` is the time at which the calls are built.
unfoldable pub plan_tool :
    Envelope → ScenarioPreset → ActionMap → Bool → String → ToolName → List CanonicalActionPlan
plan_tool e p actions model_available now t =
    plan_option model_available p t (action_map_get actions t) (build_canonical_tool_call t e p now)

unfoldable pub plan_tools :
    Envelope → ScenarioPreset → ActionMap → Bool → String → List ToolName → List CanonicalActionPlan
plan_tools e p actions model_available now [] = []
plan_tools e p actions model_available now (t ∷ tools) =
    plan_tool e p actions model_available now t ++ plan_tools e p actions model_available now tools

unfoldable pub build_canonical_action_plans :
    Envelope → ScenarioPreset → ActionMap → Bool → String → List CanonicalActionPlan
build_canonical_action_plans e p actions model_available now =
    plan_tools e p actions model_available now action_tools

-- `evidence?.isNegativeControl ?? false` and `evidence?.isPositiveMatch ?? true`.
unfoldable pub is_negative : Option ControlEvidence → Bool
is_negative none = false
is_negative (some v) = get_or v.is_negative_control false

unfoldable pub is_positive : Option ControlEvidence → Bool
is_positive none = true
is_positive (some v) = v.is_positive_match

abbrev requests_of : ModelAnalysis → List ToolCall
requests_of (success requests confidence) = requests
requests_of degraded_result = []

abbrev disposition_of : ModelAnalysis → ModelDisposition
disposition_of (success requests confidence) = valid_analysis
disposition_of degraded_result = degraded

unfoldable pub reject_baseline : ToolCall → ModelRequestEvaluation
reject_baseline req = record {
  requested_tool = req;
  outcome = rejected;
  policy_reason = baseline_traffic;
  canonical_tool_call = none;
}

-- The evaluations of the model's requests and the actions that they select.
unfoldable pub evaluate_model :
    Envelope → ScenarioPreset → ModelAnalysis → List ModelRequestEvaluation × ActionMap
evaluate_model e p (success requests confidence) = evaluate_requests confidence e p 1 [] requests
evaluate_model e p degraded_result = ([], [])

-- `isModelSuccess && !isLowConfidence`.
unfoldable pub is_model_available : ModelAnalysis → Bool
is_model_available (success requests confidence) = not (ltb confidence 5000)
is_model_available degraded_result = false

unfoldable pub evaluate_autonomous_policy :
    Envelope → Option ControlEvidence → ModelAnalysis → String → AutonomousPolicyEvaluation
evaluate_autonomous_policy e evidence analysis now =
    let preset = scenario_catalog e.scenario_kind in
    let (evaluations, actions) = evaluate_model e preset analysis in
    let plans = build_canonical_action_plans e preset actions (is_model_available analysis) now in
    if is_negative evidence || not (is_positive evidence)
    then record {
      model_disposition = disposition_of analysis;
      scenario_kind = e.scenario_kind;
      is_negative_control = true;
      is_positive_match = false;
      request_evaluations = map reject_baseline (requests_of analysis);
      canonical_action_plans = [];
      canonical_actions_to_execute = [];
    }
    else record {
      model_disposition = disposition_of analysis;
      scenario_kind = e.scenario_kind;
      is_negative_control = false;
      is_positive_match = true;
      request_evaluations = evaluations;
      canonical_action_plans = plans;
      canonical_actions_to_execute = map (λ p. p.tool_call) plans;
    }
