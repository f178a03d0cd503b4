-- ===== src/Policy/Autonomous.antt =====
-- `evaluateAutonomousPolicy` of apps/worker/src/domain/autonomous-policy.ts, from the validated
-- evidence on: its argument is what `validateScenarioEvidence` returned, `none` for a failure.
use falseroute.Prelude.{
  ℕ, suc, String, str_eq, Bool, false, ◌||◌, not, Option, none, some, List, [], ◌∷◌, ◌++◌, ltb,
  ◌==◌, if◌then◌else◌, length, any_where, filter_where,
}
use falseroute.Scenario.{
  ScenarioKind, ResponseAction, ScenarioPreset, includes_action, action_text, kind_text,
}
use falseroute.Policy.Tools.{
  ToolName, recommend_response_plan, request_source_quarantine, Value, text, number, texts,
  ToolCall, parameter, tool_eq,
}
use falseroute.Policy.Canonical.{
  Envelope, Built, EvaluationReason, exceeds_request_ceiling, duplicate_request, not_authorized,
  low_confidence, plan_other_event, plan_conflicts, plan_narrowed_unauthorized, plan_narrowed,
  plan_authorized, action_forbidden, quarantine_not_owned, owned_by_policy, action_for_tool_name,
  same_value, matches_canonical, build_canonical_tool_call,
}
use Prim.Native.String.{◌++◌ as concat}

pub data PolicyOutcome : Type 0 where
  authorized narrowed rejected : PolicyOutcome

pub record ModelRequestEvaluation : Type 0 where
  pub requested_tool : ToolCall
  pub outcome : PolicyOutcome
  pub policy_reason : EvaluationReason
  pub canonical_tool_call : Option ToolCall

pub data ActionOrigin : Type 0 where
  model_request mandatory_rule policy_fallback degraded_fallback : ActionOrigin

pub record CanonicalActionPlan : Type 0 where
  pub tool_call : ToolCall
  pub outcome : PolicyOutcome
  pub policy_reason : EvaluationReason
  pub origin : ActionOrigin

pub record EvaluatedAction : Type 0 where
  pub outcome : PolicyOutcome
  pub policy_reason : EvaluationReason
  pub canonical : ToolCall

-- The model's result: its confidence is counted in ten-thousandths.
pub data ModelAnalysis : Type 0 where
  success : (tool_requests : List ToolCall) (confidence : ℕ) → ModelAnalysis
  degraded_result : ModelAnalysis

pub data ModelDisposition : Type 0 where
  valid_analysis degraded ignored : ModelDisposition

pub record AutonomousPolicyEvaluation : Type 0 where
  pub model_disposition : ModelDisposition
  pub scenario_kind : ScenarioKind
  pub is_negative_control : Bool
  pub is_positive_match : Bool
  pub request_evaluations : List ModelRequestEvaluation
  pub canonical_action_plans : List CanonicalActionPlan
  pub canonical_actions_to_execute : List ToolCall

abbrev pub ActionMap : Type 0
ActionMap = List (ToolName × EvaluatedAction)

-- `modelActionMap.get(toolName)`; an entry in front hides the ones behind it.
unfoldable pub action_map_get : ActionMap → ToolName → Option EvaluatedAction
unfolding tool_eq
action_map_get [] t = none
action_map_get ((u, a) ∷ entries) t = if tool_eq u t then some a else action_map_get entries t

abbrev evaluation :
    ToolCall → PolicyOutcome → EvaluationReason → Option ToolCall → ModelRequestEvaluation
evaluation req o r c = record {
  requested_tool = req;
  outcome = o;
  policy_reason = r;
  canonical_tool_call = c;
}

-- The recommended actions of a plan, as texts.
unfoldable pub raw_actions : Option Value → List String
raw_actions (some (texts actions)) = actions
raw_actions _ = []

unfoldable pub includes_text : List ResponseAction → String → Bool
unfolding action_text
includes_text actions s = any_where (λ a. str_eq (action_text a) s) actions

unfoldable pub rationale_of : Option Value → ScenarioKind → Value
rationale_of (some (text s)) k = text s
rationale_of _ k = text (concat "Response plan for " (kind_text k))

unfoldable pub confidence_of : Option Value → Value
confidence_of (some (number n)) = number n
confidence_of _ = number 8000

unfoldable pub narrowed_plan : ToolCall → Envelope → List String → ToolCall
unfolding rationale_of confidence_of
narrowed_plan req e valid = record {
  tool_call_id = req.tool_call_id;
  tool_name = recommend_response_plan;
  parameters =
      ("eventId", text e.event_id)
      ∷ ("recommendedActions", texts valid)
      ∷ ("rationale", rationale_of (parameter req.parameters "rationale") e.scenario_kind)
      ∷ ("confidence", confidence_of (parameter req.parameters "confidence"))
      ∷ [];
  requested_at = req.requested_at;
}

-- The outcome, the reason and the canonical call for a `recommend_response_plan`.
unfoldable pub response_plan_verdict :
    ToolCall → Envelope → ScenarioPreset → PolicyOutcome × EvaluationReason × Option ToolCall
unfolding raw_actions includes_text narrowed_plan
response_plan_verdict req e p =
    let o = p.action_ownership in
    let raw = raw_actions (parameter req.parameters "recommendedActions") in
    let selectable = o.mandatory_actions ++ o.optional_actions in
    let valid = filter_where (includes_text selectable) raw in
    let unauthorized =
      filter_where (λ a. not (includes_text selectable a) || includes_text o.forbidden_actions a)
        raw in
    if not (same_value (parameter req.parameters "eventId") (text e.event_id))
    then (rejected, plan_other_event e.event_id, none)
    else if length valid == 0
    then (rejected, plan_conflicts raw e.scenario_kind, none)
    else if ltb 0 (length unauthorized)
    then (narrowed, plan_narrowed_unauthorized unauthorized, some (narrowed_plan req e valid))
    else if not (length raw == length selectable)
    then (narrowed, plan_narrowed, some (narrowed_plan req e valid))
    else (authorized, plan_authorized, none)

-- The branch for `recommend_response_plan`.
unfoldable pub evaluate_response_plan :
    ToolCall → Envelope → ScenarioPreset → ModelRequestEvaluation
evaluate_response_plan req e p =
    let (o, r, c) = response_plan_verdict req e p in evaluation req o r c

-- Why a request without a canonical call is rejected.
unfoldable pub refusal : ToolName → ScenarioKind → ScenarioPreset → EvaluationReason
refusal t k p = elim (action_for_tool_name t) [
  | none ↦ not_authorized t
  | some a ↦
      if includes_action p.action_ownership.forbidden_actions a
      then action_forbidden a k
      else if tool_eq t request_source_quarantine
      then quarantine_not_owned k
      else not_authorized t
]

unfoldable pub is_optional : ScenarioPreset → Option ResponseAction → Bool
is_optional p none = false
is_optional p (some a) = includes_action p.action_ownership.optional_actions a

-- The branch for the other tools, when `buildCanonicalToolCall` gives a call.
unfoldable pub evaluate_built :
    ToolCall → ScenarioPreset → Built → ModelRequestEvaluation × ActionMap
evaluate_built req p b =
    let fits = matches_canonical req.parameters b.canonical.parameters in
    let outcome = if fits then authorized else narrowed in
    let reason = if fits then b.auth_reason else b.narrow_reason in
    let action = action_for_tool_name req.tool_name in
    if is_optional p action
    then (
      evaluation req outcome reason (some b.canonical),
      (req.tool_name, record { outcome = outcome; policy_reason = reason; canonical = b.canonical })
          ∷ [],
    )
    else (evaluation req narrowed (owned_by_policy action) (some b.canonical), [])

-- The branch for the other tools, on what `buildCanonicalToolCall` returns.
unfoldable pub evaluate_action :
    ToolCall → Envelope → ScenarioPreset → Option Built → ModelRequestEvaluation × ActionMap
evaluate_action req e p none =
    (evaluation req rejected (refusal req.tool_name e.scenario_kind p) none, [])
evaluate_action req e p (some b) = evaluate_built req p b

-- `evaluateSingleModelRequest`: the evaluation that it adds to the list, and the entry that it adds
-- to the map, if any.
unfoldable pub evaluate_single_model_request :
    ToolCall → Envelope → ScenarioPreset → ModelRequestEvaluation × ActionMap
evaluate_single_model_request req e p =
    if tool_eq req.tool_name recommend_response_plan
    then (evaluate_response_plan req e p, [])
    else evaluate_action req e p (build_canonical_tool_call req.tool_name e p req.requested_at)

-- One round of the loop over the requests: its evaluation, its entries and the tools seen then.
unfoldable pub evaluate_request :
    ℕ
    → List ToolName
    → Envelope
    → ScenarioPreset
    → ℕ
    → ToolCall
    → ModelRequestEvaluation × ActionMap × List ToolName
evaluate_request confidence seen e p index req =
    if ltb 5 index
    then (evaluation req rejected exceeds_request_ceiling none, [], seen)
    else if any_where (λ t. tool_eq t req.tool_name) seen
    then (evaluation req rejected (duplicate_request req.tool_name) none, [], seen)
    else if ltb confidence 5000
    then (evaluation req rejected (low_confidence confidence) none, [], req.tool_name ∷ seen)
    else (
      (evaluate_single_model_request req e p).0,
      (evaluate_single_model_request req e p).1,
      req.tool_name ∷ seen,
    )

-- The loop, from the request with the given index on.
unfoldable pub evaluate_requests :
    ℕ
    → Envelope
    → ScenarioPreset
    → ℕ
    → List ToolName
    → List ToolCall
    → List ModelRequestEvaluation × ActionMap
evaluate_requests confidence e p index seen [] = ([], [])
evaluate_requests confidence e p index seen (req ∷ reqs) =
    let (evaluation', entries, seen') = evaluate_request confidence seen e p index req in
    let (evaluations, later) = evaluate_requests confidence e p (suc index) seen' reqs in
    (evaluation' ∷ evaluations, entries ++ later)
