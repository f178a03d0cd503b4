-- ===== src/Policy/Canonical.antt =====
-- The canonical tool calls of apps/worker/src/domain/autonomous-policy.ts: `actionForToolName`,
-- `buildCanonicalToolCall` and `matchesCanonical`.
use Prim.Native.String.{◌++◌ as concat}
use falseroute.Prelude.{
  ℕ, ◌*◌, ◌≡◌, refl, arith, String, codes, includes, str_eq, Bool, true, false, ◌&&◌, ◌||◌, Option,
  none, some, List, [], ◌∷◌, ltb, ◌==◌, if◌then◌else◌, get_or,
}
use falseroute.Scenario.{
  ScenarioKind, ResponseAction, deploy_decoy, assign_false_route, quarantine_source, alert_operator,
  ScenarioPreset, ScenarioActionOwnership, includes_action, kind_text,
}
use falseroute.Policy.Tools.{
  ToolName, recommend_response_plan, request_decoy_deployment, request_false_route_assignment,
  request_source_quarantine, request_operator_alert, Value, text, number, ToolCall, parameter,
  is_decoy_credential_use,
}

-- The fields of an `IntrusionEventEnvelope` that the policy reads, its evidence apart.
pub record Envelope : Type 0 where
  pub event_id : String
  pub scenario_kind : ScenarioKind
  pub source_ip : String

-- The texts of `policyReason`, by what they interpolate.
pub data EvaluationReason : Type 0 where
  baseline_traffic exceeds_request_ceiling : EvaluationReason
  duplicate_request not_authorized degraded_selection : ToolName → EvaluationReason
  low_confidence : ℕ → EvaluationReason
  plan_other_event : String → EvaluationReason
  plan_conflicts : List String → ScenarioKind → EvaluationReason
  plan_narrowed_unauthorized : List String → EvaluationReason
  plan_narrowed plan_authorized : EvaluationReason
  action_forbidden : ResponseAction → ScenarioKind → EvaluationReason
  quarantine_not_owned : ScenarioKind → EvaluationReason
  owned_by_policy : Option ResponseAction → EvaluationReason
  authorized_call narrowed_call : ToolName → EvaluationReason
  narrowed_quarantine : (cidr_prefix : ℕ) → EvaluationReason

pub record Built : Type 0 where
  pub canonical : ToolCall
  pub auth_reason : EvaluationReason
  pub narrow_reason : EvaluationReason

-- A whole number as a parameter.
abbrev whole : ℕ → Value
whole n = number (n * 10000)

unfoldable pub action_for_tool_name : ToolName → Option ResponseAction
action_for_tool_name request_decoy_deployment = some deploy_decoy
action_for_tool_name request_false_route_assignment = some assign_false_route
action_for_tool_name request_source_quarantine = some quarantine_source
action_for_tool_name request_operator_alert = some alert_operator
action_for_tool_name recommend_response_plan = none

-- `optionalActions`, `mandatoryActions` or `degradedFallbackActions` include the action.
unfoldable pub is_owned : ScenarioActionOwnership → ResponseAction → Bool
is_owned o a =
    includes_action o.optional_actions a
    || (includes_action o.mandatory_actions a || includes_action o.degraded_fallback_actions a)

-- `Object.entries(expected).every(([k, v]) => actual[k] === v)`; arrays and other objects of two
-- calls are never the same object.
unfoldable pub same_value : Option Value → Value → Bool
same_value (some (text s)) (text t) = str_eq s t
same_value (some (number m)) (number n) = m == n
same_value _ _ = false

unfoldable pub matches_canonical : List (String × Value) → List (String × Value) → Bool
unfolding same_value parameter
matches_canonical actual [] = true
matches_canonical actual ((k, v) ∷ expected) =
    same_value (parameter actual k) v && matches_canonical actual expected

abbrev call_of : ToolName → String → List (String × Value) → String → ToolCall
call_of t id parameters requested_at = record {
  tool_call_id = id;
  tool_name = t;
  parameters = parameters;
  requested_at = requested_at;
}

deployment_call : Envelope → ScenarioPreset → String → String → ToolCall
deployment_call e p template at =
    call_of request_decoy_deployment (concat e.event_id "-deploy")
      (("eventId", text e.event_id)
        ∷ ("templateName", text template)
        ∷ ("region", text "us-central1")
        ∷ ("ttlSeconds", whole p.default_ttl_seconds)
        ∷ ("reason", text (concat "Autonomous response for " (kind_text e.scenario_kind)))
        ∷ [])
      at

route_call : Envelope → ScenarioPreset → String → ToolCall
route_call e p at =
    call_of request_false_route_assignment (concat e.event_id "-route")
      (("eventId", text e.event_id)
        ∷ ("sourceIp", text e.source_ip)
        ∷ ("targetDecoyService", text (get_or p.decoy_template "mock-admin-decoy"))
        ∷ ("ttlSeconds", whole p.default_ttl_seconds)
        ∷ (
          "reason",
          text (
              if is_decoy_credential_use e.scenario_kind
              then "Mandatory POLICY_DECOY_CREDENTIAL_DIVERSION containment"
              else concat "Autonomous diversion for " (kind_text e.scenario_kind)),
        )
        ∷ [])
      at

cidr_prefix : String → ℕ
cidr_prefix ip = if includes (codes ":") (codes ip) then 128 else 32

quarantine_call : Envelope → ScenarioPreset → String → ToolCall
unfolding cidr_prefix
quarantine_call e p at =
    call_of request_source_quarantine (concat e.event_id "-quarantine")
      (("eventId", text e.event_id)
        ∷ ("sourceIp", text e.source_ip)
        ∷ ("cidrPrefix", whole (cidr_prefix e.source_ip))
        ∷ ("ttlSeconds", whole p.default_ttl_seconds)
        ∷ ("reason", text (concat "Autonomous quarantine for " (kind_text e.scenario_kind)))
        ∷ [])
      at

alert_call : Envelope → ScenarioPreset → String → ToolCall
alert_call e p at =
    let decoy = is_decoy_credential_use e.scenario_kind in
    let from_source = concat "Source " e.source_ip in
    call_of request_operator_alert (concat e.event_id "-alert")
      (("eventId", text e.event_id)
        ∷ ("severity", text (if decoy || ltb 90 p.max_risk_score then "CRITICAL" else "HIGH"))
        ∷ (
          "headline",
          text (
              if decoy then "Decoy Credential Triggered" else concat "Incident Detected: " p.title),
        )
        ∷ (
          "details",
          text (
              if decoy
              then concat from_source
                  " accessed decoy credentials; assigned false route to mock-admin-decoy"
              else concat from_source (concat " triggered " p.expected_policy)),
        )
        ∷ [])
      at

-- The `switch` of `buildCanonicalToolCall`, for an action that is not forbidden.
build_owned : ToolName → Envelope → ScenarioPreset → String → Option Built
unfolding deployment_call route_call quarantine_call alert_call cidr_prefix is_owned
build_owned request_decoy_deployment e p at =
    if is_owned p.action_ownership deploy_decoy
    then elim p.decoy_template [
      | none ↦ none
      | some template ↦
          if str_eq template ""
          then none
          else some (record {
            canonical = deployment_call e p template at;
            auth_reason = authorized_call request_decoy_deployment;
            narrow_reason = narrowed_call request_decoy_deployment;
          })
    ]
    else none
build_owned request_false_route_assignment e p at =
    if is_owned p.action_ownership assign_false_route
    then some (record {
      canonical = route_call e p at;
      auth_reason = authorized_call request_false_route_assignment;
      narrow_reason = narrowed_call request_false_route_assignment;
    })
    else none
build_owned request_source_quarantine e p at =
    if is_owned p.action_ownership quarantine_source
    then some (record {
      canonical = quarantine_call e p at;
      auth_reason = authorized_call request_source_quarantine;
      narrow_reason = narrowed_quarantine (cidr_prefix e.source_ip);
    })
    else none
build_owned request_operator_alert e p at =
    if is_owned p.action_ownership alert_operator
    then some (record {
      canonical = alert_call e p at;
      auth_reason = authorized_call request_operator_alert;
      narrow_reason = narrowed_call request_operator_alert;
    })
    else none
build_owned recommend_response_plan e p at = none

unfoldable pub build_canonical_tool_call :
    ToolName → Envelope → ScenarioPreset → String → Option Built
unfolding build_owned action_for_tool_name
build_canonical_tool_call t e p at = elim (action_for_tool_name t) [
  | none ↦ none
  | some a ↦
      if includes_action p.action_ownership.forbidden_actions a then none else build_owned t e p at
]

-- What is built is a call of the tool at the given time, for an action that is owned and not forbidden.
pub build_canonical-owned :
    (t : ToolName) (e : Envelope) (p : ScenarioPreset) (at : String) (b : Built)
    → build_canonical_tool_call t e p at ≡ some b
    → (a : ResponseAction) × (action_for_tool_name t ≡ some a)
      × (includes_action p.action_ownership.forbidden_actions a ≡ false)
      × (is_owned p.action_ownership a ≡ true)
      × (b.canonical.tool_name ≡ t)
      × (b.canonical.requested_at ≡ at)
unfolding build_canonical_tool_call
build_canonical-owned request_decoy_deployment e p at b h =
    (deploy_decoy, refl, ground arith, ground arith, ground arith, ground arith)
build_canonical-owned request_false_route_assignment e p at b h =
    (assign_false_route, refl, ground arith, ground arith, ground arith, ground arith)
build_canonical-owned request_source_quarantine e p at b h =
    (quarantine_source, refl, ground arith, ground arith, ground arith, ground arith)
build_canonical-owned request_operator_alert e p at b h =
    (alert_operator, refl, ground arith, ground arith, ground arith, ground arith)
build_canonical-owned recommend_response_plan e p at b h = cc
