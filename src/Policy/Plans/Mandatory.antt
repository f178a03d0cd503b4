-- ===== src/Policy/Plans/Mandatory.antt =====
-- On the mandatory actions of apps/worker/src/domain/autonomous-policy.ts.
use falseroute.Prelude.{
  ◌≡◌, refl, ◌∙◌, String, Bool, true, false, ◌||◌, not, Option, none, some, List, [], ◌∷◌, ◌++◌,
  map,
}
use mathlib.Core.List.{append-nil, map-append}
use falseroute.Scenario.{includes_action, decoy_credential_use, ScenarioPreset, ControlEvidence}
use falseroute.Scenario.Catalog.{scenario_catalog}
use falseroute.Policy.Tools.{
  ToolName, request_decoy_deployment, request_false_route_assignment, request_source_quarantine,
  request_operator_alert, ToolCall,
}
use falseroute.Policy.Canonical.{Envelope, Built, action_for_tool_name, build_canonical_tool_call}
use falseroute.Policy.Autonomous.{
  CanonicalActionPlan, EvaluatedAction, ModelAnalysis, ActionMap, action_map_get,
}
use falseroute.Policy.Plans.{
  action_tools, is_mandatory, is_negative, is_positive, policy_plan, plan_built, plan_option,
  plan_tool, plan_tools, evaluate_model, evaluate_autonomous_policy, is_model_available,
  build_canonical_action_plans,
}

abbrev calls : List CanonicalActionPlan → List ToolCall
calls = map (λ plan. plan.tool_call)

-- The canonical call of a tool, as a list of at most one.
abbrev pub canonical_calls : Option Built → List ToolCall
canonical_calls none = []
canonical_calls (some b) = b.canonical ∷ []

policy_plan-mandatory :
    (m : Bool) (p : ScenarioPreset) (t : ToolName) (b : Built)
    → is_mandatory p (action_for_tool_name t) ≡ true
    → calls (policy_plan m p t b) ≡ b.canonical ∷ []
unfolding policy_plan
policy_plan-mandatory m p t b h = rw h

plan_built-mandatory :
    (m : Bool) (p : ScenarioPreset) (t : ToolName) (o : Option EvaluatedAction) (b : Built)
    → is_mandatory p (action_for_tool_name t) ≡ true
    → calls (plan_built m p t o b) ≡ b.canonical ∷ []
unfolding plan_built
plan_built-mandatory m p t none b h = policy_plan-mandatory m p t b h
plan_built-mandatory m p t (some a) b h = rw h (policy_plan-mandatory m p t b h)

plan_option-mandatory :
    (m : Bool) (p : ScenarioPreset) (t : ToolName) (a : Option EvaluatedAction) (o : Option Built)
    → is_mandatory p (action_for_tool_name t) ≡ true
    → calls (plan_option m p t a o) ≡ canonical_calls o
unfolding plan_option
plan_option-mandatory m p t a none h = refl
plan_option-mandatory m p t a (some b) h = plan_built-mandatory m p t a b h

-- The round of a mandatory action plans the canonical call, whatever the model asked for.
plan_tool-mandatory :
    (e : Envelope) (p : ScenarioPreset) (actions : ActionMap) (m : Bool) (now : String)
    (t : ToolName)
    → is_mandatory p (action_for_tool_name t) ≡ true
    → calls (plan_tool e p actions m now t) ≡ canonical_calls (build_canonical_tool_call t e p now)
unfolding plan_tool
plan_tool-mandatory e p actions m now t h =
    plan_option-mandatory m p t (action_map_get actions t) (build_canonical_tool_call t e p now) h

plan_tool-unbuilt :
    (e : Envelope) (p : ScenarioPreset) (actions : ActionMap) (m : Bool) (now : String)
    (t : ToolName)
    → build_canonical_tool_call t e p now ≡ none
    → plan_tool e p actions m now t ≡ []
unfolding plan_tool plan_option
plan_tool-unbuilt e p actions m now t h = rw h

mandatory_route :
    is_mandatory
      (scenario_catalog decoy_credential_use)
      (action_for_tool_name request_false_route_assignment)
    ≡ true
unfolding is_mandatory action_for_tool_name scenario_catalog includes_action
mandatory_route = refl

mandatory_alert :
    is_mandatory
      (scenario_catalog decoy_credential_use)
      (action_for_tool_name request_operator_alert)
    ≡ true
unfolding is_mandatory action_for_tool_name scenario_catalog includes_action
mandatory_alert = refl

built_route :
    (e : Envelope) (now : String)
    → (b : Built) × (build_canonical_tool_call request_false_route_assignment e
          (scenario_catalog decoy_credential_use)
          now
        ≡ some b)
unfolding build_canonical_tool_call scenario_catalog includes_action
built_route e now = (_, refl)

built_alert :
    (e : Envelope) (now : String)
    → (b : Built) × (build_canonical_tool_call request_operator_alert e
          (scenario_catalog decoy_credential_use)
          now
        ≡ some b)
unfolding build_canonical_tool_call scenario_catalog includes_action
built_alert e now = (_, refl)

policy-actions :
    (e : Envelope) (evidence : Option ControlEvidence) (analysis : ModelAnalysis) (now : String)
    → e.scenario_kind ≡ decoy_credential_use
    → (is_negative evidence || not (is_positive evidence)) ≡ false
    → let p = scenario_catalog decoy_credential_use in
      (evaluate_autonomous_policy e evidence analysis now).canonical_actions_to_execute
      ≡ calls (
          plan_tools e p
            (evaluate_model e p analysis).1
            (is_model_available analysis)
            now
            action_tools)
unfolding evaluate_autonomous_policy build_canonical_action_plans
policy-actions e evidence analysis now k positive = rw positive (simp k)

module _ (e : Envelope) (actions : ActionMap) (m : Bool) (now : String) where
  abbrev P : ScenarioPreset
  P = scenario_catalog decoy_credential_use

  decoy-calls :
      calls (plan_tools e P actions m now action_tools)
      ≡ canonical_calls (build_canonical_tool_call request_false_route_assignment e P now)
        ++ canonical_calls (build_canonical_tool_call request_operator_alert e P now)
  unfolding plan_tools
  decoy-calls =
      rw
        (
          plan_tool-unbuilt e P actions m now request_decoy_deployment
              (unfold build_canonical_tool_call scenario_catalog includes_action in refl),
          plan_tool-unbuilt e P actions m now request_source_quarantine
              (unfold build_canonical_tool_call scenario_catalog includes_action in refl),
        )
        (rw (
          append-nil (plan_tool e P actions m now request_operator_alert),
          map-append (λ (plan : CanonicalActionPlan). plan.tool_call)
              (plan_tool e P actions m now request_false_route_assignment)
              (plan_tool e P actions m now request_operator_alert),
          plan_tool-mandatory e P actions m now request_false_route_assignment mandatory_route,
          plan_tool-mandatory e P actions m now request_operator_alert mandatory_alert,
        ))

-- The use of a decoy credential, when its evidence is a positive match and no negative control, is
-- answered by exactly the canonical false route and the canonical operator alert, in this order,
-- whatever the model answers, and also when it fails.
pub decoy_credential-calls :
    (e : Envelope) (evidence : Option ControlEvidence) (analysis : ModelAnalysis) (now : String)
    → e.scenario_kind ≡ decoy_credential_use
    → (is_negative evidence || not (is_positive evidence)) ≡ false
    → let p = scenario_catalog decoy_credential_use in
      (route alert : Built) × (build_canonical_tool_call request_false_route_assignment e p now
        ≡ some route)
      × (build_canonical_tool_call request_operator_alert e p now ≡ some alert)
      × ((evaluate_autonomous_policy e evidence analysis now).canonical_actions_to_execute
          ≡ route.canonical ∷ alert.canonical ∷ [])
decoy_credential-calls e evidence analysis now k positive =
    let p = scenario_catalog decoy_credential_use in
    let (route, r) = built_route e now in
    let (alert, a) = built_alert e now in
    (
      route,
      alert,
      r,
      a,
      policy-actions e evidence analysis now k positive
          ∙ decoy-calls e (evaluate_model e p analysis).1 (is_model_available analysis) now
          ∙ simp (r, a),
    )
