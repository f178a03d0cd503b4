-- ===== src/Policy/Plans/Owned.antt =====
-- On the plans of apps/worker/src/domain/autonomous-policy.ts against the catalog.
use falseroute.Prelude.{
  ℕ, suc, ltb, any_where, ◌≡◌, refl, inl, inr, String, Bool, ◌||◌, not, Option, none, some, List,
  [], ◌∷◌, All, All-append, Bool-cases,
}
use falseroute.Scenario.{ScenarioPreset, ControlEvidence}
use falseroute.Scenario.Catalog.{scenario_catalog}
use falseroute.Policy.Tools.{ToolName, recommend_response_plan, ToolCall, tool_eq}
use falseroute.Policy.Canonical.{
  Envelope, Built, action_for_tool_name, build_canonical_tool_call, build_canonical-owned,
}
use falseroute.Policy.Autonomous.{
  CanonicalActionPlan, EvaluatedAction, is_optional, evaluate_built, evaluate_action,
  evaluate_request, evaluate_single_model_request, ModelAnalysis, ActionMap, action_map_get,
  evaluate_requests, success, degraded_result,
}
use falseroute.Policy.Plans.{
  action_tools, is_mandatory, is_degraded_fallback, is_negative, is_positive, is_model_available,
  plan_option, policy_plan, plan_built, plan_tool, plan_tools, build_canonical_action_plans,
  evaluate_model, evaluate_autonomous_policy,
}

-- A call is the canonical one for its event: that of its own tool, built at its own time.
abbrev pub IsCanonical : Envelope → ScenarioPreset → ToolCall → Type 0
IsCanonical e p c =
    (b : Built) × (build_canonical_tool_call c.tool_name e p c.requested_at ≡ some b)
    × (b.canonical ≡ c)

-- The entries of the action map are canonical calls of their tools.
abbrev IsCanonicalEntry : Envelope → ScenarioPreset → ToolName × EvaluatedAction → Type 0
IsCanonicalEntry e p entry =
    IsCanonical e p entry.1.canonical × (entry.1.canonical.tool_name ≡ entry.0)

built-IsCanonical :
    (t : ToolName) (e : Envelope) (p : ScenarioPreset) (at : String) (b : Built)
    → build_canonical_tool_call t e p at ≡ some b
    → IsCanonical e p b.canonical
built-IsCanonical t e p at b h =
    let (a, action, free, owned, tool, time) = build_canonical-owned t e p at b h in
    (b, simp (tool, time) h, refl)

built-entries :
    (req : ToolCall) (e : Envelope) (p : ScenarioPreset) (b : Built)
    → build_canonical_tool_call req.tool_name e p req.requested_at ≡ some b
    → All (IsCanonicalEntry e p) (evaluate_built req p b).1
unfolding evaluate_built
built-entries req e p b h =
    let (a, action, free, owned, tool, time) =
      build_canonical-owned req.tool_name e p req.requested_at b h in
    elim (Bool-cases (is_optional p (action_for_tool_name req.tool_name))) [
      | inl yes_optional ↦
          rw yes_optional ((built-IsCanonical req.tool_name e p req.requested_at b h, tool), tt)
      | inr other ↦ rw other tt
    ]

action-entries :
    (req : ToolCall) (e : Envelope) (p : ScenarioPreset) (o : Option Built)
    → build_canonical_tool_call req.tool_name e p req.requested_at ≡ o
    → All (IsCanonicalEntry e p) (evaluate_action req e p o).1
unfolding evaluate_action
action-entries req e p none h = tt
action-entries req e p (some b) h = built-entries req e p b h

single-entries :
    (req : ToolCall) (e : Envelope) (p : ScenarioPreset)
    → All (IsCanonicalEntry e p) (evaluate_single_model_request req e p).1
unfolding evaluate_single_model_request
single-entries req e p = elim (Bool-cases (tool_eq req.tool_name recommend_response_plan)) [
  | inl plan ↦ rw plan tt
  | inr tool ↦
      rw tool
        (action-entries req e p (build_canonical_tool_call req.tool_name e p req.requested_at) refl)
]

request-entries :
    (confidence : ℕ) (seen : List ToolName) (e : Envelope) (p : ScenarioPreset) (index : ℕ)
    (req : ToolCall)
    → All (IsCanonicalEntry e p) (evaluate_request confidence seen e p index req).1
unfolding evaluate_request
request-entries confidence seen e p index req = elim (Bool-cases (ltb 5 index)) [
  | inl over ↦ rw over tt
  | inr within ↦ rw within (elim (Bool-cases (any_where (λ t. tool_eq t req.tool_name) seen)) [
    | inl again ↦ rw again tt
    | inr new ↦ rw new (elim (Bool-cases (ltb confidence 5000)) [
      | inl low ↦ rw low tt
      | inr high ↦ rw high (single-entries req e p)
    ])
  ])
]

requests-entries :
    (confidence : ℕ) (e : Envelope) (p : ScenarioPreset) (index : ℕ) (seen : List ToolName)
    (reqs : List ToolCall)
    → All (IsCanonicalEntry e p) (evaluate_requests confidence e p index seen reqs).1
unfolding evaluate_requests
requests-entries confidence e p index seen [] = tt
requests-entries confidence e p index seen (req ∷ reqs) =
    let seen' = (evaluate_request confidence seen e p index req).2 in
    All-append (IsCanonicalEntry e p) (evaluate_request confidence seen e p index req).1
      (evaluate_requests confidence e p (suc index) seen' reqs).1
      (request-entries confidence seen e p index req)
      (requests-entries confidence e p (suc index) seen' reqs)

model-entries :
    (e : Envelope) (p : ScenarioPreset) (analysis : ModelAnalysis)
    → All (IsCanonicalEntry e p) (evaluate_model e p analysis).1
unfolding evaluate_model
model-entries e p (success reqs confidence) = requests-entries confidence e p 1 [] reqs
model-entries e p degraded_result = tt

abbrev EntryFor : Envelope → ScenarioPreset → Option EvaluatedAction → Type 0
EntryFor e p none = Unit
EntryFor e p (some a) = IsCanonical e p a.canonical

get-EntryFor :
    (e : Envelope) (p : ScenarioPreset) (actions : ActionMap) (t : ToolName)
    → All (IsCanonicalEntry e p) actions
    → EntryFor e p (action_map_get actions t)
unfolding action_map_get
get-EntryFor e p [] t h = tt
get-EntryFor e p ((u, a) ∷ actions) t h = elim (Bool-cases (tool_eq u t)) [
  | inl hit ↦ rw hit (h.0.0)
  | inr miss ↦ rw miss (get-EntryFor e p actions t h.1)
]

abbrev IsCanonicalPlan : Envelope → ScenarioPreset → CanonicalActionPlan → Type 0
IsCanonicalPlan e p plan = IsCanonical e p plan.tool_call

policy_plan-IsCanonical :
    (m : Bool) (e : Envelope) (p : ScenarioPreset) (t : ToolName) (b : Built)
    → IsCanonical e p b.canonical
    → All (IsCanonicalPlan e p) (policy_plan m p t b)
unfolding policy_plan
policy_plan-IsCanonical m e p t b h =
    elim (Bool-cases (
      is_mandatory p (action_for_tool_name t)
      || is_degraded_fallback m p (action_for_tool_name t))) [
        | inl c ↦ rw c (h, tt)
        | inr c ↦ rw c tt
      ]

plan_built-IsCanonical :
    (m : Bool) (e : Envelope) (p : ScenarioPreset) (t : ToolName) (o : Option EvaluatedAction)
    (b : Built)
    → IsCanonical e p b.canonical
    → EntryFor e p o
    → All (IsCanonicalPlan e p) (plan_built m p t o b)
unfolding plan_built
plan_built-IsCanonical m e p t none b h entry = policy_plan-IsCanonical m e p t b h
plan_built-IsCanonical m e p t (some a) b h entry =
    elim (Bool-cases (is_mandatory p (action_for_tool_name t))) [
      | inl c ↦ rw c (policy_plan-IsCanonical m e p t b h)
      | inr c ↦ rw c (entry, tt)
    ]

plan_option-IsCanonical :
    (m : Bool) (e : Envelope) (p : ScenarioPreset) (t : ToolName) (now : String)
    (a : Option EvaluatedAction) (o : Option Built)
    → build_canonical_tool_call t e p now ≡ o
    → EntryFor e p a
    → All (IsCanonicalPlan e p) (plan_option m p t a o)
unfolding plan_option
plan_option-IsCanonical m e p t now a none h entry = tt
plan_option-IsCanonical m e p t now a (some b) h entry =
    plan_built-IsCanonical m e p t a b (built-IsCanonical t e p now b h) entry

plan_tools-IsCanonical :
    (e : Envelope) (p : ScenarioPreset) (actions : ActionMap) (m : Bool) (now : String)
    (tools : List ToolName)
    → All (IsCanonicalEntry e p) actions
    → All (IsCanonicalPlan e p) (plan_tools e p actions m now tools)
unfolding plan_tools plan_tool
plan_tools-IsCanonical e p actions m now [] h = tt
plan_tools-IsCanonical e p actions m now (t ∷ tools) h =
    All-append (IsCanonicalPlan e p)
      (plan_option m p t (action_map_get actions t) (build_canonical_tool_call t e p now))
      (plan_tools e p actions m now tools)
      (plan_option-IsCanonical m e p t now (action_map_get actions t)
        (build_canonical_tool_call t e p now) refl (get-EntryFor e p actions t h))
      (plan_tools-IsCanonical e p actions m now tools h)

-- Whatever the model answers, every planned call is the canonical call of its tool for the event and
-- its scenario's preset, as `build_canonical_tool_call` builds it from these alone and the time of
-- the call.
pub evaluate_autonomous_policy-IsCanonical :
    (e : Envelope) (evidence : Option ControlEvidence) (analysis : ModelAnalysis) (now : String)
    → All
        (λ plan. IsCanonical e (scenario_catalog e.scenario_kind) plan.tool_call)
        (evaluate_autonomous_policy e evidence analysis now).canonical_action_plans
unfolding evaluate_autonomous_policy build_canonical_action_plans
evaluate_autonomous_policy-IsCanonical e evidence analysis now =
    let preset = scenario_catalog e.scenario_kind in
    elim (Bool-cases (is_negative evidence || not (is_positive evidence))) [
      | inl c ↦ rw c tt
      | inr c ↦ rw c (
          plan_tools-IsCanonical e preset (evaluate_model e preset analysis).1
            (is_model_available analysis) now action_tools (model-entries e preset analysis))
    ]
