-- ===== src/Policy/Plans/Model.antt =====
-- The plans against the gateway's policy and against the model's answers.
use falseroute.Prelude.{
  ◌≡◌, String, true, false, ◌||◌, not, Option, some, [], arith, All, All-mono, inl, inr, Bool-cases,
}
use falseroute.Scenario.{
  ScenarioKind, env_file_probe, ResponseAction, ScenarioPreset, ControlEvidence, includes_action,
}
use falseroute.Scenario.Catalog.{scenario_catalog}
use falseroute.Policy.Tools.{
  ToolName, request_decoy_deployment, ToolCall, ToolExecutionContext, evaluate_tool_policy,
  evaluate_scenario_policy,
}
use falseroute.Policy.Canonical.{Envelope, action_for_tool_name, build_canonical-owned, is_owned}
use falseroute.Policy.Autonomous.{ModelAnalysis}
use falseroute.Policy.Plans.{is_negative, is_positive, evaluate_autonomous_policy}
use falseroute.Policy.Plans.Owned.{IsCanonical, evaluate_autonomous_policy-IsCanonical}

-- The gateway authorises each tool whose action the catalog owns and does not forbid.
catalog-authorized :
    (t : ToolName) (k : ScenarioKind) (a : ResponseAction)
    → action_for_tool_name t ≡ some a
    → includes_action (scenario_catalog k).action_ownership.forbidden_actions a ≡ false
    → is_owned (scenario_catalog k).action_ownership a ≡ true
    → (evaluate_scenario_policy t k).authorized ≡ true
unfolding action_for_tool_name includes_action scenario_catalog is_owned evaluate_scenario_policy
catalog-authorized request_decoy_deployment env_file_probe a h f o = ground arith
catalog-authorized _ _ a h f o = ground arith

-- A planned tool stands for an action that the preset owns and does not forbid, and the gateway's
-- policy authorises it.
pub record IsAllowed (p : ScenarioPreset) (c : ToolExecutionContext) (t : ToolName) : Type 0 where
  pub action : ResponseAction
  pub acts : action_for_tool_name t ≡ some action
  pub not_forbidden : includes_action p.action_ownership.forbidden_actions action ≡ false
  pub is_own : is_owned p.action_ownership action ≡ true
  pub admitted : (evaluate_tool_policy t c).authorized ≡ true

canonical-IsAllowed :
    (e : Envelope) (c : ToolExecutionContext) (call : ToolCall)
    → c.scenario_kind ≡ e.scenario_kind
    → c.is_negative_control ≡ false
    → c.is_positive_match ≡ true
    → IsCanonical e (scenario_catalog e.scenario_kind) call
    → IsAllowed (scenario_catalog e.scenario_kind) c call.tool_name
unfolding evaluate_tool_policy
canonical-IsAllowed e c call k n m (b, h, same) =
    let (a, acts, free, owned, tool, time) =
      build_canonical-owned call.tool_name e (scenario_catalog e.scenario_kind) call.requested_at b
        h in
    record {
      action = a;
      acts = acts;
      not_forbidden = free;
      is_own = owned;
      admitted = rw (n, m, k) (catalog-authorized call.tool_name e.scenario_kind a acts free owned);
    }

module _ (e : Envelope) (evidence : Option ControlEvidence) (analysis : ModelAnalysis)
    (now : String) (baseline : (is_negative evidence || not (is_positive evidence)) ≡ true) where
  baseline-plans : (evaluate_autonomous_policy e evidence analysis now).canonical_action_plans ≡ []
  unfolding evaluate_autonomous_policy
  baseline-plans = rw baseline

  baseline-actions :
      (evaluate_autonomous_policy e evidence analysis now).canonical_actions_to_execute ≡ []
  unfolding evaluate_autonomous_policy
  baseline-actions = rw baseline

-- Every plan is for an action that the scenario's preset owns and does not forbid, and the tool
-- gateway's own policy, asked about the same event and evidence, authorises its tool. Evidence that
-- is a negative control, or no positive match, has no plan at all and no call to execute.
pub plans-IsAllowed :
    (e : Envelope) (evidence : Option ControlEvidence) (analysis : ModelAnalysis) (now : String)
    (c : ToolExecutionContext)
    → c.scenario_kind ≡ e.scenario_kind
    → c.is_negative_control ≡ is_negative evidence
    → c.is_positive_match ≡ is_positive evidence
    → let r = evaluate_autonomous_policy e evidence analysis now in
      All
        (λ plan. IsAllowed (scenario_catalog e.scenario_kind) c plan.tool_call.tool_name)
        r.canonical_action_plans
      × (((is_negative evidence || not (is_positive evidence)) ≡ true)
          → (r.canonical_action_plans ≡ []) × (r.canonical_actions_to_execute ≡ []))
plans-IsAllowed e evidence analysis now c k n m =
    let preset = scenario_catalog e.scenario_kind in
    let r = evaluate_autonomous_policy e evidence analysis now in
    (
      elim (Bool-cases (is_negative evidence || not (is_positive evidence))) [
        | inl b ↦ rw (baseline-plans e evidence analysis now b) tt
        | inr b ↦
            All-mono (λ plan. IsCanonical e preset plan.tool_call)
              (λ plan. IsAllowed preset c plan.tool_call.tool_name) r.canonical_action_plans
              (λ plan h. canonical-IsAllowed e c plan.tool_call k (ground arith) (ground arith) h)
              (evaluate_autonomous_policy-IsCanonical e evidence analysis now)
      ],
      λ b. (baseline-plans e evidence analysis now b, baseline-actions e evidence analysis now b),
    )
