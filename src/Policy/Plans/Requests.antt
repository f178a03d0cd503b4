-- ===== src/Policy/Plans/Requests.antt =====
-- On what becomes of the model's requests in apps/worker/src/domain/autonomous-policy.ts.
use falseroute.Prelude.{
  ℕ, suc, ◌+◌, ◌≤◌, ◌<◌, ◌≡◌, refl, String, Bool, true, false, ◌||◌, not, Option, none, some, List,
  [], ◌∷◌, map, min, arith, ltb, lt→ltb, count_where, Bool-cases, inl, inr,
}
use falseroute.Scenario.{ScenarioPreset, ControlEvidence}
use falseroute.Scenario.Catalog.{scenario_catalog}
use falseroute.Policy.Tools.{ToolName, ToolCall}
use falseroute.Policy.Canonical.{Envelope, Built, build_canonical_tool_call}
use falseroute.Policy.Autonomous.{
  rejected, ModelRequestEvaluation, success, degraded_result, evaluate_response_plan,
  evaluate_built, evaluate_action, evaluate_single_model_request, evaluate_request,
  evaluate_requests,
}
use falseroute.Policy.Plans.{
  is_negative, is_positive, evaluate_model, is_model_available, reject_baseline,
  evaluate_autonomous_policy,
}

abbrev tools_of : List ModelRequestEvaluation → List ToolCall
tools_of = map (λ v. v.requested_tool)

-- The evaluation accepts the request, as it is or narrowed.
abbrev pub is_accepted : ModelRequestEvaluation → Bool
is_accepted v = elim v.outcome [ rejected ↦ false | _ ↦ true ]

plan-requested :
    (req : ToolCall) (e : Envelope) (p : ScenarioPreset)
    → (evaluate_response_plan req e p).requested_tool ≡ req
unfolding evaluate_response_plan
plan-requested req e p = refl

action-requested :
    (req : ToolCall) (e : Envelope) (p : ScenarioPreset) (o : Option Built)
    → (evaluate_action req e p o).0.requested_tool ≡ req
unfolding evaluate_action evaluate_built
action-requested req e p none = refl
action-requested req e p (some b) = ground arith

single-requested :
    (req : ToolCall) (e : Envelope) (p : ScenarioPreset)
    → (evaluate_single_model_request req e p).0.requested_tool ≡ req
unfolding evaluate_single_model_request
single-requested req e p = ground (
  arith,
  plan-requested req e p,
  action-requested req e p (build_canonical_tool_call req.tool_name e p req.requested_at),
)

request-requested :
    (confidence : ℕ) (seen : List ToolName) (e : Envelope) (p : ScenarioPreset) (index : ℕ)
    (req : ToolCall)
    → (evaluate_request confidence seen e p index req).0.requested_tool ≡ req
unfolding evaluate_request
request-requested confidence seen e p index req = ground (arith, single-requested req e p)

requests-requested :
    (confidence : ℕ) (e : Envelope) (p : ScenarioPreset) (index : ℕ) (seen : List ToolName)
    (reqs : List ToolCall)
    → tools_of (evaluate_requests confidence e p index seen reqs).0 ≡ reqs
unfolding evaluate_requests
requests-requested confidence e p index seen [] = refl
requests-requested confidence e p index seen (req ∷ reqs) =
    let seen' = (evaluate_request confidence seen e p index req).2 in
    rw (
      request-requested confidence seen e p index req,
      requests-requested confidence e p (suc index) seen' reqs,
    )

-- A request after the fifth, or of a model of low confidence, is not accepted and selects nothing.
request-refused :
    (confidence : ℕ) (seen : List ToolName) (e : Envelope) (p : ScenarioPreset) (index : ℕ)
    (req : ToolCall)
    → (ltb 5 index || ltb confidence 5000) ≡ true
    → (is_accepted (evaluate_request confidence seen e p index req).0 ≡ false)
      × ((evaluate_request confidence seen e p index req).1 ≡ [])
unfolding evaluate_request
request-refused confidence seen e p index req h = ground arith

-- The accepted requests from the given index on, and those before it, are five at most.
requests-accepted :
    (confidence : ℕ) (e : Envelope) (p : ScenarioPreset) (index : ℕ) (seen : List ToolName)
    (reqs : List ToolCall)
    → count_where is_accepted (evaluate_requests confidence e p index seen reqs).0 + min index 6 ≤ 6
unfolding evaluate_requests
requests-accepted confidence e p index seen [] = omega arith
requests-accepted confidence e p index seen (req ∷ reqs) =
    let seen' = (evaluate_request confidence seen e p index req).2 in
    ground (
      arith,
      request-refused confidence seen e p index req,
      requests-accepted confidence e p (suc index) seen' reqs,
    )

requests-low :
    (confidence : ℕ) (e : Envelope) (p : ScenarioPreset) (index : ℕ) (seen : List ToolName)
    (reqs : List ToolCall)
    → ltb confidence 5000 ≡ true
    → (evaluate_requests confidence e p index seen reqs).1 ≡ []
unfolding evaluate_requests
requests-low confidence e p index seen [] h = refl
requests-low confidence e p index seen (req ∷ reqs) h =
    let seen' = (evaluate_request confidence seen e p index req).2 in
    let none_here = request-refused confidence seen e p index req (ground arith) in
    rw (none_here.1, requests-low confidence e p (suc index) seen' reqs h)

baseline-requested : (reqs : List ToolCall) → tools_of (map reject_baseline reqs) ≡ reqs
unfolding reject_baseline
baseline-requested [] = refl
baseline-requested (req ∷ reqs) = rw (baseline-requested reqs)

baseline-accepted : (reqs : List ToolCall) → count_where is_accepted (map reject_baseline reqs) ≡ 0
unfolding reject_baseline
baseline-accepted [] = refl
baseline-accepted (req ∷ reqs) = baseline-accepted reqs

-- Each request of a successful model answer is evaluated exactly once, in the order of the answer,
-- and at most five of them are accepted, as they are or narrowed.
pub evaluations-once :
    (e : Envelope) (evidence : Option ControlEvidence) (reqs : List ToolCall) (confidence : ℕ)
    (now : String)
    → let r = evaluate_autonomous_policy e evidence (success reqs confidence) now in
      (map (λ v. v.requested_tool) r.request_evaluations ≡ reqs)
      × (count_where is_accepted r.request_evaluations ≤ 5)
unfolding evaluate_autonomous_policy evaluate_model
evaluations-once e evidence reqs confidence now =
    let p = scenario_catalog e.scenario_kind in
    elim (Bool-cases (is_negative evidence || not (is_positive evidence))) [
      | inl c ↦ rw c (baseline-requested reqs, omega (arith, baseline-accepted reqs))
      | inr c ↦ rw c (
        requests-requested confidence e p 1 [] reqs,
        omega (arith, requests-accepted confidence e p 1 [] reqs),
      )
    ]

-- A model answer whose confidence is below one half leads to the same plans and the same calls as a
-- failure of the model, whatever it requests.
pub low_confidence-degraded :
    (e : Envelope) (evidence : Option ControlEvidence) (reqs : List ToolCall) (confidence : ℕ)
    (now : String)
    → confidence < 5000
    → let low = evaluate_autonomous_policy e evidence (success reqs confidence) now in
      let failed = evaluate_autonomous_policy e evidence degraded_result now in
      (low.canonical_action_plans ≡ failed.canonical_action_plans)
      × (low.canonical_actions_to_execute ≡ failed.canonical_actions_to_execute)
unfolding evaluate_autonomous_policy evaluate_model is_model_available
low_confidence-degraded e evidence reqs confidence now h =
    let p = scenario_catalog e.scenario_kind in
    let low : ltb confidence 5000 ≡ true = lt→ltb confidence 5000 h in
    elim (Bool-cases (is_negative evidence || not (is_positive evidence))) [
      | inl c ↦ rw c (refl, refl)
      | inr c ↦ rw (c, requests-low confidence e p 1 [] reqs low, low) (refl, refl)
    ]
