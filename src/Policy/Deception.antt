-- ===== src/Policy/Deception.antt =====
-- `evaluateDeceptionPolicy` of apps/worker/src/domain/policy-engine.ts: the decision that it hands to
-- `DeceptionDecisionSchema.parse`, or the error that it throws. The check of the schema is not
-- modelled.
use falseroute.Prelude.{
  ℕ, ◌≡◌, ◌≢◌, ◌↔◌, String, str_eq, str_eq_iff, Bool, true, false, ◌||◌, not, Option, none, some,
  List, arith, leb, if◌then◌else◌, any_where, Result, ok, err,
}

-- The fields of an `IntrusionEvent` that are read.
pub record IntrusionEvent : Type 0 where
  pub id : String
  pub correlation_id : String
  pub used_decoy_credential : Bool
  pub decoy_identifier : Option String
  pub failed_login_count : ℕ
  pub risk_indicators : List String

-- The model's enrichment: its correlation, and whatever else it holds, in `content`.
pub record Enrichment : Type 0 where
  pub correlation_id : String
  pub content : String

pub data DeceptionAction : Type 0 where
  assign_false_route alert_operator observe : DeceptionAction

pub data MatchedPolicy : Type 0 where
  decoy_credential_trigger high_risk_threshold default_observation : MatchedPolicy

pub data ContainmentMode : Type 0 where
  simulated : ContainmentMode

pub data DecisionProvenance : Type 0 where
  derived : DecisionProvenance

pub record DeceptionDecision : Type 0 where
  pub id : String
  pub event_id : String
  pub correlation_id : String
  pub action : DeceptionAction
  pub assigned_false_route : Option String
  pub matched_policy : MatchedPolicy
  pub containment_mode : ContainmentMode
  pub decision_provenance : DecisionProvenance
  pub decided_at : String
  pub model_enrichment : Option Enrichment
  pub rule_version : String
  pub evaluated_at : String

pub data DeceptionError : Type 0 where
  correlation_mismatch : (event enrichment : String) → DeceptionError

unfoldable pub is_other_correlation : IntrusionEvent → Option Enrichment → Bool
is_other_correlation e none = false
is_other_correlation e (some m) = not (str_eq m.correlation_id e.correlation_id)

abbrev enrichment_correlation : Option Enrichment → String
enrichment_correlation none = ""
enrichment_correlation (some m) = m.correlation_id

unfoldable pub is_decoy : Bool → Option String → Bool
is_decoy true (some d) = str_eq d "mock-admin-decoy-creds"
is_decoy _ _ = false

unfoldable pub is_risk_indicator : String → Bool
is_risk_indicator i =
    str_eq "RAPID_FAILURE_SEQUENCE" i
    || (str_eq "SUSPICIOUS_ANOMALY" i || str_eq "CREDENTIAL_BURST" i)

unfoldable pub is_high_risk : IntrusionEvent → Bool
is_high_risk e = leb 5 e.failed_login_count || any_where is_risk_indicator e.risk_indicators

-- The action, the route and the policy of an event.
unfoldable pub choose_action : IntrusionEvent → DeceptionAction × Option String × MatchedPolicy
choose_action e =
    if is_decoy e.used_decoy_credential e.decoy_identifier
    then (assign_false_route, some "mock-admin-decoy", decoy_credential_trigger)
    else if is_high_risk e
    then (alert_operator, none, high_risk_threshold)
    else (observe, none, default_observation)

unfoldable pub evaluate_deception_policy :
    IntrusionEvent
    → Option Enrichment
    → (decision_id evaluated_at : String) → Result DeceptionError DeceptionDecision
evaluate_deception_policy e enrichment id at =
    let (action, route, policy) = choose_action e in
    if is_other_correlation e enrichment
    then err (correlation_mismatch e.correlation_id (enrichment_correlation enrichment))
    else ok (record {
      id = id;
      event_id = e.id;
      correlation_id = e.correlation_id;
      action = action;
      assigned_false_route = route;
      matched_policy = policy;
      containment_mode = simulated;
      decision_provenance = derived;
      decided_at = at;
      model_enrichment = enrichment;
      rule_version = "2026.08.1";
      evaluated_at = at;
    })

is_decoy_iff :
    (used : Bool) (d : Option String)
    → (is_decoy used d ≡ true) ↔ ((used ≡ true) × (d ≡ some "mock-admin-decoy-creds"))
unfolding is_decoy
is_decoy_iff true (some d) = ground (arith, str_eq_iff d "mock-admin-decoy-creds")
is_decoy_iff true none = ground arith
is_decoy_iff false d = ground arith

-- A decision assigns a false route exactly to an event that used a credential of the approved decoy,
-- the route is then the mock decoy and otherwise there is none, and the containment is simulated.
pub evaluate_deception_policy-route :
    (e : IntrusionEvent) (m : Option Enrichment) (id at : String) (d : DeceptionDecision)
    → evaluate_deception_policy e m id at ≡ ok d
    → ((d.action ≡ assign_false_route)
        ↔ ((e.used_decoy_credential ≡ true) × (e.decoy_identifier ≡ some "mock-admin-decoy-creds")))
      × ((d.assigned_false_route ≡ some "mock-admin-decoy") ↔ (d.action ≡ assign_false_route))
      × ((d.assigned_false_route ≡ none) ↔ (d.action ≢ assign_false_route))
      × (d.containment_mode ≡ simulated)
unfolding evaluate_deception_policy choose_action
evaluate_deception_policy-route e m id at d h =
    ground (arith, is_decoy_iff e.used_decoy_credential e.decoy_identifier)
