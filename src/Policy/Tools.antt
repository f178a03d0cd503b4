-- ===== src/Policy/Tools.antt =====
-- Tool calls (packages/contracts/src/tool-execution.ts) and the policy of the tool gateway
-- (apps/worker/src/tools/tool-policy.ts).
use falseroute.Prelude.{
  ℕ, String, str_eq, Bool, true, false, ◌||◌, not, Option, none, some, List, [], ◌∷◌, if◌then◌else◌,
}
use falseroute.Scenario.{
  ScenarioKind, env_file_probe, wordpress_config_probe, suspicious_ip_burst, sip_invite_flood,
  token_tamper, path_traversal_probe, decoy_credential_use,
}

pub data ToolName : Type 0 where
  recommend_response_plan request_decoy_deployment request_false_route_assignment : ToolName
  request_source_quarantine request_operator_alert : ToolName

-- A value of a call's parameters. Numbers are counted in ten-thousandths; `other` is any value that
-- is none of the named ones.
pub data Value : Type 0 where
  text : String → Value
  number : ℕ → Value
  texts : List String → Value
  other : Value

pub record ToolCall : Type 0 where
  pub tool_call_id : String
  pub tool_name : ToolName
  pub parameters : List (String × Value)
  pub requested_at : String

unfoldable pub tool_eq : ToolName → ToolName → Bool
tool_eq recommend_response_plan recommend_response_plan = true
tool_eq request_decoy_deployment request_decoy_deployment = true
tool_eq request_false_route_assignment request_false_route_assignment = true
tool_eq request_source_quarantine request_source_quarantine = true
tool_eq request_operator_alert request_operator_alert = true
tool_eq _ _ = false

-- `parameters[key]`.
unfoldable pub parameter : List (String × Value) → String → Option Value
parameter [] k = none
parameter ((j, v) ∷ entries) k = if str_eq j k then some v else parameter entries k

pub record ToolExecutionContext : Type 0 where
  pub event_id : String
  pub correlation_id : String
  pub scenario_kind : ScenarioKind
  pub source_ip : String
  pub is_positive_match : Bool
  pub is_negative_control : Bool

pub data PolicyReason : Type 0 where
  negative_control_rejected decoy_requires_route decoy_diversion probe_before_quarantine :
      PolicyReason
  containment_authorized quarantine_not_decoy quarantine_authorized general_passed : PolicyReason

pub record PolicyDecision : Type 0 where
  pub authorized : Bool
  pub reason : PolicyReason

abbrev decision : Bool → PolicyReason → PolicyDecision
decision b r = record { authorized = b; reason = r }

unfoldable pub is_configuration_probe : ScenarioKind → Bool
is_configuration_probe env_file_probe = true
is_configuration_probe wordpress_config_probe = true
is_configuration_probe path_traversal_probe = true
is_configuration_probe _ = false

unfoldable pub is_volumetric_or_tamper : ScenarioKind → Bool
is_volumetric_or_tamper suspicious_ip_burst = true
is_volumetric_or_tamper sip_invite_flood = true
is_volumetric_or_tamper token_tamper = true
is_volumetric_or_tamper _ = false

unfoldable pub is_decoy_credential_use : ScenarioKind → Bool
is_decoy_credential_use decoy_credential_use = true
is_decoy_credential_use _ = false

-- The part of `evaluateToolPolicy` after the check of the control evidence.
unfoldable pub evaluate_scenario_policy : ToolName → ScenarioKind → PolicyDecision
unfolding tool_eq is_configuration_probe is_volumetric_or_tamper is_decoy_credential_use
evaluate_scenario_policy t k =
    if is_decoy_credential_use k
    then (if tool_eq t request_source_quarantine
        then decision false decoy_requires_route
        else decision true decoy_diversion)
    else if is_configuration_probe k
    then (if tool_eq t request_source_quarantine
        then decision false probe_before_quarantine
        else decision true containment_authorized)
    else if is_volumetric_or_tamper k
    then (if tool_eq t request_decoy_deployment || tool_eq t request_false_route_assignment
        then decision false quarantine_not_decoy
        else decision true quarantine_authorized)
    else decision true general_passed

unfoldable pub evaluate_tool_policy : ToolName → ToolExecutionContext → PolicyDecision
unfolding evaluate_scenario_policy
evaluate_tool_policy t c =
    if c.is_negative_control || not c.is_positive_match
    then decision false negative_control_rejected
    else evaluate_scenario_policy t c.scenario_kind

-- The estimate in ten-thousandths of a dollar.
unfoldable pub estimate_spend_usd : ToolName → ℕ
estimate_spend_usd request_decoy_deployment = 5000
estimate_spend_usd request_false_route_assignment = 1000
estimate_spend_usd request_source_quarantine = 1000
estimate_spend_usd _ = 0

unfoldable pub resolve_provider_name : ToolName → String
resolve_provider_name request_decoy_deployment = "CLOUD_RUN"
resolve_provider_name request_false_route_assignment = "FALSE_ROUTE"
resolve_provider_name request_source_quarantine = "CLOUD_ARMOR"
resolve_provider_name _ = "INTERNAL"
