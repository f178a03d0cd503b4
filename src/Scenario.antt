-- ===== src/Scenario.antt =====
-- The scenario catalog: packages/contracts/src/scenario.ts, with the response actions of
-- packages/contracts/src/primitives.ts.
pub mod Catalog
pub mod Ownership
pub mod Payload
use falseroute.Prelude.{
  ℕ, ◌≡◌, refl, String, str_eq, Bool, true, false, ◌||◌, Option, none, some, List, [], ◌∷◌, arith,
  any_where,
}

pub data ScenarioKind : Type 0 where
  env_file_probe wordpress_config_probe suspicious_ip_burst sip_invite_flood : ScenarioKind
  token_tamper path_traversal_probe decoy_credential_use sql_injection_probe : ScenarioKind
  cloud_metadata_ssrf_probe credential_stuffing_burst : ScenarioKind

pub data ResponseAction : Type 0 where
  recommend_plan deploy_decoy assign_false_route quarantine_source : ResponseAction
  alert_operator reject_access no_action : ResponseAction

unfoldable pub action_eq : ResponseAction → ResponseAction → Bool
action_eq recommend_plan recommend_plan = true
action_eq deploy_decoy deploy_decoy = true
action_eq assign_false_route assign_false_route = true
action_eq quarantine_source quarantine_source = true
action_eq alert_operator alert_operator = true
action_eq reject_access reject_access = true
action_eq no_action no_action = true
action_eq _ _ = false

-- The text that stands for an action in messages and parameters.
unfoldable pub action_text : ResponseAction → String
action_text recommend_plan = "RECOMMEND_PLAN"
action_text deploy_decoy = "DEPLOY_DECOY"
action_text assign_false_route = "ASSIGN_FALSE_ROUTE"
action_text quarantine_source = "QUARANTINE_SOURCE"
action_text alert_operator = "ALERT_OPERATOR"
action_text reject_access = "REJECT_ACCESS"
action_text no_action = "NO_ACTION"

-- `actions.includes(action)`.
unfoldable pub includes_action : List ResponseAction → ResponseAction → Bool
unfolding action_eq
includes_action [] a = false
includes_action (b ∷ actions) a = action_eq b a || includes_action actions a

pub record ScenarioActionOwnership : Type 0 where
  pub mandatory_actions : List ResponseAction
  pub optional_actions : List ResponseAction
  pub forbidden_actions : List ResponseAction
  pub degraded_fallback_actions : List ResponseAction

-- A preset, without its description, its negative control and its default evidence.
pub record ScenarioPreset : Type 0 where
  pub kind : ScenarioKind
  pub title : String
  pub expected_policy : String
  pub allowed_actions : List ResponseAction
  pub action_ownership : ScenarioActionOwnership
  pub decoy_template : Option String
  pub max_risk_score : ℕ
  pub default_ttl_seconds : ℕ
  pub max_ttl_seconds : ℕ

-- The fields of a scenario's evidence that its control check reads.
pub record ControlEvidence : Type 0 where
  pub is_positive_match : Bool
  pub is_negative_control : Option Bool

-- The text that stands for a kind.
unfoldable pub kind_text : ScenarioKind → String
kind_text env_file_probe = "ENV_FILE_PROBE"
kind_text wordpress_config_probe = "WORDPRESS_CONFIG_PROBE"
kind_text suspicious_ip_burst = "SUSPICIOUS_IP_BURST"
kind_text sip_invite_flood = "SIP_INVITE_FLOOD"
kind_text token_tamper = "TOKEN_TAMPER"
kind_text path_traversal_probe = "PATH_TRAVERSAL_PROBE"
kind_text decoy_credential_use = "DECOY_CREDENTIAL_USE"
kind_text sql_injection_probe = "SQL_INJECTION_PROBE"
kind_text cloud_metadata_ssrf_probe = "CLOUD_METADATA_SSRF_PROBE"
kind_text credential_stuffing_burst = "CREDENTIAL_STUFFING_BURST"
