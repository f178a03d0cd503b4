-- ===== src/Scenario/Catalog.antt =====
-- `SCENARIO_CATALOG` of packages/contracts/src/scenario.ts.
use falseroute.Prelude.{[], ◌∷◌, none, some}
use falseroute.Scenario.{
  ScenarioKind, env_file_probe, wordpress_config_probe, suspicious_ip_burst, sip_invite_flood,
  token_tamper, path_traversal_probe, decoy_credential_use, sql_injection_probe,
  cloud_metadata_ssrf_probe, credential_stuffing_burst, deploy_decoy, assign_false_route,
  quarantine_source, alert_operator, reject_access, ScenarioPreset,
}

unfoldable pub env_file_probe_preset : ScenarioPreset
env_file_probe_preset = record {
  kind = env_file_probe;
  title = ".env Configuration Probe";
  expected_policy = "POLICY_ENV_PROBE_CONTAINMENT";
  allowed_actions = deploy_decoy ∷ assign_false_route ∷ alert_operator ∷ [];
  action_ownership = record {
    mandatory_actions = alert_operator ∷ [];
    optional_actions = deploy_decoy ∷ assign_false_route ∷ [];
    forbidden_actions = quarantine_source ∷ reject_access ∷ [];
    degraded_fallback_actions = alert_operator ∷ [];
  };
  decoy_template = some "mock-admin-decoy";
  max_risk_score = 85;
  default_ttl_seconds = 300;
  max_ttl_seconds = 1800;
}

unfoldable pub wordpress_config_probe_preset : ScenarioPreset
wordpress_config_probe_preset = record {
  kind = wordpress_config_probe;
  title = "WordPress Configuration Probe";
  expected_policy = "POLICY_WORDPRESS_PROBE_CONTAINMENT";
  allowed_actions = deploy_decoy ∷ assign_false_route ∷ alert_operator ∷ [];
  action_ownership = record {
    mandatory_actions = alert_operator ∷ [];
    optional_actions = deploy_decoy ∷ assign_false_route ∷ [];
    forbidden_actions = quarantine_source ∷ reject_access ∷ [];
    degraded_fallback_actions = alert_operator ∷ [];
  };
  decoy_template = some "mock-wordpress-decoy";
  max_risk_score = 80;
  default_ttl_seconds = 300;
  max_ttl_seconds = 1800;
}

unfoldable pub suspicious_ip_burst_preset : ScenarioPreset
suspicious_ip_burst_preset = record {
  kind = suspicious_ip_burst;
  title = "Suspicious IP Burst";
  expected_policy = "POLICY_IP_BURST_QUARANTINE";
  allowed_actions = quarantine_source ∷ alert_operator ∷ [];
  action_ownership = record {
    mandatory_actions = alert_operator ∷ [];
    optional_actions = quarantine_source ∷ [];
    forbidden_actions = deploy_decoy ∷ assign_false_route ∷ reject_access ∷ [];
    degraded_fallback_actions = alert_operator ∷ [];
  };
  decoy_template = none;
  max_risk_score = 90;
  default_ttl_seconds = 600;
  max_ttl_seconds = 3600;
}

unfoldable pub sip_invite_flood_preset : ScenarioPreset
sip_invite_flood_preset = record {
  kind = sip_invite_flood;
  title = "SIP INVITE Flood Telemetry";
  expected_policy = "POLICY_SIP_FLOOD_QUARANTINE";
  allowed_actions = quarantine_source ∷ alert_operator ∷ [];
  action_ownership = record {
    mandatory_actions = alert_operator ∷ [];
    optional_actions = quarantine_source ∷ [];
    forbidden_actions = deploy_decoy ∷ assign_false_route ∷ reject_access ∷ [];
    degraded_fallback_actions = alert_operator ∷ [];
  };
  decoy_template = none;
  max_risk_score = 95;
  default_ttl_seconds = 600;
  max_ttl_seconds = 3600;
}

unfoldable pub token_tamper_preset : ScenarioPreset
token_tamper_preset = record {
  kind = token_tamper;
  title = "Administrative Token Tamper";
  expected_policy = "POLICY_TOKEN_TAMPER_REJECT_AND_ALERT";
  allowed_actions = quarantine_source ∷ alert_operator ∷ reject_access ∷ [];
  action_ownership = record {
    mandatory_actions = reject_access ∷ alert_operator ∷ [];
    optional_actions = quarantine_source ∷ [];
    forbidden_actions = deploy_decoy ∷ assign_false_route ∷ [];
    degraded_fallback_actions = reject_access ∷ alert_operator ∷ [];
  };
  decoy_template = none;
  max_risk_score = 95;
  default_ttl_seconds = 900;
  max_ttl_seconds = 3600;
}

unfoldable pub path_traversal_probe_preset : ScenarioPreset
path_traversal_probe_preset = record {
  kind = path_traversal_probe;
  title = "Path Traversal Probe";
  expected_policy = "POLICY_PATH_TRAVERSAL_CONTAINMENT";
  allowed_actions = deploy_decoy ∷ assign_false_route ∷ alert_operator ∷ [];
  action_ownership = record {
    mandatory_actions = alert_operator ∷ [];
    optional_actions = deploy_decoy ∷ assign_false_route ∷ [];
    forbidden_actions = quarantine_source ∷ reject_access ∷ [];
    degraded_fallback_actions = alert_operator ∷ [];
  };
  decoy_template = some "mock-admin-decoy";
  max_risk_score = 85;
  default_ttl_seconds = 300;
  max_ttl_seconds = 1800;
}

unfoldable pub decoy_credential_use_preset : ScenarioPreset
decoy_credential_use_preset = record {
  kind = decoy_credential_use;
  title = "Decoy Credential Use";
  expected_policy = "POLICY_DECOY_CREDENTIAL_DIVERSION";
  allowed_actions = assign_false_route ∷ alert_operator ∷ [];
  action_ownership = record {
    mandatory_actions = assign_false_route ∷ alert_operator ∷ [];
    optional_actions = [];
    forbidden_actions = deploy_decoy ∷ quarantine_source ∷ reject_access ∷ [];
    degraded_fallback_actions = alert_operator ∷ [];
  };
  decoy_template = some "mock-admin-decoy";
  max_risk_score = 100;
  default_ttl_seconds = 300;
  max_ttl_seconds = 1800;
}

unfoldable pub sql_injection_probe_preset : ScenarioPreset
sql_injection_probe_preset = record {
  kind = sql_injection_probe;
  title = "SQL Injection Probe";
  expected_policy = "POLICY_SQL_PROBE_ALERT";
  allowed_actions = alert_operator ∷ deploy_decoy ∷ assign_false_route ∷ [];
  action_ownership = record {
    mandatory_actions = alert_operator ∷ [];
    optional_actions = deploy_decoy ∷ assign_false_route ∷ [];
    forbidden_actions = quarantine_source ∷ reject_access ∷ [];
    degraded_fallback_actions = alert_operator ∷ [];
  };
  decoy_template = some "mock-admin-decoy";
  max_risk_score = 85;
  default_ttl_seconds = 300;
  max_ttl_seconds = 1800;
}

unfoldable pub cloud_metadata_ssrf_probe_preset : ScenarioPreset
cloud_metadata_ssrf_probe_preset = record {
  kind = cloud_metadata_ssrf_probe;
  title = "Cloud Metadata SSRF Probe";
  expected_policy = "POLICY_METADATA_SSRF_REJECT_AND_ALERT";
  allowed_actions = reject_access ∷ alert_operator ∷ quarantine_source ∷ [];
  action_ownership = record {
    mandatory_actions = reject_access ∷ alert_operator ∷ [];
    optional_actions = quarantine_source ∷ [];
    forbidden_actions = deploy_decoy ∷ assign_false_route ∷ [];
    degraded_fallback_actions = reject_access ∷ alert_operator ∷ [];
  };
  decoy_template = none;
  max_risk_score = 95;
  default_ttl_seconds = 600;
  max_ttl_seconds = 3600;
}

unfoldable pub credential_stuffing_burst_preset : ScenarioPreset
credential_stuffing_burst_preset = record {
  kind = credential_stuffing_burst;
  title = "Credential Stuffing Burst";
  expected_policy = "POLICY_CREDENTIAL_STUFFING_REJECT_AND_ALERT";
  allowed_actions = reject_access ∷ alert_operator ∷ quarantine_source ∷ [];
  action_ownership = record {
    mandatory_actions = reject_access ∷ alert_operator ∷ [];
    optional_actions = quarantine_source ∷ [];
    forbidden_actions = [];
    degraded_fallback_actions = reject_access ∷ alert_operator ∷ [];
  };
  decoy_template = none;
  max_risk_score = 95;
  default_ttl_seconds = 600;
  max_ttl_seconds = 3600;
}

unfoldable pub scenario_catalog : ScenarioKind → ScenarioPreset
unfolding env_file_probe_preset wordpress_config_probe_preset suspicious_ip_burst_preset
    sip_invite_flood_preset token_tamper_preset path_traversal_probe_preset
    decoy_credential_use_preset sql_injection_probe_preset cloud_metadata_ssrf_probe_preset
    credential_stuffing_burst_preset
scenario_catalog env_file_probe = env_file_probe_preset
scenario_catalog wordpress_config_probe = wordpress_config_probe_preset
scenario_catalog suspicious_ip_burst = suspicious_ip_burst_preset
scenario_catalog sip_invite_flood = sip_invite_flood_preset
scenario_catalog token_tamper = token_tamper_preset
scenario_catalog path_traversal_probe = path_traversal_probe_preset
scenario_catalog decoy_credential_use = decoy_credential_use_preset
scenario_catalog sql_injection_probe = sql_injection_probe_preset
scenario_catalog cloud_metadata_ssrf_probe = cloud_metadata_ssrf_probe_preset
scenario_catalog credential_stuffing_burst = credential_stuffing_burst_preset
