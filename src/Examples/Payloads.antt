-- ===== src/Examples/Payloads.antt =====
-- Runs of `validatePayloadBounds` of packages/contracts/src/scenario.ts.
use falseroute.Prelude.{ℕ, ◌≤◌, ◌≡◌, ◌↔◌, refl, codes, none, some}
use falseroute.Scenario.Payload.{
  Payload, leaf, string, array, object, no_elements, element, no_properties, property,
  PayloadBoundsOptions, bounds_of, too_deep, too_many_keys, property_count, check_node,
  validate_payload_bounds,
}
use falseroute.Scenario.Payload.Measures.{nesting, key_total, longest}
use falseroute.Scenario.Payload.Bounds.{validate_payload_bounds_iff}

abbrev defaults : PayloadBoundsOptions
defaults = record {
  depth_option = none;
  keys_option = none;
  string_length_option = none;
  total_bytes_option = none;
}

-- At most two levels and one key.
abbrev narrow : PayloadBoundsOptions
narrow = record defaults { depth_option = some 2; keys_option = some 1 }

-- `{ "path": "/.env", "hits": [3] }`.
abbrev probe : Payload
probe = object (
    property (codes "path") (string (codes "/.env"))
      (property (codes "hits") (array (element leaf no_elements)) no_properties))

-- A size for the text of this payload.
abbrev probe_size : Payload → ℕ
probe_size p = 29

accepted : validate_payload_bounds probe_size probe defaults ≡ none
unfolding validate_payload_bounds bounds_of check_node property_count
accepted = refl

refused : validate_payload_bounds probe_size probe narrow ≡ some too_many_keys
unfolding validate_payload_bounds bounds_of check_node property_count
refused = refl

too_nested :
    validate_payload_bounds probe_size probe (record narrow { keys_option = some 2 })
    ≡ some too_deep
unfolding validate_payload_bounds bounds_of check_node property_count
too_nested = refl

validate_payload_bounds_iff_example : (validate_payload_bounds probe_size probe defaults ≡ none) ↔ (
    (probe_size probe ≤ (bounds_of defaults).max_total_bytes)
    × (nesting probe ≤ (bounds_of defaults).max_depth)
    × (key_total probe ≤ (bounds_of defaults).max_keys)
    × (longest probe ≤ (bounds_of defaults).max_string_length))
validate_payload_bounds_iff_example = validate_payload_bounds_iff probe_size probe defaults
