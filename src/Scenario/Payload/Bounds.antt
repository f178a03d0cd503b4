-- ===== src/Scenario/Payload/Bounds.antt =====
-- Which payloads `validatePayloadBounds` of packages/contracts/src/scenario.ts accepts.
use falseroute.Prelude.{ℕ, ◌+◌, ◌≤◌, ◌≡◌, ◌↔◌, inl, inr, none, arith, ltb, Bool-cases}
use falseroute.Scenario.Payload.{
  Payload, leaf, string, array, object, Elements, no_elements, element, Properties, no_properties,
  property, PayloadBounds, PayloadBoundsOptions, bounds_of, property_count, validate_payload_bounds,
}
use falseroute.Scenario.Payload.Measures.{
  nesting, key_total, longest, NodeChecked, ElementsChecked, PropertiesChecked,
}
use falseroute.Scenario.Payload.Steps.{
  leaf_checked, string_checked, array_checked, object_checked, element_checked, property_checked,
  no_elements_checked, no_properties_checked,
}

mutual
  node_checked :
      (b : PayloadBounds) (depth keys : ℕ) (p : Payload)
      → keys ≤ b.max_keys
      → NodeChecked b depth keys p
  node_checked b depth keys leaf h = leaf_checked b depth keys h
  node_checked b depth keys (string s) h = string_checked b depth keys s h
  node_checked b depth keys (array elements) h =
      array_checked b depth keys elements (elements_checked b (depth + 1) keys elements h)
  node_checked b depth keys (object properties) h = object_checked b depth keys properties (λ d few.
      properties_checked b (depth + 1) (keys + property_count properties) properties few d)

  elements_checked :
      (b : PayloadBounds) (depth keys : ℕ) (p : Elements)
      → keys ≤ b.max_keys
      → depth ≤ b.max_depth + 1
      → ElementsChecked b depth keys p
  elements_checked b depth keys no_elements h d = no_elements_checked b depth keys h d
  elements_checked b depth keys (element node others) h d =
      element_checked b depth keys node others (node_checked b depth keys node h)
        (λ keys' h'. elements_checked b depth keys' others h' d)

  properties_checked :
      (b : PayloadBounds) (depth keys : ℕ) (p : Properties)
      → keys ≤ b.max_keys
      → depth ≤ b.max_depth + 1
      → PropertiesChecked b depth keys p
  properties_checked b depth keys no_properties h d = no_properties_checked b depth keys h d
  properties_checked b depth keys (property key value others) h d =
      property_checked b depth keys key value others (node_checked b depth keys value h)
        (λ keys' h'. properties_checked b depth keys' others h' d)

-- A payload is accepted exactly when its text is within the size, its nesting within the depth, the
-- keys of all its objects together within their number, and each of its strings and keys within the
-- length, whatever the options are.
pub validate_payload_bounds_iff :
    (byte_size : Payload → ℕ) (payload : Payload) (options : PayloadBoundsOptions)
    → let b = bounds_of options in
      (validate_payload_bounds byte_size payload options ≡ none) ↔ (
        (byte_size payload ≤ b.max_total_bytes)
        × (nesting payload ≤ b.max_depth)
        × (key_total payload ≤ b.max_keys)
        × (longest payload ≤ b.max_string_length))
unfolding validate_payload_bounds
validate_payload_bounds_iff byte_size payload options =
    let b = bounds_of options in
    let v = node_checked b 1 0 payload (omega arith) in
    elim (Bool-cases (ltb b.max_total_bytes (byte_size payload))) [
      | inl large ↦ rw large (λ e. cc, λ h. ground (arith, h.0))
      | inr small ↦ rw small (
        λ e. (
          ground arith,
          omega (arith, (v.bounds e).0),
          omega (arith, (v.bounds e).1),
          (v.bounds e).2,
        ),
        λ h. v.accepts (omega (arith, h.1), omega (arith, h.2), h.3),
      )
    ]
