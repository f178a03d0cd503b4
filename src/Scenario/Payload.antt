-- ===== src/Scenario/Payload.antt =====
-- `validatePayloadBounds` of packages/contracts/src/scenario.ts. A string is the list of its UTF-16
-- code units. `JSON.stringify` and `Buffer.byteLength` are the platform's: the size of the payload's
-- text in bytes is a parameter.
pub mod Measures
pub mod Steps
pub mod Bounds
use falseroute.Prelude.{ℕ, ◌+◌, Text, Option, none, some, ltb, if◌then◌else◌, length, get_or}

-- A payload; `leaf` is a number, a Boolean or `null`.
mutual
  pub data Payload : Type 0 where
    leaf : Payload
    string : Text → Payload
    array : Elements → Payload
    object : Properties → Payload

  pub data Elements : Type 0 where
    no_elements : Elements
    element : Payload → Elements → Elements

  pub data Properties : Type 0 where
    no_properties : Properties
    property : Text → Payload → Properties → Properties

pub record PayloadBounds : Type 0 where
  pub max_depth : ℕ
  pub max_keys : ℕ
  pub max_string_length : ℕ
  pub max_total_bytes : ℕ

pub record PayloadBoundsOptions : Type 0 where
  pub depth_option : Option ℕ
  pub keys_option : Option ℕ
  pub string_length_option : Option ℕ
  pub total_bytes_option : Option ℕ

unfoldable pub bounds_of : PayloadBoundsOptions → PayloadBounds
bounds_of o = record {
  max_depth = get_or o.depth_option 5;
  max_keys = get_or o.keys_option 50;
  max_string_length = get_or o.string_length_option 500;
  max_total_bytes = get_or o.total_bytes_option 16384;
}

pub data BoundsError : Type 0 where
  too_many_bytes too_deep string_too_long too_many_keys key_too_long : BoundsError

-- `Object.keys(node).length`.
unfoldable pub property_count : Properties → ℕ
property_count no_properties = 0
property_count (property key value others) = property_count others + 1

-- `checkNode`, with `totalKeyCount` before and after it, and its loops over elements and properties.
unfoldable mutual
  pub check_node : PayloadBounds → ℕ → ℕ → Payload → ℕ × Option BoundsError
  check_node b depth keys leaf = (keys, if ltb b.max_depth depth then some too_deep else none)
  check_node b depth keys (string s) = (
    keys,
    if ltb b.max_depth depth
        then some too_deep
        else if ltb b.max_string_length (length s)
        then some string_too_long
        else none,
  )
  check_node b depth keys (array elements) =
      let checked = check_elements b (depth + 1) keys elements in
      if ltb b.max_depth depth then (keys, some too_deep) else checked
  check_node b depth keys (object properties) =
      let keys' = keys + property_count properties in
      let checked = check_properties b (depth + 1) keys' properties in
      if ltb b.max_depth depth
      then (keys, some too_deep)
      else if ltb b.max_keys keys'
      then (keys', some too_many_keys)
      else checked

  pub check_elements : PayloadBounds → ℕ → ℕ → Elements → ℕ × Option BoundsError
  check_elements b depth keys no_elements = (keys, none)
  check_elements b depth keys (element node others) =
      let (keys', issue) = check_node b depth keys node in
      let checked = check_elements b depth keys' others in
      elim issue [ none ↦ checked | some e ↦ (keys', some e) ]

  pub check_properties : PayloadBounds → ℕ → ℕ → Properties → ℕ × Option BoundsError
  check_properties b depth keys no_properties = (keys, none)
  check_properties b depth keys (property key value others) =
      let (keys', issue) = check_node b depth keys value in
      let checked = check_properties b depth keys' others in
      if ltb b.max_string_length (length key)
      then (keys, some key_too_long)
      else elim issue [ none ↦ checked | some e ↦ (keys', some e) ]

-- `byte_size` is `Buffer.byteLength(JSON.stringify(payload), 'utf8')`.
unfoldable pub validate_payload_bounds :
    (byte_size : Payload → ℕ) → Payload → PayloadBoundsOptions → Option BoundsError
validate_payload_bounds byte_size payload options =
    let b = bounds_of options in
    if ltb b.max_total_bytes (byte_size payload)
    then some too_many_bytes
    else (check_node b 1 0 payload).1
