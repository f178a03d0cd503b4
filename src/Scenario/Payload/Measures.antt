-- ===== src/Scenario/Payload/Measures.antt =====
-- What `checkNode` of packages/contracts/src/scenario.ts bounds, counted apart from it.
use falseroute.Prelude.{ℕ, ◌+◌, ◌≤◌, ◌≡◌, max, Option, none, length}
use falseroute.Scenario.Payload.{
  Payload, leaf, string, array, object, Elements, no_elements, element, Properties, no_properties,
  property, PayloadBounds, BoundsError, property_count, check_node, check_elements,
  check_properties,
}

-- The levels of nesting, 1 for a leaf.
unfoldable mutual
  pub nesting : Payload → ℕ
  nesting leaf = 1
  nesting (string s) = 1
  nesting (array elements) = nesting_elements elements + 1
  nesting (object properties) = nesting_properties properties + 1

  pub nesting_elements : Elements → ℕ
  nesting_elements no_elements = 0
  nesting_elements (element node others) = max (nesting node) (nesting_elements others)

  pub nesting_properties : Properties → ℕ
  nesting_properties no_properties = 0
  nesting_properties (property key value others) = max (nesting value) (nesting_properties others)

-- The keys of all objects together.
unfoldable mutual
  unfolding property_count

  pub key_total : Payload → ℕ
  key_total leaf = 0
  key_total (string s) = 0
  key_total (array elements) = key_total_elements elements
  key_total (object properties) = property_count properties + key_total_values properties

  pub key_total_elements : Elements → ℕ
  key_total_elements no_elements = 0
  key_total_elements (element node others) = key_total node + key_total_elements others

  pub key_total_values : Properties → ℕ
  key_total_values no_properties = 0
  key_total_values (property key value others) = key_total value + key_total_values others

-- The length of the longest string or key, 0 without any.
unfoldable mutual
  pub longest : Payload → ℕ
  longest leaf = 0
  longest (string s) = length s
  longest (array elements) = longest_elements elements
  longest (object properties) = longest_properties properties

  pub longest_elements : Elements → ℕ
  longest_elements no_elements = 0
  longest_elements (element node others) = max (longest node) (longest_elements others)

  pub longest_properties : Properties → ℕ
  longest_properties no_properties = 0
  longest_properties (property key value others) =
      max (length key) (max (longest value) (longest_properties others))

-- What a part that is checked at a depth, after a number of keys, must keep to, and what it answers.
abbrev pub Fits : PayloadBounds → (depth keys nested total long : ℕ) → Type 0
Fits b depth keys nested total long =
    (depth + nested ≤ b.max_depth + 1) × (keys + total ≤ b.max_keys) × (long ≤ b.max_string_length)

pub record Checked (b : PayloadBounds) (depth keys nested total long : ℕ)
    (checked : ℕ × Option BoundsError) : Type 0 where
  pub counts : checked.1 ≡ none → checked.0 ≡ keys + total
  pub accepts : Fits b depth keys nested total long → checked.1 ≡ none
  pub bounds : checked.1 ≡ none → Fits b depth keys nested total long

-- The same for a payload, for elements and for properties.
abbrev pub NodeChecked : PayloadBounds → ℕ → ℕ → Payload → Type 0
NodeChecked b depth keys p =
    Checked b depth keys (nesting p) (key_total p) (longest p) (check_node b depth keys p)

abbrev pub ElementsChecked : PayloadBounds → ℕ → ℕ → Elements → Type 0
ElementsChecked b depth keys p =
    Checked b depth keys (nesting_elements p) (key_total_elements p) (longest_elements p)
      (check_elements b depth keys p)

abbrev pub PropertiesChecked : PayloadBounds → ℕ → ℕ → Properties → Type 0
PropertiesChecked b depth keys p =
    Checked b depth keys (nesting_properties p) (key_total_values p) (longest_properties p)
      (check_properties b depth keys p)
