-- ===== src/Scenario/Payload/Steps.antt =====
-- `checkNode` of packages/contracts/src/scenario.ts on each form of a payload, from its parts.
use falseroute.Prelude.{
  ℕ, ◌+◌, ◌≤◌, ◌≡◌, inl, inr, refl, Text, none, some, arith, ltb, length, Bool-cases, Option-cases,
}
use falseroute.Scenario.Payload.{
  Payload, leaf, string, array, object, Elements, no_elements, element, Properties, no_properties,
  property, PayloadBounds, BoundsError, property_count, check_node, check_elements,
  check_properties,
}
use falseroute.Scenario.Payload.Measures.{
  nesting, nesting_elements, nesting_properties, key_total, key_total_elements, key_total_values,
  longest, longest_elements, longest_properties, NodeChecked, ElementsChecked, PropertiesChecked,
}

pub leaf_checked :
    (b : PayloadBounds) (depth keys : ℕ) → keys ≤ b.max_keys → NodeChecked b depth keys leaf
unfolding check_node nesting key_total longest
leaf_checked b depth keys h = record {
  counts = λ e. omega arith;
  accepts = λ f. ground (arith, f.0);
  bounds = λ e. ground arith;
}

pub string_checked :
    (b : PayloadBounds) (depth keys : ℕ) (s : Text)
    → keys ≤ b.max_keys
    → NodeChecked b depth keys (string s)
unfolding check_node nesting key_total longest
string_checked b depth keys s h = record {
  counts = λ e. omega arith;
  accepts = λ f. ground (arith, f.0, f.2);
  bounds = λ e. ground arith;
}

pub array_checked :
    (b : PayloadBounds) (depth keys : ℕ) (items : Elements)
    → (depth + 1 ≤ b.max_depth + 1 → ElementsChecked b (depth + 1) keys items)
    → NodeChecked b depth keys (array items)
unfolding check_node nesting key_total longest
array_checked b depth keys items inner = elim (Bool-cases (ltb b.max_depth depth)) [
  | inl deep ↦
      rw deep (record { counts = λ e. cc; accepts = λ f. ground (arith, f.0); bounds = λ e. cc })
  | inr fine ↦
      let v = inner (ground arith) in
      rw fine (record {
        counts = v.counts;
        accepts = λ f. v.accepts (omega (arith, f.0), f.1, f.2);
        bounds = λ e. (omega (arith, (v.bounds e).0), (v.bounds e).1, (v.bounds e).2);
      })
]

pub object_checked :
    (b : PayloadBounds) (depth keys : ℕ) (properties : Properties)
    → (depth + 1 ≤ b.max_depth + 1
        → keys + property_count properties ≤ b.max_keys
        → PropertiesChecked b (depth + 1) (keys + property_count properties) properties)
    → NodeChecked b depth keys (object properties)
unfolding check_node nesting key_total longest
object_checked b depth keys properties inner = elim (Bool-cases (ltb b.max_depth depth)) [
  | inl deep ↦
      rw deep (record { counts = λ e. cc; accepts = λ f. ground (arith, f.0); bounds = λ e. cc })
  | inr fine ↦ elim (Bool-cases (ltb b.max_keys (keys + property_count properties))) [
    | inl many ↦
        rw (fine, many)
          (record { counts = λ e. cc; accepts = λ f. ground (arith, f.1); bounds = λ e. cc })
    | inr few ↦
        let v = inner (ground arith) (ground arith) in
        rw (fine, few)
          (record {
            counts = λ e. omega (arith, v.counts e);
            accepts = λ f. v.accepts (omega (arith, f.0), omega (arith, f.1), f.2);
            bounds =
                λ e. (omega (arith, (v.bounds e).0), omega (arith, (v.bounds e).1), (v.bounds e).2);
          })
  ]
]

check_elements-accepted :
    (b : PayloadBounds) (depth keys : ℕ) (node : Payload) (others : Elements)
    → (check_node b depth keys node).1 ≡ none
    → check_elements b depth keys (element node others)
      ≡ check_elements b depth (check_node b depth keys node).0 others
unfolding check_elements
check_elements-accepted b depth keys node others h = ground arith

check_elements-refused :
    (b : PayloadBounds) (depth keys : ℕ) (node : Payload) (others : Elements) (e : BoundsError)
    → (check_node b depth keys node).1 ≡ some e
    → check_elements b depth keys (element node others) ≡ ((check_node b depth keys node).0, some e)
unfolding check_elements
check_elements-refused b depth keys node others e h = ground arith

pub element_checked :
    (b : PayloadBounds) (depth keys : ℕ) (node : Payload) (others : Elements)
    → NodeChecked b depth keys node
    → ((keys' : ℕ) → keys' ≤ b.max_keys → ElementsChecked b depth keys' others)
    → ElementsChecked b depth keys (element node others)
unfolding nesting_elements key_total_elements longest_elements
element_checked b depth keys node others v rest =
    elim (Option-cases (check_node b depth keys node).1) [
      | inl fine ↦
          let f = v.bounds fine in
          let count = v.counts fine in
          let w = rest (check_node b depth keys node).0 (omega (arith, f.1, count)) in
          rw (check_elements-accepted b depth keys node others fine) (record {
            counts = λ e. omega (arith, w.counts e, count);
            accepts =
                λ g. w.accepts (omega (arith, g.0), omega (arith, g.1, count), omega (arith, g.2));
            bounds = λ e. (
              omega (arith, (w.bounds e).0, f.0),
              omega (arith, (w.bounds e).1, count),
              omega (arith, (w.bounds e).2, f.2),
            );
          })
      | inr (e, bad) ↦ rw (check_elements-refused b depth keys node others e bad) (record {
        counts = λ e'. cc;
        accepts = λ g.
            let fine = v.accepts (omega (arith, g.0), omega (arith, g.1), omega (arith, g.2)) in cc;
        bounds = λ e'. cc;
      })
    ]

pub property_checked :
    (b : PayloadBounds) (depth keys : ℕ) (key : Text) (value : Payload) (others : Properties)
    → NodeChecked b depth keys value
    → ((keys' : ℕ) → keys' ≤ b.max_keys → PropertiesChecked b depth keys' others)
    → PropertiesChecked b depth keys (property key value others)
unfolding check_properties nesting_properties key_total_values longest_properties
property_checked b depth keys key value others v rest =
    elim (Bool-cases (ltb b.max_string_length (length key))) [
      | inl long ↦
          rw long
            (record { counts = λ e. cc; accepts = λ f. ground (arith, f.2); bounds = λ e. cc })
      | inr short ↦ elim (Option-cases (check_node b depth keys value).1) [
        | inl fine ↦
            let f = v.bounds fine in
            let count = v.counts fine in
            let w = rest (check_node b depth keys value).0 (omega (arith, f.1, count)) in
            rw (short, fine)
              (record {
                counts = λ e. omega (arith, w.counts e, count);
                accepts = λ g.
                    w.accepts (omega (arith, g.0), omega (arith, g.1, count), omega (arith, g.2));
                bounds = λ e. (
                  omega (arith, (w.bounds e).0, f.0),
                  omega (arith, (w.bounds e).1, count),
                  ground (arith, (w.bounds e).2, f.2),
                );
              })
        | inr (e, bad) ↦
            rw (short, bad)
              (record {
                counts = λ e'. cc;
                accepts = λ g.
                    let fine =
                      v.accepts (omega (arith, g.0), omega (arith, g.1), omega (arith, g.2)) in
                    cc;
                bounds = λ e'. cc;
              })
      ]
    ]

pub no_elements_checked :
    (b : PayloadBounds) (depth keys : ℕ)
    → keys ≤ b.max_keys
    → depth ≤ b.max_depth + 1
    → ElementsChecked b depth keys no_elements
unfolding check_elements nesting_elements key_total_elements longest_elements
no_elements_checked b depth keys h d = record {
  counts = λ e. omega arith;
  accepts = λ f. refl;
  bounds = λ e. (omega arith, omega arith, omega arith);
}

pub no_properties_checked :
    (b : PayloadBounds) (depth keys : ℕ)
    → keys ≤ b.max_keys
    → depth ≤ b.max_depth + 1
    → PropertiesChecked b depth keys no_properties
unfolding check_properties nesting_properties key_total_values longest_properties
no_properties_checked b depth keys h d = record {
  counts = λ e. omega arith;
  accepts = λ f. refl;
  bounds = λ e. (omega arith, omega arith, omega arith);
}
