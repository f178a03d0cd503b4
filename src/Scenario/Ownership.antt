-- ===== src/Scenario/Ownership.antt =====
-- The checks of packages/contracts/src/scenario.ts: `ScenarioActionOwnershipSchema`, which wants the
-- four groups of actions disjoint, and the consistency of control evidence.
pub mod Distinct
use falseroute.Prelude.{
  ◌≡◌, refl, Bool, true, false, ◌&&◌, Option, none, some, List, [], ◌∷◌, ◌++◌, leb, if◌then◌else◌,
  get_or, length,
}
use falseroute.Scenario.{
  ScenarioKind, env_file_probe, ResponseAction, action_eq, ScenarioActionOwnership, ControlEvidence,
}
use falseroute.Scenario.Catalog.{scenario_catalog}

pub data GroupName : Type 0 where
  mandatory optional forbidden degraded_fallback : GroupName

-- `action cannot be in both previous and group`.
pub data OwnershipIssue : Type 0 where
  in_both : ResponseAction → (previous group : GroupName) → OwnershipIssue

-- The map `seen`, from actions to the first group that has them.
unfoldable pub seen_group : List (ResponseAction × GroupName) → ResponseAction → Option GroupName
unfolding action_eq
seen_group [] a = none
seen_group ((b, g) ∷ seen) a = if action_eq b a then some g else seen_group seen a

-- The loop over the actions of one group.
unfoldable pub check_group :
    GroupName
    → List ResponseAction
    → List (ResponseAction × GroupName)
    → List (ResponseAction × GroupName) × List OwnershipIssue
unfolding seen_group
check_group g [] seen = (seen, [])
check_group g (a ∷ actions) seen =
    let old : List (ResponseAction × GroupName) = elim (seen_group seen a) [
      | none ↦ (a, g) ∷ seen
      | some p ↦ seen
    ] in
    let (seen', issues) = check_group g actions old in
    (seen', elim (seen_group seen a) [ none ↦ issues | some p ↦ in_both a p g ∷ issues ])

unfoldable pub ownership_issues : ScenarioActionOwnership → List OwnershipIssue
unfolding check_group
ownership_issues o =
    let (s₁, i₁) = check_group mandatory o.mandatory_actions [] in
    let (s₂, i₂) = check_group optional o.optional_actions s₁ in
    let (s₃, i₃) = check_group forbidden o.forbidden_actions s₂ in
    let (s₄, i₄) = check_group degraded_fallback o.degraded_fallback_actions s₃ in
    i₁ ++ (i₂ ++ (i₃ ++ i₄))

-- The bounds of the four arrays, and no issue.
unfoldable pub is_valid_ownership : ScenarioActionOwnership → Bool
unfolding ownership_issues
is_valid_ownership o =
    leb (length o.mandatory_actions) 7
    && (leb (length o.optional_actions) 7
        && (leb (length o.forbidden_actions) 7
            && (leb (length o.degraded_fallback_actions) 7
                && elim (ownership_issues o) [ [] ↦ true | i ∷ issues ↦ false ])))

-- `requireConsistentControlEvidence` raises no issue.
unfoldable pub is_consistent_control : ControlEvidence → Bool
is_consistent_control e = elim e.is_positive_match [
  | true ↦ elim (get_or e.is_negative_control false) [ true ↦ false | false ↦ true ]
  | false ↦ get_or e.is_negative_control false
]

-- No scenario of the catalog passes the schema of its own ownership.
catalog-not_valid_ownership :
    (k : ScenarioKind) → is_valid_ownership (scenario_catalog k).action_ownership ≡ false
unfolding scenario_catalog is_valid_ownership
catalog-not_valid_ownership env_file_probe = refl
catalog-not_valid_ownership _ = refl
