-- ===== src/Scenario/Ownership/Distinct.antt =====
-- What `ScenarioActionOwnershipSchema` of packages/contracts/src/scenario.ts accepts.
use falseroute.Prelude.{
  ◌≡◌, refl, sym, ap, ◌∙◌, Bool, true, false, ◌&&◌, ◌||◌, not, none, some, List, [], ◌∷◌, ◌++◌, leb,
  length, arith, any_where, Bool-cases, Option-cases, inl, inr,
}
use mathlib.Core.List.{append-nil}
use falseroute.Scenario.{ResponseAction, action_eq, ScenarioActionOwnership}
use falseroute.Scenario.Ownership.{
  GroupName, mandatory, optional, forbidden, degraded_fallback, OwnershipIssue, seen_group,
  check_group, ownership_issues, is_valid_ownership,
}

-- An action stands twice in the list.
abbrev pub has_repeat : List ResponseAction → Bool
has_repeat [] = false
has_repeat (a ∷ actions) = any_where (action_eq a) actions || has_repeat actions

-- The four groups, one after another.
abbrev pub all_actions : ScenarioActionOwnership → List ResponseAction
all_actions o =
    o.mandatory_actions
    ++ (o.optional_actions ++ (o.forbidden_actions ++ o.degraded_fallback_actions))

-- Each group has at most seven actions.
abbrev pub fits_schema : ScenarioActionOwnership → Bool
fits_schema o =
    leb (length o.mandatory_actions) 7
    && (leb (length o.optional_actions) 7
        && (leb (length o.forbidden_actions) 7 && leb (length o.degraded_fallback_actions) 7))

abbrev is_seen : List (ResponseAction × GroupName) → ResponseAction → Bool
is_seen seen a = elim (seen_group seen a) [ none ↦ false | some g ↦ true ]

-- An action stands in the map, or twice in the list.
abbrev clashes : List (ResponseAction × GroupName) → List ResponseAction → Bool
clashes seen actions = any_where (is_seen seen) actions || has_repeat actions

abbrev has_issue : List OwnershipIssue → Bool
has_issue [] = false
has_issue (i ∷ issues) = true

is_seen-add :
    (a b : ResponseAction) (g : GroupName) (seen : List (ResponseAction × GroupName))
    → is_seen ((a, g) ∷ seen) b ≡ (action_eq a b || is_seen seen b)
unfolding seen_group
is_seen-add a b g seen = elim (Bool-cases (action_eq a b)) [
  | inl hit ↦ rw (hit, is_seen, seen_group) refl
  | inr miss ↦ rw (miss, is_seen, seen_group) refl
]

any_seen-add :
    (a : ResponseAction) (g : GroupName) (seen : List (ResponseAction × GroupName))
    (actions : List ResponseAction)
    → any_where (is_seen ((a, g) ∷ seen)) actions
      ≡ (any_where (action_eq a) actions || any_where (is_seen seen) actions)
any_seen-add a g seen [] = refl
any_seen-add a g seen (b ∷ actions) =
    ground (arith, is_seen-add a b g seen, any_seen-add a g seen actions)

clashes-add :
    (a : ResponseAction) (g : GroupName) (seen : List (ResponseAction × GroupName))
    (actions : List ResponseAction)
    → is_seen seen a ≡ false
    → clashes seen (a ∷ actions) ≡ clashes ((a, g) ∷ seen) actions
clashes-add a g seen actions fresh = ground (arith, any_seen-add a g seen actions)

check_group-new :
    (g : GroupName) (a : ResponseAction) (actions : List ResponseAction)
    (seen : List (ResponseAction × GroupName))
    → seen_group seen a ≡ none
    → check_group g (a ∷ actions) seen ≡ check_group g actions ((a, g) ∷ seen)
unfolding check_group
check_group-new g a actions seen e = rw (e, check_group, e) refl

check_group-seen :
    (g p : GroupName) (a : ResponseAction) (actions : List ResponseAction)
    (seen : List (ResponseAction × GroupName))
    → seen_group seen a ≡ some p
    → has_issue (check_group g (a ∷ actions) seen).1 ≡ true
unfolding check_group
check_group-seen g p a actions seen e = rw (e, check_group) refl

-- The loop over one group finds the clashes of its actions, and leaves those of the later ones.
check_group-clashes :
    (g : GroupName) (actions later : List ResponseAction) (seen : List (ResponseAction × GroupName))
    → clashes seen (actions ++ later)
      ≡ (has_issue (check_group g actions seen).1 || clashes (check_group g actions seen).0 later)
unfolding check_group
check_group-clashes g [] later seen = refl
check_group-clashes g (a ∷ actions) later seen = elim (Option-cases (seen_group seen a)) [
  | inl e ↦
      clashes-add a g seen (actions ++ later) (rw (e, is_seen) refl)
      ∙ check_group-clashes g actions later ((a, g) ∷ seen)
      ∙ ap
          (λ (out : List (ResponseAction × GroupName) × List OwnershipIssue).
            has_issue out.1 || clashes out.0 later)
          (sym (check_group-new g a actions seen e))
  | inr (p, e) ↦
      let clash : is_seen seen a ≡ true = rw (e, is_seen) refl in
      let issue = check_group-seen g p a actions seen e in rw (clash, issue) refl
]

has_issue-append :
    (xs ys : List OwnershipIssue) → has_issue (xs ++ ys) ≡ (has_issue xs || has_issue ys)
has_issue-append [] ys = refl
has_issue-append (x ∷ xs) ys = refl

no_issue :
    (issues : List OwnershipIssue)
    → elim issues [ [] ↦ true | i ∷ rest ↦ false ] ≡ not (has_issue issues)
no_issue [] = refl
no_issue (i ∷ issues) = refl

nothing_seen : (actions : List ResponseAction) → any_where (is_seen []) actions ≡ false
unfolding seen_group
nothing_seen [] = refl
nothing_seen (a ∷ actions) = nothing_seen actions

-- The last group, which no action follows.
last_group-clashes :
    (g : GroupName) (actions : List ResponseAction) (seen : List (ResponseAction × GroupName))
    → clashes seen actions ≡ has_issue (check_group g actions seen).1
last_group-clashes g actions seen =
    ap (clashes seen) (sym (append-nil actions))
    ∙ check_group-clashes g actions [] seen
    ∙ ground arith

ownership_issues-clashes :
    (o : ScenarioActionOwnership) → has_issue (ownership_issues o) ≡ has_repeat (all_actions o)
unfolding ownership_issues
ownership_issues-clashes o =
    let first = check_group mandatory o.mandatory_actions [] in
    let second = check_group optional o.optional_actions first.0 in
    let third = check_group forbidden o.forbidden_actions second.0 in
    let fourth = check_group degraded_fallback o.degraded_fallback_actions third.0 in
    let rest₃ = o.forbidden_actions ++ o.degraded_fallback_actions in
    let rest₂ = o.optional_actions ++ rest₃ in
    let start : has_repeat (all_actions o) ≡ clashes [] (all_actions o) =
      rw (nothing_seen (all_actions o)) refl in
    let one = check_group-clashes mandatory o.mandatory_actions rest₂ [] in
    let two = check_group-clashes optional o.optional_actions rest₃ first.0 in
    let three =
      check_group-clashes forbidden o.forbidden_actions o.degraded_fallback_actions second.0 in
    let four = last_group-clashes degraded_fallback o.degraded_fallback_actions third.0 in
    let joined = has_issue-append first.1 (second.1 ++ (third.1 ++ fourth.1)) in
    let joined₂ = has_issue-append second.1 (third.1 ++ fourth.1) in
    let joined₃ = has_issue-append third.1 fourth.1 in
    joined
    ∙ ap (λ b. has_issue first.1 || b) (joined₂ ∙ ap (λ b. has_issue second.1 || b) joined₃)
    ∙ sym (
        start
        ∙ one
        ∙ ap (λ b. has_issue first.1 || b)
            (two
              ∙ ap (λ b. has_issue second.1 || b) (three ∙ ap (λ b. has_issue third.1 || b) four)))

-- An ownership is accepted exactly when each group has at most seven actions and no action stands twice in the four groups together,
-- neither in two of them nor twice in one.
pub is_valid_ownership_iff :
    (o : ScenarioActionOwnership)
    → is_valid_ownership o ≡ (fits_schema o && not (has_repeat (all_actions o)))
unfolding is_valid_ownership
is_valid_ownership_iff o =
    let issues = ownership_issues-clashes o in
    let tested = no_issue (ownership_issues o) in ground (arith, issues, tested)
