-- ===== src/Workflow/Register/Once.antt =====
-- Whole histories of the table of provider intents of
-- packages/database/src/repositories/autonomous-workflow-repository.ts.
use falseroute.Prelude.{
  ℕ, ◌+◌, ◌≤◌, ◌≡◌, refl, ap, sym, ◌∙◌, String, str_eq, str_eq_iff, Bool, true, false, ◌&&◌, Option,
  none, some, List, [], ◌∷◌, arith, if◌then◌else◌, count_where, Bool-cases, Option-cases, inl, inr,
}
use falseroute.Workflow.Intents.{ProviderIntentRecord}
use falseroute.Workflow.Register.{
  Register, absent, free, held, finished, IntentEvent, silent, opened, won, settled, reconciled,
  accept, register_of, IntentStep, HasUniqueKeys, Refines,
}
use falseroute.Workflow.Register.Refine.{step-Refines}

-- The statements of any workers in any order, and their log, with the newest event first.
pub data IntentHistory : List (String × IntentEvent) → List ProviderIntentRecord → Type 0 where
  no_intents : IntentHistory [] []
  after :
      {log : List (String × IntentEvent)} {rows : List ProviderIntentRecord} {k : String}
      {e : IntentEvent} {rows' : List ProviderIntentRecord}
      → IntentHistory log rows
      → IntentStep rows k e rows'
      → IntentHistory ((k, e) ∷ log) rows'

abbrev advance : IntentEvent → Option Register → Option Register
advance e none = none
advance e (some r) = accept e r

-- The register of a key after the events of the log that are about it, where it allows them all.
unfoldable pub replay : String → List (String × IntentEvent) → Option Register
unfolding accept
replay key [] = some absent
replay key ((k, e) ∷ log) =
    let before = replay key log in if str_eq k key then advance e before else before

pub record IsReplayed (log : List (String × IntentEvent)) (rows : List ProviderIntentRecord)
    : Type 0 where
  pub unique : HasUniqueKeys rows
  pub replayed : (key : String) → replay key log ≡ some (register_of key rows)

step-IsReplayed :
    (log : List (String × IntentEvent)) (rows : List ProviderIntentRecord) (k : String)
    (e : IntentEvent) (rows' : List ProviderIntentRecord)
    → IsReplayed log rows
    → Refines rows k e rows'
    → IsReplayed ((k, e) ∷ log) rows'
unfolding replay
step-IsReplayed log rows k e rows' before h = record {
  unique = h.unique;
  replayed = λ key. elim (Bool-cases (str_eq k key)) [
    | inl hit ↦
        let same : k ≡ key = (str_eq_iff k key).0 hit in
        rw hit (rw (before.replayed key) (rw (← same) h.allowed))
    | inr miss ↦ rw miss (before.replayed key ∙ ap some (sym (h.others key miss)))
  ];
}

-- The table of provider intents refines one register for each key. After any history of the
-- statements of `claimProviderIntent` and `updateProviderIntentStatus`, by any workers and
-- interleaved in any way, each event of the log was allowed by the register of its key, in order:
-- an intent is opened once, claimed only while it is free, and settled by the token that claimed it, or by a
-- reconciliation; and the row of the key, if any, is in the state of that register.
pub history-IsReplayed :
    {log : List (String × IntentEvent)} {rows : List ProviderIntentRecord}
    → IntentHistory log rows
    → IsReplayed log rows
unfolding replay register_of
history-IsReplayed no_intents = record { unique = λ key. omega arith; replayed = λ key. refl }
history-IsReplayed (after {log} {rows} {k} {e} {rows'} before m) =
    let earlier = history-IsReplayed before in
    step-IsReplayed log rows k e rows' earlier (step-Refines m earlier.unique)

abbrev pub is_won : IntentEvent → Bool
is_won (won t) = true
is_won _ = false

abbrev pub wins : String → String × IntentEvent → Bool
wins key (k, e) = str_eq k key && is_won e

-- How often a register in that state has been claimed.
abbrev claims_of : Register → ℕ
claims_of absent = 0
claims_of free = 0
claims_of _ = 1

accept-claims_of :
    (e : IntentEvent) (r r' : Register)
    → accept e r ≡ some r'
    → (if is_won e then 1 else 0) + claims_of r ≤ claims_of r'
unfolding accept
accept-claims_of silent r r' h = let same : r ≡ r' = ground arith in rw same (omega arith)
accept-claims_of opened absent r' h = omega arith
accept-claims_of (won t) free r' h =
    let now : r' ≡ held (some t) = ground arith in rw now (omega arith)
accept-claims_of (settled t b) (held (some u)) r' h =
    let now : r' ≡ finished b = ground arith in rw now (omega arith)
accept-claims_of (reconciled false b) free r' h = omega arith
accept-claims_of (reconciled true b) (held t) r' h =
    let now : r' ≡ finished b = ground arith in rw now (omega arith)
accept-claims_of e r r' h = cc

replay-wins :
    (key : String) (log : List (String × IntentEvent)) (r : Register)
    → replay key log ≡ some r
    → count_where (wins key) log ≤ claims_of r
unfolding replay
replay-wins key [] r h = omega arith
replay-wins key ((k, e) ∷ log) r h = elim (Option-cases (replay key log)) [
  | inl lost ↦ absurd (ground arith)
  | inr (r', e') ↦ elim (Bool-cases (str_eq k key)) [
    | inl hit ↦
        let now : accept e r' ≡ some r = ground arith in
        let before = replay-wins key log r' e' in
        let step = accept-claims_of e r' r now in ground arith
    | inr miss ↦ let before = replay-wins key log r (ground arith) in ground arith
  ]
]

claims_of-le : (r : Register) → claims_of r ≤ 1
claims_of-le absent = omega arith
claims_of-le free = omega arith
claims_of-le (held t) = omega arith
claims_of-le (finished b) = omega arith

-- Over any history of the table, by any workers and interleaved in any way, the update by which
-- `claimProviderIntent` claims an intent, and on which it answers `CLAIMED`, changes a row at most
-- once for each key.
pub claim_once :
    {log : List (String × IntentEvent)} {rows : List ProviderIntentRecord} (key : String)
    → IntentHistory log rows
    → count_where (wins key) log ≤ 1
claim_once {log} {rows} key h =
    let r = register_of key rows in
    omega (arith, replay-wins key log r ((history-IsReplayed h).replayed key), claims_of-le r)
