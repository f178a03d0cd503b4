-- ===== src/Workflow/Register.antt =====
-- A register that is claimed once and settled once, and the table of provider intents of
-- packages/database/src/repositories/autonomous-workflow-repository.ts as one register for each key.
mod Refine
pub mod Once
use falseroute.Prelude.{
  ℕ, zero, suc, ◌+◌, ◌≤◌, ◌≡◌, refl, ap, sym, ◌∙◌, String, Text, str_eq, str_eq_iff, Bool, true,
  false, not, ◌&&◌, ◌||◌, Option, none, some, List, [], ◌∷◌, ◌++◌, arith, Result, ok, err, ◌>>=◌,
  ◌>>◌, throw_if, ◌==◌, if◌then◌else◌, any_where, any_where-append, find_first, find_first-append,
  find_first-none, count_where, count_where-append, update_where, update_where-none, count-zero,
  any-zero, updated_found, other_found, count-update_same, Bool-cases, Option-cases, inl, inr,
  get_or,
}
use falseroute.Workflow.Intents.{
  IntentStatus, pending, claimed, executed, failed, ProviderIntentRecord, ClaimInput,
  has_intent_key, new_intent, create_intent, claim_where, claimed_intent, write_claim,
  intent_status_eq,
}
use falseroute.Workflow.Status.{
  StatusInput, Authority, by_token, by_version, authority_of, status_where, updated_intent,
  update_provider_intent_status, ReconciliationClaim, outcome_of,
}

-- What an intent promises: it is opened, claimed with one token, and settled with that token, or by
-- a reconciliation.
pub data Register : Type 0 where
  absent free : Register
  held : (token : Option String) → Register
  finished : (succeeded : Bool) → Register

pub data IntentEvent : Type 0 where
  silent opened : IntentEvent
  won : (token : String) → IntentEvent
  settled : (token : String) (succeeded : Bool) → IntentEvent
  reconciled : (was_claimed succeeded : Bool) → IntentEvent

-- The next state, where the register allows the event.
unfoldable pub accept : IntentEvent → Register → Option Register
accept silent r = some r
accept opened absent = some free
accept (won t) free = some (held (some t))
accept (settled t succeeded) (held (some u)) =
    if str_eq u t then some (finished succeeded) else none
accept (reconciled false succeeded) free = some (finished succeeded)
accept (reconciled true succeeded) (held t) = some (finished succeeded)
accept _ _ = none

abbrev pub register_at : IntentStatus → Option String → Register
register_at pending token = free
register_at claimed token = held token
register_at executed token = finished true
register_at failed token = finished false

-- The register that the table holds for a key.
abbrev pub register_in : Option ProviderIntentRecord → Register
register_in none = absent
register_in (some i) = register_at i.status i.claim_token

unfoldable pub register_of : String → List ProviderIntentRecord → Register
register_of key rows = register_in (find_first (has_intent_key key) rows)

-- The event of a successful update.
unfoldable pub event_of : Authority → Bool → IntentEvent
event_of (by_token t) succeeded = settled t succeeded
event_of (by_version v r) succeeded = reconciled r.expects_claimed succeeded

-- One statement of a worker, with the key that it is about and its event.
pub data IntentStep
    : List ProviderIntentRecord → String → IntentEvent → List ProviderIntentRecord → Type 0 where
  opens :
      (p : ClaimInput) (rows : List ProviderIntentRecord)
      → any_where (has_intent_key p.idempotency_key) rows ≡ false
      → IntentStep rows p.idempotency_key opened (create_intent p rows)
  finds :
      (p : ClaimInput) (rows : List ProviderIntentRecord)
      → any_where (has_intent_key p.idempotency_key) rows ≡ true
      → IntentStep rows p.idempotency_key silent (create_intent p rows)
  claims :
      (p : ClaimInput) (token : String) (now version : ℕ) (rows : List ProviderIntentRecord)
      → IntentStep rows p.idempotency_key
          (if (write_claim p token now version rows).1 == 1 then won token else silent)
          (write_claim p token now version rows).0
  settles :
      (p : StatusInput) (a : Authority) (now : ℕ) (rows rows' : List ProviderIntentRecord)
      → authority_of p ≡ ok a
      → update_provider_intent_status p now rows ≡ ok rows'
      → IntentStep rows p.idempotency_key (event_of a p.succeeded) rows'

abbrev pub HasUniqueKeys : List ProviderIntentRecord → Type 0
HasUniqueKeys rows = (key : String) → count_where (has_intent_key key) rows ≤ 1

-- What a step with that event does to the registers.
pub record Refines (rows : List ProviderIntentRecord) (k : String) (e : IntentEvent)
    (rows' : List ProviderIntentRecord) : Type 0 where
  pub unique : HasUniqueKeys rows'
  pub allowed : accept e (register_of k rows) ≡ some (register_of k rows')
  pub others : (key : String) → str_eq k key ≡ false → register_of key rows' ≡ register_of key rows
