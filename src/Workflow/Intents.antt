-- ===== src/Workflow/Intents.antt =====
-- The table `provider_intent_records` and `claimProviderIntent` of
-- packages/database/src/repositories/autonomous-workflow-repository.ts. It runs in no transaction: each statement is a function of the table, and other workers may write between them. JSON is
-- kept as its text, and a claim token as the text that `randomUUID` gives.
use falseroute.Prelude.{
  ℕ, ◌+◌, String, Text, str_eq, Bool, true, false, not, ◌&&◌, ◌||◌, Option, none, some, List, [],
  ◌∷◌, ◌++◌, ◌≡◌, refl, Result, ok, ◌>>=◌, ◌>>◌, throw_if, or_throw, ◌==◌, if◌then◌else◌, any_where,
  find_first, count_where, update_where, get_or,
}

pub data IntentStatus : Type 0 where
  pending claimed executed failed : IntentStatus

pub record ProviderIntentRecord : Type 0 where
  pub idempotency_key : String
  pub event_id : String
  pub operation_type : String
  pub provider : String
  pub status : IntentStatus
  pub payload : Option Text
  pub result : Option Text
  pub attempt_count : ℕ
  pub claim_owner : Option String
  pub claim_token : Option String
  pub claim_expires_at : Option ℕ
  pub version : ℕ

pub data IntentError : Type 0 where
  intent_collision intent_not_found claim_lost no_claim : IntentError

pub record ClaimInput : Type 0 where
  pub idempotency_key : String
  pub event_id : String
  pub operation_type : String
  pub provider : String
  pub claim_owner : String
  pub claim_ttl_ms : Option ℕ
  pub payload : Option Text

pub data IntentClaim : Type 0 where
  claimed_with : (claim_token : String) (intent : ProviderIntentRecord) → IntentClaim
  already_executed reconciliation_required : (intent : ProviderIntentRecord) → IntentClaim

unfoldable pub intent_status_eq : IntentStatus → IntentStatus → Bool
intent_status_eq pending pending = true
intent_status_eq claimed claimed = true
intent_status_eq executed executed = true
intent_status_eq failed failed = true
intent_status_eq _ _ = false

abbrev pub has_intent_key : String → ProviderIntentRecord → Bool
has_intent_key k i = str_eq i.idempotency_key k

abbrev pub new_intent : ClaimInput → ProviderIntentRecord
new_intent p = record {
  idempotency_key = p.idempotency_key;
  event_id = p.event_id;
  operation_type = p.operation_type;
  provider = p.provider;
  status = pending;
  payload = p.payload;
  result = none;
  attempt_count = 0;
  claim_owner = none;
  claim_token = none;
  claim_expires_at = none;
  version = 1;
}

-- `create`; a unique violation is passed over.
unfoldable pub create_intent : ClaimInput → List ProviderIntentRecord → List ProviderIntentRecord
create_intent p rows =
    if any_where (has_intent_key p.idempotency_key) rows then rows else rows ++ new_intent p ∷ []

unfoldable pub find_intent :
    String → List ProviderIntentRecord → Result IntentError ProviderIntentRecord
find_intent key rows = or_throw (find_first (has_intent_key key) rows) intent_not_found

-- The `where` and the `data` of the claim; `version` is that of the row that was read.
unfoldable pub claim_where : String → (version : ℕ) → ProviderIntentRecord → Bool
unfolding intent_status_eq
claim_where key version i =
    has_intent_key key i && (intent_status_eq i.status pending && i.version == version)

abbrev pub claimed_intent :
    ClaimInput → (token : String) → ℕ → ProviderIntentRecord → ProviderIntentRecord
claimed_intent p token now i = record i {
  status = claimed;
  claim_owner = some p.claim_owner;
  claim_token = some token;
  claim_expires_at = some (now + get_or p.claim_ttl_ms 60000);
  attempt_count = i.attempt_count + 1;
  version = i.version + 1;
}

unfoldable pub write_claim :
    ClaimInput
    → (token : String) → (now version : ℕ) → List ProviderIntentRecord
    → List ProviderIntentRecord × ℕ
unfolding claim_where
write_claim p token now version rows =
    let w = claim_where p.idempotency_key version in
    (update_where w (claimed_intent p token now) rows, count_where w rows)

-- The checks on the row that was read: an answer, or nothing where the claim goes on.
unfoldable pub check_intent :
    ClaimInput → ProviderIntentRecord → Result IntentError (Option IntentClaim)
unfolding intent_status_eq
check_intent p i = do
  throw_if
      (not (str_eq i.event_id p.event_id)
        || (not (str_eq i.operation_type p.operation_type) || not (str_eq i.provider p.provider)))
      intent_collision
  ok (
      if intent_status_eq i.status executed
      then some (already_executed i)
      else if not (intent_status_eq i.status pending)
      then some (reconciliation_required i)
      else none)

-- What other workers do to the table between the statements of one call.
abbrev pub Others : Type 0
Others = List ProviderIntentRecord → List ProviderIntentRecord

-- The statements from the claim on.
unfoldable pub finish_claim :
    ClaimInput
    → (token : String) → (now version : ℕ) → Others
    → List ProviderIntentRecord
    → Result IntentError (List ProviderIntentRecord × IntentClaim)
unfolding write_claim find_intent
finish_claim p token now version others rows = do
  let (written, count) = write_claim p token now version rows
  let seen = others written
  i ← find_intent p.idempotency_key seen
  ok (seen, if count == 1 then claimed_with token i else reconciliation_required i)

unfoldable pub claim_provider_intent :
    ClaimInput
    → (token : String) → (now : ℕ) → (after_create after_read after_write : Others)
    → List ProviderIntentRecord
    → Result IntentError (List ProviderIntentRecord × IntentClaim)
unfolding create_intent find_intent check_intent finish_claim
claim_provider_intent p token now after_create after_read after_write rows = do
  let seen = after_create (create_intent p rows)
  i ← find_intent p.idempotency_key seen
  answer ← check_intent p i
  elim answer [
    | some c ↦ ok (seen, c)
    | none ↦ finish_claim p token now i.version after_write (after_read seen)
  ]

pub intent_status_eq_sound : (s t : IntentStatus) → intent_status_eq s t ≡ true → s ≡ t
unfolding intent_status_eq
intent_status_eq_sound pending pending h = refl
intent_status_eq_sound claimed claimed h = refl
intent_status_eq_sound executed executed h = refl
intent_status_eq_sound failed failed h = refl
intent_status_eq_sound s t h = cc
