-- ===== src/Workflow/Status.antt =====
-- `updateProviderIntentStatus` of
-- packages/database/src/repositories/autonomous-workflow-repository.ts.
use falseroute.Prelude.{
  ℕ, zero, suc, ◌+◌, String, Text, codes, str_eq, Bool, true, false, not, ◌&&◌, ◌||◌, Option, none,
  some, List, [], ◌∷◌, Result, ok, err, ◌>>=◌, ◌>>◌, throw_if, leb, ◌==◌, if◌then◌else◌,
  count_where, update_where, get_or,
}
use falseroute.Workflow.Intents.{
  IntentStatus, pending, claimed, executed, failed, ProviderIntentRecord, IntentError, claim_lost,
  no_claim, intent_status_eq, has_intent_key,
}

-- `/^[0-9a-f]{8}-[0-9a-f]{4}-[0-9a-f]{4}-[0-9a-f]{4}-[0-9a-f]{12}$/i`.
abbrev is_hex : ℕ → Bool
is_hex c = leb 48 c && leb c 57 || (leb 97 c && leb c 102 || leb 65 c && leb c 70)

-- The rest of a text after that many hexadecimal digits.
unfoldable pub skip_hex : ℕ → Text → Option Text
skip_hex zero s = some s
skip_hex (suc n) [] = none
skip_hex (suc n) (c ∷ s) = let rest = skip_hex n s in if is_hex c then rest else none

-- Groups of digits, with a hyphen between two of them, and then the end.
unfoldable pub is_grouped : (first : ℕ) → List ℕ → Text → Bool
unfolding skip_hex
is_grouped first [] s = elim (skip_hex first s) [ some [] ↦ true | _ ↦ false ]
is_grouped first (n ∷ groups) s = elim (skip_hex first s) [
  | some (c ∷ rest) ↦ c == 45 && is_grouped n groups rest
  | _ ↦ false
]

unfoldable pub is_uuid : String → Bool
unfolding is_grouped
is_uuid s = is_grouped 8 (4 ∷ 4 ∷ 4 ∷ 12 ∷ []) (codes s)

pub record ReconciliationClaim : Type 0 where
  pub expects_claimed : Bool
  pub expected_version : Option ℕ
  pub expected_owner : Option String
  pub require_expired : Bool
  pub as_of : Option ℕ

pub record StatusInput : Type 0 where
  pub idempotency_key : String
  pub claim_token : Option String
  pub reconciliation_claim : Option ReconciliationClaim
  pub succeeded : Bool
  pub result : Option Text

abbrev pub outcome_of : Bool → IntentStatus
outcome_of true = executed
outcome_of false = failed

unfoldable pub is_claim_expired : ℕ → Option ℕ → Bool
is_claim_expired as_of none = false
is_claim_expired as_of (some expires) = leb expires as_of

unfoldable pub owner_is : Option String → Option String → Bool
owner_is none owner = true
owner_is (some o) none = false
owner_is (some o) (some owner) = str_eq owner o

unfoldable pub token_is : String → Option String → Bool
token_is t none = false
token_is t (some token) = str_eq token t

abbrev pub expected_status : ReconciliationClaim → IntentStatus
expected_status r = if r.expects_claimed then claimed else pending

-- How the update finds its row: by the claim token, or by what a reconciliation has read.
pub data Authority : Type 0 where
  by_token : String → Authority
  by_version : (version : ℕ) (reconciliation : ReconciliationClaim) → Authority

abbrev is_absent : Option ReconciliationClaim → Bool
is_absent none = true
is_absent (some r) = false

-- The guards before the update.
unfoldable pub authority_of : StatusInput → Result IntentError Authority
unfolding is_uuid
authority_of p = elim p.claim_token [
  | some t ↦
      if str_eq t "" && is_absent p.reconciliation_claim
      then err no_claim
      else if is_uuid t
      then ok (by_token t)
      else err claim_lost
  | none ↦ elim p.reconciliation_claim [
    | none ↦ err no_claim
    | some r ↦
        if r.expects_claimed && not r.require_expired
        then err claim_lost
        else elim r.expected_version [ none ↦ err claim_lost | some v ↦ ok (by_version v r) ]
  ]
]

unfoldable pub status_where : String → Authority → (now : ℕ) → ProviderIntentRecord → Bool
unfolding intent_status_eq token_is owner_is is_claim_expired
status_where key (by_token t) now i =
    has_intent_key key i && (intent_status_eq i.status claimed && token_is t i.claim_token)
status_where key (by_version v r) now i =
    has_intent_key key i
    && (intent_status_eq i.status (expected_status r)
        && (i.version == v
            && (owner_is r.expected_owner i.claim_owner
                && (not r.require_expired
                    || is_claim_expired (get_or r.as_of now) i.claim_expires_at))))

abbrev pub updated_intent : StatusInput → ProviderIntentRecord → ProviderIntentRecord
updated_intent p i = record i {
  status = outcome_of p.succeeded;
  result = elim p.result [ none ↦ i.result | some r ↦ some r ];
  claim_expires_at = none;
  version = i.version + 1;
}

unfoldable pub update_provider_intent_status :
    StatusInput → ℕ → List ProviderIntentRecord → Result IntentError (List ProviderIntentRecord)
unfolding authority_of status_where
update_provider_intent_status p now rows = do
  a ← authority_of p
  let w = status_where p.idempotency_key a now
  throw_if (not (count_where w rows == 1)) claim_lost
  ok (update_where w (updated_intent p) rows)
