-- ===== src/Workflow/Register/Refine.antt =====
-- The statements of packages/database/src/repositories/autonomous-workflow-repository.ts on provider
-- intents, in any order, as events of registers.
use falseroute.Prelude.{
  ℕ, ◌≤◌, ◌≡◌, ◌≢◌, refl, ap, ◌∙◌, String, str_eq, str_eq_iff, str_eq_refl, Bool, true, false,
  Option, none, some, List, [], ◌∷◌, ◌++◌, arith, ok, ◌==◌, if◌then◌else◌, any_where, find_first,
  find_first-append, count_where, count_where-append, update_where, update_where-none, count-zero,
  count-le, any-zero, updated_found, other_found, count-update_same, Bool-cases, inl, inr,
}
use falseroute.Workflow.Intents.{
  pending, claimed, ProviderIntentRecord, ClaimInput, has_intent_key, new_intent, create_intent,
  claim_where, claimed_intent, write_claim, intent_status_eq, intent_status_eq_sound,
}
use falseroute.Workflow.Status.{
  StatusInput, Authority, by_token, by_version, authority_of, status_where, updated_intent,
  update_provider_intent_status, outcome_of, expected_status, token_is,
}
use falseroute.Workflow.Register.{
  held, IntentEvent, silent, opened, won, settled, reconciled, accept, register_at, register_in,
  register_of, event_of, IntentStep, opens, finds, claims, settles, HasUniqueKeys, Refines,
}

other_key :
    (k key : String) (i : ProviderIntentRecord)
    → has_intent_key k i ≡ true
    → str_eq k key ≡ false
    → has_intent_key key i ≡ false
other_key k key i h other = elim (Bool-cases (has_intent_key key i)) [
  | inl hit ↦
      let e : i.idempotency_key ≡ k = (str_eq_iff i.idempotency_key k).0 h in
      let same : str_eq k key ≡ true = rw (← e) hit in cc
  | inr miss ↦ miss
]

module _ (k : String) (w : ProviderIntentRecord → Bool)
    (g : ProviderIntentRecord → ProviderIntentRecord) (rows : List ProviderIntentRecord)
    (unique : HasUniqueKeys rows)
    (keyed : (i : ProviderIntentRecord) → w i ≡ true → has_intent_key k i ≡ true)
    (keeps : (i : ProviderIntentRecord) → (g i).idempotency_key ≡ i.idempotency_key) where
  kept-key :
      (key : String) (i : ProviderIntentRecord) → has_intent_key key (g i) ≡ has_intent_key key i
  kept-key key i = ap (λ (x : String). str_eq x key) (keeps i)

  write_unique : HasUniqueKeys (update_where w g rows)
  write_unique key =
      omega (arith, count-update_same (has_intent_key key) w g rows (kept-key key), unique key)

  write-others :
      (key : String)
      → str_eq k key ≡ false
      → register_of key (update_where w g rows) ≡ register_of key rows
  unfolding register_of
  write-others key other = ap register_in (
      other_found (has_intent_key key) w g rows λ i hit.
        let misses = other_key k key i (keyed i hit) other in (misses, kept-key key i ∙ misses))

  write-Refines :
      (e : IntentEvent)
      → count_where w rows ≡ 1
      → ((i : ProviderIntentRecord)
          → w i ≡ true
          → accept e (register_in (some i)) ≡ some (register_in (some (g i))))
      → Refines rows k e (update_where w g rows)
  unfolding register_of
  write-Refines e one steps =
      let (i, found, hit, after) =
        updated_found (has_intent_key k) w g rows keyed (kept-key k) (unique k) one in
      record {
        unique = write_unique;
        allowed = rw found (rw after (steps i hit));
        others = write-others;
      }

create_unique :
    (p : ClaimInput) (rows : List ProviderIntentRecord)
    → any_where (has_intent_key p.idempotency_key) rows ≡ false
    → HasUniqueKeys rows
    → HasUniqueKeys (rows ++ new_intent p ∷ [])
create_unique p rows fresh unique key = elim (Bool-cases (str_eq p.idempotency_key key)) [
  | inl hit ↦
      let same : p.idempotency_key ≡ key = (str_eq_iff p.idempotency_key key).0 hit in
      let none_there = any-zero (has_intent_key key) rows (rw (← same) fresh) in
      ground (arith, count_where-append (has_intent_key key) rows (new_intent p ∷ []))
  | inr miss ↦
      ground (arith, count_where-append (has_intent_key key) rows (new_intent p ∷ []), unique key)
]

append-other :
    (q : ProviderIntentRecord → Bool) (rows : List ProviderIntentRecord) (n : ProviderIntentRecord)
    → q n ≡ false
    → find_first q (rows ++ n ∷ []) ≡ find_first q rows
append-other q [] n h = rw h
append-other q (i ∷ rows) n h = ground (arith, append-other q rows n h)

not-any :
    (q : ProviderIntentRecord → Bool) (rows : List ProviderIntentRecord)
    → any_where q rows ≡ false
    → find_first q rows ≡ none
not-any q [] h = refl
not-any q (i ∷ rows) h = ground (arith, not-any q rows)

opens-Refines :
    (p : ClaimInput) (rows : List ProviderIntentRecord)
    → any_where (has_intent_key p.idempotency_key) rows ≡ false
    → HasUniqueKeys rows
    → Refines rows p.idempotency_key opened (create_intent p rows)
unfolding create_intent register_of accept
opens-Refines p rows fresh unique =
    let n = new_intent p in
    let key = p.idempotency_key in
    let before : find_first (has_intent_key key) rows ≡ none =
      not-any (has_intent_key key) rows fresh in
    let after : find_first (has_intent_key key) (rows ++ n ∷ []) ≡ some n =
      find_first-append (has_intent_key key) rows (n ∷ []) fresh ∙ rw (str_eq_refl key) refl in
    rw (fresh, create_intent)
      (record {
        unique = create_unique p rows fresh unique;
        allowed = rw before (rw after refl);
        others = λ other different.
            ap register_in (append-other (has_intent_key other) rows n different);
      })

-- A statement that changes nothing.
unmoved :
    (rows : List ProviderIntentRecord) (k : String)
    → HasUniqueKeys rows
    → Refines rows k silent rows
unfolding accept
unmoved rows k unique = record { unique = unique; allowed = refl; others = λ key other. refl }

not_one : (n : ℕ) → (n == 1) ≡ false → n ≢ 1
not_one n h = ground arith

module _ (p : ClaimInput) (token : String) (now version : ℕ) (rows : List ProviderIntentRecord)
    (unique : HasUniqueKeys rows) where
  claim_keyed :
      (i : ProviderIntentRecord)
      → claim_where p.idempotency_key version i ≡ true
      → has_intent_key p.idempotency_key i ≡ true
  unfolding claim_where
  claim_keyed i h = ground arith

  claim_steps :
      (i : ProviderIntentRecord)
      → claim_where p.idempotency_key version i ≡ true
      → accept (won token) (register_in (some i))
        ≡ some (register_in (some (claimed_intent p token now i)))
  unfolding claim_where accept intent_status_eq
  claim_steps i h =
      let is_pending : i.status ≡ pending =
        intent_status_eq_sound i.status pending (ground arith) in
      rw is_pending refl

  claims-Refines :
      Refines rows p.idempotency_key
        (if (write_claim p token now version rows).1 == 1 then won token else silent)
        (write_claim p token now version rows).0
  unfolding write_claim
  claims-Refines =
      let w = claim_where p.idempotency_key version in
      let g = claimed_intent p token now in
      elim (Bool-cases (count_where w rows == 1)) [
        | inl one ↦ rw one (
            write-Refines p.idempotency_key w g rows unique claim_keyed (λ i. refl) (won token)
              (ground arith) claim_steps)
        | inr lost ↦
            let few : count_where w rows ≤ 0 = omega (
              arith,
              count-le w (has_intent_key p.idempotency_key) rows claim_keyed,
              unique p.idempotency_key,
              not_one (count_where w rows) lost,
            ) in
            rw lost (
              rw (update_where-none w g rows (count-zero w rows few))
                (unmoved rows p.idempotency_key unique))
      ]

settle_keyed :
    (key : String) (a : Authority) (now : ℕ) (i : ProviderIntentRecord)
    → status_where key a now i ≡ true
    → has_intent_key key i ≡ true
unfolding status_where
settle_keyed key (by_token t) now i h = ground arith
settle_keyed key (by_version v r) now i h = ground arith

settle_held :
    (t : String) (token : Option String) (b : Bool)
    → token_is t token ≡ true
    → accept (settled t b) (held token) ≡ some (register_at (outcome_of b) token)
unfolding token_is accept
settle_held t none b h = cc
settle_held t (some u) true h = rw h
settle_held t (some u) false h = rw h

settle_version :
    (was_claimed : Bool) (token : Option String) (b : Bool)
    → accept
        (reconciled was_claimed b)
        (register_at (if was_claimed then claimed else pending) token)
      ≡ some (register_at (outcome_of b) token)
unfolding accept
settle_version true token true = refl
settle_version true token false = refl
settle_version false token true = refl
settle_version false token false = refl

settle_steps :
    (p : StatusInput) (a : Authority) (now : ℕ) (i : ProviderIntentRecord)
    → status_where p.idempotency_key a now i ≡ true
    → accept (event_of a p.succeeded) (register_in (some i))
      ≡ some (register_in (some (updated_intent p i)))
unfolding status_where event_of
settle_steps p (by_token t) now i h =
    let is_claimed : i.status ≡ claimed = intent_status_eq_sound i.status claimed (ground arith) in
    rw is_claimed (settle_held t i.claim_token p.succeeded (ground arith))
settle_steps p (by_version v r) now i h =
    let expected : i.status ≡ expected_status r =
      intent_status_eq_sound i.status (expected_status r) (ground arith) in
    rw expected (settle_version r.expects_claimed i.claim_token p.succeeded)

settles-Refines :
    (p : StatusInput) (a : Authority) (now : ℕ) (rows rows' : List ProviderIntentRecord)
    → authority_of p ≡ ok a
    → update_provider_intent_status p now rows ≡ ok rows'
    → HasUniqueKeys rows
    → Refines rows p.idempotency_key (event_of a p.succeeded) rows'
unfolding update_provider_intent_status
settles-Refines p a now rows rows' authority h unique =
    let w = status_where p.idempotency_key a now in
    let one : count_where w rows ≡ 1 = ground arith in
    let written : rows' ≡ update_where w (updated_intent p) rows = ground arith in
    rw written (
      write-Refines p.idempotency_key w (updated_intent p) rows unique
        (settle_keyed p.idempotency_key a now) (λ i. refl) (event_of a p.succeeded) one
        (settle_steps p a now))

-- A statement of a worker does to the register of its key what the event allows, and nothing to those of
-- other keys.
pub step-Refines :
    {rows : List ProviderIntentRecord} {k : String} {e : IntentEvent}
    {rows' : List ProviderIntentRecord}
    → IntentStep rows k e rows'
    → HasUniqueKeys rows
    → Refines rows k e rows'
step-Refines (opens p rows fresh) unique = opens-Refines p rows fresh unique
step-Refines (finds p rows there) unique =
    let kept : create_intent p rows ≡ rows = unfold create_intent in rw there in
    rw kept (unmoved rows p.idempotency_key unique)
step-Refines (claims p token now version rows) unique =
    claims-Refines p token now version rows unique
step-Refines (settles p a now rows rows' authority h) unique =
    settles-Refines p a now rows rows' authority h unique
