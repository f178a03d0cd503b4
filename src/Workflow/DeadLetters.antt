-- ===== src/Workflow/DeadLetters.antt =====
-- Dead letters and their replays: `recordDeadLetter`, `markDeadLetterReplayed`,
-- `claimDeadLetterForReplay`, `completeReplayClaim` and `failReplayClaim` of
-- packages/database/src/repositories/autonomous-workflow-repository.ts, each one transaction. A payload
-- is its JSON as a text, and the hash of it a parameter.
pub mod Once
use falseroute.Prelude.{
  ℕ, ◌+◌, String, Text, str_eq, Bool, true, false, not, ◌&&◌, ◌||◌, Option, none, some, List, [],
  ◌∷◌, ◌++◌, Result, ok, err, ◌>>=◌, ◌>>◌, throw_if, or_throw, ◌==◌, if◌then◌else◌, any_where,
  find_first, count_where, update_where, get_or,
}
use falseroute.Leases.Cleanup.{slice}

pub data ReplayStatus : Type 0 where
  available replaying replayed review_required : ReplayStatus

pub data AttemptStatus : Type 0 where
  attempt_claimed attempt_completed attempt_failed : AttemptStatus

pub record DeadLetter : Type 0 where
  pub id : String
  pub original_message_id : String
  pub original_event_id : Option String
  pub failure_reason : Text
  pub retry_count : ℕ
  pub payload : Text
  pub replay_status : ReplayStatus

pub record ReplayAttempt : Type 0 where
  pub id : String
  pub dead_letter_id : String
  pub original_event_id : String
  pub original_transport_id : String
  pub new_transport_id : Option String
  pub requested_by : String
  pub rationale : Text
  pub status : AttemptStatus
  pub failure_reason : Option Text
  pub completed_at : Option ℕ

pub record ReplayTables : Type 0 where
  pub letters : List DeadLetter
  pub attempts : List ReplayAttempt

pub data ReplayError : Type 0 where
  letter_collision letter_not_found schema_invalid attempt_not_found claim_inactive
        unique_violation :
      ReplayError

unfoldable pub is_available : ReplayStatus → Bool
is_available available = true
is_available _ = false

unfoldable pub attempt_status_eq : AttemptStatus → AttemptStatus → Bool
attempt_status_eq attempt_claimed attempt_claimed = true
attempt_status_eq attempt_completed attempt_completed = true
attempt_status_eq attempt_failed attempt_failed = true
attempt_status_eq _ _ = false

abbrev pub has_letter_id : String → DeadLetter → Bool
has_letter_id i d = str_eq d.id i

abbrev pub has_message_id : String → DeadLetter → Bool
has_message_id i d = str_eq d.original_message_id i

abbrev pub has_attempt_id : String → ReplayAttempt → Bool
has_attempt_id i a = str_eq a.id i

abbrev pub is_of_letter : String → ReplayAttempt → Bool
is_of_letter i a = str_eq a.dead_letter_id i

-- The unique index on the dead letter and the status.
unfoldable pub is_attempt_in : String → AttemptStatus → ReplayAttempt → Bool
unfolding attempt_status_eq
is_attempt_in letter s a = is_of_letter letter a && attempt_status_eq a.status s

pub record LetterInput : Type 0 where
  pub original_message_id : String
  pub original_event_id : Option String
  pub failure_reason : Text
  pub payload : Text
  pub retry_count : Option ℕ

abbrev pub new_letter : LetterInput → String → DeadLetter
new_letter p id = record {
  id = id;
  original_message_id = p.original_message_id;
  original_event_id = p.original_event_id;
  failure_reason = slice 512 p.failure_reason;
  retry_count = get_or p.retry_count 0;
  payload = p.payload;
  replay_status = available;
}

abbrev event_id_eq : Option String → Option String → Bool
event_id_eq none none = true
event_id_eq (some a) (some b) = str_eq a b
event_id_eq _ _ = false

unfoldable pub record_dead_letter :
    (canonical_json_sha256 : Text → String)
    → LetterInput
    → String
    → ReplayTables
    → Result ReplayError (ReplayTables × DeadLetter)
unfolding slice
record_dead_letter canonical_json_sha256 p id t =
    elim (find_first (has_message_id p.original_message_id) t.letters) [
      | none ↦ ok (record t { letters = t.letters ++ new_letter p id ∷ [] }, new_letter p id)
      | some d ↦
          if not (event_id_eq d.original_event_id p.original_event_id)
            || not (str_eq (canonical_json_sha256 d.payload) (canonical_json_sha256 p.payload))
          then err letter_collision
          else ok (t, d)
    ]

abbrev pub with_status : ReplayStatus → DeadLetter → DeadLetter
with_status s d = record d { replay_status = s }

-- `update` of one dead letter.
unfoldable pub set_letter_status :
    String → ReplayStatus → ReplayTables → Result ReplayError ReplayTables
set_letter_status id s t =
    if any_where (has_letter_id id) t.letters
    then ok (record t { letters = update_where (has_letter_id id) (with_status s) t.letters })
    else err letter_not_found

unfoldable pub mark_dead_letter_replayed : String → ReplayTables → Result ReplayError ReplayTables
unfolding set_letter_status
mark_dead_letter_replayed id = set_letter_status id replayed

pub record ReplayInput : Type 0 where
  pub dead_letter_id : String
  pub requested_by : String
  pub rationale : Text

abbrev pub new_attempt : ReplayInput → DeadLetter → (event : String) → (id : String) → ReplayAttempt
new_attempt p d event id = record {
  id = id;
  dead_letter_id = d.id;
  original_event_id = event;
  original_transport_id = d.original_message_id;
  new_transport_id = none;
  requested_by = p.requested_by;
  rationale = slice 512 p.rationale;
  status = attempt_claimed;
  failure_reason = none;
  completed_at = none;
}

-- `!record.originalEventId`.
abbrev pub event_of_letter : DeadLetter → Option String
event_of_letter d = elim d.original_event_id [
  | none ↦ none
  | some e ↦ if str_eq e "" then none else some e
]

abbrev pub is_claimable_letter : String → DeadLetter → Bool
is_claimable_letter i d = has_letter_id i d && is_available d.replay_status

-- The two writes of the claim; `none` where the letter is not available.
unfoldable pub write_replay_claim :
    ReplayInput
    → DeadLetter
    → (event : String) → (id : String) → ReplayTables
    → Result ReplayError (ReplayTables × Option ReplayAttempt)
unfolding is_available is_attempt_in slice
write_replay_claim p d event id t =
    if not (count_where (is_claimable_letter p.dead_letter_id) t.letters == 1)
    then ok (t, none)
    else if any_where (is_attempt_in d.id attempt_claimed) t.attempts
    then err unique_violation
    else ok (
      record {
        letters =
            update_where (is_claimable_letter p.dead_letter_id) (with_status replaying) t.letters;
        attempts = t.attempts ++ new_attempt p d event id ∷ [];
      },
      some (new_attempt p d event id),
    )

unfoldable pub claim_dead_letter_for_replay :
    ReplayInput
    → (id : String) → ReplayTables
    → Result ReplayError (ReplayTables × Option ReplayAttempt)
unfolding write_replay_claim
claim_dead_letter_for_replay p id t = do
  d ← or_throw (find_first (has_letter_id p.dead_letter_id) t.letters) letter_not_found
  event ← or_throw (event_of_letter d) schema_invalid
  write_replay_claim p d event id t

abbrev pub is_active_attempt : String → ReplayAttempt → Bool
is_active_attempt i a = has_attempt_id i a && attempt_status_eq a.status attempt_claimed

-- What `completeReplayClaim` and `failReplayClaim` share: the update of the attempt, and of its letter.
unfoldable pub end_replay_claim :
    String
    → AttemptStatus
    → (ReplayAttempt → ReplayAttempt)
    → ReplayStatus
    → ReplayTables
    → Result ReplayError ReplayTables
unfolding attempt_status_eq is_attempt_in set_letter_status
end_replay_claim attempt_id s f letter_status t = do
  a ← or_throw (find_first (has_attempt_id attempt_id) t.attempts) attempt_not_found
  throw_if (not (count_where (is_active_attempt a.id) t.attempts == 1)) claim_inactive
  throw_if (any_where (is_attempt_in a.dead_letter_id s) t.attempts) unique_violation
  set_letter_status a.dead_letter_id letter_status
      (record t { attempts = update_where (is_active_attempt a.id) f t.attempts })

abbrev pub completed_attempt : String → ℕ → ReplayAttempt → ReplayAttempt
completed_attempt transport now a = record a {
  status = attempt_completed;
  new_transport_id = some transport;
  completed_at = some now;
}

abbrev pub failed_attempt : Text → ℕ → ReplayAttempt → ReplayAttempt
failed_attempt reason now a = record a {
  status = attempt_failed;
  failure_reason = some (slice 512 reason);
  completed_at = some now;
}

unfoldable pub complete_replay_claim :
    String → (transport : String) → ℕ → ReplayTables → Result ReplayError ReplayTables
unfolding end_replay_claim
complete_replay_claim attempt_id transport now =
    end_replay_claim attempt_id attempt_completed (completed_attempt transport now) replayed

unfoldable pub fail_replay_claim :
    String → (reason : Text) → ℕ → ReplayTables → Result ReplayError ReplayTables
unfolding end_replay_claim slice
fail_replay_claim attempt_id reason now =
    end_replay_claim attempt_id attempt_failed (failed_attempt reason now) review_required
