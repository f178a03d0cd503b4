-- ===== src/Budget/Slot.antt =====
-- `BudgetRepository.acquireEventAttemptSlot`: the next free attempt of an event, and its budget.
-- Like `reserveBudget` it runs under the advisory lock of its window. The rows of a query come in
-- the order of the table.
pub mod Attempts
pub mod Numbers
pub mod Again
use falseroute.Prelude.{
  ℕ, zero, suc, ◌+◌, ◌-◌, ◌*◌, String, Text, codes, str_eq, text_eq, starts_with, decimal, Bool,
  true, false, ◌&&◌, ◌||◌, not, Option, none, some, List, [], ◌∷◌, ◌++◌, map, Result, ok, err,
  ◌>>=◌, ◌>>◌, throw_if, ltb, leb, ◌==◌, if◌then◌else◌, get_or, length, find_first, any_where,
  filter_where,
}
use falseroute.Budget.Store.{
  Category, Status, reserved, Reservation, Clock, Numeric, amount_reserved_name, limit_name,
  BudgetError, invalid_max_attempts, validate_numeric_positive, category_eq, status_eq, event_eq,
  is_counting, create, sum_committed_in_window,
}
use falseroute.Budget.Reserve.{Reason, attempt_limit, no_free_slot, ceiling_exceeded}

pub record SlotInput : Type 0 where
  pub event_id : String
  pub category : Category
  pub window_key : String
  pub amount_reserved : Numeric
  pub limit : Numeric
  pub owner_id : String
  pub max_attempts : ℕ
  pub key_prefix : Text
  pub ttl_ms : Option ℕ

-- What `Number.parseInt(…, 10)` gives.
pub data ParsedInt : Type 0 where
  nan : ParsedInt
  number minus : ℕ → ParsedInt

pub data SlotOutcome : Type 0 where
  slot_granted : (is_duplicate : Bool) (attempt : ParsedInt) → Reservation → SlotOutcome
  slot_denied : Reason → (current_committed limit : ℕ) → SlotOutcome

unfoldable pub is_digit : ℕ → Bool
is_digit c = leb b'0' c && leb c b'9'

-- The value of the digits that a text begins with, after the digits read so far.
unfoldable pub digits_value : ℕ → Text → ℕ
digits_value n [] = n
digits_value n (c ∷ s) =
    let more = digits_value (n * 10 + (c - b'0')) s in if is_digit c then more else n

unfoldable pub unsigned : (ℕ → ParsedInt) → Text → ParsedInt
unfolding is_digit digits_value
unsigned sign [] = nan
unsigned sign (c ∷ s) = if is_digit c then sign (digits_value 0 (c ∷ s)) else nan

-- The white space that `parseInt` skips.
unfoldable pub is_space : ℕ → Bool
is_space c =
    (leb 9 c && leb c 13)
    || (c == 32
        || (c == 160
            || (c == 0x1680
                || ((leb 0x2000 c && leb c 0x200a)
                    || (c == 0x2028
                        || (c == 0x2029
                            || (c == 0x202f || (c == 0x205f || (c == 0x3000 || c == 0xfeff)))))))))

unfoldable pub parse_int : Text → ParsedInt
unfolding unsigned is_space
parse_int [] = nan
parse_int (c ∷ s) =
    let spaced = parse_int s in
    if is_space c
    then spaced
    else if c == b'-'
    then unsigned minus s
    else if c == b'+'
    then unsigned number s
    else unsigned number (c ∷ s)

-- `text.split(mark)[1]`: what stands between the first two marks; `n` characters are skipped first.
unfoldable pub until_mark : Text → Text → Text
until_mark mark [] = []
until_mark mark (c ∷ s) =
    let rest = until_mark mark s in if starts_with mark (c ∷ s) then [] else c ∷ rest

unfoldable pub drop : ℕ → Text → Text
drop zero s = s
drop (suc n) [] = []
drop (suc n) (c ∷ s) = drop n s

unfoldable pub split_second : Text → Text → Option Text
unfolding until_mark drop
split_second mark [] = none
split_second mark (c ∷ s) =
    let rest = split_second mark s in
    if starts_with mark (c ∷ s) then some (until_mark mark (drop (length mark) (c ∷ s))) else rest

abbrev pub attempt_mark : Text
attempt_mark = codes ":attempt-"

unfoldable pub attempt_prefix : Text → Text
attempt_prefix prefix = prefix ++ attempt_mark

unfoldable pub attempt_key : Text → ℕ → Text
attempt_key prefix n = attempt_prefix prefix ++ decimal n

unfoldable pub attempt_number : Text → ParsedInt
unfolding split_second parse_int
attempt_number key = parse_int (get_or (split_second (codes "attempt-") key) (codes "0"))

-- `findMany({ where: { eventId, category } })`.
abbrev pub is_of_event : SlotInput → Reservation → Bool
is_of_event p r = event_eq r.event_id (some p.event_id) && category_eq r.category p.category

abbrev pub is_held_by_owner : SlotInput → ℕ → Reservation → Bool
is_held_by_owner p now r =
    str_eq r.owner_id p.owner_id
    && (status_eq r.status reserved
        && (ltb now r.expires_at && starts_with (attempt_prefix p.key_prefix) r.idempotency_key))

-- The loop over the candidates, with `rounds` of them left; 0 when none is free.
unfoldable pub first_free : (taken : ℕ → Bool) (rounds candidate : ℕ) → ℕ
first_free taken zero candidate = 0
first_free taken (suc rounds) candidate =
    let later = first_free taken rounds (suc candidate) in
    if taken candidate then later else candidate

unfoldable pub is_taken : Text → List Reservation → ℕ → Bool
unfolding attempt_key
is_taken prefix rows n = any_where (λ r. text_eq r.idempotency_key (attempt_key prefix n)) rows

unfoldable pub slot_reservation : SlotInput → ℕ → ℕ → Clock → String → Reservation
slot_reservation p n requested c id = record {
  id = id;
  idempotency_key = attempt_key p.key_prefix n;
  category = p.category;
  window_key = p.window_key;
  amount_reserved = requested;
  amount_consumed = none;
  status = reserved;
  owner_id = p.owner_id;
  expires_at = c.app + get_or p.ttl_ms 60000;
  consumed_at = none;
  released_at = none;
  reconciled_at = none;
  event_id = some p.event_id;
  version = 1;
  gemini_attempt_outcome = none;
}

-- The ceiling of the window, and the new row of attempt `n`.
unfoldable pub claim_slot :
    SlotInput
    → ℕ
    → ℕ
    → ℕ
    → Clock
    → String
    → List Reservation
    → Result BudgetError (List Reservation × SlotOutcome)
claim_slot p n requested limit c id rows =
    let total = sum_committed_in_window p.category p.window_key c.db rows in
    let r = slot_reservation p n requested c id in
    if ltb limit (total + requested)
    then ok (rows, slot_denied (ceiling_exceeded p.category total requested limit) total limit)
    else (create r rows >>= λ rows'. ok (rows', slot_granted false (number n) r))

-- The cap on the event's attempts, and the choice of the slot.
unfoldable pub choose_slot :
    SlotInput
    → ℕ
    → ℕ
    → Clock
    → String
    → List Reservation
    → Result BudgetError (List Reservation × SlotOutcome)
choose_slot p requested limit c id rows =
    let existing = filter_where (is_of_event p) rows in
    let charged = length (filter_where (λ r. is_counting r.status) existing) in
    let n = first_free (is_taken p.key_prefix existing) p.max_attempts 1 in
    if leb p.max_attempts charged
    then ok (rows, slot_denied (attempt_limit p.event_id charged p.max_attempts) limit limit)
    else if n == 0
    then ok (rows, slot_denied (no_free_slot p.event_id p.max_attempts) limit limit)
    else claim_slot p n requested limit c id rows

unfoldable pub acquire_validated :
    SlotInput
    → ℕ
    → ℕ
    → Clock
    → String
    → List Reservation
    → Result BudgetError (List Reservation × SlotOutcome)
acquire_validated p requested limit c id rows =
    elim (find_first (is_held_by_owner p c.app) (filter_where (is_of_event p) rows)) [
      | some r ↦ ok (rows, slot_granted true (attempt_number r.idempotency_key) r)
      | none ↦ choose_slot p requested limit c id rows
    ]

unfoldable pub acquire_event_attempt_slot :
    SlotInput
    → Clock
    → String
    → List Reservation
    → Result BudgetError (List Reservation × SlotOutcome)
acquire_event_attempt_slot p c id rows = do
  requested ← validate_numeric_positive p.amount_reserved amount_reserved_name
  limit ← validate_numeric_positive p.limit limit_name
  throw_if (p.max_attempts == 0) invalid_max_attempts
  acquire_validated p requested limit c id rows
