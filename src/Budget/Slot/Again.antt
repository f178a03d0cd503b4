-- ===== src/Budget/Slot/Again.antt =====
-- A repeated call of `acquireEventAttemptSlot` of
-- packages/database/src/repositories/budget-repository.ts.
use falseroute.Prelude.{
  ℕ, ◌≤◌, ◌<◌, ◌≡◌, refl, ap, sym, ◌∙◌, String, str_eq_refl, codes, starts_with-append, includes,
  Bool, true, false, none, some, List, [], ◌∷◌, ◌++◌, ok, throw_if, arith, ◌==◌, any_where,
  filter_where, find_first, find_first-append, find_first-none, on_ok, lt→ltb, decimal,
}
use falseroute.Budget.Store.{
  Reservation, Clock, status_eq, validate_numeric_positive, amount_reserved_name, limit_name,
  invalid_max_attempts,
}
use falseroute.Budget.Store.Sums.{event_eq_refl, category_eq_refl}
use falseroute.Budget.Slot.{
  SlotInput, ParsedInt, number, SlotOutcome, slot_granted, attempt_prefix, attempt_key,
  attempt_number, is_of_event, is_held_by_owner, slot_reservation, acquire_validated,
  acquire_event_attempt_slot,
}
use falseroute.Budget.Slot.Attempts.{
  claim_slot-granted, choose_slot-granted, acquire_validated-new, chosen,
}
use falseroute.Budget.Slot.Numbers.{attempt_number-attempt_key}

-- The parameters that pass the checks once pass them again.
acquire-again :
    (p : SlotInput) (c c' : Clock) (id id' : String) (rows rows' rows₂ : List Reservation)
    (o : SlotOutcome)
    → acquire_event_attempt_slot p c id rows ≡ ok (rows', o)
    → (requested : ℕ) × (limit : ℕ) × (acquire_validated p requested limit c id rows
        ≡ ok (rows', o))
      × (acquire_event_attempt_slot p c' id' rows₂
          ≡ acquire_validated p requested limit c' id' rows₂)
unfolding acquire_event_attempt_slot
acquire-again p c c' id id' rows rows' rows₂ o h =
    on_ok (validate_numeric_positive p.amount_reserved amount_reserved_name) _ h λ requested e h₁.
      on_ok (validate_numeric_positive p.limit limit_name) _ h₁ λ limit l h₂.
        on_ok (throw_if (p.max_attempts == 0) invalid_max_attempts) _ h₂
          λ u positive h₃. (requested, limit, h₃, rw e (rw l (rw positive refl)))

-- A row that is not held now is not held later.
later-held :
    (p : SlotInput) (now later : ℕ) (rows : List Reservation)
    → now ≤ later
    → any_where (is_held_by_owner p now) rows ≡ false
    → any_where (is_held_by_owner p later) rows ≡ false
later-held p now later [] le h = refl
later-held p now later (r ∷ rows) le h = ground (arith, later-held p now later rows le)

filter-append :
    (q : Reservation → Bool) (rows : List Reservation) (r : Reservation)
    → q r ≡ true
    → filter_where q (rows ++ r ∷ []) ≡ filter_where q rows ++ r ∷ []
filter-append q [] r h = rw h refl
filter-append q (x ∷ rows) r h = ground (arith, filter-append q rows r h)

slot-held :
    (p : SlotInput) (n requested now : ℕ) (c : Clock) (id : String)
    → now < (slot_reservation p n requested c id).expires_at
    → (is_of_event p (slot_reservation p n requested c id) ≡ true)
      × (is_held_by_owner p now (slot_reservation p n requested c id) ≡ true)
unfolding slot_reservation attempt_key status_eq
slot-held p n requested now c id h = (
  ground (arith, event_eq_refl (some p.event_id), category_eq_refl p.category),
  ground (
    arith,
    str_eq_refl p.owner_id,
    starts_with-append (attempt_prefix p.key_prefix) (decimal n),
    lt→ltb now (slot_reservation p n requested c id).expires_at h,
  ),
)

validated-none :
    (p : SlotInput) (requested limit : ℕ) (c : Clock) (id : String) (rows rows' : List Reservation)
    (a : ParsedInt) (r : Reservation)
    → acquire_validated p requested limit c id rows ≡ ok (rows', slot_granted false a r)
    → find_first (is_held_by_owner p c.app) (filter_where (is_of_event p) rows) ≡ none
unfolding acquire_validated
validated-none p requested limit c id rows rows' a r h = ground arith

validated-held :
    (p : SlotInput) (requested limit : ℕ) (c : Clock) (id : String) (rows : List Reservation)
    (r : Reservation)
    → find_first (is_held_by_owner p c.app) (filter_where (is_of_event p) rows) ≡ some r
    → acquire_validated p requested limit c id rows
      ≡ ok (rows, slot_granted true (attempt_number r.idempotency_key) r)
unfolding acquire_validated
validated-held p requested limit c id rows r h = rw (h, acquire_validated) refl

-- The row behind a table that holds no other such row is the one that is found.
found-appended :
    (p : SlotInput) (now later : ℕ) (rows : List Reservation) (r : Reservation)
    → now ≤ later
    → find_first (is_held_by_owner p now) (filter_where (is_of_event p) rows) ≡ none
    → is_of_event p r ≡ true
    → is_held_by_owner p later r ≡ true
    → find_first (is_held_by_owner p later) (filter_where (is_of_event p) (rows ++ r ∷ [])) ≡ some r
found-appended p now later rows r le free mine held =
    let own = filter_where (is_of_event p) rows in
    ap (find_first (is_held_by_owner p later)) (filter-append (is_of_event p) rows r mine)
    ∙ find_first-append (is_held_by_owner p later) own (r ∷ [])
        (later-held p now later own le (find_first-none (is_held_by_owner p now) own free))
    ∙ (rw held refl)

-- After a call has been granted a new slot, the same call before the slot expires is answered with the
-- same attempt number and the same row, and the table stays as it is: the number is read back from
-- the key of the row. It is assumed that the clock does not go back, and that the prefix of
-- the keys does not itself include `attempt-`.
pub acquire-replay :
    (p : SlotInput) (c c' : Clock) (id id' : String) (rows rows' : List Reservation) (a : ParsedInt)
    (r : Reservation)
    → includes (codes "attempt-") p.key_prefix ≡ false
    → acquire_event_attempt_slot p c id rows ≡ ok (rows', slot_granted false a r)
    → c.app ≤ c'.app
    → c'.app < r.expires_at
    → acquire_event_attempt_slot p c' id' rows' ≡ ok (rows', slot_granted true a r)
acquire-replay p c c' id id' rows rows' a r plain h le live =
    let (requested, limit, v, again) =
      acquire-again p c c' id id' rows rows' rows' (slot_granted false a r) h in
    let chosen_now = acquire_validated-new p requested limit c id rows rows' a r v in
    let (below, some_free, claim) =
      choose_slot-granted p requested limit c id rows rows' false a r chosen_now in
    let n = chosen p rows in
    let (a_eq, r_eq, unused, appended, within) =
      claim_slot-granted p n requested limit c id rows rows' a r claim in
    let free = validated-none p requested limit c id rows rows' a r v in
    let held = slot-held p n requested c'.app c id (rw (← r_eq) live) in
    let first : find_first (is_held_by_owner p c'.app) (filter_where (is_of_event p) rows')
        ≡ some r =
      ap
        (λ (t : List Reservation).
          find_first (is_held_by_owner p c'.app) (filter_where (is_of_event p) t))
        appended
      ∙ found-appended p c.app c'.app rows r le free (rw r_eq held.0) (rw r_eq held.1) in
    let reads : attempt_number (slot_reservation p n requested c id).idempotency_key ≡ number n =
      unfold slot_reservation in attempt_number-attempt_key p.key_prefix n plain in
    again
    ∙ validated-held p requested limit c' id' rows' r first
    ∙ ap (λ (m : ParsedInt). ok (rows', slot_granted true m r))
        (ap (λ (x : Reservation). attempt_number x.idempotency_key) r_eq ∙ reads ∙ sym a_eq)
