-- ===== src/Budget/Slot/Attempts.antt =====
-- The slots that `acquire_event_attempt_slot` grants.
use falseroute.Prelude.{
  ℕ, zero, suc, ◌+◌, ◌≤◌, ◌<◌, ◌≡◌, refl, ◌≢◌, ◌⊎◌, inl, inr, String, Bool, true, false, List, [],
  ◌∷◌, ◌++◌, ok, arith, length, any_where, filter_where, Bool-cases, on_ok, ℕ_discrete,
}
use falseroute.Budget.Store.{
  Reservation, Clock, amount, has_key, create, is_counting, sum_committed_in_window,
  count_event_reservations, validate_numeric_positive, amount_reserved_name, limit_name,
  row_committed,
}
use falseroute.Budget.Store.Sums.{
  count-append, sum-added, row_committed-le, positive-amount, count_one-le,
}
use falseroute.Budget.Slot.{
  SlotInput, ParsedInt, number, SlotOutcome, slot_granted, attempt_key, is_of_event, first_free,
  is_taken, slot_reservation, claim_slot, choose_slot, acquire_validated,
  acquire_event_attempt_slot,
}

-- The loop gives 0, or the first candidate in its range that is not taken.
abbrev IsLeastFree : (ℕ → Bool) → (rounds c n : ℕ) → Type 0
IsLeastFree taken rounds c n =
    (n ≡ 0)
    ⊎ ((c ≤ n) × (n < c + rounds) × (taken n ≡ false) × ((m : ℕ) → c ≤ m → m < n → taken m ≡ true))

first_free-later :
    (taken : ℕ → Bool) (rounds c n : ℕ)
    → taken c ≡ true
    → IsLeastFree taken rounds (suc c) n
    → IsLeastFree taken (suc rounds) c n
first_free-later taken rounds c n used (inl none_left) = inl none_left
first_free-later taken rounds c n used (inr (lo, hi, free, before)) = inr (
  omega arith,
  omega arith,
  free,
  λ m h k. elim (ℕ_discrete m c) [ yes e ↦ rw e used | no e ↦ before m (omega arith) k ],
)

first_free-IsLeastFree :
    (taken : ℕ → Bool) (rounds c : ℕ) → IsLeastFree taken rounds c (first_free taken rounds c)
unfolding first_free
first_free-IsLeastFree taken zero c = inl refl
first_free-IsLeastFree taken (suc rounds) c = elim (Bool-cases (taken c)) [
  | inr free ↦ rw free (inr (omega arith, omega arith, free, λ m h k. absurd (omega arith)))
  | inl used ↦ rw used (
      first_free-later taken rounds c (first_free taken rounds (suc c)) used
        (first_free-IsLeastFree taken rounds (suc c)))
]

-- The attempts that are charged are those that `countEventReservations` counts.
charged-count :
    (p : SlotInput) (rows : List Reservation)
    → length (filter_where (λ r. is_counting r.status) (filter_where (is_of_event p) rows))
      ≡ count_event_reservations p.event_id p.category rows
unfolding count_event_reservations
charged-count p [] = refl
charged-count p (r ∷ rows) = ground (arith, charged-count p rows)

-- A slot that a call grants anew.
pub record Claimed (p : SlotInput) (c : Clock) (rows rows' : List Reservation) (r : Reservation)
    (n limit : ℕ) : Type 0 where
  pub first : 1 ≤ n
  pub last : n ≤ p.max_attempts
  pub least :
      (m : ℕ) → 1 ≤ m → m < n → is_taken p.key_prefix (filter_where (is_of_event p) rows) m ≡ true
  pub keyed : r.idempotency_key ≡ attempt_key p.key_prefix n
  pub unused : any_where (has_key r.idempotency_key) rows ≡ false
  pub appended : rows' ≡ rows ++ r ∷ []
  pub within : sum_committed_in_window p.category p.window_key c.db rows' ≤ limit
  pub capped : count_event_reservations p.event_id p.category rows' ≤ p.max_attempts

slot-le :
    (p : SlotInput) (n requested : ℕ) (c : Clock) (id : String)
    → row_committed p.category p.window_key c.db (slot_reservation p n requested c id) ≤ requested
unfolding slot_reservation
slot-le p n requested c id =
    row_committed-le p.category p.window_key c.db (slot_reservation p n requested c id) refl

-- The new row, when `claim_slot` grants it.
pub claim_slot-granted :
    (p : SlotInput) (n requested limit : ℕ) (c : Clock) (id : String)
    (rows rows' : List Reservation) (a : ParsedInt) (r : Reservation)
    → claim_slot p n requested limit c id rows ≡ ok (rows', slot_granted false a r)
    → (a ≡ number n)
      × (r ≡ slot_reservation p n requested c id)
      × (any_where (has_key r.idempotency_key) rows ≡ false)
      × (rows' ≡ rows ++ r ∷ [])
      × (sum_committed_in_window p.category p.window_key c.db rows + requested ≤ limit)
unfolding claim_slot create
claim_slot-granted p n requested limit c id rows rows' a r h = ground arith

abbrev pub chosen : SlotInput → List Reservation → ℕ
chosen p rows =
    first_free (is_taken p.key_prefix (filter_where (is_of_event p) rows)) p.max_attempts 1

pub choose_slot-granted :
    (p : SlotInput) (requested limit : ℕ) (c : Clock) (id : String) (rows rows' : List Reservation)
    (d : Bool) (a : ParsedInt) (r : Reservation)
    → choose_slot p requested limit c id rows ≡ ok (rows', slot_granted d a r)
    → (length (filter_where (λ r. is_counting r.status) (filter_where (is_of_event p) rows))
        < p.max_attempts)
      × (chosen p rows ≢ 0)
      × (claim_slot p (chosen p rows) requested limit c id rows ≡ ok (rows', slot_granted d a r))
unfolding choose_slot
choose_slot-granted p requested limit c id rows rows' d a r h = ground arith

choose_slot-Claimed :
    (p : SlotInput) (requested limit : ℕ) (c : Clock) (id : String) (rows rows' : List Reservation)
    (a : ParsedInt) (r : Reservation)
    → choose_slot p requested limit c id rows ≡ ok (rows', slot_granted false a r)
    → (n : ℕ) × (a ≡ number n) × Claimed p c rows rows' r n limit
unfolding slot_reservation
choose_slot-Claimed p requested limit c id rows rows' a r h =
    let (below, some_free, claim) =
      choose_slot-granted p requested limit c id rows rows' false a r h in
    let n = chosen p rows in
    let (a_eq, r_eq, unused, appended, within) =
      claim_slot-granted p n requested limit c id rows rows' a r claim in
    let taken = is_taken p.key_prefix (filter_where (is_of_event p) rows) in
    elim (first_free-IsLeastFree taken p.max_attempts 1) [
      | inl none_free ↦ absurd (some_free none_free)
      | inr (lo, hi, free, before) ↦ (
        n,
        a_eq,
        record {
          first = lo;
          last = omega arith;
          least = before;
          keyed = rw r_eq;
          unused = unused;
          appended = appended;
          within =
              rw (appended, r_eq)
                (omega (
                  arith,
                  within,
                  sum-added p.category p.window_key c.db rows (slot_reservation p n requested c id),
                  slot-le p n requested c id,
                ));
          capped = rw appended (
              omega (
                arith,
                below,
                charged-count p rows,
                count-append p.event_id p.category rows r,
                count_one-le p.event_id p.category r,
              ));
        },
      )
    ]

pub acquire_validated-new :
    (p : SlotInput) (requested limit : ℕ) (c : Clock) (id : String) (rows rows' : List Reservation)
    (a : ParsedInt) (r : Reservation)
    → acquire_validated p requested limit c id rows ≡ ok (rows', slot_granted false a r)
    → choose_slot p requested limit c id rows ≡ ok (rows', slot_granted false a r)
unfolding acquire_validated
acquire_validated-new p requested limit c id rows rows' a r h = ground arith

-- What the checks of the parameters leave to do.
pub acquire-validated :
    (p : SlotInput) (c : Clock) (id : String) (rows rows' : List Reservation) (o : SlotOutcome)
    → acquire_event_attempt_slot p c id rows ≡ ok (rows', o)
    → (requested : ℕ) × (limit : ℕ) × (p.limit ≡ amount limit)
      × (acquire_validated p requested limit c id rows ≡ ok (rows', o))
unfolding acquire_event_attempt_slot
acquire-validated p c id rows rows' o h =
    on_ok (validate_numeric_positive p.amount_reserved amount_reserved_name) _ h λ requested e h₁.
      on_ok (validate_numeric_positive p.limit limit_name) _ h₁
        λ limit l h₂. (requested, limit, positive-amount p.limit _ l, ground arith)

-- When a call grants a new attempt slot, the attempt is the smallest number from 1 to the cap whose
-- key no row of the event has; the row of the slot has that key, which was in no row, and is added
-- at the end of the table; and in the new table the committed spend of the window is within the
-- limit and the charged attempts of the event are within the cap.
pub acquire_event_attempt_slot-Claimed :
    (p : SlotInput) (c : Clock) (id : String) (rows rows' : List Reservation) (a : ParsedInt)
    (r : Reservation)
    → acquire_event_attempt_slot p c id rows ≡ ok (rows', slot_granted false a r)
    → (n : ℕ) × (limit : ℕ) × (a ≡ number n)
      × (p.limit ≡ amount limit)
      × Claimed p c rows rows' r n limit
acquire_event_attempt_slot-Claimed p c id rows rows' a r h =
    let (requested, limit, l, v) = acquire-validated p c id rows rows' _ h in
    let (n, a_eq, claimed) =
      choose_slot-Claimed p requested limit c id rows rows' a r
        (acquire_validated-new p requested limit c id rows rows' a r v) in
    (n, limit, a_eq, l, claimed)
