-- ===== src/Budget/Reserve/Replay.antt =====
-- Calls of `reserve_budget` whose idempotency key is in the table already.
use falseroute.Prelude.{
  ℕ, ◌<◌, ◌≡◌, sym, String, Text, str_eq_refl, str_eq_iff, text_eq_refl, Bool, true, false, some,
  List, [], ◌∷◌, ◌++◌, ok, >>=-eq-ok, arith, any_where, find_first-append,
}
use falseroute.Budget.Store.{
  reserved, Reservation, Clock, amount, has_key, find_unique, validate_numeric_positive,
}
use falseroute.Budget.Store.Sums.{
  category_eq_refl, category_eq_sound, event_eq_refl, event_eq_sound, positive-amount,
}
use falseroute.Budget.Reserve.{
  ReserveInput, Outcome, granted, fresh_reservation, reserve_validated, reserve_budget,
  answer_existing, is_same_request,
}
use falseroute.Budget.Reserve.Ceiling.{reserve_budget-Effect}

is_same_request-fresh :
    (p : ReserveInput) (requested : ℕ) (c : Clock) (id : String)
    → is_same_request (fresh_reservation p requested c id) p requested ≡ true
unfolding is_same_request fresh_reservation
is_same_request-fresh p requested c id =
    ground (arith, category_eq_refl p.category, str_eq_refl p.window_key, event_eq_refl p.event_id)

find_unique-fresh :
    (p : ReserveInput) (requested : ℕ) (c : Clock) (id : String) (rows : List Reservation)
    → any_where (has_key p.idempotency_key) rows ≡ false
    → find_unique p.idempotency_key (rows ++ fresh_reservation p requested c id ∷ [])
      ≡ some (fresh_reservation p requested c id)
unfolding fresh_reservation
find_unique-fresh p requested c id rows h =
    rw (find_first-append (has_key p.idempotency_key) rows _ h, text_eq_refl p.idempotency_key)

answer_existing-fresh :
    (p : ReserveInput) (requested limit now : ℕ) (c : Clock) (id : String)
    → now < (fresh_reservation p requested c id).expires_at
    → answer_existing (fresh_reservation p requested c id) p.idempotency_key p.owner_id limit now
      ≡ granted true (fresh_reservation p requested c id)
unfolding answer_existing fresh_reservation
answer_existing-fresh p requested limit now c id h = ground (arith, str_eq_refl p.owner_id)

reserve_validated-fresh :
    (p : ReserveInput) (requested limit : ℕ) (c c' : Clock) (id id' : String)
    (rows : List Reservation)
    → any_where (has_key p.idempotency_key) rows ≡ false
    → c'.app < (fresh_reservation p requested c id).expires_at
    → let rows' = rows ++ fresh_reservation p requested c id ∷ [] in
      reserve_validated p requested limit c' id' rows'
      ≡ ok (rows', granted true (fresh_reservation p requested c id))
unfolding reserve_validated
reserve_validated-fresh p requested limit c c' id id' rows unused live = ground (
  arith,
  find_unique-fresh p requested c id rows unused,
  is_same_request-fresh p requested c id,
  answer_existing-fresh p requested limit c'.app c id live,
)

-- Repeating a call that granted a new reservation, before that reservation expires, grants the same
-- reservation again, marked as a duplicate, and does not change the table.
pub reserve_budget-replay :
    (p : ReserveInput) (c c' : Clock) (id id' : String) (rows rows' : List Reservation)
    (r : Reservation)
    → reserve_budget p c id rows ≡ ok (rows', granted false r)
    → c'.app < r.expires_at
    → reserve_budget p c' id' rows' ≡ ok (rows', granted true r)
unfolding reserve_budget
reserve_budget-replay p c c' id id' rows rows' r h live =
    let (requested, limit, e, l, effect) = reserve_budget-Effect p c id rows rows' _ h in
    let again = reserve_validated-fresh p requested limit c c' id id' rows in ground (arith, again)

answer_existing-granted :
    (r s : Reservation) (d : Bool) (k : Text) (owner : String) (limit now : ℕ)
    → answer_existing r k owner limit now ≡ granted d s
    → (d ≡ true) × (s ≡ r) × (r.status ≡ reserved) × (r.owner_id ≡ owner) × (now < r.expires_at)
unfolding answer_existing
answer_existing-granted r s d k owner limit now h = ground (arith, str_eq_iff r.owner_id owner)

pub is_same_request_sound :
    (r : Reservation) (p : ReserveInput) (requested : ℕ)
    → is_same_request r p requested ≡ true
    → (r.amount_reserved ≡ requested)
      × (r.category ≡ p.category)
      × (r.window_key ≡ p.window_key)
      × (r.event_id ≡ p.event_id)
unfolding is_same_request
is_same_request_sound r p requested h = ground (
  arith,
  str_eq_iff r.window_key p.window_key,
  category_eq_sound r.category p.category,
  event_eq_sound r.event_id p.event_id,
)

pub reserve_validated-existing :
    (p : ReserveInput) (requested limit : ℕ) (c : Clock) (id : String)
    (rows rows' : List Reservation) (r : Reservation) (o : Outcome)
    → find_unique p.idempotency_key rows ≡ some r
    → reserve_validated p requested limit c id rows ≡ ok (rows', o)
    → (is_same_request r p requested ≡ true)
      × (rows' ≡ rows)
      × (o ≡ answer_existing r p.idempotency_key p.owner_id limit c.app)
unfolding reserve_validated
reserve_validated-existing p requested limit c id rows rows' r o old h = ground arith

-- A call whose key has a row is granted only as a duplicate of that row, with the table unchanged, to the owner of the row, for the
-- same amount, category, window and event, while the row is reserved and has not expired.
pub reserve_budget-existing :
    (p : ReserveInput) (c : Clock) (id : String) (rows rows' : List Reservation) (r s : Reservation)
    (d : Bool)
    → find_unique p.idempotency_key rows ≡ some r
    → reserve_budget p c id rows ≡ ok (rows', granted d s)
    → (d ≡ true)
      × (rows' ≡ rows)
      × (s ≡ r)
      × (r.status ≡ reserved)
      × (r.owner_id ≡ p.owner_id)
      × (c.app < r.expires_at)
      × (p.amount_reserved ≡ amount r.amount_reserved)
      × (r.category ≡ p.category)
      × (r.window_key ≡ p.window_key)
      × (r.event_id ≡ p.event_id)
unfolding reserve_budget
reserve_budget-existing p c id rows rows' r s d old h =
    let (requested, e, h₁) = >>=-eq-ok (validate_numeric_positive p.amount_reserved _) _ h in
    let (limit, l, h₂) = >>=-eq-ok (validate_numeric_positive p.limit _) _ h₁ in
    let (same, kept, answer) =
      reserve_validated-existing p requested limit c id rows rows' r _ old h₂ in
    let held =
      answer_existing-granted r s d p.idempotency_key p.owner_id limit c.app (sym answer) in
    let (amounts, k, w, event) = is_same_request_sound r p requested same in
    (
      held.0,
      kept,
      held.1,
      held.2,
      held.3,
      held.4,
      rw amounts (positive-amount p.amount_reserved _ e),
      k,
      w,
      event,
    )
