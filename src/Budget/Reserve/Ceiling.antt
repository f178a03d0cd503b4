-- ===== src/Budget/Reserve/Ceiling.antt =====
-- What `reserve_budget` does to the table, and the ceiling of a window.
use falseroute.Prelude.{
  ℕ, ◌+◌, ◌≤◌, ◌≡◌, refl, ◌⊎◌, inl, inr, String, Text, Bool, true, false, List, [], ◌∷◌, ◌++◌, ok,
  arith, >>=-eq-ok, any_where, Option-cases,
}
use falseroute.Budget.Store.{
  Category, Reservation, Clock, amount, has_key, find_unique, create, sum_committed_in_window,
  row_committed, validate_numeric_positive, amount_reserved_name, limit_name,
}
use falseroute.Budget.Store.Sums.{sum-added, positive-amount, row_committed-le}
use falseroute.Budget.Reserve.{
  ReserveInput, Outcome, granted, fresh_reservation, reserve_within_ceiling, reserve_new,
  reserve_validated, reserve_budget, answer_existing,
}

abbrev pub is_fresh : Outcome → Bool
is_fresh (granted false r) = true
is_fresh _ = false

-- The table and the answer when a new reservation is granted.
pub record Appends (p : ReserveInput) (requested limit : ℕ) (c : Clock) (id : String)
    (rows rows' : List Reservation) (o : Outcome) : Type 0 where
  pub unused : any_where (has_key p.idempotency_key) rows ≡ false
  pub appended : rows' ≡ rows ++ fresh_reservation p requested c id ∷ []
  pub answered : o ≡ granted false (fresh_reservation p requested c id)
  pub within : sum_committed_in_window p.category p.window_key c.db rows + requested ≤ limit

-- A call leaves the table alone, or appends the one new row.
abbrev pub Effect :
    ReserveInput → ℕ → ℕ → Clock → String → List Reservation → List Reservation → Outcome → Type 0
Effect p requested limit c id rows rows' o =
    ((rows' ≡ rows) × (is_fresh o ≡ false)) ⊎ Appends p requested limit c id rows rows' o

reserve_within_ceiling-Effect :
    (p : ReserveInput) (requested limit : ℕ) (c : Clock) (id : String)
    (rows rows' : List Reservation) (o : Outcome)
    → reserve_within_ceiling p requested limit c id rows ≡ ok (rows', o)
    → Effect p requested limit c id rows rows' o
unfolding reserve_within_ceiling create fresh_reservation
reserve_within_ceiling-Effect p requested limit c id rows rows' o h = ground arith

pub answer_existing-not-is_fresh :
    (r : Reservation) (k : Text) (owner : String) (limit now : ℕ)
    → is_fresh (answer_existing r k owner limit now) ≡ false
unfolding answer_existing
answer_existing-not-is_fresh r k owner limit now = ground arith

reserve_new-Effect :
    (p : ReserveInput) (requested limit : ℕ) (c : Clock) (id : String)
    (rows rows' : List Reservation) (o : Outcome)
    → reserve_new p requested limit c id rows ≡ ok (rows', o)
    → Effect p requested limit c id rows rows' o
unfolding reserve_new
reserve_new-Effect p requested limit c id rows rows' o h =
    ground (arith, reserve_within_ceiling-Effect p requested limit c id rows rows' o)

pub reserve_validated-Effect :
    (p : ReserveInput) (requested limit : ℕ) (c : Clock) (id : String)
    (rows rows' : List Reservation) (o : Outcome)
    → reserve_validated p requested limit c id rows ≡ ok (rows', o)
    → Effect p requested limit c id rows rows' o
unfolding reserve_validated
reserve_validated-Effect p requested limit c id rows rows' o h =
    elim (Option-cases (find_unique p.idempotency_key rows)) [
      | inl e ↦ ground (arith, reserve_new-Effect p requested limit c id rows rows' o)
      | inr (r, e) ↦
          ground (arith, answer_existing-not-is_fresh r p.idempotency_key p.owner_id limit c.app)
    ]

-- A call that returns has validated its amounts.
pub reserve_budget-Effect :
    (p : ReserveInput) (c : Clock) (id : String) (rows rows' : List Reservation) (o : Outcome)
    → reserve_budget p c id rows ≡ ok (rows', o)
    → (requested : ℕ) × (limit : ℕ) × (validate_numeric_positive p.amount_reserved
          amount_reserved_name
        ≡ ok requested)
      × (validate_numeric_positive p.limit limit_name ≡ ok limit)
      × Effect p requested limit c id rows rows' o
unfolding reserve_budget
reserve_budget-Effect p c id rows rows' o h =
    let (requested, e, h₁) = >>=-eq-ok (validate_numeric_positive p.amount_reserved _) _ h in
    let (limit, l, h₂) = >>=-eq-ok (validate_numeric_positive p.limit _) _ h₁ in
    (requested, limit, e, l, reserve_validated-Effect p requested limit c id rows rows' o h₂)

fresh-le :
    (p : ReserveInput) (requested : ℕ) (c : Clock) (id : String) (k : Category) (w : String) (t : ℕ)
    → row_committed k w t (fresh_reservation p requested c id) ≤ requested
unfolding fresh_reservation
fresh-le p requested c id k w t = row_committed-le k w t (fresh_reservation p requested c id) refl

-- When a call grants a new reservation, the row of that reservation is added at the end of the
-- table, no row had its key, and the committed spend of its window, the new row included, is within
-- the limit that the call gave.
pub reserve_budget-ceiling :
    (p : ReserveInput) (c : Clock) (id : String) (rows rows' : List Reservation) (r : Reservation)
    → reserve_budget p c id rows ≡ ok (rows', granted false r)
    → (limit : ℕ) × (p.limit ≡ amount limit)
      × (rows' ≡ rows ++ r ∷ [])
      × (any_where (has_key p.idempotency_key) rows ≡ false)
      × (sum_committed_in_window p.category p.window_key c.db rows' ≤ limit)
reserve_budget-ceiling p c id rows rows' r h =
    let (requested, limit, e, l, effect) = reserve_budget-Effect p c id rows rows' _ h in
    let fresh = fresh_reservation p requested c id in
    (
      limit,
      positive-amount p.limit _ l,
      ground arith,
      ground arith,
      ground (
        arith,
        sum-added p.category p.window_key c.db rows fresh,
        fresh-le p requested c id p.category p.window_key c.db,
      ),
    )

-- A call that returns without granting a new reservation leaves the table as it was.
reserve_budget-unchanged :
    (p : ReserveInput) (c : Clock) (id : String) (rows rows' : List Reservation) (o : Outcome)
    → reserve_budget p c id rows ≡ ok (rows', o)
    → is_fresh o ≡ false
    → rows' ≡ rows
reserve_budget-unchanged p c id rows rows' o h f =
    let (requested, limit, e, l, effect) = reserve_budget-Effect p c id rows rows' _ h in
    ground arith
