-- ===== src/Budget/Expiry/Report.antt =====
-- The reported state of a budget against the decisions of `reserve_budget`.
use falseroute.Prelude.{
  ℕ, ◌+◌, ◌<◌, ◌≡◌, ◌↔◌, Option, String, Bool, true, false, List, [], ◌∷◌, Result, ok, arith, ltb,
  on_ok,
}
use falseroute.Budget.Store.{
  Category, Status, Reservation, Clock, amount, BudgetError, committed_of, sum_committed_in_window,
  row_committed, validate_numeric_positive, create,
}
use falseroute.Budget.Store.Sums.{positive-amount}
use falseroute.Budget.Reserve.{
  ReserveInput, Outcome, denied, ceiling_exceeded, reserve_within_ceiling,
}
use falseroute.Budget.Expiry.{
  BudgetStatus, sum_consumed, sum_active, consumed_of, active_of, get_budget_status,
}

split_committed :
    (s : Status) (a e t : ℕ) (spent : Option ℕ)
    → consumed_of s a spent + active_of s a e t ≡ committed_of s a spent e t
unfolding consumed_of active_of committed_of
split_committed s a e t spent = ground arith

-- The two sums of the report make the sum of the ceiling check.
sums-committed :
    (c : Category) (w : String) (t : ℕ) (rows : List Reservation)
    → sum_consumed c w rows + sum_active c w t rows ≡ sum_committed_in_window c w t rows
unfolding sum_consumed sum_active sum_committed_in_window row_committed
sums-committed c w t [] = omega arith
sums-committed c w t (r ∷ rows) = ground (
  arith,
  sums-committed c w t rows,
  split_committed r.status r.amount_reserved r.expires_at t r.amount_consumed,
)

-- What a call that is past the checks of its key answers about the ceiling.
abbrev pub is_ceiling_denial : Result BudgetError (List Reservation × Outcome) → Bool
is_ceiling_denial (ok (rows, denied d (ceiling_exceeded c t a l) m n)) = true
is_ceiling_denial _ = false

denial_test :
    (p : ReserveInput) (requested limit : ℕ) (c : Clock) (id : String) (rows : List Reservation)
    → is_ceiling_denial (reserve_within_ceiling p requested limit c id rows)
      ≡ ltb limit (sum_committed_in_window p.category p.window_key c.db rows + requested)
unfolding reserve_within_ceiling create
denial_test p requested limit c id rows = ground arith

-- The report of a window at the database's time: its total is the committed spend that
-- `reserve_budget` compares with the limit, its remaining amount and its excess follow from that,
-- and a positive request that reaches the ceiling check is denied for the ceiling exactly when it asks for more
-- than the remaining amount.
pub get_budget_status-agrees :
    (p : ReserveInput) (c : Clock) (id : String) (rows : List Reservation) (requested : ℕ)
    (s : BudgetStatus)
    → get_budget_status p.category p.window_key p.limit c.db rows ≡ ok s
    → 0 < requested
    → (p.limit ≡ amount s.limit)
      × (s.total_committed ≡ sum_committed_in_window p.category p.window_key c.db rows)
      × ((s.is_exceeded ≡ true) ↔ (s.remaining_available ≡ 0))
      × ((is_ceiling_denial (reserve_within_ceiling p requested s.limit c id rows) ≡ true)
          ↔ (s.remaining_available < requested))
unfolding get_budget_status
get_budget_status-agrees p c id rows requested s h pos =
    on_ok (validate_numeric_positive p.limit _) _ h λ limit l h₁.
      let total = sums-committed p.category p.window_key c.db rows in
      let value = positive-amount p.limit _ l in
      let test = denial_test p requested s.limit c id rows in
      (ground arith, ground (arith, total), ground arith, rw test (ground (arith, total)))
