-- ===== src/Budget/Reserve/Errors.antt =====
-- The errors of `reserveBudget` of packages/database/src/repositories/budget-repository.ts.
use falseroute.Prelude.{ℕ, ◌≡◌, ◌⊎◌, some, List}
use falseroute.Budget.Store.{
  Reservation, Numeric, amount, BudgetError, not_positive, idempotency_collision, find_unique,
  amount_reserved_name, limit_name,
}
use falseroute.Budget.Reserve.{ReserveInput}

-- The number is not a positive amount: it is not finite, negative or zero.
abbrev pub IsNotPositive : Numeric → Type 0
IsNotPositive x = (n : ℕ) → x ≡ amount n → n ≡ 0

-- The row is one of the same amount, category, window and event.
abbrev pub IsSameRequest : ReserveInput → Reservation → Type 0
IsSameRequest p r =
    (p.amount_reserved ≡ amount r.amount_reserved)
    × (r.category ≡ p.category)
    × (r.window_key ≡ p.window_key)
    × (r.event_id ≡ p.event_id)

-- Why a call fails.
abbrev pub FailsBy : ReserveInput → List Reservation → BudgetError → Type 0
FailsBy p rows e =
    ((e ≡ not_positive amount_reserved_name) × IsNotPositive p.amount_reserved)
    ⊎ (((e ≡ not_positive limit_name) × IsNotPositive p.limit)
        ⊎ ((e ≡ idempotency_collision)
            × (r : Reservation) × (find_unique p.idempotency_key rows ≡ some r)
            × (IsSameRequest p r → ⊥)))
