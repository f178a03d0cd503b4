-- ===== src/Budget/Store/Sums.antt =====
-- How the sums and counts over the table change when a row is added.
use falseroute.Prelude.{
  ℕ, ◌+◌, ◌≤◌, ◌≡◌, refl, String, str_eq_refl, str_eq_iff, ap, true, false, Option, none, some,
  List, [], ◌∷◌, ◌++◌, ok, arith, any_where, count_where-append, total,
}
use falseroute.Budget.Store.{
  Category, daily_usd, daily_gemini_tokens, hourly_tool_operations, reserved, Reservation, has_key,
  create, in_window, row_committed, sum_committed_in_window, counts_for_event,
  count_event_reservations, category_eq, event_eq, Numeric, amount, NumericName,
  validate_numeric_positive, validate_numeric_non_negative,
}

pub category_eq_refl : (c : Category) → category_eq c c ≡ true
unfolding category_eq
category_eq_refl daily_usd = refl
category_eq_refl daily_gemini_tokens = refl
category_eq_refl hourly_tool_operations = refl

pub category_eq_sound : (c d : Category) → category_eq c d ≡ true → c ≡ d
unfolding category_eq
category_eq_sound c d h = ground arith

pub sum-append :
    (c : Category) (w : String) (t : ℕ) (xs ys : List Reservation)
    → sum_committed_in_window c w t (xs ++ ys)
      ≡ sum_committed_in_window c w t xs + sum_committed_in_window c w t ys
unfolding sum_committed_in_window
sum-append c w t [] ys = omega arith
sum-append c w t (x ∷ xs) ys = omega (arith, sum-append c w t xs ys)

pub sum_one :
    (c : Category) (w : String) (t : ℕ) (r : Reservation)
    → sum_committed_in_window c w t (r ∷ []) ≡ row_committed c w t r
unfolding sum_committed_in_window
sum_one c w t r = omega arith

-- A reserved row counts for no more than its amount.
pub row_committed-le :
    (c : Category) (w : String) (t : ℕ) (r : Reservation)
    → r.status ≡ reserved
    → row_committed c w t r ≤ r.amount_reserved
unfolding row_committed
row_committed-le c w t r h = ground arith

pub row_committed-other :
    (c : Category) (w : String) (t : ℕ) (r : Reservation)
    → in_window c w r ≡ false
    → row_committed c w t r ≡ 0
unfolding row_committed
row_committed-other c w t r h = rw h

pub count-append :
    (e : String) (c : Category) (xs : List Reservation) (r : Reservation)
    → count_event_reservations e c (xs ++ r ∷ [])
      ≡ count_event_reservations e c xs + count_event_reservations e c (r ∷ [])
unfolding count_event_reservations
count-append e c xs r = count_where-append (counts_for_event e c) xs (r ∷ [])

pub create-ok :
    (r : Reservation) (rows : List Reservation) {rows' : List Reservation}
    → create r rows ≡ ok rows'
    → (any_where (has_key r.idempotency_key) rows ≡ false) × (rows' ≡ rows ++ r ∷ [])
unfolding create
create-ok r rows h = ground arith

-- A number that passes the check is its amount.
pub positive-amount :
    (v : Numeric) (name : NumericName) {n : ℕ}
    → validate_numeric_positive v name ≡ ok n
    → v ≡ amount n
unfolding validate_numeric_positive
positive-amount v name h = ground arith

pub event_eq_refl : (e : Option String) → event_eq e e ≡ true
unfolding event_eq
event_eq_refl none = refl
event_eq_refl (some e) = str_eq_refl e

pub event_eq_sound : (e f : Option String) → event_eq e f ≡ true → e ≡ f
unfolding event_eq
event_eq_sound none none h = refl
event_eq_sound none (some f) h = cc
event_eq_sound (some e) none h = cc
event_eq_sound (some e) (some f) h = ap some ((str_eq_iff e f).0 h)

pub sum-total :
    (c : Category) (w : String) (t : ℕ) (rows : List Reservation)
    → sum_committed_in_window c w t rows ≡ total (row_committed c w t) rows
unfolding sum_committed_in_window
sum-total c w t [] = refl
sum-total c w t (r ∷ rows) = omega (arith, sum-total c w t rows)

pub non_negative-amount :
    (v : Numeric) (name : NumericName) {n : ℕ}
    → validate_numeric_non_negative v name ≡ ok n
    → v ≡ amount n
unfolding validate_numeric_non_negative
non_negative-amount v name h = ground arith

-- The committed spend of a window after a row is added to the table.
pub sum-added :
    (k : Category) (w : String) (t : ℕ) (rows : List Reservation) (r : Reservation)
    → sum_committed_in_window k w t (rows ++ r ∷ [])
      ≡ sum_committed_in_window k w t rows + row_committed k w t r
sum-added k w t rows r = omega (arith, sum-append k w t rows (r ∷ []), sum_one k w t r)

-- One row counts at most once.
pub count_one-le :
    (e : String) (c : Category) (r : Reservation) → count_event_reservations e c (r ∷ []) ≤ 1
unfolding count_event_reservations
count_one-le e c r = ground arith
