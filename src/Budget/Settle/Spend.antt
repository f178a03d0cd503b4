-- ===== src/Budget/Settle/Spend.antt =====
-- What a settlement does to the committed spend of the windows.
use falseroute.Prelude.{
  str_eq_refl, ℕ, ◌+◌, ◌≤◌, ◌<◌, ◌≡◌, refl, sym, ◌∙◌, String, str_eq, str_eq_iff, Bool, true, false,
  ◌&&◌, some, List, ok, on_ok, some_inj, suc, if◌then◌else◌, subst, inl, inr, arith, ltb, ◌==◌,
  get_or, Option-cases,
}
use falseroute.Budget.Store.{
  Category, Status, reserved, Reservation, Numeric, amount, find_unique, in_window, row_committed,
  sum_committed_in_window, status_eq, fence_lost, validate_numeric_non_negative,
  amount_consumed_name,
}
use falseroute.Budget.Store.Keys.{UniqueKeys}
use falseroute.Budget.Store.Sums.{category_eq_refl, sum-total, non_negative-amount}
use falseroute.Budget.Settle.{
  SettleInput, check_settle, consume_read, consume_row, consume_write, consume_budget, is_version,
}
use falseroute.Budget.Settle.Write.{Written, write-Written}

-- The part of the `where` of a settlement that comes after the key.
abbrev pub settle_test : SettleInput → ℕ → Reservation → Bool
settle_test p version r =
    str_eq r.owner_id p.owner_id
    && (status_eq r.status (get_or p.expected_status reserved) && r.version == version)

-- The table before and after a settlement that turned the row `r` into `s`.
pub record Settled (p : SettleInput) (rows rows' : List Reservation) (r s : Reservation)
    : Type 0 where
  pub was : find_unique p.idempotency_key rows ≡ some r
  pub is : find_unique p.idempotency_key rows' ≡ some s
  pub owned : r.owner_id ≡ p.owner_id
  pub expected : r.status ≡ get_or p.expected_status reserved
  pub versioned : is_version p.expected_version r ≡ true
  pub unique : UniqueKeys rows'
  -- In every window the committed spend changes by what the row counts for.
  pub balance :
      (c : Category) (w : String) (t : ℕ)
      → sum_committed_in_window c w t rows' + row_committed c w t r
        ≡ sum_committed_in_window c w t rows + row_committed c w t s

pub status_eq_sound : (a b : Status) → status_eq a b ≡ true → a ≡ b
unfolding status_eq
status_eq_sound a b h = ground arith

check_settle-ok :
    (p : SettleInput) (r s : Reservation)
    → check_settle p r ≡ ok s
    → (s ≡ r)
      × (r.owner_id ≡ p.owner_id)
      × (r.status ≡ get_or p.expected_status reserved)
      × (is_version p.expected_version r ≡ true)
unfolding check_settle
check_settle-ok p r s h = ground (
  arith,
  str_eq_iff r.owner_id p.owner_id,
  status_eq_sound r.status (get_or p.expected_status reserved),
)

consume_read-ok :
    (p : SettleInput) (a : ℕ) (rows : List Reservation) (r : Reservation)
    → consume_read p a rows ≡ ok r
    → (find_unique p.idempotency_key rows ≡ some r)
      × (a ≤ r.amount_reserved)
      × (check_settle p r ≡ ok r)
unfolding consume_read
consume_read-ok p a rows r h = elim (Option-cases (find_unique p.idempotency_key rows)) [
  | inl e ↦ ground arith
  | inr (x, e) ↦ ground (arith, check_settle-ok p x r)
]

-- A write after the checks of `p` on the row `r`.
settle-Settled :
    (p : SettleInput) (f : Reservation → Reservation)
    (keeps : (r : Reservation) → (f r).idempotency_key ≡ r.idempotency_key)
    (rows rows' : List Reservation) (r : Reservation)
    → find_unique p.idempotency_key rows ≡ some r
    → check_settle p r ≡ ok r
    → Written p.idempotency_key (settle_test p r.version) f keeps rows r rows'
    → Settled p rows rows' r (f r)
settle-Settled p f keeps rows rows' r h c w =
    let checks = check_settle-ok p r r c in
    record {
      was = h;
      is = w.found;
      owned = checks.1;
      expected = checks.2;
      versioned = checks.3;
      unique = w.unique;
      balance = λ c' w' t. omega (
        arith,
        w.weighed (row_committed c' w' t),
        sum-total c' w' t rows,
        sum-total c' w' t rows',
      );
    }

-- On a table with unique keys, a consumption that returns has found the row of its key, with the owner, the status and the
-- version that the call asked for and an amount no greater than the one reserved; it leaves that row
-- consumed, at that amount and the next version, and the committed spend of every window changes
-- exactly by what the row counts for before and after.
pub consume_budget-Settled :
    (p : SettleInput) (n : Numeric) (now : ℕ) (rows rows' : List Reservation) (s : Reservation)
    → UniqueKeys rows
    → consume_budget p n now rows ≡ ok (rows', s)
    → (r : Reservation) × (a : ℕ) × (n ≡ amount a)
      × (a ≤ r.amount_reserved)
      × (s ≡ consume_row a now r)
      × Settled p rows rows' r s
unfolding consume_budget consume_write
consume_budget-Settled p n now rows rows' s u h =
    on_ok (validate_numeric_non_negative n amount_consumed_name) _ h λ a valid h₁.
      on_ok (consume_read p a rows) _ h₁ λ r read written.
        let (found, bounded, checks) = consume_read-ok p a rows r read in
        let (w, s_eq) =
          write-Written p.idempotency_key (settle_test p r.version) (consume_row a now) (λ _. refl)
            fence_lost rows rows' r s u found written in
        (
          r,
          a,
          non_negative-amount n _ valid,
          bounded,
          s_eq,
          subst (Settled p rows rows' r) (sym s_eq)
              (settle-Settled p (consume_row a now) (λ _. refl) rows rows' r found checks w),
        )

-- A reserved row counts for its whole amount until it expires, and for nothing from then on.
row_committed-reserved :
    (c : Category) (w : String) (t : ℕ) (r : Reservation)
    → r.status ≡ reserved
    → in_window c w r ≡ true
    → row_committed c w t r ≡ (if ltb t r.expires_at then r.amount_reserved else 0)
unfolding row_committed
row_committed-reserved c w t r h i = ground arith

row_committed-consumed :
    (c : Category) (w : String) (t a now : ℕ) (r : Reservation)
    → row_committed c w t (consume_row a now r) ≡ (if in_window c w r then a else 0)
unfolding row_committed in_window
row_committed-consumed c w t a now r = ground arith

row_committed-outside :
    (c : Category) (w : String) (t : ℕ) (r : Reservation)
    → in_window c w r ≡ false
    → row_committed c w t r ≡ 0
unfolding row_committed
row_committed-outside c w t r h = rw h

-- On a table with unique keys, a consumption of a reserved row that has not expired at the time `t` raises the committed spend of
-- no window at that time, in whichever window the row is.
pub consume_budget-no_overspend :
    (p : SettleInput) (n : Numeric) (now t : ℕ) (rows rows' : List Reservation) (r s : Reservation)
    (c : Category) (w : String)
    → UniqueKeys rows
    → find_unique p.idempotency_key rows ≡ some r
    → r.status ≡ reserved
    → t < r.expires_at
    → consume_budget p n now rows ≡ ok (rows', s)
    → sum_committed_in_window c w t rows' ≤ sum_committed_in_window c w t rows
consume_budget-no_overspend p n now t rows rows' r s c w u found h live k =
    let (r', a, value, bounded, s_eq, settled) = consume_budget-Settled p n now rows rows' s u k in
    let same : r' ≡ r = some_inj (sym settled.was ∙ found) in
    ground (
      arith,
      settled.balance c w t,
      row_committed-reserved c w t r h,
      row_committed-consumed c w t a now r,
      row_committed-outside c w t r,
    )

in_window-own : (r : Reservation) → in_window r.category r.window_key r ≡ true
unfolding in_window
in_window-own r = rw (category_eq_refl r.category, str_eq_refl r.window_key) refl

-- A consumption looks at no expiry: on a table with unique keys, when the reserved row has expired at the time `t` and the
-- spend of its window is at a limit already, any positive amount takes the spend above that limit.
pub consume_budget-overshoot :
    (p : SettleInput) (n : Numeric) (now t limit a : ℕ) (rows rows' : List Reservation)
    (r s : Reservation)
    → UniqueKeys rows
    → find_unique p.idempotency_key rows ≡ some r
    → r.status ≡ reserved
    → r.expires_at ≤ t
    → limit ≤ sum_committed_in_window r.category r.window_key t rows
    → n ≡ amount (suc a)
    → consume_budget p n now rows ≡ ok (rows', s)
    → limit < sum_committed_in_window r.category r.window_key t rows'
consume_budget-overshoot p n now t limit a rows rows' r s u found h over full value k =
    let (r', b, value', bounded, s_eq, settled) = consume_budget-Settled p n now rows rows' s u k in
    let same : r' ≡ r = some_inj (sym settled.was ∙ found) in
    let i = in_window-own r in
    ground (
      arith,
      settled.balance r.category r.window_key t,
      row_committed-reserved r.category r.window_key t r h i,
      row_committed-consumed r.category r.window_key t b now r,
    )
