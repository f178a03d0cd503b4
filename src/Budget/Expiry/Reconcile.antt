-- ===== src/Budget/Expiry/Reconcile.antt =====
-- The reconciliation of expired reservations, row by row.
use falseroute.Prelude.{
  ℕ, suc, ◌≡◌, refl, ap, inl, inr, String, Text, text_eq, str_eq, str_eq_iff, str_eq_refl, Bool,
  true, false, some, List, [], ◌∷◌, map, arith, if◌then◌else◌, any_where, filter_where, count_where,
  update_where, update_where-none, filter_where-none, Bool-cases,
}
use falseroute.Budget.Store.{daily_gemini_tokens, Reservation, status_eq, find_unique, has_key}
use falseroute.Budget.Expiry.{
  Evidence, is_expired, is_record, expiry_row, reconcile_each, reconcile_expired_reservations,
  should_expire, should_expire_of, is_pre_call_failed, retain_row, expire_row,
}

abbrev has_id : String → Reservation → Bool
has_id i r = str_eq r.id i

-- Identifiers are unique in the table.
abbrev pub UniqueIds : List Reservation → Type 0
UniqueIds [] = Unit
UniqueIds (r ∷ rows) = (any_where (has_id r.id) rows ≡ false) × UniqueIds rows

-- What the reconciliation means for one row.
unfoldable settle_expired : ℕ → Evidence → Reservation → Reservation
settle_expired as_of ev r = if is_expired as_of r then expiry_row as_of ev r r else r

module _ (as_of : ℕ) (ev : Evidence) where
  absent-record :
      (d : Reservation) (rows : List Reservation)
      → any_where (has_id d.id) rows ≡ false
      → (any_where (is_record d) rows ≡ false) × (count_where (is_record d) rows ≡ 0)
  absent-record d [] h = (refl, refl)
  absent-record d (r ∷ rows) h = ground (arith, absent-record d rows)

  absent-filter :
      (i : String) (rows : List Reservation)
      → any_where (has_id i) rows ≡ false
      → any_where (has_id i) (filter_where (is_expired as_of) rows) ≡ false
  absent-filter i [] h = refl
  absent-filter i (r ∷ rows) h = ground (arith, absent-filter i rows)

  -- Updates of other records pass a row by.
  reconcile_each-other :
      (ds : List Reservation) (r : Reservation) (rows : List Reservation)
      → any_where (has_id r.id) ds ≡ false
      → reconcile_each as_of ev ds (r ∷ rows)
        ≡ (r ∷ (reconcile_each as_of ev ds rows).0, (reconcile_each as_of ev ds rows).1)
  unfolding reconcile_each
  reconcile_each-other [] r rows h = refl
  reconcile_each-other (d ∷ ds) r rows h =
      let other : is_record d r ≡ false =
        ground (arith, str_eq_iff r.id d.id, str_eq_iff d.id r.id) in
      let rows' = update_where (is_record d) (expiry_row as_of ev d) rows in
      rw (other, reconcile_each-other ds r rows' (ground arith))

  expiry_row-id : (d r : Reservation) → (expiry_row as_of ev d r).id ≡ r.id
  unfolding expiry_row
  expiry_row-id d r = ground arith

  is_record_self : (r : Reservation) → is_expired as_of r ≡ true → is_record r r ≡ true
  is_record_self r e = ground (arith, str_eq_refl r.id)

  -- The updates of a list of records that begins with the first row of the table.
  reconcile_each-first :
      (ds : List Reservation) (r : Reservation) (rows : List Reservation)
      → is_expired as_of r ≡ true
      → any_where (has_id r.id) rows ≡ false
      → any_where (has_id r.id) ds ≡ false
      → reconcile_each as_of ev (r ∷ ds) (r ∷ rows) ≡ (
        expiry_row as_of ev r r ∷ (reconcile_each as_of ev ds rows).0,
        suc (reconcile_each as_of ev ds rows).1,
      )
  unfolding reconcile_each
  reconcile_each-first ds r rows e apart unread =
      let (none_fits, none_counts) = absent-record r rows apart in
      rw
        (
          is_record_self r e,
          none_counts,
          update_where-none (is_record r) (expiry_row as_of ev r) rows none_fits,
          reconcile_each-other ds (expiry_row as_of ev r r) rows (rw (expiry_row-id r r) unread),
        )
        (ap (λ (n : ℕ). (expiry_row as_of ev r r ∷ (reconcile_each as_of ev ds rows).0, n))
          (omega arith))

  reconcile_each-map :
      (rows : List Reservation)
      → UniqueIds rows
      → reconcile_each as_of ev (filter_where (is_expired as_of) rows) rows
        ≡ (map (settle_expired as_of ev) rows, count_where (is_expired as_of) rows)
  unfolding reconcile_each settle_expired
  reconcile_each-map [] u = refl
  reconcile_each-map (r ∷ rows) u =
      let ds = filter_where (is_expired as_of) rows in
      let unread = absent-filter r.id rows u.0 in
      elim (Bool-cases (is_expired as_of r)) [
        | inl e ↦ rw (e, reconcile_each-first ds r rows e u.0 unread, reconcile_each-map rows u.1)
        | inr n ↦ rw (n, reconcile_each-other ds r rows unread, reconcile_each-map rows u.1)
      ]

-- On a table with unique identifiers the reconciliation, whose updates are addressed one by one, is
-- the settlement of every row by itself, and its count is that of the expired reservations.
reconcile_expired-map :
    (as_of : ℕ) (ev : Evidence) (rows : List Reservation)
    → UniqueIds rows
    → reconcile_expired_reservations as_of ev rows
      ≡ (map (settle_expired as_of ev) rows, count_where (is_expired as_of) rows)
unfolding reconcile_expired_reservations
reconcile_expired-map as_of ev rows u = reconcile_each-map as_of ev rows u

settle_expired-settled :
    (as_of : ℕ) (ev : Evidence) (r : Reservation)
    → is_expired as_of (settle_expired as_of ev r) ≡ false
unfolding settle_expired expiry_row status_eq
settle_expired-settled as_of ev r = ground arith

none_expired :
    (as_of : ℕ) (ev : Evidence) (rows : List Reservation)
    → any_where (is_expired as_of) (map (settle_expired as_of ev) rows) ≡ false
none_expired as_of ev [] = refl
none_expired as_of ev (r ∷ rows) =
    rw (settle_expired-settled as_of ev r) (none_expired as_of ev rows)

nothing_to_do :
    (as_of : ℕ) (ev : Evidence) (rows : List Reservation)
    → any_where (is_expired as_of) rows ≡ false
    → reconcile_expired_reservations as_of ev rows ≡ (rows, 0)
unfolding reconcile_expired_reservations reconcile_each
nothing_to_do as_of ev rows h = rw (filter_where-none (is_expired as_of) rows h)

-- After a reconciliation of a table with unique identifiers no reservation is left that is reserved
-- and expired at its time, and a second reconciliation at that time changes nothing and counts none.
pub reconcile_expired-settled :
    (as_of : ℕ) (ev ev' : Evidence) (rows : List Reservation)
    → UniqueIds rows
    → let rows' = (reconcile_expired_reservations as_of ev rows).0 in
      (any_where (is_expired as_of) rows' ≡ false)
      × (reconcile_expired_reservations as_of ev' rows' ≡ (rows', 0))
reconcile_expired-settled as_of ev ev' rows u = rw (reconcile_expired-map as_of ev rows u) (
  none_expired as_of ev rows,
  nothing_to_do as_of ev' (map (settle_expired as_of ev) rows) (none_expired as_of ev rows),
)

settle_expired-key :
    (as_of : ℕ) (ev : Evidence) (r : Reservation)
    → (settle_expired as_of ev r).idempotency_key ≡ r.idempotency_key
unfolding settle_expired expiry_row
settle_expired-key as_of ev r = ground arith

find_unique-map :
    (as_of : ℕ) (ev : Evidence) (k : Text) (rows : List Reservation) (r : Reservation)
    → find_unique k rows ≡ some r
    → find_unique k (map (settle_expired as_of ev) rows) ≡ some (settle_expired as_of ev r)
find_unique-map as_of ev k [] r h = cc
find_unique-map as_of ev k (x ∷ rows) r h =
    let same : has_key k (settle_expired as_of ev x) ≡ has_key k x =
      ap (λ (i : Text). text_eq i k) (settle_expired-key as_of ev x) in
    ground (arith, find_unique-map as_of ev k rows r)

settle_expired-gemini :
    (as_of : ℕ) (ev : Evidence) (r : Reservation)
    → r.category ≡ daily_gemini_tokens
    → is_expired as_of r ≡ true
    → settle_expired as_of ev r ≡ (
        if is_pre_call_failed r.gemini_attempt_outcome
        then expire_row as_of r
        else retain_row as_of r.amount_reserved r)
unfolding settle_expired expiry_row should_expire should_expire_of
settle_expired-gemini as_of ev r c e = ground arith

-- On a table with unique identifiers, of an expired reservation of model tokens only the evidence of its own attempt decides: it is freed
-- when the attempt is recorded as failed before the call, and is otherwise kept as spent in full,
-- whatever the provider intents and the decisions are.
pub reconcile_expired-gemini :
    (as_of : ℕ) (ev : Evidence) (k : Text) (rows : List Reservation) (r : Reservation)
    → UniqueIds rows
    → find_unique k rows ≡ some r
    → r.category ≡ daily_gemini_tokens
    → is_expired as_of r ≡ true
    → find_unique k (reconcile_expired_reservations as_of ev rows).0
      ≡ some (
          if is_pre_call_failed r.gemini_attempt_outcome
          then expire_row as_of r
          else retain_row as_of r.amount_reserved r)
reconcile_expired-gemini as_of ev k rows r u found c e = rw (
  reconcile_expired-map as_of ev rows u,
  find_unique-map as_of ev k rows r found,
  settle_expired-gemini as_of ev r c e,
)
