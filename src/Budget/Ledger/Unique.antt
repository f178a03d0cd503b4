-- ===== src/Budget/Ledger/Unique.antt =====
-- On the uniqueness of idempotency keys in the table of packages/database/src/repositories/budget-repository.ts.
use falseroute.Prelude.{
  ℕ, ◌≡◌, refl, ◌⊎◌, inl, inr, Text, String, Bool, false, List, [], ◌∷◌, ◌++◌, ok, ◌>>=◌, on_ok,
  or_throw, arith, if◌then◌else◌, any_where, update_where, filter_where,
}
use falseroute.Budget.Store.{
  Reservation, Clock, BudgetError, AttemptOutcome, has_key, create, find_unique,
  reservation_not_found,
}
use falseroute.Budget.Store.Keys.{UniqueKeys, UniqueKeys-append}
use falseroute.Budget.Reserve.{ReserveInput, Outcome, fresh_reservation, reserve_budget}
use falseroute.Budget.Reserve.Ceiling.{reserve_budget-Effect}
use falseroute.Budget.Slot.{
  first_free, is_taken, is_of_event, SlotInput, SlotOutcome, attempt_key, slot_reservation,
  claim_slot, choose_slot, acquire_validated, acquire_event_attempt_slot,
}
use falseroute.Budget.Slot.Attempts.{acquire-validated}
use falseroute.Budget.Settle.{
  SettleInput, update_one, reread, consume_row, release_row, reconcile_row, record_row,
  consume_write, release_write, reconcile_write, record_gemini_attempt_outcome,
}
use falseroute.Budget.Settle.Fence.{SettleWrite, consumes, releases, reconciles, run_write}
use falseroute.Budget.Expiry.{
  Evidence, is_record, expiry_row, reconcile_each, reconcile_expired_reservations, is_expired,
}
use falseroute.Budget.Ledger.{
  LedgerStep, reserves, claims, settles, records, expires, Ledger, empty, after,
}

reread-same :
    (k : Text) (rows rows' : List Reservation) (s : Reservation)
    → reread k rows ≡ ok (rows', s)
    → rows' ≡ rows
reread-same k rows rows' s h =
    on_ok (or_throw (find_unique k rows) reservation_not_found) _ h λ r found same. ground arith

expiry_row-key :
    (as_of : ℕ) (ev : Evidence) (d r : Reservation)
    → (expiry_row as_of ev d r).idempotency_key ≡ r.idempotency_key
unfolding expiry_row
expiry_row-key as_of ev d r = ground arith

-- An update of rows that leaves their keys.
module _ (w : Reservation → Bool) (f : Reservation → Reservation)
    (keeps : (r : Reservation) → (f r).idempotency_key ≡ r.idempotency_key) where
  key_kept : (r : Reservation) → (if w r then f r else r).idempotency_key ≡ r.idempotency_key
  key_kept r = ground (arith, keeps r)

  any_key_kept :
      (j : Text) (rows : List Reservation)
      → any_where (has_key j) (update_where w f rows) ≡ any_where (has_key j) rows
  any_key_kept j [] = refl
  any_key_kept j (r ∷ rows) = rw (key_kept r, any_key_kept j rows) refl

  update_keeps-UniqueKeys :
      (rows : List Reservation) → UniqueKeys rows → UniqueKeys (update_where w f rows)
  update_keeps-UniqueKeys [] u = tt
  update_keeps-UniqueKeys (r ∷ rows) u =
      (rw (key_kept r, any_key_kept r.idempotency_key rows) u.0, update_keeps-UniqueKeys rows u.1)

  update_one-update :
      (e : BudgetError) (rows rows' : List Reservation)
      → update_one w f e rows ≡ ok rows'
      → rows' ≡ update_where w f rows
  unfolding update_one
  update_one-update e rows rows' h = ground arith

  update_one-UniqueKeys :
      (e : BudgetError) (rows rows' : List Reservation)
      → update_one w f e rows ≡ ok rows'
      → UniqueKeys rows
      → UniqueKeys rows'
  update_one-UniqueKeys e rows rows' h u =
      rw (update_one-update e rows rows' h) (update_keeps-UniqueKeys rows u)

  write_keeps-UniqueKeys :
      (k : Text) (e : BudgetError) (rows rows' : List Reservation) (s : Reservation)
      → (update_one w f e rows >>= reread k) ≡ ok (rows', s)
      → UniqueKeys rows
      → UniqueKeys rows'
  write_keeps-UniqueKeys k e rows rows' s h u =
      on_ok (update_one w f e rows) _ h λ changed wrote read.
        let same : rows' ≡ changed = reread-same k changed rows' s read in
        rw same (update_one-UniqueKeys e rows changed wrote u)

run_write-UniqueKeys :
    (m : SettleWrite) (version now : ℕ) (rows rows' : List Reservation) (s : Reservation)
    → run_write m version now rows ≡ ok (rows', s)
    → UniqueKeys rows
    → UniqueKeys rows'
unfolding run_write consume_write release_write reconcile_write
run_write-UniqueKeys (consumes p a) version now rows rows' s =
    write_keeps-UniqueKeys _ (consume_row a now) (λ r. refl) _ _ rows rows' s
run_write-UniqueKeys (releases p) version now rows rows' s =
    write_keeps-UniqueKeys _ (release_row now) (λ r. refl) _ _ rows rows' s
run_write-UniqueKeys (reconciles k a) version now rows rows' s =
    write_keeps-UniqueKeys _ (reconcile_row a now) (λ r. refl) _ _ rows rows' s

reserve_budget-UniqueKeys :
    (p : ReserveInput) (c : Clock) (id : String) (rows rows' : List Reservation) (o : Outcome)
    → reserve_budget p c id rows ≡ ok (rows', o)
    → UniqueKeys rows
    → UniqueKeys rows'
unfolding fresh_reservation
reserve_budget-UniqueKeys p c id rows rows' o h u =
    let (requested, limit, a, l, effect) = reserve_budget-Effect p c id rows rows' o h in
    elim effect [
      | inl (same, stale) ↦ rw same u
      | inr added ↦
          rw (added.appended)
            (UniqueKeys-append rows (fresh_reservation p requested c id) u added.unused)
    ]

-- A claim leaves the table alone, or appends a row of an unused key.
abbrev Claims : SlotInput → ℕ → Clock → String → List Reservation → List Reservation → Type 0
Claims p requested c id rows rows' =
    (rows' ≡ rows)
    ⊎ ((n : ℕ) × (any_where (has_key (attempt_key p.key_prefix n)) rows ≡ false)
        × (rows' ≡ rows ++ slot_reservation p n requested c id ∷ []))

claim_slot-Claims :
    (p : SlotInput) (n requested limit : ℕ) (c : Clock) (id : String)
    (rows rows' : List Reservation) (o : SlotOutcome)
    → claim_slot p n requested limit c id rows ≡ ok (rows', o)
    → (rows' ≡ rows)
      ⊎ ((any_where (has_key (attempt_key p.key_prefix n)) rows ≡ false)
          × (rows' ≡ rows ++ slot_reservation p n requested c id ∷ []))
unfolding claim_slot create slot_reservation
claim_slot-Claims p n requested limit c id rows rows' o h = ground arith

-- The attempt that `choose_slot` claims.
abbrev candidate : SlotInput → List Reservation → ℕ
candidate p rows =
    first_free (is_taken p.key_prefix (filter_where (is_of_event p) rows)) p.max_attempts 1

choose_slot-claims :
    (p : SlotInput) (requested limit : ℕ) (c : Clock) (id : String) (rows rows' : List Reservation)
    (o : SlotOutcome)
    → choose_slot p requested limit c id rows ≡ ok (rows', o)
    → (rows' ≡ rows) ⊎ (claim_slot p (candidate p rows) requested limit c id rows ≡ ok (rows', o))
unfolding choose_slot
choose_slot-claims p requested limit c id rows rows' o h = ground arith

acquire_validated-chooses :
    (p : SlotInput) (requested limit : ℕ) (c : Clock) (id : String) (rows rows' : List Reservation)
    (o : SlotOutcome)
    → acquire_validated p requested limit c id rows ≡ ok (rows', o)
    → (rows' ≡ rows) ⊎ (choose_slot p requested limit c id rows ≡ ok (rows', o))
unfolding acquire_validated
acquire_validated-chooses p requested limit c id rows rows' o h = ground arith

acquire-Claims :
    (p : SlotInput) (requested limit : ℕ) (c : Clock) (id : String) (rows rows' : List Reservation)
    (o : SlotOutcome)
    → acquire_validated p requested limit c id rows ≡ ok (rows', o)
    → Claims p requested c id rows rows'
acquire-Claims p requested limit c id rows rows' o h =
    elim (acquire_validated-chooses p requested limit c id rows rows' o h) [
      | inl same ↦ inl same
      | inr chose ↦ elim (choose_slot-claims p requested limit c id rows rows' o chose) [
        | inl same ↦ inl same
        | inr claim ↦
            elim (claim_slot-Claims p (candidate p rows) requested limit c id rows rows' o claim) [
              | inl same ↦ inl same
              | inr (unused, added) ↦ inr (candidate p rows, unused, added)
            ]
      ]
    ]

acquire-UniqueKeys :
    (p : SlotInput) (c : Clock) (id : String) (rows rows' : List Reservation) (o : SlotOutcome)
    → acquire_event_attempt_slot p c id rows ≡ ok (rows', o)
    → UniqueKeys rows
    → UniqueKeys rows'
unfolding slot_reservation
acquire-UniqueKeys p c id rows rows' o h u =
    let (requested, limit, l, v) = acquire-validated p c id rows rows' o h in
    elim (acquire-Claims p requested limit c id rows rows' o v) [
      | inl same ↦ rw same u
      | inr (n, unused, added) ↦
          rw added (UniqueKeys-append rows (slot_reservation p n requested c id) u unused)
    ]

reconcile_each-UniqueKeys :
    (as_of : ℕ) (ev : Evidence) (ds rows : List Reservation)
    → UniqueKeys rows
    → UniqueKeys (reconcile_each as_of ev ds rows).0
unfolding reconcile_each
reconcile_each-UniqueKeys as_of ev [] rows u = u
reconcile_each-UniqueKeys as_of ev (d ∷ ds) rows u = reconcile_each-UniqueKeys as_of ev ds _ (
    update_keeps-UniqueKeys (is_record d) (expiry_row as_of ev d) (expiry_row-key as_of ev d) rows
      u)

record_outcome-UniqueKeys :
    (p : SettleInput) (outcome : AttemptOutcome) (rows rows' : List Reservation)
    → record_gemini_attempt_outcome p outcome rows ≡ ok rows'
    → UniqueKeys rows
    → UniqueKeys rows'
unfolding record_gemini_attempt_outcome
record_outcome-UniqueKeys p outcome rows rows' h u =
    update_one-UniqueKeys _ (record_row outcome) (λ r. refl) _ rows rows' h u

LedgerStep-UniqueKeys :
    {rows rows' : List Reservation} → LedgerStep rows rows' → UniqueKeys rows → UniqueKeys rows'
unfolding reconcile_expired_reservations
LedgerStep-UniqueKeys (reserves p c id rows rows' o h) u =
    reserve_budget-UniqueKeys p c id rows rows' o h u
LedgerStep-UniqueKeys (claims p c id rows rows' o h) u = acquire-UniqueKeys p c id rows rows' o h u
LedgerStep-UniqueKeys (settles m version now rows rows' s h) u =
    run_write-UniqueKeys m version now rows rows' s h u
LedgerStep-UniqueKeys (records p outcome rows rows' h) u =
    record_outcome-UniqueKeys p outcome rows rows' h u
LedgerStep-UniqueKeys (expires as_of ev rows) u =
    reconcile_each-UniqueKeys as_of ev (filter_where (is_expired as_of) rows) rows u

-- In every table that the writes of the operations reach from the empty one, in whatever order they
-- come, no two rows have the same idempotency key.
Ledger-UniqueKeys : (rows : List Reservation) → Ledger rows → UniqueKeys rows
Ledger-UniqueKeys _ empty = tt
Ledger-UniqueKeys _ (after {rows} ledger step) =
    LedgerStep-UniqueKeys step (Ledger-UniqueKeys rows ledger)
