-- ===== src/Budget/Ledger.antt =====
-- The life of the table of packages/database/src/repositories/budget-repository.ts: the writes of its
-- operations, one after the other, in whatever order they come.
pub mod Unique
use falseroute.Prelude.{
  ℕ, ◌+◌, ◌≡◌, refl, ◌⊎◌, inl, inr, ap, Text, text_eq, str_eq, String, Bool, true, false, ◌&&◌,
  some, List, [], ◌∷◌, ◌++◌, Result, ok, err, ◌>>=◌, on_ok, or_throw, arith, ◌==◌, if◌then◌else◌,
  any_where, count_where, update_where, filter_where, Bool-cases,
}
use falseroute.Budget.Store.{
  Reservation, Clock, BudgetError, AttemptOutcome, has_key, create, find_unique,
  reservation_not_found,
}
use falseroute.Budget.Store.Keys.{UniqueKeys, UniqueKeys-append}
use falseroute.Budget.Reserve.{ReserveInput, Outcome, fresh_reservation, reserve_budget}
use falseroute.Budget.Reserve.Ceiling.{reserve_budget-Effect}
use falseroute.Budget.Slot.{
  first_free, is_taken, is_of_event, SlotInput, SlotOutcome, attempt_key, slot_reservation,
  claim_slot, choose_slot, acquire_validated, acquire_event_attempt_slot,
}
use falseroute.Budget.Slot.Attempts.{acquire-validated}
use falseroute.Budget.Settle.{
  SettleInput, update_one, reread, consume_row, release_row, reconcile_row, record_row,
  consume_write, release_write, reconcile_write, record_gemini_attempt_outcome, settle_where,
}
use falseroute.Budget.Settle.Fence.{SettleWrite, consumes, releases, reconciles, run_write}
use falseroute.Budget.Expiry.{
  Evidence, is_record, expiry_row, reconcile_each, reconcile_expired_reservations, is_expired,
}

-- The write of one operation.
pub data LedgerStep : List Reservation → List Reservation → Type 0 where
  reserves :
      (p : ReserveInput) (c : Clock) (id : String) (rows rows' : List Reservation) (o : Outcome)
      → reserve_budget p c id rows ≡ ok (rows', o)
      → LedgerStep rows rows'
  claims :
      (p : SlotInput) (c : Clock) (id : String) (rows rows' : List Reservation) (o : SlotOutcome)
      → acquire_event_attempt_slot p c id rows ≡ ok (rows', o)
      → LedgerStep rows rows'
  settles :
      (m : SettleWrite) (version now : ℕ) (rows rows' : List Reservation) (s : Reservation)
      → run_write m version now rows ≡ ok (rows', s)
      → LedgerStep rows rows'
  records :
      (p : SettleInput) (outcome : AttemptOutcome) (rows rows' : List Reservation)
      → record_gemini_attempt_outcome p outcome rows ≡ ok rows'
      → LedgerStep rows rows'
  expires :
      (as_of : ℕ) (ev : Evidence) (rows : List Reservation)
      → LedgerStep rows (reconcile_expired_reservations as_of ev rows).0

pub data Ledger : List Reservation → Type 0 where
  empty : Ledger []
  after : {rows rows' : List Reservation} → Ledger rows → LedgerStep rows rows' → Ledger rows'
