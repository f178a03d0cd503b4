-- ===== src/Budget/Reserve/EventCap.antt =====
-- The durable cap on the model calls of one event.
use falseroute.Prelude.{
  ℕ, ◌≤◌, ◌<◌, ◌≡◌, ◌≢◌, inl, inr, String, str_eq_iff, true, false, some, List, ok, arith, on_ok,
  Bool-cases, Option-cases,
}
use falseroute.Budget.Store.{
  daily_gemini_tokens, Reservation, Clock, count_event_reservations, counts_for_event, find_unique,
  validate_numeric_positive,
}
use falseroute.Budget.Store.Sums.{count-append, count_one-le, event_eq_sound, category_eq_sound}
use falseroute.Budget.Reserve.{
  ReserveInput, Outcome, granted, fresh_reservation, reserve_new, reserve_validated, reserve_budget,
  event_calls,
}
use falseroute.Budget.Reserve.Ceiling.{
  Appends, reserve_validated-Effect, answer_existing-not-is_fresh,
}

-- A new row that counts for the event is of that event and of the model calls.
counted-fresh :
    (p : ReserveInput) (requested : ℕ) (c : Clock) (id e : String)
    → counts_for_event e daily_gemini_tokens (fresh_reservation p requested c id) ≡ true
    → (p.event_id ≡ some e) × (p.category ≡ daily_gemini_tokens)
unfolding counts_for_event fresh_reservation
counted-fresh p requested c id e h =
    ground
      (arith, event_eq_sound p.event_id (some e), category_eq_sound p.category daily_gemini_tokens)

reserve_validated-new :
    (p : ReserveInput) (requested limit : ℕ) (c : Clock) (id : String)
    (rows rows' : List Reservation) (r : Reservation)
    → reserve_validated p requested limit c id rows ≡ ok (rows', granted false r)
    → reserve_new p requested limit c id rows ≡ ok (rows', granted false r)
unfolding reserve_validated
reserve_validated-new p requested limit c id rows rows' r h =
    elim (Option-cases (find_unique p.idempotency_key rows)) [
      | inl e ↦ ground arith
      | inr (s, e) ↦
          ground (arith, answer_existing-not-is_fresh s p.idempotency_key p.owner_id limit c.app)
    ]

-- A granted model call found fewer than two counted calls of its event.
reserve_new-counted :
    (p : ReserveInput) (requested limit : ℕ) (c : Clock) (id e : String)
    (rows rows' : List Reservation) (r : Reservation)
    → p.event_id ≡ some e
    → p.category ≡ daily_gemini_tokens
    → e ≢ ""
    → reserve_new p requested limit c id rows ≡ ok (rows', granted false r)
    → count_event_reservations e daily_gemini_tokens rows < 2
unfolding reserve_new event_calls
reserve_new-counted p requested limit c id e rows rows' r ev cat ne h =
    let calls : event_calls p.event_id p.category rows
        ≡ some (e, count_event_reservations e daily_gemini_tokens rows) =
      ground (arith, str_eq_iff e "") in
    ground arith

appended_cap :
    (p : ReserveInput) (requested limit : ℕ) (c : Clock) (id e : String)
    (rows rows' : List Reservation) (o : Outcome)
    → e ≢ ""
    → count_event_reservations e daily_gemini_tokens rows ≤ 2
    → Appends p requested limit c id rows rows' o
    → reserve_validated p requested limit c id rows
      ≡ ok (rows', granted false (fresh_reservation p requested c id))
    → count_event_reservations e daily_gemini_tokens rows' ≤ 2
unfolding count_event_reservations
appended_cap p requested limit c id e rows rows' o ne h a k =
    let r = fresh_reservation p requested c id in
    let added = count-append e daily_gemini_tokens rows r in
    elim (Bool-cases (counts_for_event e daily_gemini_tokens r)) [
      | inl counts ↦
          let (ev, cat) = counted-fresh p requested c id e counts in
          let new = reserve_validated-new p requested limit c id rows rows' r k in
          let spare = reserve_new-counted p requested limit c id e rows rows' r ev cat ne new in
          rw (a.appended) (omega (arith, added, spare, count_one-le e daily_gemini_tokens r))
      | inr passes ↦ rw (a.appended) (ground (arith, added))
    ]

-- For an event whose identifier is not the empty text, no call takes its counted model calls, those
-- that are reserved, consumed or reconciled, from two or fewer to more.
pub reserve_budget-event_cap :
    (p : ReserveInput) (c : Clock) (id e : String) (rows rows' : List Reservation) (o : Outcome)
    → e ≢ ""
    → count_event_reservations e daily_gemini_tokens rows ≤ 2
    → reserve_budget p c id rows ≡ ok (rows', o)
    → count_event_reservations e daily_gemini_tokens rows' ≤ 2
unfolding reserve_budget
reserve_budget-event_cap p c id e rows rows' o ne h k =
    on_ok (validate_numeric_positive p.amount_reserved _) _ k λ requested _ k₁.
      on_ok (validate_numeric_positive p.limit _) _ k₁ λ limit _ k₂.
        elim (reserve_validated-Effect p requested limit c id rows rows' o k₂) [
          | inl same ↦ rw (same.0) h
          | inr a ↦
              appended_cap p requested limit c id e rows rows' o ne h a (rw (a.answered) at k₂)
        ]
