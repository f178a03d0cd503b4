-- ===== src/Gemini/Gate/Slots.antt =====
-- The attempt slots that apps/worker/src/services/gemini-budget-service.ts acquires.
use falseroute.Prelude.{
  ℕ, ◌+◌, ◌≤◌, ◌≡◌, ◌⊎◌, refl, ap, ◌∙◌, String, Bool, false, none, some, List, [], ◌∷◌, ◌++◌, ok,
  arith, ltb, leb, ◌==◌, any_where, any_where-append, filter_where, find_first, length,
  Result-cases, Bool-cases, inl, inr,
}
use falseroute.Budget.Store.{
  daily_gemini_tokens, Reservation, Clock, dispatched, counts_for_event, count_event_reservations,
  is_counting, sum_committed_in_window, create,
}
use falseroute.Budget.Store.Sums.{category_eq_refl, event_eq_refl, count-append}
use falseroute.Budget.Slot.{
  SlotInput, SlotOutcome, slot_granted, ParsedInt, is_of_event, is_held_by_owner, first_free,
  is_taken, slot_reservation, claim_slot, choose_slot, acquire_validated,
  acquire_event_attempt_slot,
}
use falseroute.Budget.Slot.Attempts.{acquire-validated, acquire_event_attempt_slot-Claimed}
use falseroute.Budget.Settle.{record_row, record_gemini_attempt_outcome}
use falseroute.Gemini.Gate.{GateConfig, Call, Gate, slot_input, open_of, input_of, mark_dispatched}
use falseroute.Gemini.Gate.Grows.{
  has_owner, counted, record-Keeps, Differs, Grows, unchanged, updated, record-written,
}

no_holder :
    (p : SlotInput) (now : ℕ) (rows : List Reservation)
    → any_where (has_owner p.owner_id) rows ≡ false
    → find_first (is_held_by_owner p now) (filter_where (is_of_event p) rows) ≡ none
no_holder p now [] h = refl
no_holder p now (r ∷ rows) h = ground (arith, no_holder p now rows)

claim_slot-written :
    (p : SlotInput) (n requested limit : ℕ) (c : Clock) (id : String)
    (rows rows' : List Reservation) (o : SlotOutcome)
    → claim_slot p n requested limit c id rows ≡ ok (rows', o)
    → (rows' ≡ rows) ⊎ (rows' ≡ rows ++ slot_reservation p n requested c id ∷ [])
unfolding claim_slot create
claim_slot-written p n requested limit c id rows rows' o h =
    elim (Bool-cases
      (ltb limit (sum_committed_in_window p.category p.window_key c.db rows + requested))) [
        | inl full ↦ inl (ground arith)
        | inr room ↦ inr (ground arith)
      ]

choose_slot-written :
    (p : SlotInput) (requested limit : ℕ) (c : Clock) (id : String) (rows rows' : List Reservation)
    (o : SlotOutcome)
    → choose_slot p requested limit c id rows ≡ ok (rows', o)
    → (rows' ≡ rows) ⊎ ((n : ℕ) × (rows' ≡ rows ++ slot_reservation p n requested c id ∷ []))
unfolding choose_slot
choose_slot-written p requested limit c id rows rows' o h =
    let existing = filter_where (is_of_event p) rows in
    let charged = length (filter_where (λ r. is_counting r.status) existing) in
    let n = first_free (is_taken p.key_prefix existing) p.max_attempts 1 in
    elim (Bool-cases (leb p.max_attempts charged)) [
      | inl full ↦ inl (ground arith)
      | inr room ↦ elim (Bool-cases (n == 0)) [
        | inl no_slot ↦ inl (ground arith)
        | inr slot ↦
            elim (claim_slot-written p n requested limit c id rows rows' o (ground arith)) [
              | inl same ↦ inl same
              | inr added ↦ inr (n, added)
            ]
      ]
    ]

appended-Grows :
    (cfg : GateConfig) (call : Call) (n requested : ℕ) (rows : List Reservation)
    → Grows cfg
        (Differs call.owner)
        rows
        (rows ++ slot_reservation (slot_input cfg call.owner) n requested call.clock call.id ∷ [])
unfolding slot_reservation
appended-Grows cfg call n requested rows = record {
  more = omega (
    arith,
    count-append cfg.event_id daily_gemini_tokens rows
        (slot_reservation (slot_input cfg call.owner) n requested call.clock call.id),
  );
  absent = λ o other h.
      any_where-append (has_owner o) rows
        (slot_reservation (slot_input cfg call.owner) n requested call.clock call.id ∷ [])
      ∙ rw (h, other) refl;
}

chosen-slot :
    (p : SlotInput) (requested limit : ℕ) (c : Clock) (id : String) (rows rows' : List Reservation)
    (o : SlotOutcome)
    → acquire_validated p requested limit c id rows ≡ ok (rows', o)
    → any_where (has_owner p.owner_id) rows ≡ false
    → choose_slot p requested limit c id rows ≡ ok (rows', o)
unfolding acquire_validated
chosen-slot p requested limit c id rows rows' o h fresh =
    ground (arith, no_holder p c.app rows fresh)

pub slot-Grows :
    (cfg : GateConfig) (call : Call) (rows rows' : List Reservation) (o : SlotOutcome)
    → acquire_event_attempt_slot (slot_input cfg call.owner) call.clock call.id rows ≡ ok (rows', o)
    → any_where (has_owner call.owner) rows ≡ false
    → Grows cfg (Differs call.owner) rows rows'
slot-Grows cfg call rows rows' o h fresh =
    let p = slot_input cfg call.owner in
    let (requested, limit, l, v) = acquire-validated p call.clock call.id rows rows' o h in
    let chosen : choose_slot p requested limit call.clock call.id rows ≡ ok (rows', o) =
      chosen-slot p requested limit call.clock call.id rows rows' o v fresh in
    elim (choose_slot-written p requested limit call.clock call.id rows rows' o chosen) [
      | inl same ↦ rw same (unchanged cfg (Differs call.owner) rows)
      | inr (n, added) ↦ rw added (appended-Grows cfg call n requested rows)
    ]

claim_slot-granted :
    (p : SlotInput) (n requested limit : ℕ) (c : Clock) (id : String)
    (rows rows' : List Reservation) (d : Bool) (a : ParsedInt) (r : Reservation)
    → claim_slot p n requested limit c id rows ≡ ok (rows', slot_granted d a r)
    → (d ≡ false) × (rows' ≡ rows ++ slot_reservation p n requested c id ∷ [])
unfolding claim_slot create
claim_slot-granted p n requested limit c id rows rows' d a r h = (ground arith, ground arith)

choose_slot-granted :
    (p : SlotInput) (requested limit : ℕ) (c : Clock) (id : String) (rows rows' : List Reservation)
    (d : Bool) (a : ParsedInt) (r : Reservation)
    → choose_slot p requested limit c id rows ≡ ok (rows', slot_granted d a r)
    → (n : ℕ) × (d ≡ false) × (rows' ≡ rows ++ slot_reservation p n requested c id ∷ [])
unfolding choose_slot
choose_slot-granted p requested limit c id rows rows' d a r h =
    let existing = filter_where (is_of_event p) rows in
    let n = first_free (is_taken p.key_prefix existing) p.max_attempts 1 in
    let claimed : claim_slot p n requested limit c id rows ≡ ok (rows', slot_granted d a r) =
      ground arith in
    let (new, added) = claim_slot-granted p n requested limit c id rows rows' d a r claimed in
    (n, new, added)

slot_counted :
    (cfg : GateConfig) (call : Call) (n requested : ℕ)
    → counted cfg (slot_reservation (slot_input cfg call.owner) n requested call.clock call.id ∷ [])
      ≡ 1
unfolding slot_reservation count_event_reservations counts_for_event is_counting
slot_counted cfg call n requested =
    ground (arith, event_eq_refl (some cfg.event_id), category_eq_refl daily_gemini_tokens)

-- A granted slot is one more charge, within the cap.
pub granted-counted :
    (cfg : GateConfig) (call : Call) (rows rows' : List Reservation) (d : Bool) (a : ParsedInt)
    (r : Reservation)
    → acquire_event_attempt_slot (slot_input cfg call.owner) call.clock call.id rows
      ≡ ok (rows', slot_granted d a r)
    → any_where (has_owner call.owner) rows ≡ false
    → (counted cfg rows' ≡ counted cfg rows + 1) × (counted cfg rows' ≤ cfg.max_calls_per_event)
granted-counted cfg call rows rows' d a r h fresh =
    let p = slot_input cfg call.owner in
    let (requested, limit, l, v) =
      acquire-validated p call.clock call.id rows rows' (slot_granted d a r) h in
    let chosen =
      chosen-slot p requested limit call.clock call.id rows rows' (slot_granted d a r) v fresh in
    let (n, new, added) =
      choose_slot-granted p requested limit call.clock call.id rows rows' d a r chosen in
    let h' : acquire_event_attempt_slot p call.clock call.id rows
        ≡ ok (rows', slot_granted false a r) =
      rw (← new) h in
    let (m, limit', a_eq, l', claimed) =
      acquire_event_attempt_slot-Claimed p call.clock call.id rows rows' a r h' in
    (
      rw added (
          count-append cfg.event_id daily_gemini_tokens rows
            (slot_reservation p n requested call.clock call.id)
          ∙ ap (λ (k : ℕ). counted cfg rows + k) (slot_counted cfg call n requested)),
      claimed.capped,
    )

pub mark-Grows :
    (cfg : GateConfig) (other : String → Type 0) (n : ParsedInt) (r : Reservation) (g : Gate)
    (rows : List Reservation)
    → Grows cfg other rows (mark_dispatched n r g rows).rows
unfolding mark_dispatched
mark-Grows cfg other n r g rows =
    elim (Result-cases (record_gemini_attempt_outcome (input_of (open_of n r)) dispatched rows)) [
      | inl (e, failed) ↦ rw (failed, mark_dispatched) (unchanged cfg other rows)
      | inr (rows', done) ↦
          rw (done, mark_dispatched)
            (rw (record-written (input_of (open_of n r)) dispatched rows rows' done) (
              updated cfg other _ (record_row dispatched) rows
                (record-Keeps (input_of (open_of n r)) dispatched)))
    ]

pub Grows-Grows :
    (cfg : GateConfig) (other : String → Type 0) (rows rows' rows'' : List Reservation)
    → Grows cfg other rows rows'
    → Grows cfg other rows' rows''
    → Grows cfg other rows rows''
Grows-Grows cfg other rows rows' rows'' a b = record {
  more = omega (arith, a.more, b.more);
  absent = λ o allowed h. b.absent o allowed (a.absent o allowed h);
}
