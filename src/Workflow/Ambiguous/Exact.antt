-- ===== src/Workflow/Ambiguous/Exact.antt =====
-- When `settleAmbiguousToolReservation` of
-- packages/database/src/repositories/autonomous-workflow-repository.ts settles, and what it writes.
use falseroute.Prelude.{
  ℕ, ◌≤◌, ◌≡◌, ◌≢◌, ◌↔◌, ◌⊎◌, refl, ap, String, str_eq, str_eq_iff, true, ◌||◌, Option, none, some,
  List, arith, ==_iff, zero, suc, find_first-true, found-any, count-le, count-zero, find_first,
  count_where, update_where, update-same, Option-cases, inl, inr,
}
use falseroute.Budget.Store.{Reservation, status_eq, has_key, find_unique}
use falseroute.Workflow.Intents.{
  ProviderIntentRecord, IntentStatus, pending, claimed, executed, failed, intent_status_eq,
  has_intent_key,
}
use falseroute.Workflow.Operations.{ToolOperation, has_operation_key}
use falseroute.Workflow.Ambiguous.{
  WorkflowTables, AmbiguousSettlement, reconcile, release, AmbiguousInput, AmbiguousReason,
  settled_as, provider_intent_identity_mismatch, reservation_not_found, already_settled,
  reservation_status, stale_reservation_owner, stale_reservation_version, provider_intent_not,
  tool_operation_not_found, tool_operation_not_ambiguous, concurrent_modification, Settling,
  is_own_key, required_status, settled_reservation, ambiguous_where, write_ambiguous,
  check_operation, check_outcome, check_reservation, settle_ambiguous_tool_reservation,
}
use falseroute.Workflow.Ambiguous.Conditions.{
  IsSettleable, same_event, operation-ok, reservation_ok, outcome_ok,
}

stage_true :
    (s : String)
    → (s ≡ "AUTHORIZED") ⊎ (s ≡ "FAILED")
    → (str_eq s "AUTHORIZED" || str_eq s "FAILED") ≡ true
stage_true s (inl e) = let h = (str_eq_iff s "AUTHORIZED").1 e in ground arith
stage_true s (inr e) = let h = (str_eq_iff s "FAILED").1 e in ground arith

intent_status_eq_refl : (s : IntentStatus) → intent_status_eq s s ≡ true
unfolding intent_status_eq
intent_status_eq_refl pending = refl
intent_status_eq_refl claimed = refl
intent_status_eq_refl executed = refl
intent_status_eq_refl failed = refl

exactly_one : (n : ℕ) → (n ≤ 0 → ⊥) → n ≤ 1 → n ≡ 1
exactly_one zero positive few = absurd (positive (omega arith))
exactly_one (suc n) positive few = omega arith

module _ (p : AmbiguousInput) (as_of : ℕ) (t : WorkflowTables) where
  checked :
      (settle_ambiguous_tool_reservation p as_of t).2 ≡ settled_as p.settlement
      → (p.provider_intent_key ≡ p.tool_operation_key)
        × (is_own_key p.reservation_key p.tool_operation_key ≡ true)
        × ((check_reservation p as_of
              (find_unique p.reservation_key t.reservations)
              (find_first (has_intent_key p.provider_intent_key) t.intents)
              (find_first (has_operation_key p.tool_operation_key) t.operations)
              t.reservations).2
            ≡ settled_as p.settlement)
  unfolding settle_ambiguous_tool_reservation
  checked h = (
    (str_eq_iff p.provider_intent_key p.tool_operation_key).0 (ground arith),
    ground arith,
    ground arith,
  )

  settled-IsSettleable :
      (settle_ambiguous_tool_reservation p as_of t).2 ≡ settled_as p.settlement → IsSettleable p t
  settled-IsSettleable h =
      let (same, own, h1) = checked h in
      elim (Option-cases (find_unique p.reservation_key t.reservations)) [
        | inl none_found ↦ absurd (unfold check_reservation in ground arith)
        | inr (r, found) ↦
            elim (Option-cases (find_first (has_intent_key p.provider_intent_key) t.intents)) [
              | inl no_intent ↦ absurd (unfold check_reservation check_outcome in ground arith)
              | inr (i, found_i) ↦
                  elim (Option-cases
                    (find_first (has_operation_key p.tool_operation_key) t.operations)) [
                      | inl no_operation ↦
                          absurd
                            (unfold check_reservation check_outcome check_operation in ground arith)
                      | inr (o, found_o) ↦
                          let h2 =
                            reservation_ok p as_of t.reservations r (some i) (some o)
                              (rw (← found) (rw (← found_i) (rw (← found_o) h1))) in
                          let h3 = outcome_ok p as_of t.reservations r i (some o) h2.1 in
                          let h4 = operation-ok p as_of t.reservations r i o h3.1 in
                          record {
                            same_operation = same;
                            own_key = own;
                            reservation = r;
                            intent = i;
                            operation = o;
                            reservation_found = found;
                            intent_found = found_i;
                            operation_found = found_o;
                            is_reserved = h2.0.0;
                            owner = h2.0.1;
                            version = h2.0.2;
                            outcome = h3.0;
                            stage = h4.0;
                            event = h4.1;
                            tool = h4.2;
                            reservation_event = h4.3;
                          }
                    ]
            ]
      ]

  -- The update finds the one row that has the key.
  update_fits :
      (q : IsSettleable p t)
      → count_where (has_key p.reservation_key) t.reservations ≤ 1
      → count_where (ambiguous_where p) t.reservations ≡ 1
  unfolding ambiguous_where
  update_fits q one =
      let r = q.reservation in
      let keyed : has_key p.reservation_key r ≡ true =
        find_first-true (has_key p.reservation_key) t.reservations q.reservation_found in
      let fits : ambiguous_where p r ≡ true =
        ground
          (arith, str_eq_iff r.owner_id p.expected_owner_id, q.owner, q.is_reserved, q.version) in
      let some_fit =
        found-any (has_key p.reservation_key) (ambiguous_where p) t.reservations r
          q.reservation_found fits in
      let few =
        count-le (ambiguous_where p) (has_key p.reservation_key) t.reservations
          (λ x h. ground arith) in
      exactly_one (count_where (ambiguous_where p) t.reservations)
        (λ z. let none_fit = count-zero (ambiguous_where p) t.reservations z in cc) (omega arith)

  operation-settled :
      (q : IsSettleable p t)
      → count_where (ambiguous_where p) t.reservations ≡ 1
      → check_operation p as_of q.reservation q.intent (some q.operation) t.reservations ≡ (
        update_where (ambiguous_where p) (settled_reservation p.settlement as_of) t.reservations,
        true,
        settled_as p.settlement,
      )
  unfolding check_operation write_ambiguous
  operation-settled q one =
      let o = q.operation in
      let i = q.intent in
      let event = (str_eq_iff o.event_id i.event_id).1 q.event in
      let tool = (str_eq_iff o.tool_name i.operation_type).1 q.tool in
      let own_event =
        (same_event p as_of t.reservations q.reservation.event_id i.event_id).1
          q.reservation_event in
      let stage = stage_true o.stage q.stage in ground arith

  settleable-settled :
      (q : IsSettleable p t)
      → count_where (has_key p.reservation_key) t.reservations ≤ 1
      → settle_ambiguous_tool_reservation p as_of t ≡ (
        update_where (ambiguous_where p) (settled_reservation p.settlement as_of) t.reservations,
        true,
        settled_as p.settlement,
      )
  unfolding settle_ambiguous_tool_reservation check_reservation check_outcome status_eq
  settleable-settled q one =
      let same = (str_eq_iff p.provider_intent_key p.tool_operation_key).1 q.same_operation in
      let owner = (str_eq_iff q.reservation.owner_id p.expected_owner_id).1 q.owner in
      let outcome : intent_status_eq q.intent.status (required_status p.settlement) ≡ true =
        rw q.outcome (intent_status_eq_refl (required_status p.settlement)) in
      let current = (==_iff q.reservation.version p.expected_version).1 q.version in
      let last = operation-settled q (update_fits q one) in
      rw same (
        rw q.own_key (
          rw q.reservation_found (
            rw q.intent_found
              (rw q.operation_found (rw q.is_reserved (rw owner (rw current (rw outcome last))))))))

module _ (p : AmbiguousInput) (as_of : ℕ) (r : Reservation) (rows : List Reservation) where
  -- A check that does not settle leaves the table as it is.
  operation-kept :
      (i : ProviderIntentRecord) (o : Option ToolOperation)
      → (check_operation p as_of r i o rows).2 ≢ settled_as p.settlement
      → (check_operation p as_of r i o rows).0 ≡ rows
  unfolding check_operation write_ambiguous
  operation-kept i none h = refl
  operation-kept i (some o) h = ground arith

  outcome-kept :
      (i : Option ProviderIntentRecord) (o : Option ToolOperation)
      → (check_outcome p as_of r i o rows).2 ≢ settled_as p.settlement
      → (check_outcome p as_of r i o rows).0 ≡ rows
  unfolding check_outcome
  outcome-kept none o h = refl
  outcome-kept (some i) o h = ground (arith, operation-kept i o)

  reservation-kept :
      (i : Option ProviderIntentRecord) (o : Option ToolOperation)
      → (check_reservation p as_of (some r) i o rows).2 ≢ settled_as p.settlement
      → (check_reservation p as_of (some r) i o rows).0 ≡ rows
  unfolding check_reservation
  reservation-kept i o h = ground (arith, outcome-kept i o)

reservation_of-kept :
    (p : AmbiguousInput) (as_of : ℕ) (rows : List Reservation) (r : Option Reservation)
    (i : Option ProviderIntentRecord) (o : Option ToolOperation)
    → (check_reservation p as_of r i o rows).2 ≢ settled_as p.settlement
    → (check_reservation p as_of r i o rows).0 ≡ rows
reservation_of-kept p as_of rows none i o h = unfold check_reservation in refl
reservation_of-kept p as_of rows (some r) i o h = reservation-kept p as_of r rows i o h

settle-kept :
    (p : AmbiguousInput) (as_of : ℕ) (t : WorkflowTables)
    → (settle_ambiguous_tool_reservation p as_of t).2 ≢ settled_as p.settlement
    → (settle_ambiguous_tool_reservation p as_of t).0 ≡ t.reservations
unfolding settle_ambiguous_tool_reservation
settle-kept p as_of t h = ground (
  arith,
  reservation_of-kept p as_of t.reservations (find_unique p.reservation_key t.reservations)
      (find_first (has_intent_key p.provider_intent_key) t.intents)
      (find_first (has_operation_key p.tool_operation_key) t.operations),
)

fits-key :
    (p : AmbiguousInput) (r : Reservation)
    → ambiguous_where p r ≡ true
    → has_key p.reservation_key r ≡ true
unfolding ambiguous_where
fits-key p r h = ground arith

is_settled_as :
    (r : AmbiguousReason) (s : AmbiguousSettlement) → (r ≡ settled_as s) ⊎ (r ≢ settled_as s)
is_settled_as (settled_as reconcile) reconcile = inl refl
is_settled_as (settled_as release) release = inl refl
is_settled_as (settled_as reconcile) release = inr (λ e. cc)
is_settled_as (settled_as release) reconcile = inr (λ e. cc)
is_settled_as provider_intent_identity_mismatch s = inr (λ e. cc)
is_settled_as reservation_not_found s = inr (λ e. cc)
is_settled_as already_settled s = inr (λ e. cc)
is_settled_as (reservation_status x) s = inr (λ e. cc)
is_settled_as stale_reservation_owner s = inr (λ e. cc)
is_settled_as stale_reservation_version s = inr (λ e. cc)
is_settled_as (provider_intent_not x) s = inr (λ e. cc)
is_settled_as tool_operation_not_found s = inr (λ e. cc)
is_settled_as (tool_operation_not_ambiguous x) s = inr (λ e. cc)
is_settled_as concurrent_modification s = inr (λ e. cc)

-- What is left in the table, and the answer.
pub record IsSettled (p : AmbiguousInput) (as_of : ℕ) (t : WorkflowTables) : Type 0 where
  pub settleable : IsSettleable p t
  pub answer : settle_ambiguous_tool_reservation p as_of t ≡ (
    update_where
        (has_key p.reservation_key)
        (settled_reservation p.settlement as_of)
        t.reservations,
    true,
    settled_as p.settlement,
  )

-- The settlement of an ambiguous reservation answers that it has settled exactly when all conditions of
-- its documentation hold: one operation under the keys of the reservation, the intent and the
-- ledger, a reservation that is reserved, with the expected owner and version, an intent that has
-- the required outcome and is of the same event and tool as the ledger row, and a ledger stage
-- that is ambiguous. Then it settles the row of the key as asked and changes no other row; and where
-- the conditions do not hold, the table is left as it is. It is assumed that no two reservations
-- share the key.
pub settle_ambiguous_iff :
    (p : AmbiguousInput) (as_of : ℕ) (t : WorkflowTables)
    → count_where (has_key p.reservation_key) t.reservations ≤ 1
    → (((settle_ambiguous_tool_reservation p as_of t).2 ≡ settled_as p.settlement)
        ↔ IsSettleable p t)
      × (IsSettled p as_of t
          ⊎ ((¬ IsSettleable p t)
              × ((settle_ambiguous_tool_reservation p as_of t).0 ≡ t.reservations)))
settle_ambiguous_iff p as_of t one =
    let answers : IsSettleable p t
        → (settle_ambiguous_tool_reservation p as_of t).2 ≡ settled_as p.settlement =
      λ q. ap (λ (s : Settling). s.2) (settleable-settled p as_of t q one) in
    (
      (settled-IsSettleable p as_of t, answers),
      elim (is_settled_as (settle_ambiguous_tool_reservation p as_of t).2 p.settlement) [
        | inl h ↦
            let q = settled-IsSettleable p as_of t h in
            let same =
              update-same (has_key p.reservation_key) (ambiguous_where p)
                (settled_reservation p.settlement as_of) t.reservations (fits-key p) one
                (update_fits p as_of t q one) in
            inl (record {
              settleable = q;
              answer = rw (settleable-settled p as_of t q one) (rw same refl);
            })
        | inr h ↦ inr (λ q. h (answers q), settle-kept p as_of t h)
      ],
    )
