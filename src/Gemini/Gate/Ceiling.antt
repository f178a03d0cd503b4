-- ===== src/Gemini/Gate/Ceiling.antt =====
-- How many dispatches a run of apps/worker/src/services/gemini-budget-service.ts authorises.
use falseroute.Prelude.{
  ℕ, ◌+◌, ◌≤◌, ◌≡◌, ◌⊎◌, refl, String, str_eq, true, false, Option, none, some, List, [], ◌∷◌, ok,
  arith, All, any_where, Result-cases, Bool-cases, inl, inr,
}
use falseroute.Budget.Store.{Reservation}
use falseroute.Budget.Slot.{SlotOutcome, slot_granted, slot_denied, acquire_event_attempt_slot}
use falseroute.Gemini.Gate.{
  GateConfig, Call, Called, Gate, Run, GeminiAttempt, slot_input, open_of, mark_dispatched,
  answer_slot, acquire_attempt, settle, begin_attempt, is_granted, run_calls, after_prime,
  Execution, AttemptArgument, is_valid_attempt, returned, thrown, finish_execution,
  execute_with_budget, UsageMetadata,
}
use falseroute.Gemini.Gate.Grows.{has_owner, counted, Differs, Grows, unchanged, settle-Grows}
use falseroute.Gemini.Gate.Slots.{slot-Grows, granted-counted, mark-Grows, Grows-Grows}

-- What a call of the gate does: a grant is a charge more than before, within the cap.
record Bounded (cfg : GateConfig) (owner : String) (rows : List Reservation) (c : Called)
    : Type 0 where
  grows : Grows cfg (Differs owner) rows c.rows
  charged : counted cfg rows + is_granted c ≤ counted cfg c.rows
  capped : (is_granted c ≡ 0) ⊎ (counted cfg rows + 1 ≤ cfg.max_calls_per_event)

granted-le : (c : Called) → is_granted c ≤ 1
granted-le c = elim (Result-cases c.answer) [
  | inl (e, failed) ↦ rw failed (omega arith)
  | inr (a, done) ↦ rw done (omega arith)
]

answered-Bounded :
    (cfg : GateConfig) (call : Call) (g : Gate) (rows rows' : List Reservation) (o : SlotOutcome)
    → acquire_event_attempt_slot (slot_input cfg call.owner) call.clock call.id rows ≡ ok (rows', o)
    → any_where (has_owner call.owner) rows ≡ false
    → Bounded cfg call.owner rows (answer_slot g rows' o)
unfolding answer_slot
answered-Bounded cfg call g rows rows' (slot_denied reason total limit) h fresh =
    let grown = slot-Grows cfg call rows rows' (slot_denied reason total limit) h fresh in
    record { grows = grown; charged = omega (arith, grown.more); capped = inl refl }
answered-Bounded cfg call g rows rows' (slot_granted d n r) h fresh =
    let (counts, cap) = granted-counted cfg call rows rows' d n r h fresh in
    let g' = record g { opened = some (open_of n r) } in
    let marked = mark-Grows cfg (Differs call.owner) n r g' rows' in
    let grown = slot-Grows cfg call rows rows' (slot_granted d n r) h fresh in
    record {
      grows =
          Grows-Grows cfg (Differs call.owner) rows rows' (mark_dispatched n r g' rows').rows grown
            marked;
      charged = omega (arith, counts, marked.more, granted-le (mark_dispatched n r g' rows'));
      capped = inr (omega (arith, counts, cap));
    }

acquire_attempt-Bounded :
    (cfg : GateConfig) (call : Call) (g : Gate) (rows : List Reservation)
    → any_where (has_owner call.owner) rows ≡ false
    → Bounded cfg call.owner rows (acquire_attempt cfg call g rows)
unfolding acquire_attempt
acquire_attempt-Bounded cfg call g rows fresh =
    elim (Result-cases
      (acquire_event_attempt_slot (slot_input cfg call.owner) call.clock call.id rows)) [
        | inl (e, failed) ↦
            rw (failed, acquire_attempt)
              (record {
                grows = unchanged cfg (Differs call.owner) rows;
                charged = omega arith;
                capped = inl refl;
              })
        | inr (a, done) ↦
            rw (done, acquire_attempt) (answered-Bounded cfg call g rows a.0 a.1 done fresh)
      ]

begin-Bounded :
    (cfg : GateConfig) (call : Call) (g : Gate) (rows : List Reservation)
    → any_where (has_owner call.owner) rows ≡ false
    → g.primed ≡ none
    → Bounded cfg call.owner rows (begin_attempt cfg call g rows)
unfolding begin_attempt
begin-Bounded cfg call g rows fresh unprimed =
    let settled = settle none call.clock.app g rows in
    let first = settle-Grows cfg (λ o. Unit {0}) none call.clock.app g rows in
    let b =
      acquire_attempt-Bounded cfg call settled.0 settled.1 (first.absent call.owner tt fresh) in
    rw (unprimed, begin_attempt)
      (record {
        grows = record {
          more = omega (arith, first.more, b.grows.more);
          absent = λ o other h. b.grows.absent o other (first.absent o tt h);
        };
        charged = omega (arith, first.more, b.charged);
        capped = elim b.capped [
          | inl none_granted ↦ inl none_granted
          | inr within ↦ inr (omega (arith, first.more))
        ];
      })

-- The owners of the calls are new: `randomUUID` gives each of them.
abbrev pub FreshOwners : List Call → List Reservation → Type 0
FreshOwners [] rows = Unit
FreshOwners (call ∷ calls) rows =
    (any_where (has_owner call.owner) rows ≡ false)
    × All (λ c. str_eq call.owner c.owner ≡ false) calls
    × FreshOwners calls rows

fresh_later :
    (cfg : GateConfig) (owner : String) (calls : List Call) (rows rows' : List Reservation)
    → Grows cfg (Differs owner) rows rows'
    → All (λ c. str_eq owner c.owner ≡ false) calls
    → FreshOwners calls rows
    → FreshOwners calls rows'
fresh_later cfg owner [] rows rows' g distinct fresh = tt
fresh_later cfg owner (call ∷ calls) rows rows' g distinct fresh = (
  g.absent call.owner distinct.0 fresh.0,
  fresh.1,
  fresh_later cfg owner calls rows rows' g distinct.1 fresh.2,
)

settled_unprimed :
    (usage : Option UsageMetadata) (now : ℕ) (g : Gate) (rows : List Reservation)
    → g.primed ≡ none
    → (settle usage now g rows).0.primed ≡ none
unfolding settle
settled_unprimed usage now g rows h = ground arith

acquired_unprimed :
    (cfg : GateConfig) (call : Call) (g : Gate) (rows : List Reservation)
    → g.primed ≡ none
    → (acquire_attempt cfg call g rows).gate.primed ≡ none
unfolding acquire_attempt answer_slot mark_dispatched
acquired_unprimed cfg call g rows h = ground arith

begun_unprimed :
    (cfg : GateConfig) (call : Call) (g : Gate) (rows : List Reservation)
    → g.primed ≡ none
    → (begin_attempt cfg call g rows).gate.primed ≡ none
unfolding begin_attempt
begun_unprimed cfg call g rows h =
    let settled = settle none call.clock.app g rows in
    rw (h, begin_attempt)
      (acquired_unprimed cfg call settled.0 settled.1
        (settled_unprimed none call.clock.app g rows h))

abbrev pub Within : GateConfig → List Reservation → ℕ → Type 0
Within cfg rows n = (n ≡ 0) ⊎ (counted cfg rows + n ≤ cfg.max_calls_per_event)

run-Within :
    (cfg : GateConfig) (calls : List Call) (g : Gate) (rows : List Reservation)
    → g.primed ≡ none
    → FreshOwners calls rows
    → Within cfg rows (run_calls cfg calls g rows).granted
unfolding run_calls
run-Within cfg [] g rows unprimed fresh = inl refl
run-Within cfg (call ∷ calls) g rows unprimed fresh =
    let c = begin_attempt cfg call g rows in
    let b = begin-Bounded cfg call g rows fresh.0 unprimed in
    let later =
      run-Within cfg calls c.gate c.rows (begun_unprimed cfg call g rows unprimed)
        (fresh_later cfg call.owner calls rows c.rows b.grows fresh.1 fresh.2) in
    elim later [
      | inl no_more ↦ elim b.capped [
        | inl refused ↦ inl (omega arith)
        | inr within ↦ inr (omega (arith, granted-le c))
      ]
      | inr within ↦ inr (omega (arith, b.charged))
    ]

finish-dispatches :
    (e : Execution) (now : ℕ) (run : Run) → (finish_execution e now run).dispatches ≡ run.granted
unfolding finish_execution
finish-dispatches (returned usage) now run = refl
finish-dispatches (thrown true) now run = refl
finish-dispatches (thrown false) now run = refl

-- The calls of `execute` after the gate is primed.
primed-Within :
    (cfg : GateConfig) (calls : List Call) (g : Gate) (a : GeminiAttempt)
    (before rows : List Reservation)
    → FreshOwners calls rows
    → counted cfg before + 1 ≤ counted cfg rows
    → counted cfg before + 1 ≤ cfg.max_calls_per_event
    → Within cfg before (run_calls cfg calls (record g { primed = some a }) rows).granted
unfolding run_calls begin_attempt
primed-Within cfg [] g a before rows fresh charged within = inl refl
primed-Within cfg (call ∷ calls) g a before rows fresh charged within =
    elim (run-Within cfg calls (record g { primed = none }) rows refl fresh.2) [
      | inl no_more ↦ inr (omega arith)
      | inr more ↦ inr (omega arith)
    ]

after_prime-Within :
    (cfg : GateConfig) (calls : List Call) (e : Execution) (now : ℕ) (rows : List Reservation)
    (c : Called) (owner : String)
    → Bounded cfg owner rows c
    → FreshOwners calls c.rows
    → Within cfg rows (after_prime cfg calls e now c).dispatches
unfolding after_prime
after_prime-Within cfg calls e now rows c owner b fresh = elim (Result-cases c.answer) [
  | inl (x, failed) ↦ rw (failed, after_prime) (inl refl)
  | inr (a, done) ↦
      let one : is_granted c ≡ 1 = rw done refl in
      let within : counted cfg rows + 1 ≤ cfg.max_calls_per_event = elim b.capped [
        | inl refused ↦ absurd (omega (arith, one))
        | inr bound ↦ bound
      ] in
      let run = run_calls cfg calls (record c.gate { primed = some a }) c.rows in
      rw (done, after_prime)
        (rw (finish-dispatches e now run) (
          primed-Within cfg calls c.gate a rows c.rows fresh (omega (arith, b.charged, one))
            within))
]

-- However often `execute` asks for an attempt, and whatever it does with the answers, one run of
-- `executeWithBudget` authorises no dispatch, or so many that, with the attempts charged to the
-- event before, they are within the cap on its calls. It is assumed that the owners of the run's calls
-- are new and differ, and that no other writer comes between its operations.
pub dispatch_ceiling :
    (cfg : GateConfig) (argument : AttemptArgument) (prime : Call) (calls : List Call)
    (e : Execution) (now : ℕ) (rows : List Reservation)
    → FreshOwners (prime ∷ calls) rows
    → Within cfg rows (execute_with_budget cfg argument prime calls e now rows).dispatches
unfolding execute_with_budget
dispatch_ceiling cfg argument prime calls e now rows fresh =
    let c = acquire_attempt cfg prime (record { opened = none; primed = none }) rows in
    let b =
      acquire_attempt-Bounded cfg prime (record { opened = none; primed = none }) rows fresh.0 in
    elim (Bool-cases (is_valid_attempt cfg argument)) [
      | inr invalid ↦ rw (invalid, execute_with_budget) (inl refl)
      | inl valid ↦
          rw (valid, execute_with_budget)
            (after_prime-Within cfg calls e now rows c prime.owner b
              (fresh_later cfg prime.owner calls rows c.rows b.grows fresh.1 fresh.2))
    ]
