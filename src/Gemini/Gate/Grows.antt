-- ===== src/Gemini/Gate/Grows.antt =====
-- What the settlements and the markers of apps/worker/src/services/gemini-budget-service.ts do to the table.
use falseroute.Prelude.{
  ℕ, ◌≤◌, ◌≡◌, refl, ap, ◌∙◌, String, str_eq, Bool, true, false, ◌&&◌, Option, List, [], ◌∷◌, ok,
  err, on_ok, arith, any_where, Result-cases, update_where, Option-cases, inl, inr,
}
use falseroute.Budget.Store.{
  Category, Status, reserved, status_eq, validate_numeric_non_negative, amount_consumed_name,
  daily_gemini_tokens, Reservation, Numeric, AttemptOutcome, has_key, counts_for_event,
  count_event_reservations, is_counting,
}
use falseroute.Budget.Settle.{
  SettleInput, update_one, is_version, record_row, settle_where, consume_row, consume_read,
  consume_write, consume_budget, record_gemini_attempt_outcome,
}
use falseroute.Gemini.Gate.{
  GateConfig, Gate, OpenAttempt, input_of, settle, clamp_tokens, UsageMetadata,
}

abbrev pub has_owner : String → Reservation → Bool
has_owner o r = str_eq r.owner_id o

abbrev pub counted : GateConfig → List Reservation → ℕ
counted cfg rows = count_event_reservations cfg.event_id daily_gemini_tokens rows

-- A write that keeps owners, and what is charged to the events.
pub record Keeps (w : Reservation → Bool) (f : Reservation → Reservation) : Type 0 where
  pub owner : (r : Reservation) → (f r).owner_id ≡ r.owner_id
  pub charge :
      (e : String) (c : Category) (r : Reservation)
      → w r ≡ true
      → counts_for_event e c (f r) ≡ counts_for_event e c r

module _ (w : Reservation → Bool) (f : Reservation → Reservation) (keeps : Keeps w f) where
  update-owner :
      (o : String) (rows : List Reservation)
      → any_where (has_owner o) (update_where w f rows) ≡ any_where (has_owner o) rows
  update-owner o [] = refl
  update-owner o (r ∷ rows) =
      ground (arith, update-owner o rows, ap (λ (x : String). str_eq x o) (keeps.owner r))

  update-counted :
      (e : String) (c : Category) (rows : List Reservation)
      → count_event_reservations e c (update_where w f rows) ≡ count_event_reservations e c rows
  unfolding count_event_reservations
  update-counted e c [] = refl
  update-counted e c (r ∷ rows) = ground (arith, update-counted e c rows, keeps.charge e c r)

status_is_counting : (s : Status) → status_eq s reserved ≡ true → is_counting s ≡ true
unfolding status_eq is_counting
status_is_counting reserved h = refl
status_is_counting s h = cc

pub record-Keeps :
    (p : SettleInput) (o : AttemptOutcome)
    → Keeps
        (λ r.
          has_key p.idempotency_key r
          && (str_eq r.owner_id p.owner_id
              && (status_eq r.status reserved && is_version p.expected_version r)))
        (record_row o)
unfolding counts_for_event
record-Keeps p o = record { owner = λ r. refl; charge = λ e c r h. refl }

consume-Keeps :
    (p : OpenAttempt) (version n now : ℕ)
    → Keeps (settle_where (input_of p) version) (consume_row n now)
unfolding counts_for_event is_counting
consume-Keeps p version n now = record {
  owner = λ r. refl;
  charge = λ e c r h. ground (arith, status_is_counting r.status);
}

abbrev pub Differs : String → String → Type 0
Differs owner o = str_eq owner o ≡ false

-- What a call does to the table: no charge is lost, and none of those owners appears.
pub record Grows (cfg : GateConfig) (other : String → Type 0) (rows rows' : List Reservation)
    : Type 0 where
  pub more : counted cfg rows ≤ counted cfg rows'
  pub absent :
      (o : String)
      → other o
      → any_where (has_owner o) rows ≡ false
      → any_where (has_owner o) rows' ≡ false

pub unchanged :
    (cfg : GateConfig) (other : String → Type 0) (rows : List Reservation)
    → Grows cfg other rows rows
unchanged cfg other rows = record { more = omega arith; absent = λ o allowed h. h }

pub updated :
    (cfg : GateConfig) (other : String → Type 0) (w : Reservation → Bool)
    (f : Reservation → Reservation) (rows : List Reservation)
    → Keeps w f
    → Grows cfg other rows (update_where w f rows)
updated cfg other w f rows keeps = record {
  more = omega (arith, update-counted w f keeps cfg.event_id daily_gemini_tokens rows);
  absent = λ o allowed h. update-owner w f keeps o rows ∙ h;
}

pub record-written :
    (p : SettleInput) (o : AttemptOutcome) (rows rows' : List Reservation)
    → record_gemini_attempt_outcome p o rows ≡ ok rows'
    → rows'
      ≡ update_where
          (λ r.
            has_key p.idempotency_key r
            && (str_eq r.owner_id p.owner_id
                && (status_eq r.status reserved && is_version p.expected_version r)))
          (record_row o)
          rows
unfolding record_gemini_attempt_outcome update_one
record-written p o rows rows' h = ground arith

consume-write_written :
    (p : SettleInput) (n version now : ℕ) (rows rows' : List Reservation) (s : Reservation)
    → consume_write p n version now rows ≡ ok (rows', s)
    → rows' ≡ update_where (settle_where p version) (consume_row n now) rows
unfolding consume_write update_one
consume-write_written p n version now rows rows' s h = ground arith

consume-Grows :
    (cfg : GateConfig) (other : String → Type 0) (p : OpenAttempt) (n : Numeric) (now : ℕ)
    (rows rows' : List Reservation) (s : Reservation)
    → consume_budget (input_of p) n now rows ≡ ok (rows', s)
    → Grows cfg other rows rows'
unfolding consume_budget
consume-Grows cfg other p n now rows rows' s h =
    on_ok (validate_numeric_non_negative n amount_consumed_name) _ h λ a valid h₁.
      on_ok (consume_read (input_of p) a rows) _ h₁ λ r read written.
        rw (consume-write_written (input_of p) a r.version now rows rows' s written) (
          updated cfg other (settle_where (input_of p) r.version) (consume_row a now) rows
            (consume-Keeps p r.version a now))

-- The table after a consumption that may fail.
consumed-Grows :
    (cfg : GateConfig) (other : String → Type 0) (p : OpenAttempt) (n : Numeric) (now : ℕ)
    (rows : List Reservation)
    → Grows cfg other rows
        (elim (consume_budget (input_of p) n now rows) as (λ r. List Reservation) [
          | err e ↦ rows
          | ok (rows', s) ↦ rows'
        ])
consumed-Grows cfg other p n now rows =
    elim (Result-cases (consume_budget (input_of p) n now rows)) [
      | inl (e, failed) ↦ rw failed (unchanged cfg other rows)
      | inr (a, done) ↦ rw done (consume-Grows cfg other p n now rows a.0 a.1 done)
    ]

pub settle-Grows :
    (cfg : GateConfig) (other : String → Type 0) (usage : Option UsageMetadata) (now : ℕ) (g : Gate)
    (rows : List Reservation)
    → Grows cfg other rows (settle usage now g rows).1
unfolding settle
settle-Grows cfg other usage now g rows = elim (Option-cases g.opened) [
  | inl closed ↦ rw (closed, settle) (unchanged cfg other rows)
  | inr (o, e) ↦
      rw (e, settle) (consumed-Grows cfg other o (clamp_tokens usage o.amount_reserved) now rows)
]
