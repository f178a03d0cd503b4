-- ===== src/Leases/Sweeps.antt =====
-- The lock of cleanup sweeps: `acquireCleanupSweepLock` and `completeCleanupSweepRecord` of
-- packages/database/src/repositories/lease-repository.ts. The owner token is unique in the table
-- `cleanup_sweep_records`. Of the JSON in `failures` the model keeps the list.
use falseroute.Prelude.{
  ℕ, ◌+◌, ◌≤◌, ◌≡◌, refl, String, Text, str_eq, Bool, false, not, ◌&&◌, Option, none, some, List,
  [], ◌∷◌, ◌++◌, Result, ok, err, ltb, if◌then◌else◌, find_first, find_first-none, any_where,
  count_where, count_where-append, update_where, get_or, arith, Option-cases, inl, inr,
}
use falseroute.Leases.Store.{LeaseError, sweep_token_taken, sweep_not_found}

pub record Sweep : Type 0 where
  pub id : String
  pub sweep_owner_token : String
  pub fencing_token : ℕ
  pub status : String
  pub cleaned_decoys : ℕ
  pub cleaned_routes : ℕ
  pub cleaned_quarantines : ℕ
  pub discovered_orphans : ℕ
  pub failures : Option (List Text)
  pub expires_at : ℕ
  pub completed_at : Option ℕ

pub data SweepAnswer : Type 0 where
  acquired : (sweep_id : String) → SweepAnswer
  held : (sweep_owner_token : String) → SweepAnswer

abbrev pub has_token : String → Sweep → Bool
has_token t r = str_eq r.sweep_owner_token t

unfoldable pub is_live_sweep : ℕ → Sweep → Bool
is_live_sweep now r = str_eq r.status "ACTIVE" && ltb now r.expires_at

abbrev pub new_sweep : (token : String) → (expires_at : ℕ) → (id : String) → Sweep
new_sweep token expires_at id = record {
  id = id;
  sweep_owner_token = token;
  fencing_token = 1;
  status = "ACTIVE";
  cleaned_decoys = 0;
  cleaned_routes = 0;
  cleaned_quarantines = 0;
  discovered_orphans = 0;
  failures = none;
  expires_at = expires_at;
  completed_at = none;
}

-- The clock is read at the call, for the expiry, and again under the advisory lock; `id` is the
-- database's.
unfoldable pub acquire_cleanup_sweep_lock :
    (token : String) (ttl_ms : Option ℕ) (started now : ℕ) (id : String)
    → List Sweep
    → Result LeaseError (List Sweep × SweepAnswer)
unfolding is_live_sweep
acquire_cleanup_sweep_lock token ttl_ms started now id rows =
    elim (find_first (λ r. is_live_sweep now r && not (has_token token r)) rows) [
      | some r ↦ ok (rows, held r.sweep_owner_token)
      | none ↦
          if any_where (has_token token) rows
          then err sweep_token_taken
          else ok (rows ++ new_sweep token (started + get_or ttl_ms 60000) id ∷ [], acquired id)
    ]

pub record SweepReport : Type 0 where
  pub sweep_owner_token : String
  pub cleaned_decoys : ℕ
  pub cleaned_routes : ℕ
  pub cleaned_quarantines : ℕ
  pub discovered_orphans : ℕ
  pub failures : Option (List Text)
  pub status : Option String

unfoldable pub report_status : SweepReport → String
report_status p = elim p.status [
  | some status ↦ status
  | none ↦ elim p.failures [ some (f ∷ failures) ↦ "PARTIAL_FAILURE" | _ ↦ "COMPLETED" ]
]

-- Absent failures leave the column as it is.
abbrev pub reported_sweep : SweepReport → (status : String) → ℕ → Sweep → Sweep
reported_sweep p status now r = record r {
  status = status;
  cleaned_decoys = p.cleaned_decoys;
  cleaned_routes = p.cleaned_routes;
  cleaned_quarantines = p.cleaned_quarantines;
  discovered_orphans = p.discovered_orphans;
  failures = elim p.failures [ some failures ↦ some failures | none ↦ r.failures ];
  completed_at = some now;
}

unfoldable pub complete_cleanup_sweep_record :
    SweepReport → ℕ → List Sweep → Result LeaseError (List Sweep)
unfolding report_status
complete_cleanup_sweep_record p now rows =
    if any_where (has_token p.sweep_owner_token) rows
    then ok
        (update_where (has_token p.sweep_owner_token) (reported_sweep p (report_status p) now) rows)
    else err sweep_not_found

-- The table after acquisitions and reports, none of which reports a sweep as active, and the time
-- of the last acquisition. The advisory lock puts acquisitions in an order, in which the clock does not go back.
pub data Sweeps : ℕ → List Sweep → Type 0 where
  no_sweeps : (t : ℕ) → Sweeps t []
  acquires :
      (token : String) (ttl_ms : Option ℕ) (started : ℕ) (id : String) {t now : ℕ}
      {rows rows' : List Sweep} {a : SweepAnswer}
      → Sweeps t rows
      → t ≤ now
      → acquire_cleanup_sweep_lock token ttl_ms started now id rows ≡ ok (rows', a)
      → Sweeps now rows'
  completes :
      (p : SweepReport) (now : ℕ) {t : ℕ} {rows rows' : List Sweep}
      → Sweeps t rows
      → str_eq (report_status p) "ACTIVE" ≡ false
      → complete_cleanup_sweep_record p now rows ≡ ok rows'
      → Sweeps t rows'

later-live :
    (t now : ℕ) (rows : List Sweep)
    → t ≤ now
    → count_where (is_live_sweep now) rows ≤ count_where (is_live_sweep t) rows
unfolding is_live_sweep
later-live t now [] h = omega arith
later-live t now (r ∷ rows) h = ground (arith, later-live t now rows h)

none_live :
    (token : String) (now : ℕ) (rows : List Sweep)
    → any_where (λ r. is_live_sweep now r && not (has_token token r)) rows ≡ false
    → any_where (has_token token) rows ≡ false
    → count_where (is_live_sweep now) rows ≡ 0
none_live token now [] h fresh = refl
none_live token now (r ∷ rows) h fresh = ground (arith, none_live token now rows)

reported-live :
    (p : SweepReport) (status : String) (written t : ℕ) (rows : List Sweep)
    → str_eq status "ACTIVE" ≡ false
    → count_where
        (is_live_sweep t)
        (update_where (has_token p.sweep_owner_token) (reported_sweep p status written) rows)
      ≤ count_where (is_live_sweep t) rows
unfolding is_live_sweep
reported-live p status written t [] h = omega arith
reported-live p status written t (r ∷ rows) h =
    ground (arith, reported-live p status written t rows h)

acquire-live :
    (token : String) (ttl_ms : Option ℕ) (started now : ℕ) (id : String) (rows rows' : List Sweep)
    (a : SweepAnswer)
    → acquire_cleanup_sweep_lock token ttl_ms started now id rows ≡ ok (rows', a)
    → count_where (is_live_sweep now) rows ≤ 1
    → count_where (is_live_sweep now) rows' ≤ 1
unfolding acquire_cleanup_sweep_lock
acquire-live token ttl_ms started now id rows rows' a e h =
    let others : Sweep → Bool = λ r. is_live_sweep now r && not (has_token token r) in
    let added = new_sweep token (started + get_or ttl_ms 60000) id in
    elim (Option-cases (find_first others rows)) [
      | inr (r, found) ↦ let kept : rows' ≡ rows = ground arith in rw kept h
      | inl free ↦
          let fresh : any_where (has_token token) rows ≡ false = ground arith in
          let written : rows' ≡ rows ++ added ∷ [] = ground arith in
          let quiet = none_live token now rows (find_first-none others rows free) fresh in
          rw written
            (ground (arith, count_where-append (is_live_sweep now) rows (added ∷ []), quiet))
    ]

-- In every table that acquisitions and reports leave behind, one sweep at most is active and not
-- expired, at the time of the last acquisition and at any later time. It is assumed that no report
-- writes the status `ACTIVE`, and that the clock does not go back between acquisitions.
pub one_sweep :
    {t : ℕ} {rows : List Sweep} (now : ℕ)
    → Sweeps t rows
    → t ≤ now
    → count_where (is_live_sweep now) rows ≤ 1
one_sweep now (no_sweeps t) h = omega arith
one_sweep later (acquires token ttl_ms started id {t} {now} {rows} {rows'} {a} before h e) h' =
    let at_acquisition =
      acquire-live token ttl_ms started now id rows rows' a e (one_sweep now before h) in
    omega (arith, at_acquisition, later-live now later rows' h')
one_sweep now (completes p written {t} {rows} {rows'} before open_status e) h =
    let w : rows'
        ≡ update_where (has_token p.sweep_owner_token) (reported_sweep p (report_status p) written)
            rows =
      unfold complete_cleanup_sweep_record in ground arith in
    rw w (
      omega (
        arith,
        reported-live p (report_status p) written now rows open_status,
        one_sweep now before h,
      ))
