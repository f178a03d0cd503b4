-- ===== src/Budget/Settle/Fence.antt =====
-- Settlements that read the same version of a row.
use falseroute.Prelude.{ℕ, ◌+◌, ◌≡◌, refl, Text, false, some, List, Result, ok, err, arith, ◌==◌}
use falseroute.Budget.Store.{Reservation, BudgetError, fence_lost, find_unique}
use falseroute.Budget.Store.Keys.{UniqueKeys}
use falseroute.Budget.Settle.{
  SettleInput, consume_row, consume_write, release_row, release_write, reconcile_row,
  reconcile_write,
}
use falseroute.Budget.Settle.Write.{write-Written, write_refused}
use falseroute.Budget.Settle.Spend.{settle_test}

-- The write that ends a settlement, with the parameters of its call.
pub data SettleWrite : Type 0 where
  consumes : SettleInput → ℕ → SettleWrite
  releases : SettleInput → SettleWrite
  reconciles : Text → ℕ → SettleWrite

abbrev pub key_of : SettleWrite → Text
key_of (consumes p a) = p.idempotency_key
key_of (releases p) = p.idempotency_key
key_of (reconciles k a) = k

-- The write of a settlement that read the row at `version`.
unfoldable pub run_write :
    SettleWrite
    → (version now : ℕ) → List Reservation
    → Result BudgetError (List Reservation × Reservation)
run_write (consumes p a) v now rows = consume_write p a v now rows
run_write (releases p) v now rows = release_write p v now rows
run_write (reconciles k a) v now rows = reconcile_write k a v now rows

-- A write leaves a row of the next version.
abbrev Advanced :
    SettleWrite → List Reservation → Reservation → List Reservation → Reservation → Type 0
Advanced m rows r rows' s =
    UniqueKeys rows' × (find_unique (key_of m) rows' ≡ some s) × (s.version ≡ r.version + 1)

run_write-Advanced :
    (m : SettleWrite) (now : ℕ) (rows rows' : List Reservation) (r s : Reservation)
    → UniqueKeys rows
    → find_unique (key_of m) rows ≡ some r
    → run_write m r.version now rows ≡ ok (rows', s)
    → Advanced m rows r rows' s
unfolding run_write consume_write release_write reconcile_write
run_write-Advanced (consumes p a) now rows rows' r s u h w =
    let (v, e) =
      write-Written p.idempotency_key (settle_test p r.version) (consume_row a now) (λ _. refl)
        fence_lost rows rows' r s u h w in
    (v.unique, rw e v.found, rw e)
run_write-Advanced (releases p) now rows rows' r s u h w =
    let (v, e) =
      write-Written p.idempotency_key (settle_test p r.version) (release_row now) (λ _. refl)
        fence_lost rows rows' r s u h w in
    (v.unique, rw e v.found, rw e)
run_write-Advanced (reconciles k a) now rows rows' r s u h w =
    let (v, e) =
      write-Written k (λ x. x.version == r.version) (reconcile_row a now) (λ _. refl) fence_lost
        rows rows' r s u h w in
    (v.unique, rw e v.found, rw e)

-- A write that expects another version than the row has is refused.
run_write_stale :
    (m : SettleWrite) (version now : ℕ) (rows : List Reservation) (r : Reservation)
    → UniqueKeys rows
    → find_unique (key_of m) rows ≡ some r
    → (r.version == version) ≡ false
    → run_write m version now rows ≡ err fence_lost
unfolding run_write consume_write release_write reconcile_write
run_write_stale (consumes p a) v now rows r u h n =
    write_refused p.idempotency_key (settle_test p v) (consume_row a now) (λ _. refl) fence_lost
      rows r u h (ground arith)
run_write_stale (releases p) v now rows r u h n =
    write_refused p.idempotency_key (settle_test p v) (release_row now) (λ _. refl) fence_lost rows
      r u h (ground arith)
run_write_stale (reconciles k a) v now rows r u h n =
    write_refused k (λ x. x.version == v) (reconcile_row a now) (λ _. refl) fence_lost rows r u h n

-- On a table with unique keys, when two settlements of one key, consumptions, releases or reconciliations, have read the same
-- version of its row and the write of the one succeeds, the write of the other throws that its fence
-- is lost.
pub settle_once :
    (m m' : SettleWrite) (now now' : ℕ) (rows rows' : List Reservation) (r s : Reservation)
    → UniqueKeys rows
    → find_unique (key_of m) rows ≡ some r
    → key_of m' ≡ key_of m
    → run_write m r.version now rows ≡ ok (rows', s)
    → run_write m' r.version now' rows' ≡ err fence_lost
settle_once m m' now now' rows rows' r s u h k w =
    let (u', found, next) = run_write-Advanced m now rows rows' r s u h w in
    run_write_stale m' r.version now' rows' s u' (rw k found) (ground arith)
