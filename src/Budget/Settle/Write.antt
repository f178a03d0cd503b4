-- ===== src/Budget/Settle/Write.antt =====
-- The write of a settlement, as seen from the row that it is addressed to.
use falseroute.Prelude.{
  ℕ, ◌+◌, ◌≡◌, sym, subst, ◌∙◌, on_ok, some_inj, Text, Bool, true, false, ◌&&◌, some, List, ok, err,
  ◌>>=◌, arith, if◌then◌else◌, update_where, total,
}
use falseroute.Budget.Store.{Reservation, BudgetError, has_key, find_unique}
use falseroute.Budget.Store.Keys.{UniqueKeys, update-Updated, UniqueKeys-update}
use falseroute.Budget.Settle.{update_one, reread}

reread-ok :
    (k : Text) (rows rows' : List Reservation) (s : Reservation)
    → reread k rows ≡ ok (rows', s)
    → (find_unique k rows ≡ some s) × (rows' ≡ rows)
reread-ok k rows rows' s h = ground arith

module _ (k : Text) (g : Reservation → Bool) (f : Reservation → Reservation)
    (keeps : (r : Reservation) → (f r).idempotency_key ≡ r.idempotency_key) where
  -- What a successful write of the row `r` leaves.
  pub record Written (rows : List Reservation) (r : Reservation) (rows' : List Reservation)
      : Type 0 where
    pub passed : g r ≡ true
    pub changed : rows' ≡ update_where (λ x. has_key k x && g x) f rows
    pub unique : UniqueKeys rows'
    pub found : find_unique k rows' ≡ some (f r)
    pub weighed : (m : Reservation → ℕ) → total m rows' + m r ≡ total m rows + m (f r)

  update_one-fits :
      (e : BudgetError) (rows : List Reservation) (r : Reservation)
      → UniqueKeys rows
      → find_unique k rows ≡ some r
      → update_one (λ x. has_key k x && g x) f e rows
        ≡ (if g r then ok (update_where (λ x. has_key k x && g x) f rows) else err e)
  unfolding update_one
  update_one-fits e rows r u h = ground (arith, (update-Updated k g f keeps rows r u h).counted)

  pub update_one-Written :
      (e : BudgetError) (rows rows' : List Reservation) (r : Reservation)
      → UniqueKeys rows
      → find_unique k rows ≡ some r
      → update_one (λ x. has_key k x && g x) f e rows ≡ ok rows'
      → Written rows r rows'
  update_one-Written e rows rows' r u h w =
      let fits = update_one-fits e rows r u h in
      let all = update-Updated k g f keeps rows r u h in
      let passed : g r ≡ true = ground arith in
      let changed : rows' ≡ update_where (λ x. has_key k x && g x) f rows = ground arith in
      record {
        passed = passed;
        changed = changed;
        unique = rw changed (UniqueKeys-update k g f keeps rows u);
        found = rw changed (ground (arith, all.found));
        weighed = λ m. rw changed (all.weighed m passed);
      }

  pub write-Written :
      (e : BudgetError) (rows rows' : List Reservation) (r s : Reservation)
      → UniqueKeys rows
      → find_unique k rows ≡ some r
      → (update_one (λ x. has_key k x && g x) f e rows >>= reread k) ≡ ok (rows', s)
      → Written rows r rows' × (s ≡ f r)
  write-Written e rows rows' r s u h w =
      on_ok (update_one (λ x. has_key k x && g x) f e rows) (reread k) w λ mid first back.
        let (found, same) = reread-ok k mid rows' s back in
        let written = update_one-Written e rows mid r u h first in
        (subst (Written rows r) (sym same) written, some_inj (sym found ∙ written.found))

  -- A write whose test the row fails throws, and so leaves the table alone.
  pub write_refused :
      (e : BudgetError) (rows : List Reservation) (r : Reservation)
      → UniqueKeys rows
      → find_unique k rows ≡ some r
      → g r ≡ false
      → (update_one (λ x. has_key k x && g x) f e rows >>= reread k) ≡ err e
  write_refused e rows r u h n = ground (arith, update_one-fits e rows r u h)
