-- ===== src/Budget/Store/Keys.antt =====
-- Tables without two rows of one idempotency key, and updates of them that are addressed by a key.
use falseroute.Prelude.{
  ℕ, ◌+◌, ◌≡◌, refl, sym, inl, inr, ap, ◌∙◌, Text, text_eq, text_eq_iff, Bool, true, false, ◌&&◌,
  some, List, [], ◌∷◌, ◌++◌, arith, if◌then◌else◌, any_where, count_where, update_where, total,
  any_where-append, Bool-cases,
}
use falseroute.Budget.Store.{Reservation, has_key, find_unique}

abbrev pub UniqueKeys : List Reservation → Type 0
UniqueKeys [] = Unit
UniqueKeys (r ∷ rows) = (any_where (has_key r.idempotency_key) rows ≡ false) × UniqueKeys rows

-- The same rows have the same keys.
pub any_has_key-eq :
    (j k : Text) (rows : List Reservation)
    → j ≡ k
    → any_where (has_key j) rows ≡ any_where (has_key k) rows
any_has_key-eq j k rows e = rw e

pub UniqueKeys-append :
    (rows : List Reservation) (r : Reservation)
    → UniqueKeys rows
    → any_where (has_key r.idempotency_key) rows ≡ false
    → UniqueKeys (rows ++ r ∷ [])
UniqueKeys-append [] r u h = (refl, tt)
UniqueKeys-append (x ∷ rows) r u h = (
  ground (
    arith,
    any_where-append (has_key x.idempotency_key) rows (r ∷ []),
    text_eq_iff x.idempotency_key r.idempotency_key,
    text_eq_iff r.idempotency_key x.idempotency_key,
  ),
  UniqueKeys-append rows r u.1 (ground arith),
)

-- An update by a function `f` that keeps keys, of the rows with key `k` that pass the test `g`.
module _ (k : Text) (g : Reservation → Bool) (f : Reservation → Reservation)
    (keeps : (r : Reservation) → (f r).idempotency_key ≡ r.idempotency_key) where
  abbrev addressed : Reservation → Bool
  addressed r = has_key k r && g r

  has_key-update :
      (j : Text) (r : Reservation) → has_key j (if addressed r then f r else r) ≡ has_key j r
  has_key-update j r = ground (arith, ap (λ (i : Text). text_eq i j) (keeps r))

  any_has_key-update :
      (j : Text) (rows : List Reservation)
      → any_where (has_key j) (update_where addressed f rows) ≡ any_where (has_key j) rows
  any_has_key-update j [] = refl
  any_has_key-update j (r ∷ rows) = rw (has_key-update j r, any_has_key-update j rows)

  key-update :
      (r : Reservation) → (if addressed r then f r else r).idempotency_key ≡ r.idempotency_key
  key-update r = ground (arith, keeps r)

  pub UniqueKeys-update :
      (rows : List Reservation) → UniqueKeys rows → UniqueKeys (update_where addressed f rows)
  UniqueKeys-update [] u = tt
  UniqueKeys-update (r ∷ rows) u =
      (rw (key-update r, any_has_key-update r.idempotency_key rows) u.0, UniqueKeys-update rows u.1)

  absent-update :
      (rows : List Reservation)
      → any_where (has_key k) rows ≡ false
      → update_where addressed f rows ≡ rows
  absent-update [] h = refl
  absent-update (r ∷ rows) h = ground (arith, absent-update rows)

  absent-count :
      (rows : List Reservation)
      → any_where (has_key k) rows ≡ false
      → count_where addressed rows ≡ 0
  absent-count [] h = refl
  absent-count (r ∷ rows) h = ground (arith, absent-count rows)

  -- What the update does, as seen from the row with the key.
  pub record Updated (rows : List Reservation) (r : Reservation) : Type 0 where
    pub counted : count_where addressed rows ≡ (if g r then 1 else 0)
    pub found : find_unique k (update_where addressed f rows) ≡ some (if g r then f r else r)
    pub weighed :
        (m : Reservation → ℕ)
        → g r ≡ true
        → total m (update_where addressed f rows) + m r ≡ total m rows + m (f r)

  hit :
      (x : Reservation) (rows : List Reservation) (r : Reservation)
      → has_key k x ≡ true
      → any_where (has_key x.idempotency_key) rows ≡ false
      → find_unique k (x ∷ rows) ≡ some r
      → Updated (x ∷ rows) r
  hit x rows r e u h =
      let same : x ≡ r = ground arith in
      let gone : any_where (has_key k) rows ≡ false =
        sym (any_has_key-eq x.idempotency_key k rows ((text_eq_iff _ k).0 e)) ∙ u in
      let kept = absent-update rows gone in
      let one = has_key-update k x in
      record {
        counted = ground (arith, absent-count rows gone);
        found = ground arith;
        weighed = λ m yes_g. ground arith;
      }

  miss :
      (x : Reservation) (rows : List Reservation) (r : Reservation)
      → has_key k x ≡ false
      → Updated rows r
      → Updated (x ∷ rows) r
  miss x rows r e v = record {
    counted = rw e v.counted;
    found = rw (e, e) v.found;
    weighed = λ m q. rw e (omega (arith, v.weighed m q));
  }

  pub update-Updated :
      (rows : List Reservation) (r : Reservation)
      → UniqueKeys rows
      → find_unique k rows ≡ some r
      → Updated rows r
  update-Updated [] r u h = cc
  update-Updated (x ∷ rows) r u h = elim (Bool-cases (has_key k x)) [
    | inl e ↦ hit x rows r e u.0 h
    | inr e ↦ miss x rows r e (update-Updated rows r u.1 (ground arith))
  ]
