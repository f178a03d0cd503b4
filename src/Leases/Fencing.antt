-- ===== src/Leases/Fencing.antt =====
-- Fencing tokens along the life of one table of leases, for the writes of
-- packages/database/src/repositories/lease-repository.ts and
-- packages/database/src/repositories/emergency-release-repository.ts.
use falseroute.Prelude.{
  ℕ, ◌≤◌, ◌<◌, ◌≡◌, refl, String, str_eq, Bool, true, false, List, [], ◌∷◌, ok, err, arith, ◌∙◌,
  ◌>>=◌, on_ok, str_eq_iff, All, All-append, any_where, any_where-append, count_where, update_where,
  find_first, Bool-cases, Option-cases, sym, inl, inr,
}
use falseroute.Leases.Store.{LeaseKind, LeaseStatus, Lease, LeaseError, has_lease_id, update_lease}
use falseroute.Leases.Cleanup.{
  create_or_find, has_ownership_key, is_claimable, claim_table, Fence, holds_fence, FailureInput,
  check_failure, write_failure, record_lease_cleanup_failure, failure_where,
}

module _ {D : Type 0} where
  -- The token of a settlement is older than those of all rows of its lease.
  abbrev pub Overtaken : Fence → List (Lease D) → Type 0
  Overtaken f = All (λ l. has_lease_id f.lease_id l ≡ true → f.fencing_token < l.fencing_token)

  -- Every row of the lease is claimed at that time, and none has an older token than the settlement.
  abbrev pub IsTaken : LeaseKind → ℕ → Fence → List (Lease D) → Type 0
  IsTaken kind as_of f = All (λ l.
      has_lease_id f.lease_id l ≡ true
      → (is_claimable kind as_of l ≡ true) × (f.fencing_token ≤ l.fencing_token))

  -- A write that keeps the identifiers of rows and lowers no token.
  pub record Advances (g : Lease D → Lease D) : Type 0 where
    pub same_id : (l : Lease D) → (g l).id ≡ l.id
    pub not_less : (l : Lease D) → l.fencing_token ≤ (g l).fencing_token

  update-Overtaken :
      (f : Fence) (w : Lease D → Bool) (g : Lease D → Lease D) (rows : List (Lease D))
      → Advances g
      → Overtaken f rows
      → Overtaken f (update_where w g rows)
  update-Overtaken f w g [] a o = tt
  update-Overtaken f w g (l ∷ rows) a o = elim (Bool-cases (w l)) [
    | inl hit ↦ rw hit (
      λ e. omega (arith, a.not_less l, o.0 (rw (sym (a.same_id l)) e)),
      update-Overtaken f w g rows a o.1,
    )
    | inr miss ↦ rw miss (o.0, update-Overtaken f w g rows a o.1)
  ]

  create-Overtaken :
      (f : Fence) (l : Lease D) (rows : List (Lease D))
      → str_eq l.id f.lease_id ≡ false
      → Overtaken f rows
      → Overtaken f (create_or_find l rows).0
  unfolding create_or_find
  create-Overtaken f l rows other o =
      elim (Option-cases (find_first (has_ownership_key l.ownership_key) rows)) [
        | inl fresh ↦ rw (fresh, create_or_find) (All-append _ rows (l ∷ []) o (λ e. cc, tt))
        | inr (found, e) ↦ rw (e, create_or_find) o
      ]

  -- A settlement whose token is overtaken finds no row.
  pub Overtaken-count :
      (f : Fence) (statuses : List LeaseStatus) (rows : List (Lease D))
      → Overtaken f rows
      → count_where (holds_fence f statuses) rows ≡ 0
  unfolding holds_fence
  Overtaken-count f statuses [] o = refl
  Overtaken-count f statuses (l ∷ rows) o = ground (arith, Overtaken-count f statuses rows o.1, o.0)

  pub claim-Overtaken :
      (kind : LeaseKind) (sweep : String) (as_of : ℕ) (f : Fence) (rows : List (Lease D))
      → IsTaken kind as_of f rows
      → Overtaken f (claim_table kind sweep as_of rows).0
  unfolding claim_table
  claim-Overtaken kind sweep as_of f [] h = tt
  claim-Overtaken kind sweep as_of f (l ∷ rows) h = elim (Bool-cases (is_claimable kind as_of l)) [
    | inl hit ↦ rw hit (λ e. omega (arith, (h.0 e).1), claim-Overtaken kind sweep as_of f rows h.1)
    | inr miss ↦
        rw miss (λ e. let hit = (h.0 e).0 in cc, claim-Overtaken kind sweep as_of f rows h.1)
  ]

  update_lease-Overtaken :
      (f : Fence) (w : Lease D → Bool) (g : Lease D → Lease D) (e : LeaseError)
      (rows rows' : List (Lease D))
      → Advances g
      → update_lease w g e rows ≡ ok rows'
      → Overtaken f rows
      → Overtaken f rows'
  unfolding update_lease
  update_lease-Overtaken f w g e rows rows' a h o =
      let same : rows' ≡ update_where w g rows = ground arith in
      rw same (update-Overtaken f w g rows a o)

  pub update_lease-lost :
      (w : Lease D → Bool) (g : Lease D → Lease D) (e : LeaseError) (rows : List (Lease D))
      → count_where w rows ≡ 0
      → update_lease w g e rows ≡ err e
  unfolding update_lease
  update_lease-lost w g e rows h = rw h refl

  -- What an operation does to a table: nothing, a write, or a new row.
  pub data TableStep : List (Lease D) → List (Lease D) → Type 0 where
    same : (rows : List (Lease D)) → TableStep rows rows
    writes :
        (w : Lease D → Bool) (g : Lease D → Lease D) (rows : List (Lease D))
        → Advances g
        → TableStep rows (update_where w g rows)
    creates :
        (l : Lease D) (rows : List (Lease D))
        → any_where (has_lease_id l.id) rows ≡ false
        → TableStep rows (create_or_find l rows).0

  -- The lease stands in the table, and the token of the settlement is overtaken.
  pub record IsFenced (f : Fence) (rows : List (Lease D)) : Type 0 where
    pub present : any_where (has_lease_id f.lease_id) rows ≡ true
    pub overtaken : Overtaken f rows

  pub update-present :
      (i : String) (w : Lease D → Bool) (g : Lease D → Lease D) (rows : List (Lease D))
      → Advances g
      → any_where (has_lease_id i) (update_where w g rows) ≡ any_where (has_lease_id i) rows
  update-present i w g [] a = refl
  update-present i w g (l ∷ rows) a = elim (Bool-cases (w l)) [
    | inl hit ↦ rw (hit, a.same_id l, update-present i w g rows a) refl
    | inr miss ↦ rw (miss, update-present i w g rows a) refl
  ]

  other_id :
      (l : Lease D) (i : String) (rows : List (Lease D))
      → any_where (has_lease_id l.id) rows ≡ false
      → any_where (has_lease_id i) rows ≡ true
      → str_eq l.id i ≡ false
  other_id l i rows fresh present = elim (Bool-cases (str_eq l.id i)) [
    | inl e ↦ let e : l.id ≡ i = (str_eq_iff l.id i).0 e in cc
    | inr e ↦ e
  ]

  create-present :
      (i : String) (l : Lease D) (rows : List (Lease D))
      → any_where (has_lease_id i) rows ≡ true
      → any_where (has_lease_id i) (create_or_find l rows).0 ≡ true
  unfolding create_or_find
  create-present i l rows present =
      elim (Option-cases (find_first (has_ownership_key l.ownership_key) rows)) [
        | inl fresh ↦
            rw (fresh, create_or_find)
              (rw (any_where-append (has_lease_id i) rows (l ∷ [])) (rw present))
        | inr (found, e) ↦ rw (e, create_or_find) present
      ]

  pub TableStep-IsFenced :
      (f : Fence) {rows rows' : List (Lease D)}
      → TableStep rows rows'
      → IsFenced f rows
      → IsFenced f rows'
  TableStep-IsFenced f (same rows) h = h
  TableStep-IsFenced f (writes w g rows a) h = record {
    present = update-present f.lease_id w g rows a ∙ h.present;
    overtaken = update-Overtaken f w g rows a h.overtaken;
  }
  TableStep-IsFenced f (creates l rows fresh) h = record {
    present = create-present f.lease_id l rows h.present;
    overtaken = create-Overtaken f l rows (other_id l f.lease_id rows fresh h.present) h.overtaken;
  }

  pub update_lease-TableStep :
      (w : Lease D → Bool) (g : Lease D → Lease D) (e : LeaseError) (rows rows' : List (Lease D))
      → Advances g
      → update_lease w g e rows ≡ ok rows'
      → TableStep rows rows'
  unfolding update_lease
  update_lease-TableStep w g e rows rows' a h =
      let written : rows' ≡ update_where w g rows = ground arith in rw written (writes w g rows a)

  pub record_lease_cleanup_failure-TableStep :
      (kind : LeaseKind) (p : FailureInput) (rows rows' : List (Lease D))
      → record_lease_cleanup_failure kind p rows ≡ ok rows'
      → TableStep rows rows'
  unfolding record_lease_cleanup_failure write_failure
  record_lease_cleanup_failure-TableStep kind p rows rows' h =
      elim (Option-cases (find_first (has_lease_id p.lease_id) rows)) [
        | inl e ↦ let kept : rows ≡ rows' = ground arith in rw kept (same rows')
        | inr (l, e) ↦
            let run : (check_failure p l >>= λ read. write_failure kind p read rows) ≡ ok rows' =
              ground arith in
            on_ok (check_failure p l) _ run λ read checked written.
              update_lease-TableStep (failure_where p read.version) _ _ rows rows'
                (record { same_id = λ x. refl; not_less = λ x. omega arith }) written
      ]
