-- ===== src/Prelude/Searches.antt =====
-- Searches in a table where one row at most fits a test.
use Prim.Native.Nat.{◌≤◌}
use mathlib.Core.Path.{◌≡◌, refl, ap, ◌∙◌}
use mathlib.Core.Logic.{inl, inr}
use mathlib.Core.Bool.{Bool, true, false}
use mathlib.Core.Option.{some}
use mathlib.Core.List.{List, [], ◌∷◌}
use native.Mathlib.Omega.{arith}
use falseroute.Prelude.Tests.{Bool-cases}
use falseroute.Prelude.Lists.{find_first, any_where, count_where, update_where, update_where-none}

module _ {ℓ} {A : Type ℓ} where
  pub count-zero : (q : A → Bool) (xs : List A) → count_where q xs ≤ 0 → any_where q xs ≡ false
  count-zero q [] h = refl
  count-zero q (x ∷ xs) h = ground (arith, count-zero q xs)

  pub any-zero : (q : A → Bool) (xs : List A) → any_where q xs ≡ false → count_where q xs ≡ 0
  any-zero q [] h = refl
  any-zero q (x ∷ xs) h = ground (arith, any-zero q xs)

  pub found-any :
      (p q : A → Bool) (xs : List A) (a : A)
      → find_first p xs ≡ some a
      → q a ≡ true
      → any_where q xs ≡ true
  found-any p q [] a found h = cc
  found-any p q (x ∷ xs) a found h = elim (Bool-cases (p x)) [
    | inl hit ↦ let same : x ≡ a = ground arith in rw same (rw h)
    | inr miss ↦ let rest = found-any p q xs a (ground arith) h in ground arith
  ]

  first_misses :
      (p q : A → Bool) (x : A) (xs : List A) (a : A)
      → find_first p (x ∷ xs) ≡ some a
      → q a ≡ true
      → q x ≡ false
      → p x ≡ false
  first_misses p q x xs a found h miss = elim (Bool-cases (p x)) [
    | inl hit ↦ let same : x ≡ a = ground arith in let here : q x ≡ true = ap q same ∙ h in cc
    | inr e ↦ e
  ]

  -- Where one item at most fits a test, two searches that find such an item find the same.
  pub same_found :
      (p p' q : A → Bool) (xs : List A) (a b : A)
      → count_where q xs ≤ 1
      → find_first p xs ≡ some a
      → find_first p' xs ≡ some b
      → q a ≡ true
      → q b ≡ true
      → a ≡ b
  same_found p p' q [] a b one fa fb qa qb = cc
  same_found p p' q (x ∷ xs) a b one fa fb qa qb = elim (Bool-cases (q x)) [
    | inl hit ↦
        let none_left = count-zero q xs (ground arith) in
        elim (Bool-cases (p x)) [
          | inl px ↦ elim (Bool-cases (p' x)) [
            | inl px' ↦ ground arith
            | inr px' ↦ let rest = found-any p' q xs b (ground arith) qb in cc
          ]
          | inr px ↦ let rest = found-any p q xs a (ground arith) qa in cc
        ]
    | inr miss ↦
        let px : p x ≡ false = first_misses p q x xs a fa qa miss in
        let px' : p' x ≡ false = first_misses p' q x xs b fb qb miss in
        same_found p p' q xs a b (ground arith) (ground arith) (ground arith) qa qb
  ]

  pub count-update :
      (w q : A → Bool) (g : A → A) (xs : List A) (a : A)
      → find_first w xs ≡ some a
      → count_where w xs ≤ 1
      → q a ≡ true
      → count_where q (update_where w g xs) ≤ count_where q xs
  count-update w q g [] a found one h = cc
  count-update w q g (x ∷ xs) a found one h = elim (Bool-cases (w x)) [
    | inl hit ↦
        let same : x ≡ a = ground arith in
        let here : q x ≡ true = ap q same ∙ h in
        let kept = update_where-none w g xs (count-zero w xs (ground arith)) in
        rw hit (rw kept (ground arith))
    | inr miss ↦ let rest = count-update w q g xs a (ground arith) (ground arith) h in ground arith
  ]

  pub count-le :
      (w h : A → Bool) (xs : List A)
      → ((x : A) → w x ≡ true → h x ≡ true)
      → count_where w xs ≤ count_where h xs
  count-le w h [] f = omega arith
  count-le w h (x ∷ xs) f = ground (arith, count-le w h xs f, f x)

  -- An update that finds one row, within a test that one row at most fits.
  pub updated_found :
      (h w : A → Bool) (g : A → A) (xs : List A)
      → ((x : A) → w x ≡ true → h x ≡ true)
      → ((x : A) → h (g x) ≡ h x)
      → count_where h xs ≤ 1
      → count_where w xs ≡ 1
      → (x : A) × (find_first h xs ≡ some x)
        × (w x ≡ true)
        × (find_first h (update_where w g xs) ≡ some (g x))
  updated_found h w g [] f keep one found = absurd (omega arith)
  updated_found h w g (x ∷ xs) f keep one found = elim (Bool-cases (w x)) [
    | inl hit ↦
        let here = f x hit in let there = keep x ∙ here in (x, ground arith, hit, ground arith)
    | inr miss ↦
        let other : h x ≡ false = ground (arith, count-le w h xs f) in
        let (y, at, wy, after) = updated_found h w g xs f keep (ground arith) (ground arith) in
        (y, ground arith, wy, ground arith)
  ]

  -- An update of rows that do not fit a test.
  pub other_found :
      (h w : A → Bool) (g : A → A) (xs : List A)
      → ((x : A) → w x ≡ true → (h x ≡ false) × (h (g x) ≡ false))
      → find_first h (update_where w g xs) ≡ find_first h xs
  other_found h w g [] f = refl
  other_found h w g (x ∷ xs) f = ground (arith, other_found h w g xs f, f x)

  pub count-update_same :
      (h w : A → Bool) (g : A → A) (xs : List A)
      → ((x : A) → h (g x) ≡ h x)
      → count_where h (update_where w g xs) ≡ count_where h xs
  count-update_same h w g [] keep = refl
  count-update_same h w g (x ∷ xs) keep = ground (arith, count-update_same h w g xs keep, keep x)

  -- Where one row at most fits a test, an update that finds it is the update of what fits.
  pub update-same :
      (h w : A → Bool) (g : A → A) (xs : List A)
      → ((x : A) → w x ≡ true → h x ≡ true)
      → count_where h xs ≤ 1
      → count_where w xs ≡ 1
      → update_where w g xs ≡ update_where h g xs
  update-same h w g [] f one found = refl
  update-same h w g (x ∷ xs) f one found = elim (Bool-cases (w x)) [
    | inl hit ↦
        let here = f x hit in
        let no_h = count-zero h xs (ground arith) in
        let no_w = count-zero w xs (ground arith) in
        rw hit
          (rw here (rw (update_where-none h g xs no_h) (rw (update_where-none w g xs no_w) refl)))
    | inr miss ↦
        let other : h x ≡ false = ground (arith, count-le w h xs f) in
        rw miss (rw other (rw (update-same h w g xs f (ground arith) (ground arith)) refl))
  ]
