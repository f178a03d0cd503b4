-- ===== src/Budget/Slot/Numbers.antt =====
-- The number of an attempt in its idempotency key, written and read again by
-- packages/database/src/repositories/budget-repository.ts.
use falseroute.Prelude.{
  ℕ, zero, suc, ◌+◌, ◌*◌, ◌/◌, ◌%◌, ◌<◌, ◌≡◌, refl, ap, ◌∙◌, Text, codes, starts_with, includes,
  decimal, decimal_fuel, Bool, true, false, some, [], ◌∷◌, ◌++◌, ltb, ◌==◌, All, arith, Bool-cases,
  inl, inr,
}
use mathlib.Core.List.{append_assoc}
use falseroute.Budget.Slot.{
  number, is_digit, digits_value, unsigned, is_space, parse_int, until_mark, drop, split_second,
  attempt_mark, attempt_prefix, attempt_key, attempt_number,
}

-- A text of digits, by recursion.
abbrev AllDigits : Text → Type 0
AllDigits = All (λ c. is_digit c ≡ true)

digit_is_digit : (n : ℕ) → is_digit (b'0' + n % 10) ≡ true
unfolding is_digit
digit_is_digit n = ground arith

decimal_fuel-AllDigits : (f n : ℕ) (acc : Text) → AllDigits acc → AllDigits (decimal_fuel f n acc)
unfolding decimal_fuel
decimal_fuel-AllDigits zero n acc h = h
decimal_fuel-AllDigits (suc f) n acc h = elim (Bool-cases (ltb n 10)) [
  | inl last ↦ rw last (digit_is_digit n, h)
  | inr more ↦
      rw more (decimal_fuel-AllDigits f (n / 10) ((b'0' + n % 10) ∷ acc) (digit_is_digit n, h))
]

digits_value-step :
    (k n : ℕ) (acc : Text)
    → digits_value k ((b'0' + n % 10) ∷ acc) ≡ digits_value (k * 10 + n % 10) acc
unfolding digits_value
digits_value-step k n acc = rw (digit_is_digit n) (ap (λ (m : ℕ). digits_value m acc) (omega arith))

-- The value of the digits of a number, before other digits.
digits_value-decimal :
    (f n : ℕ) (acc : Text) → n < f → digits_value 0 (decimal_fuel f n acc) ≡ digits_value n acc
unfolding decimal_fuel
digits_value-decimal zero n acc h = absurd (omega arith)
digits_value-decimal (suc f) n acc h = elim (Bool-cases (ltb n 10)) [
  | inl last ↦
      rw last (digits_value-step 0 n acc ∙ ap (λ (m : ℕ). digits_value m acc) (ground arith))
  | inr more ↦ rw more (
      digits_value-decimal f (n / 10) ((b'0' + n % 10) ∷ acc) (ground arith)
      ∙ digits_value-step (n / 10) n acc
      ∙ ap (λ (m : ℕ). digits_value m acc) (omega arith))
]

-- A text that begins with a digit.
abbrev begins_with_digit : Text → Bool
begins_with_digit [] = false
begins_with_digit (c ∷ s) = is_digit c

decimal_fuel_begins :
    (f n : ℕ) (acc : Text) → n < f → begins_with_digit (decimal_fuel f n acc) ≡ true
unfolding decimal_fuel
decimal_fuel_begins zero n acc h = absurd (omega arith)
decimal_fuel_begins (suc f) n acc h = elim (Bool-cases (ltb n 10)) [
  | inl last ↦ rw last (digit_is_digit n)
  | inr more ↦ rw more (decimal_fuel_begins f (n / 10) ((b'0' + n % 10) ∷ acc) (ground arith))
]

digit-is_space : (c : ℕ) → is_digit c ≡ true → is_space c ≡ false
unfolding is_digit is_space
digit-is_space c h = ground arith

parse_int-digits : (s : Text) → begins_with_digit s ≡ true → parse_int s ≡ number (digits_value 0 s)
unfolding parse_int unsigned is_digit
parse_int-digits [] h = cc
parse_int-digits (c ∷ s) h = ground (arith, digit-is_space c)

parse_int-decimal : (n : ℕ) → parse_int (decimal n) ≡ number n
unfolding decimal
parse_int-decimal n =
    parse_int-digits (decimal_fuel (suc n) n []) (decimal_fuel_begins (suc n) n [] (omega arith))
    ∙ ap number (digits_value-decimal (suc n) n [] (omega arith) ∙ (unfold digits_value in refl))

abbrev mark : Text
mark = codes "attempt-"

until_mark-digits : (s : Text) → AllDigits s → until_mark mark s ≡ s
unfolding until_mark is_digit starts_with
until_mark-digits [] h = refl
until_mark-digits (c ∷ s) h = ground (arith, until_mark-digits s h.1, h.0)

-- No mark begins before the colon and ends behind it.
abbrev HasNoColon : Text → Type 0
HasNoColon = All (λ c. (c == b':') ≡ false)

starts_with-colon :
    (m s rest : Text)
    → HasNoColon m
    → starts_with m (s ++ b':' ∷ rest) ≡ true
    → starts_with m s ≡ true
unfolding starts_with
starts_with-colon [] s rest c h = refl
starts_with-colon (a ∷ m) [] rest c h = ground (arith, c.0)
starts_with-colon (a ∷ m) (b ∷ s) rest c h = ground (arith, starts_with-colon m s rest c.1)

mark-HasNoColon : HasNoColon mark
mark-HasNoColon = (refl, (refl, (refl, (refl, (refl, (refl, (refl, (refl, tt))))))))

split_second-prefix :
    (s rest : Text)
    → includes mark s ≡ false
    → split_second mark (s ++ b':' ∷ rest) ≡ split_second mark (b':' ∷ rest)
unfolding split_second includes
split_second-prefix [] rest h = refl
split_second-prefix (c ∷ s) rest h =
    let misses : starts_with mark (c ∷ s ++ b':' ∷ rest) ≡ false =
      elim (Bool-cases (starts_with mark (c ∷ s ++ b':' ∷ rest))) [
        | inl hit ↦
            let earlier = starts_with-colon mark (c ∷ s) rest mark-HasNoColon hit in ground arith
        | inr miss ↦ miss
      ] in
    rw misses (split_second-prefix s rest (ground arith))

split_second-mark : (d : Text) → split_second mark (attempt_mark ++ d) ≡ some (until_mark mark d)
unfolding split_second starts_with drop
split_second-mark d = refl

-- The number of an attempt is read back from the key that is written for it, where the prefix of the key
-- does not itself include the mark `attempt-`.
pub attempt_number-attempt_key :
    (prefix : Text) (n : ℕ)
    → includes (codes "attempt-") prefix ≡ false
    → attempt_number (attempt_key prefix n) ≡ number n
unfolding attempt_number attempt_key attempt_prefix
attempt_number-attempt_key prefix n h =
    let split : split_second mark ((prefix ++ attempt_mark) ++ decimal n) ≡ some (decimal n) =
      ap (split_second mark) (append_assoc prefix attempt_mark (decimal n))
      ∙ split_second-prefix prefix (mark ++ decimal n) h
      ∙ split_second-mark (decimal n)
      ∙ ap some (
          until_mark-digits (decimal n)
            (unfold decimal in decimal_fuel-AllDigits (suc n) n [] tt)) in
    rw split (parse_int-decimal n)
