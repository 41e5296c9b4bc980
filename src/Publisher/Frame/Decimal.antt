-- ===== src/Publisher/Frame/Decimal.antt =====
-- The decimal text of a number and its reading.
use warren.Prelude.{
  bytes_Eq, pos, ℕ, zero, suc, ◌+◌, ◌-◌, ◌*◌, ◌/◌, ◌%◌, ◌^◌, ◌<◌, ◌≡◌, refl, ap, ◌∙◌, ◌⊎◌, inl, inr,
  Bool, true, false, ◌&&◌, some, List, [], ◌∷◌, arith, ltb, leb, Bool-cases, nat_Eq, string_Eq,
  if_true,
}
use warren.Publisher.Frame.{
  digits, read_digits, decimal, parse_int, unsigned, as_int, within, is_blank,
}

digit_step :
    (n acc b : ℕ) (rest : List ℕ)
    → b < 10
    → n ≡ acc * 10 + b
    → read_digits acc ((48 + b) ∷ rest) ≡ read_digits n rest
unfolding read_digits
digit_step n acc b rest lt e =
    if_true (leb 48 (48 + b) && leb (48 + b) 57) _ _ (ground arith)
    ∙ ap (λ k. read_digits k rest) (omega arith)

-- Reading what was printed before `rest` goes on with the number that was printed.
read_digits-digits :
    (fuel n : ℕ) (rest : List ℕ)
    → n < fuel
    → read_digits 0 (digits fuel n rest) ≡ read_digits n rest
unfolding digits
read_digits-digits zero n rest lt = absurd (omega (arith, lt))
read_digits-digits (suc fuel) n rest lt = elim (Bool-cases (ltb n 10)) [
  | inl small ↦ rw small (digit_step n 0 n rest (ground arith) (omega arith))
  | inr large ↦ rw large (
      read_digits-digits fuel (n / 10) ((48 + n % 10) ∷ rest) (ground arith)
      ∙ digit_step n (n / 10) (n % 10) rest (omega arith) (omega arith))
]

-- A text that starts with a digit.
abbrev led : List ℕ → Bool
led [] = false
led (b ∷ s) = leb 48 b

led_not_blank : (s : List ℕ) → led s ≡ true → is_blank s ≡ false
led_not_blank [] h = absurd (ground arith)
led_not_blank (b ∷ s) h = refl

digits-led :
    (fuel n : ℕ) (rest : List ℕ) → (n < fuel) ⊎ (led rest ≡ true) → led (digits fuel n rest) ≡ true
unfolding digits
digits-led zero n rest h = ground arith
digits-led (suc fuel) n rest h = elim (Bool-cases (ltb n 10)) [
  | inl small ↦ rw small (ground arith)
  | inr large ↦ rw large (digits-led fuel (n / 10) ((48 + n % 10) ∷ rest) (inr (ground arith)))
]

parse_int-led :
    (s : List ℕ) → led s ≡ true → parse_int s ≡ as_int pos (within (2 ^ 63 - 1) (read_digits 0 s))
unfolding parse_int unsigned
parse_int-led [] h = absurd (ground arith)
parse_int-led (b ∷ s) h = ground arith

-- ParseInt reads back the text that Sprintf printed, for every number below 2 ^ 63.
pub parse_int-decimal : (n : ℕ) → n < 2 ^ 63 → parse_int (decimal (pos n)) ≡ some (pos n)
unfolding decimal read_digits
parse_int-decimal n lt =
    let s = digits (n + 1) n [] in
    parse_int-led s (digits-led (n + 1) n [] (inl (omega arith)))
    ∙ ap (λ o. as_int pos (within (2 ^ 63 - 1) o)) (read_digits-digits (n + 1) n [] (omega arith))
    ∙ ground arith

pub decimal_not_blank : (n : ℕ) → is_blank (decimal (pos n)) ≡ false
unfolding decimal
decimal_not_blank n =
    led_not_blank (digits (n + 1) n []) (digits-led (n + 1) n [] (inl (omega arith)))
