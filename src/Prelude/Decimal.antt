-- ===== src/Prelude/Decimal.antt =====
-- Decimal numbers: how `{}` writes a number and `parse` reads one.
use ironbind.Prelude.Tests.{ltb, ◌==◌, if◌then◌else◌, Bool-cases}
use Prim.Native.Nat.{ℕ, zero, suc, ◌+◌, ◌/◌, ◌%◌, ◌<◌}
use mathlib.Core.Path.{◌≡◌, refl, ◌∙◌}
use mathlib.Core.Logic.{inl, inr}
use mathlib.Core.Bool.{false}
use mathlib.Core.Option.{Option, some}
use mathlib.Core.List.{[], ◌∷◌, ◌++◌}
use native.Mathlib.Omega.{arith}
use ironbind.Prelude.Chars.{Chars, decimal_digit, push_digit, parse_digits, parse_unsigned}

-- The digits of a number that has at most `suc more` of them.
unfoldable pub decimal_from : ℕ → ℕ → Chars
decimal_from zero n = (48 + n % 10) ∷ []
decimal_from (suc more) n =
    let rest = decimal_from more (n / 10) in
    if ltb n 10 then (48 + n) ∷ [] else rest ++ ((48 + n % 10) ∷ [])

-- The number has at most `suc more` digits.
abbrev pub HasDigits : ℕ → ℕ → Type 0
HasDigits zero n = n < 10
HasDigits (suc more) n = HasDigits more (n / 10)

parse_digits-append :
    (limit c : ℕ) (n : Option ℕ) (s : Chars)
    → parse_digits limit n (s ++ (c ∷ []))
      ≡ push_digit limit (parse_digits limit n s) (decimal_digit c)
unfolding parse_digits
parse_digits-append limit c n [] = refl
parse_digits-append limit c n (d ∷ s) =
    parse_digits-append limit c (push_digit limit n (decimal_digit d)) s

decimal_digit_lem : (d : ℕ) → d < 10 → decimal_digit (48 + d) ≡ some d
unfolding decimal_digit
decimal_digit_lem d h = ground arith

push_digit_lem :
    (limit n : ℕ) → n < limit → push_digit limit (some (n / 10)) (some (n % 10)) ≡ some n
push_digit_lem limit n h = ground arith

push_zero : (limit d : ℕ) → d < limit → push_digit limit (some 0) (some d) ≡ some d
push_zero limit d h = ground arith

pub parse_digits-decimal_from :
    (more limit n : ℕ)
    → HasDigits more n
    → n < limit
    → parse_digits limit (some 0) (decimal_from more n) ≡ some n
unfolding decimal_from parse_digits
parse_digits-decimal_from zero limit n h k =
    let small : n % 10 ≡ n = omega arith in
    rw (small, decimal_digit_lem n h, push_zero limit n k) refl
parse_digits-decimal_from (suc more) limit n h k = elim (Bool-cases (ltb n 10)) [
  | inl one ↦ rw (one, decimal_digit_lem n (ground arith), push_zero limit n k) refl
  | inr several ↦
      let front : parse_digits limit (some 0) (decimal_from more (n / 10)) ≡ some (n / 10) =
        parse_digits-decimal_from more limit (n / 10) h (omega arith) in
      rw several (
        parse_digits-append limit (48 + n % 10) (some 0) (decimal_from more (n / 10))
        ∙ rw (front, decimal_digit_lem (n % 10) (omega arith)) (push_digit_lem limit n k))
]

-- The first character is a digit, so that no plus sign stands before it.
abbrev pub StartsDigit : Chars → Type 0
StartsDigit [] = ⊥
StartsDigit (c ∷ cs) = (48 < c + 1) × (c < 58)

pub decimal_from-StartsDigit : (more n : ℕ) → StartsDigit (decimal_from more n)
unfolding decimal_from
decimal_from-StartsDigit zero n = (omega arith, omega arith)
decimal_from-StartsDigit (suc more) n = elim (Bool-cases (ltb n 10)) [
  | inl one ↦ rw one (omega arith, ground arith)
  | inr several ↦ rw several (
      append-StartsDigit (decimal_from more (n / 10)) ((48 + n % 10) ∷ [])
        (decimal_from-StartsDigit more (n / 10)))
]
  where
    append-StartsDigit : (s t : Chars) → StartsDigit s → StartsDigit (s ++ t)
    append-StartsDigit [] t h = elim h [ ]
    append-StartsDigit (c ∷ cs) t h = h

pub parse_unsigned-digit :
    (limit : ℕ) (s : Chars) → StartsDigit s → parse_unsigned limit s ≡ parse_digits limit (some 0) s
unfolding parse_unsigned
parse_unsigned-digit limit [] h = elim h [ ]
parse_unsigned-digit limit (c ∷ cs) (h, k) =
    let other : (c == 43) ≡ false = ground arith in rw other refl

-- A number that has at most so many digits, and fits its type, is read back.
pub parse_unsigned-decimal_from :
    (limit more n : ℕ)
    → HasDigits more n
    → n < limit
    → parse_unsigned limit (decimal_from more n) ≡ some n
parse_unsigned-decimal_from limit more n h k =
    parse_unsigned-digit limit (decimal_from more n) (decimal_from-StartsDigit more n)
    ∙ parse_digits-decimal_from more limit n h k
