-- ===== src/Zone/Master/Decimal.antt =====
-- src/zone.rs: decimal numbers of a master file, as `parse` reads them.
use ironbind.Prelude.{
  ℕ, zero, suc, ◌+◌, ◌/◌, ◌%◌, ◌^◌, ◌<◌, ◌≡◌, refl, true, false, some, [], ◌∷◌, arith, ltb,
  Bool-cases, inl, inr, is_empty, All-append,
}
use ironbind.Prelude.Chars.{Chars, parse_unsigned}
use ironbind.Prelude.Decimal.{
  decimal_from, HasDigits, StartsDigit, decimal_from-StartsDigit, parse_unsigned-decimal_from,
}
use ironbind.Zone.Master.Words.{word_char, IsPlain, IsWord}

-- A number of at most ten digits.
abbrev pub decimal : ℕ → Chars
decimal = decimal_from 9

digit-word_char : (d : ℕ) → d < 10 → word_char (48 + d) ≡ true
digit-word_char d h = ground arith

decimal_from-IsPlain : (more n : ℕ) → IsPlain (decimal_from more n)
unfolding decimal_from
decimal_from-IsPlain zero n = (digit-word_char (n % 10) (omega arith), _)
decimal_from-IsPlain (suc more) n = elim (Bool-cases (ltb n 10)) [
  | inl one ↦ rw one (digit-word_char n (ground arith), _)
  | inr several ↦ rw several (
      All-append (λ c. word_char c ≡ true) (decimal_from more (n / 10)) ((48 + n % 10) ∷ [])
        (decimal_from-IsPlain more (n / 10)) (digit-word_char (n % 10) (omega arith), _))
]

digits_enough : (n : ℕ) → n < 2 ^ 32 → HasDigits 9 n
digits_enough n h = omega arith

pub parse_unsigned-decimal :
    (limit n : ℕ) → n < limit → n < 2 ^ 32 → parse_unsigned limit (decimal n) ≡ some n
parse_unsigned-decimal limit n h k = parse_unsigned-decimal_from limit 9 n (digits_enough n k) h

StartsDigit-nonempty : (s : Chars) → StartsDigit s → is_empty s ≡ false
StartsDigit-nonempty [] h = elim h [ ]
StartsDigit-nonempty (c ∷ cs) h = refl

pub decimal-IsWord : (n : ℕ) → IsWord (decimal n)
decimal-IsWord n =
    (StartsDigit-nonempty (decimal n) (decimal_from-StartsDigit 9 n), decimal_from-IsPlain 9 n)
