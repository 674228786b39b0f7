-- ===== src/Config/Int64.antt =====
-- src/config.rs: the integers of the configuration, `i64`, and their casts.
use ironbind.Prelude.{
  ℕ, zero, suc, ◌+◌, ◌-◌, ◌%◌, ◌^◌, Option, none, some, [], ◌∷◌, ltb, ◌==◌, if◌then◌else◌,
}
use ironbind.Prelude.Chars.{Chars, parse_digits}

pub data ℤ : Type 0 where
  pos : ℕ → ℤ
  negsuc : ℕ → ℤ

abbrev negate : ℕ → ℤ
negate zero = pos 0
negate (suc n) = negsuc n

abbrev signed : (ℕ → ℤ) → Option ℕ → Option ℤ
signed f none = none
signed f (some n) = some (f n)

-- One digit or more, of a number below a limit.
abbrev digits : ℕ → Chars → Option ℕ
digits limit [] = none
digits limit (c ∷ cs) = parse_digits limit (some 0) (c ∷ cs)

-- `parse::<i64>()`
unfoldable pub parse_i64 : Chars → Option ℤ
parse_i64 [] = none
parse_i64 (c ∷ cs) =
    if c == 43
    then signed pos (digits (2 ^ 63) cs)
    else if c == 45
    then signed negate (digits (2 ^ 63 + 1) cs)
    else signed pos (digits (2 ^ 63) (c ∷ cs))

-- `as` to an unsigned integer of `w` bits.
unfoldable pub cast : ℕ → ℤ → ℕ
cast w (pos n) = n % 2 ^ w
cast w (negsuc n) = 2 ^ w - 1 - n % 2 ^ w

-- `max(m)`, for a bound that is not negative.
unfoldable pub max_pos : ℕ → ℤ → ℤ
max_pos m (pos n) = if ltb n m then pos m else pos n
max_pos m (negsuc n) = pos m
