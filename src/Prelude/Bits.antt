-- ===== src/Prelude/Bits.antt =====
-- Laws of `&` and `|` at every width, from their lowest binary digits.
use Prim.Native.Nat.{
  ℕ, zero, suc, ◌+◌, ◌*◌, ◌/◌, ◌%◌, ◌^◌, ◌≤◌, ◌<◌, min, max, bit_and, bit_or, digits,
  bit_and-bitwise, bit_or-bitwise,
}
use mathlib.Core.Path.{◌≡◌, refl, ap}
use native.Mathlib.Omega.{arith}
use native.Mathlib.Nat.{pow-suc}

-- The recursion on digits that both operations stand for, at any fuel that is enough.
module _ (base : ℕ → ℕ) (op : ℕ → ℕ → ℕ)
    (base_step : (b : ℕ) → base b ≡ base (b / 2) * 2 + op 0 (b % 2)) where
  digits_fuel : (n m a b : ℕ) → a ≤ n → a ≤ m → digits base op n a b ≡ digits base op m a b
  digits_fuel zero zero zero b p q = refl
  digits_fuel zero zero (suc a) b p q = elim p [ ]
  digits_fuel zero (suc m) zero b p q = refl
  digits_fuel zero (suc m) (suc a) b p q = elim p [ ]
  digits_fuel (suc n) zero zero b p q = refl
  digits_fuel (suc n) zero (suc a) b p q = elim q [ ]
  digits_fuel (suc n) (suc m) zero b p q = refl
  digits_fuel (suc n) (suc m) (suc a) b p q =
      omega (arith, digits_fuel n m (suc a / 2) (b / 2) (omega arith) (omega arith))

  digits_step :
      (a b : ℕ)
      → digits base op a a b ≡ digits base op (a / 2) (a / 2) (b / 2) * 2 + op (a % 2) (b % 2)
  digits_step zero b = base_step b
  digits_step (suc a) b =
      omega (arith, digits_fuel a (suc a / 2) (suc a / 2) (b / 2) (omega arith) (omega arith))

pub bit_and_step : (a b : ℕ) → bit_and a b ≡ bit_and (a / 2) (b / 2) * 2 + min (a % 2) (b % 2)
bit_and_step a b = omega (
  arith,
  bit_and-bitwise a b,
  bit_and-bitwise (a / 2) (b / 2),
  digits_step (λ b. zero) min (λ b. omega arith) a b,
)

pub bit_or_step : (a b : ℕ) → bit_or a b ≡ bit_or (a / 2) (b / 2) * 2 + max (a % 2) (b % 2)
bit_or_step a b = omega (
  arith,
  bit_or-bitwise a b,
  bit_or-bitwise (a / 2) (b / 2),
  digits_step (λ b. b) max (λ b. omega arith) a b,
)

half-and : (a b : ℕ) → bit_and a b / 2 ≡ bit_and (a / 2) (b / 2)
half-and a b = omega (arith, bit_and_step a b)

half-or : (a b : ℕ) → bit_or a b / 2 ≡ bit_or (a / 2) (b / 2)
half-or a b = omega (arith, bit_or_step a b)

and_assoc_fuel :
    (n a b c : ℕ) → a ≤ n → b ≤ n → c ≤ n → bit_and (bit_and a b) c ≡ bit_and a (bit_and b c)
and_assoc_fuel zero zero zero zero p q r = refl
and_assoc_fuel zero zero zero (suc c) p q r = elim r [ ]
and_assoc_fuel zero zero (suc b) c p q r = elim q [ ]
and_assoc_fuel zero (suc a) b c p q r = elim p [ ]
and_assoc_fuel (suc n) a b c p q r = ground (
  arith,
  bit_and_step (bit_and a b) c,
  bit_and_step a (bit_and b c),
  bit_and_step a b,
  bit_and_step b c,
  half-and a b,
  half-and b c,
  and_assoc_fuel n (a / 2) (b / 2) (c / 2) (omega arith) (omega arith) (omega arith),
)

pub bit_and_assoc : (a b c : ℕ) → bit_and (bit_and a b) c ≡ bit_and a (bit_and b c)
bit_and_assoc a b c = and_assoc_fuel (a + b + c) a b c (omega arith) (omega arith) (omega arith)

and_or_fuel :
    (n a b c : ℕ)
    → a ≤ n
    → b ≤ n
    → c ≤ n
    → bit_and (bit_or a b) c ≡ bit_or (bit_and a c) (bit_and b c)
and_or_fuel zero zero zero zero p q r = refl
and_or_fuel zero zero zero (suc c) p q r = elim r [ ]
and_or_fuel zero zero (suc b) c p q r = elim q [ ]
and_or_fuel zero (suc a) b c p q r = elim p [ ]
and_or_fuel (suc n) a b c p q r = ground (
  arith,
  bit_and_step (bit_or a b) c,
  bit_or_step (bit_and a c) (bit_and b c),
  bit_or_step a b,
  bit_and_step a c,
  bit_and_step b c,
  half-or a b,
  half-and a c,
  half-and b c,
  and_or_fuel n (a / 2) (b / 2) (c / 2) (omega arith) (omega arith) (omega arith),
)

pub bit_and-or : (a b c : ℕ) → bit_and (bit_or a b) c ≡ bit_or (bit_and a c) (bit_and b c)
bit_and-or a b c = and_or_fuel (a + b + c) a b c (omega arith) (omega arith) (omega arith)

or_zero_fuel : (n a : ℕ) → a ≤ n → bit_or a 0 ≡ a
or_zero_fuel zero zero p = refl
or_zero_fuel zero (suc a) p = elim p [ ]
or_zero_fuel (suc n) a p = ground (arith, bit_or_step a 0, or_zero_fuel n (a / 2) (omega arith))

pub bit_or-zero : (a : ℕ) → bit_or a 0 ≡ a
bit_or-zero a = or_zero_fuel a a (omega arith)

zero_or_fuel : (n a : ℕ) → a ≤ n → bit_or 0 a ≡ a
zero_or_fuel zero zero p = refl
zero_or_fuel zero (suc a) p = elim p [ ]
zero_or_fuel (suc n) a p = ground (arith, bit_or_step 0 a, zero_or_fuel n (a / 2) (omega arith))

pub zero-bit_or : (a : ℕ) → bit_or 0 a ≡ a
zero-bit_or a = zero_or_fuel a a (omega arith)

and_zero_fuel : (n a : ℕ) → a ≤ n → bit_and a 0 ≡ 0
and_zero_fuel zero zero p = refl
and_zero_fuel zero (suc a) p = elim p [ ]
and_zero_fuel (suc n) a p = ground (arith, bit_and_step a 0, and_zero_fuel n (a / 2) (omega arith))

pub bit_and-zero : (a : ℕ) → bit_and a 0 ≡ 0
bit_and-zero a = and_zero_fuel a a (omega arith)

and_le_fuel : (n a b : ℕ) → b ≤ n → bit_and a b ≤ b
and_le_fuel zero a zero p = omega (arith, bit_and-zero a)
and_le_fuel zero a (suc b) p = elim p [ ]
and_le_fuel (suc n) a b p =
    omega (arith, bit_and_step a b, and_le_fuel n (a / 2) (b / 2) (omega arith))

-- A mask bounds what it lets through.
pub bit_and-le : (a b : ℕ) → bit_and a b ≤ b
bit_and-le a b = and_le_fuel b a b (omega arith)

-- `(q << k) | r` is a sum when `r` fits `k` bits.
pub bit_or_shifted : (k q r : ℕ) → r < 2 ^ k → bit_or (q * 2 ^ k) r ≡ q * 2 ^ k + r
bit_or_shifted zero q r h = ground (arith, bit_or-zero q)
bit_or_shifted (suc k) q r h =
    let double : q * 2 ^ suc k ≡ 2 * (q * 2 ^ k) =
      omega (arith, ap (λ (t : ℕ). q * t) (pow-suc 2 k)) in
    ground (
      arith,
      bit_or_step (q * 2 ^ suc k) r,
      double,
      pow-suc 2 k,
      bit_or_shifted k q (r / 2) (omega arith),
    )

-- The low masks that the program uses: `& 0xF`, `& 0x3F`.
bit_and_one : (a : ℕ) → bit_and a 1 ≡ a % 2
bit_and_one a = omega (arith, bit_and_step a 1, bit_and-zero (a / 2))

bit_and_three : (a : ℕ) → bit_and a 3 ≡ a % 4
bit_and_three a = omega (arith, bit_and_step a 3, bit_and_one (a / 2))

pub bit_and_nibble : (a : ℕ) → bit_and a 0xf ≡ a % 16
bit_and_nibble a =
    omega (arith, bit_and_step a 15, bit_and_step (a / 2) 7, bit_and_three (a / 2 / 2))

pub bit_and_six : (a : ℕ) → bit_and a 0x3f ≡ a % 64
bit_and_six a =
    omega (arith, bit_and_step a 63, bit_and_step (a / 2) 31, bit_and_nibble (a / 2 / 2))
