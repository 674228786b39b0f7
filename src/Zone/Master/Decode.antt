-- ===== src/Zone/Master/Decode.antt =====
-- src/zone.rs: `hex_decode` and `base64_decode`.
use ironbind.Prelude.{
  ℕ, ◌+◌, ◌-◌, ◌*◌, ◌/◌, ◌%◌, ◌^◌, not, ◌&&◌, ◌||◌, Option, none, some, [], ◌∷◌, ◌++◌, Result, ok,
  err, leb, ◌==◌, if◌then◌else◌, length, filter, bit_or,
}
use ironbind.Prelude.Text.{Bytes, is_inner, starts_inside}
use ironbind.Prelude.Address.{hex_digit}
use ironbind.Prelude.Chars.{Chars, is_whitespace, as_bytes}

-- `build_rdata` gives `None`, or it panics.
pub data Refusal : Type 0 where
  refused panicked : Refusal

infixl 5 ◌>>=◌
abbrev pub ◌>>=◌ {ℓ κ} :
    {A : Type ℓ} {B : Type κ} → Result A Refusal → (A → Result B Refusal) → Result B Refusal
ok a >>= f = f a
err e >>= f = err e

-- `ok()?`, `?` on an Option.
abbrev pub try {ℓ} : {A : Type ℓ} → Option A → Result A Refusal
try none = err refused
try (some a) = ok a

abbrev pair_up : Option ℕ → Option ℕ → Option ℕ
pair_up (some a) (some b) = some (16 * a + b)
pair_up (some a) none = none
pair_up none b = none

-- `u8::from_str_radix(_, 16)` on two bytes: a plus sign may stand for the first digit.
unfoldable from_hex : ℕ → ℕ → Option ℕ
unfolding hex_digit
from_hex a b = if a == 43 then hex_digit b else pair_up (hex_digit a) (hex_digit b)

-- The slices of two bytes of a text of even length, in their order.
unfoldable hex_pairs : Bytes → Result Bytes Refusal
unfolding from_hex
hex_pairs [] = ok []
hex_pairs (a ∷ []) = ok []
hex_pairs (a ∷ b ∷ bs) =
    let rest = hex_pairs bs in
    let decoded : Result Bytes Refusal = (do v ← try (from_hex a b); vs ← rest; ok (v ∷ vs)) in
    if is_inner a || starts_inside bs then err panicked else decoded

unfoldable pub hex_decode : Chars → Result Bytes Refusal
unfolding hex_pairs
hex_decode s =
    let bytes = as_bytes (filter (λ c. not (c == 32)) s) in
    if length bytes % 2 == 0 then hex_pairs bytes else err refused

-- The closure `val`.
unfoldable pub base64_value : ℕ → Option ℕ
base64_value c =
    if leb 65 c && leb c 90
    then some (c - 65)
    else if leb 97 c && leb c 122
    then some (c - 97 + 26)
    else if leb 48 c && leb c 57
    then some (c - 48 + 52)
    else if c == 43
    then some 62
    else if c == 47
    then some 63
    else if c == 61
    then some 0
    else none

abbrev pub bits24 : ℕ → ℕ → ℕ → ℕ → ℕ
bits24 a b c d =
    bit_or (bit_or (bit_or (a * 2 ^ 18 % 2 ^ 32) (b * 2 ^ 12 % 2 ^ 32)) (c * 2 ^ 6 % 2 ^ 32)) d

-- The bytes of one chunk; a padding character stands for a byte that is missing.
abbrev chunk_bytes : ℕ → ℕ → ℕ → Bytes
chunk_bytes n third fourth =
    (n / 2 ^ 16 % 256 ∷ [])
    ++ ((if third == 61 then [] else n / 2 ^ 8 % 256 ∷ [])
        ++ (if fourth == 61 then [] else n % 256 ∷ []))

-- The loop over the chunks of a text whose length is a multiple of 4.
unfoldable pub base64_chunks : Bytes → Result Bytes Refusal
unfolding base64_value
base64_chunks (c0 ∷ c1 ∷ c2 ∷ c3 ∷ cs) = do
  a ← try (base64_value c0)
  b ← try (base64_value c1)
  c ← try (base64_value c2)
  d ← try (base64_value c3)
  more ← base64_chunks cs
  ok (chunk_bytes (bits24 a b c d) c2 c3 ++ more)
base64_chunks cs = ok []

unfoldable pub base64_decode : Chars → Result Bytes Refusal
unfolding base64_chunks
base64_decode s =
    let bytes = as_bytes (filter (λ c. not (is_whitespace c)) s) in
    if length bytes % 4 == 0 then base64_chunks bytes else err refused
