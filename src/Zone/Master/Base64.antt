-- ===== src/Zone/Master/Base64.antt =====
-- src/zone.rs: `base64_decode` on the base64 of RFC 4648.
use ironbind.Prelude.{
  ℕ, ◌+◌, ◌-◌, ◌*◌, ◌/◌, ◌%◌, ◌^◌, ◌<◌, ◌≡◌, refl, ap, ◌∙◌, true, false, some, [], ◌∷◌, ok, arith,
  ltb, ◌==◌, if◌then◌else◌, length, All, bit_or,
}
use ironbind.Prelude.Text.{Bytes}
use ironbind.Prelude.Bits.{bit_or_shifted}
use ironbind.Prelude.Chars.{Chars}
use ironbind.Zone.Master.Words.{word_char, IsPlain, IsPlain-as_bytes, filter-IsPlain}
use ironbind.Zone.Master.Decode.{base64_value, bits24, base64_chunks, base64_decode}

unfoldable pub base64_char : ℕ → ℕ
base64_char n =
    if ltb n 26
    then 65 + n
    else if ltb n 52
    then 71 + n
    else if ltb n 62
    then n - 4
    else if n == 62
    then 43
    else 47

abbrev pad : ℕ
pad = 61

-- The encoding of RFC 4648, section 4.
unfoldable pub base64_encode : Bytes → Chars
base64_encode [] = []
base64_encode (x ∷ []) = base64_char (x / 4) ∷ base64_char (x % 4 * 16) ∷ pad ∷ pad ∷ []
base64_encode (x ∷ y ∷ []) =
    base64_char (x / 4) ∷ base64_char (x % 4 * 16 + y / 16) ∷ base64_char (y % 16 * 4) ∷ pad ∷ []
base64_encode (x ∷ y ∷ z ∷ rest) =
    base64_char (x / 4)
    ∷ base64_char (x % 4 * 16 + y / 16)
    ∷ base64_char (y % 16 * 4 + z / 64)
    ∷ base64_char (z % 64)
    ∷ base64_encode rest

base64_value-base64_char : (n : ℕ) → n < 64 → base64_value (base64_char n) ≡ some n
unfolding base64_value base64_char
base64_value-base64_char n h = ground arith

base64_char-ne-pad : (n : ℕ) → n < 64 → (base64_char n == pad) ≡ false
unfolding base64_char
base64_char-ne-pad n h = ground arith

bits24_sum :
    (a b c d : ℕ)
    → a < 64
    → b < 64
    → c < 64
    → d < 64
    → bits24 a b c d ≡ a * 2 ^ 18 + b * 2 ^ 12 + c * 2 ^ 6 + d
bits24_sum a b c d ha hb hc hd =
    let first : bit_or (a * 2 ^ 18 % 2 ^ 32) (b * 2 ^ 12 % 2 ^ 32) ≡ (a * 64 + b) * 2 ^ 12 =
      let fits : (a * 2 ^ 18 % 2 ^ 32 ≡ a * 2 ^ 18) × (b * 2 ^ 12 % 2 ^ 32 ≡ b * 2 ^ 12) =
        (omega arith, omega arith) in
      rw (fits.0, fits.1) (bit_or_shifted 18 a (b * 2 ^ 12) (omega arith) ∙ omega arith) in
    let second : bit_or ((a * 64 + b) * 2 ^ 12) (c * 2 ^ 6 % 2 ^ 32)
        ≡ ((a * 64 + b) * 64 + c) * 2 ^ 6 =
      let fits : c * 2 ^ 6 % 2 ^ 32 ≡ c * 2 ^ 6 = omega arith in
      rw fits (bit_or_shifted 12 (a * 64 + b) (c * 2 ^ 6) (omega arith) ∙ omega arith) in
    ap (λ v. bit_or (bit_or v (c * 2 ^ 6 % 2 ^ 32)) d) first
    ∙ ap (λ v. bit_or v d) second
    ∙ bit_or_shifted 6 ((a * 64 + b) * 64 + c) d (omega arith)
    ∙ omega arith

-- Four characters of values below 64 are one chunk.
chunk_lem :
    (a b c d : ℕ) (cs more : Bytes)
    → a < 64
    → b < 64
    → c < 64
    → d < 64
    → base64_chunks cs ≡ ok more
    → base64_chunks (base64_char a ∷ base64_char b ∷ base64_char c ∷ base64_char d ∷ cs)
      ≡ ok ((a * 4 + b / 16) ∷ (b % 16 * 16 + c / 4) ∷ (c % 4 * 64 + d) ∷ more)
unfolding base64_chunks
chunk_lem a b c d cs more ha hb hc hd h =
    rw
      (
        base64_value-base64_char a ha,
        base64_value-base64_char b hb,
        base64_value-base64_char c hc,
        base64_value-base64_char d hd,
        h,
        base64_char-ne-pad c hc,
        base64_char-ne-pad d hd,
        bits24_sum a b c d ha hb hc hd,
      )
      (ground arith)

last_one :
    (a b : ℕ)
    → a < 64
    → b < 64
    → base64_chunks (base64_char a ∷ base64_char b ∷ pad ∷ pad ∷ []) ≡ ok ((a * 4 + b / 16) ∷ [])
unfolding base64_chunks
last_one a b ha hb =
    rw
      (
        base64_value-base64_char a ha,
        base64_value-base64_char b hb,
        bits24_sum a b 0 0 ha hb (omega arith) (omega arith),
      )
      (ground arith)

last_two :
    (a b c : ℕ)
    → a < 64
    → b < 64
    → c < 64
    → base64_chunks (base64_char a ∷ base64_char b ∷ base64_char c ∷ pad ∷ [])
      ≡ ok ((a * 4 + b / 16) ∷ (b % 16 * 16 + c / 4) ∷ [])
unfolding base64_chunks
last_two a b c ha hb hc =
    rw
      (
        base64_value-base64_char a ha,
        base64_value-base64_char b hb,
        base64_value-base64_char c hc,
        base64_char-ne-pad c hc,
        bits24_sum a b c 0 ha hb hc (omega arith),
      )
      (ground arith)

base64_chunks-base64_encode :
    (s : Bytes) → All (λ x. x < 256) s → base64_chunks (base64_encode s) ≡ ok s
unfolding base64_encode base64_chunks
base64_chunks-base64_encode [] h = refl
base64_chunks-base64_encode (x ∷ []) h =
    last_one (x / 4) (x % 4 * 16) (omega arith) (omega arith) ∙ ground arith
base64_chunks-base64_encode (x ∷ y ∷ []) h =
    last_two (x / 4) (x % 4 * 16 + y / 16) (y % 16 * 4) (omega arith) (omega arith) (omega arith)
    ∙ ground arith
base64_chunks-base64_encode (x ∷ y ∷ z ∷ rest) h =
    chunk_lem (x / 4) (x % 4 * 16 + y / 16) (y % 16 * 4 + z / 64) (z % 64) (base64_encode rest) rest
      (omega arith) (omega arith) (omega arith) (omega arith)
      (base64_chunks-base64_encode rest h.1.1.1)
    ∙ ground arith

base64_char-word_char : (n : ℕ) → n < 64 → word_char (base64_char n) ≡ true
unfolding base64_char
base64_char-word_char n h = ground arith

pub base64_encode-IsPlain : (s : Bytes) → All (λ x. x < 256) s → IsPlain (base64_encode s)
unfolding base64_encode
base64_encode-IsPlain [] h = _
base64_encode-IsPlain (x ∷ []) h = (
  base64_char-word_char (x / 4) (omega arith),
  (base64_char-word_char (x % 4 * 16) (omega arith), (refl, (refl, _))),
)
base64_encode-IsPlain (x ∷ y ∷ []) h = (
  base64_char-word_char (x / 4) (omega arith),
  (
    base64_char-word_char (x % 4 * 16 + y / 16) (omega arith),
    (base64_char-word_char (y % 16 * 4) (omega arith), (refl, _)),
  ),
)
base64_encode-IsPlain (x ∷ y ∷ z ∷ rest) h = (
  base64_char-word_char (x / 4) (omega arith),
  (
    base64_char-word_char (x % 4 * 16 + y / 16) (omega arith),
    (
      base64_char-word_char (y % 16 * 4 + z / 64) (omega arith),
      (base64_char-word_char (z % 64) (omega arith), base64_encode-IsPlain rest h.1.1.1),
    ),
  ),
)

length-base64_encode : (s : Bytes) → length (base64_encode s) % 4 ≡ 0
unfolding base64_encode
length-base64_encode [] = refl
length-base64_encode (x ∷ []) = refl
length-base64_encode (x ∷ y ∷ []) = refl
length-base64_encode (x ∷ y ∷ z ∷ rest) = omega (arith, length-base64_encode rest)

pub base64_decode-base64_encode :
    (s : Bytes) → All (λ x. x < 256) s → base64_decode (base64_encode s) ≡ ok s
unfolding base64_decode
base64_decode-base64_encode s h =
    let plain = base64_encode-IsPlain s h in
    rw
      (
        filter-IsPlain (base64_encode s) plain,
        IsPlain-as_bytes (base64_encode s) plain,
        length-base64_encode s,
      )
      (base64_chunks-base64_encode s h)
