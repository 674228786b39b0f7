-- ===== src/Prelude/Chars.antt =====
-- Text as its characters, for what the program reads character by character: the parts of Rust's
-- `char` and `str` that the readers of files use.
use ironbind.Prelude.Tests.{ltb, leb, ◌==◌, if◌then◌else◌}
use ironbind.Prelude.Lists.{is_empty, concat}
use ironbind.Prelude.Text.{Bytes}
use Prim.Native.Nat.{ℕ, zero, suc, ◌+◌, ◌-◌, ◌*◌, ◌/◌, ◌%◌}
use mathlib.Core.Bool.{Bool, false, not, ◌&&◌, ◌||◌}
use mathlib.Core.Option.{Option, none, some}
use mathlib.Core.List.{List, [], ◌∷◌, ◌++◌, map}

abbrev pub Chars : Type 0
Chars = List ℕ

-- `char::is_whitespace`.
unfoldable pub is_whitespace : ℕ → Bool
is_whitespace c =
    leb 9 c && leb c 13
    || c == 32
    || c == 0x85
    || c == 0xa0
    || c == 0x1680
    || leb 0x2000 c && leb c 0x200a
    || c == 0x2028
    || c == 0x2029
    || c == 0x202f
    || c == 0x205f
    || c == 0x3000

-- `starts_with(char::is_whitespace)`.
abbrev pub starts_blank : Chars → Bool
starts_blank [] = false
starts_blank (c ∷ cs) = is_whitespace c

abbrev pub trim_start : Chars → Chars
trim_start [] = []
trim_start (c ∷ cs) = if is_whitespace c then trim_start cs else c ∷ cs

abbrev pub trim_end : Chars → Chars
trim_end [] = []
trim_end (c ∷ cs) =
    let rest = trim_end cs in if is_whitespace c && is_empty rest then [] else c ∷ rest

abbrev pub trim : Chars → Chars
trim s = trim_end (trim_start s)

-- `split(c)`.
abbrev pub cons_first : ℕ → List Chars → List Chars
cons_first x [] = (x ∷ []) ∷ []
cons_first x (w ∷ ws) = (x ∷ w) ∷ ws

unfoldable pub split : ℕ → Chars → List Chars
split sep [] = [] ∷ []
split sep (x ∷ xs) = let rest = split sep xs in if x == sep then [] ∷ rest else cons_first x rest

abbrev pub drop_return : Chars → Chars
drop_return [] = []
drop_return (c ∷ []) = if c == 13 then [] else c ∷ []
drop_return (c ∷ d ∷ cs) = c ∷ drop_return (d ∷ cs)

-- A line that ends in a line feed loses a carriage return before it; what follows the last line feed
-- is a line unless it is empty.
abbrev pub ended_lines : List Chars → List Chars
ended_lines [] = []
ended_lines (l ∷ []) = if is_empty l then [] else l ∷ []
ended_lines (l ∷ m ∷ ls) = drop_return l ∷ ended_lines (m ∷ ls)

-- `str::lines`.
unfoldable pub lines : Chars → List Chars
unfolding split
lines s = ended_lines (split 10 s)

-- `split_whitespace`, from the word that is being read.
abbrev words_from : Chars → Chars → List Chars
words_from word [] = if is_empty word then [] else word ∷ []
words_from word (c ∷ cs) =
    let rest = words_from (if is_whitespace c then [] else word ++ (c ∷ [])) cs in
    if is_whitespace c && not (is_empty word) then word ∷ rest else rest

unfoldable pub split_whitespace : Chars → List Chars
split_whitespace = words_from []

-- A character in UTF-8.
unfoldable pub encode_utf8 : ℕ → Bytes
encode_utf8 c =
    if ltb c 0x80
    then c ∷ []
    else if ltb c 0x800
    then (0xc0 + c / 64) ∷ (0x80 + c % 64) ∷ []
    else if ltb c 0x10000
    then (0xe0 + c / 4096) ∷ (0x80 + c / 64 % 64) ∷ (0x80 + c % 64) ∷ []
    else (0xf0 + c / 262144) ∷ (0x80 + c / 4096 % 64) ∷ (0x80 + c / 64 % 64) ∷ (0x80 + c % 64) ∷ []

-- `as_bytes`.
abbrev pub as_bytes : Chars → Bytes
as_bytes s = concat (map encode_utf8 s)

-- The continuation bytes that a first byte asks for, and its bits of the character.
abbrev utf8_first : ℕ → ℕ × ℕ
utf8_first b =
    if ltb b 0x80
    then (0, b)
    else if ltb b 0xe0
    then (1, b % 32)
    else if ltb b 0xf0
    then (2, b % 16)
    else (3, b % 8)

-- From the middle of a character: the bytes that are missing, and its bits so far.
unfoldable pub decode_from : ℕ → ℕ → Bytes → Chars
decode_from n bits [] = []
decode_from zero bits (b ∷ bs) =
    let (missing, first) = utf8_first b in
    let rest = decode_from missing first bs in if ltb b 0x80 then b ∷ rest else rest
decode_from (suc n) bits (b ∷ bs) =
    let all = bits * 64 + b % 64 in
    let rest = decode_from n all bs in if n == 0 then all ∷ rest else rest

-- The characters of UTF-8 bytes.
abbrev pub decode_utf8 : Bytes → Chars
decode_utf8 = decode_from 0 0

-- The upper case of a character, as far as it is ASCII: of the others only ß, ı, ſ and the ligatures
-- of U+FB00 have one; the rest stay, which differs from Rust in no test against ASCII text.
unfoldable pub upper : ℕ → Chars
upper c =
    if leb 97 c && leb c 122
    then (c - 32) ∷ []
    else if c == 0xdf
    then 83 ∷ 83 ∷ []
    else if c == 0x131
    then 73 ∷ []
    else if c == 0x17f
    then 83 ∷ []
    else if c == 0xfb00
    then 70 ∷ 70 ∷ []
    else if c == 0xfb01
    then 70 ∷ 73 ∷ []
    else if c == 0xfb02
    then 70 ∷ 76 ∷ []
    else if c == 0xfb03
    then 70 ∷ 70 ∷ 73 ∷ []
    else if c == 0xfb04
    then 70 ∷ 70 ∷ 76 ∷ []
    else if c == 0xfb05 || c == 0xfb06
    then 83 ∷ 84 ∷ []
    else c ∷ []

-- `str::to_uppercase`.
abbrev pub to_uppercase : Chars → Chars
to_uppercase s = concat (map upper s)

unfoldable pub decimal_digit : ℕ → Option ℕ
decimal_digit c = if leb 48 c && leb c 57 then some (c - 48) else none

-- `checked_mul(10)?.checked_add(digit)?` below a limit.
abbrev pub push_digit : ℕ → Option ℕ → Option ℕ → Option ℕ
push_digit limit none d = none
push_digit limit (some n) none = none
push_digit limit (some n) (some d) = if ltb (10 * n + d) limit then some (10 * n + d) else none

unfoldable pub parse_digits : ℕ → Option ℕ → Chars → Option ℕ
unfolding decimal_digit
parse_digits limit n [] = n
parse_digits limit n (c ∷ cs) = parse_digits limit (push_digit limit n (decimal_digit c)) cs

abbrev digits_or_none : ℕ → Chars → Option ℕ
digits_or_none limit [] = none
digits_or_none limit (c ∷ cs) = parse_digits limit (some 0) (c ∷ cs)

-- `parse` to an unsigned integer below `limit`; a plus sign may stand before the digits.
unfoldable pub parse_unsigned : ℕ → Chars → Option ℕ
unfolding parse_digits
parse_unsigned limit [] = none
parse_unsigned limit (c ∷ cs) =
    if c == 43 then digits_or_none limit cs else digits_or_none limit (c ∷ cs)
