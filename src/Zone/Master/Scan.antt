-- ===== src/Zone/Master/Scan.antt =====
-- src/zone.rs: the text of a master file in lines and fields: `strip_zone_comment`,
-- `parenthesis_balance` and `tokenize_zone_line`.
use ironbind.Prelude.{
  ℕ, ◌+◌, Bool, true, false, not, ◌&&◌, ◌||◌, List, [], ◌∷◌, ◌++◌, ◌==◌, if◌then◌else◌, is_empty,
}
use ironbind.Prelude.Chars.{Chars, is_whitespace}

abbrev backslash : ℕ
backslash = 92

abbrev pub quote : ℕ
quote = 34

abbrev semicolon : ℕ
semicolon = 59

abbrev open_paren : ℕ
open_paren = 40

abbrev close_paren : ℕ
close_paren = 41

-- Where the three loops stand in the line.
pub record Quoting : Type 0 where
  pub inside_quotes : Bool
  pub escaped : Bool

abbrev pub outside : Quoting
outside = record { inside_quotes = false; escaped = false }

-- What a character does to the two flags, in all three.
unfoldable pub see : ℕ → Quoting → Quoting
see c q =
    if q.escaped
    then record q { escaped = false }
    else if c == backslash
    then record q { escaped = true }
    else if c == quote
    then record q { inside_quotes = not q.inside_quotes }
    else q

-- The character is neither escaped nor quoted.
abbrev is_plain : Quoting → Bool
is_plain q = not q.inside_quotes && not q.escaped

unfoldable pub strip_from : Quoting → Chars → Chars
unfolding see
strip_from q [] = []
strip_from q (c ∷ cs) =
    let rest = strip_from (see c q) cs in if c == semicolon && is_plain q then [] else c ∷ rest

unfoldable pub strip_zone_comment : Chars → Chars
unfolding strip_from
strip_zone_comment = strip_from outside

-- The opening and the closing parentheses, counted apart: the source subtracts them as signed
-- integers.
unfoldable pub balance_from : Quoting → Chars → ℕ × ℕ
unfolding see
balance_from q [] = (0, 0)
balance_from q (c ∷ cs) =
    let (opening, closing) = balance_from (see c q) cs in
    (
      if c == open_paren && is_plain q then opening + 1 else opening,
      if c == close_paren && is_plain q then closing + 1 else closing,
    )

unfoldable pub parenthesis_balance : Chars → ℕ × ℕ
unfolding balance_from
parenthesis_balance = balance_from outside

-- The character ends a field and is dropped.
abbrev pub is_separator : ℕ → Quoting → Bool
is_separator c q = is_plain q && (c == open_paren || c == close_paren || is_whitespace c)

-- The loop of `tokenize_zone_line`, from the field that is being read.
unfoldable pub tokens_from : Quoting → Chars → Chars → List Chars
unfolding see is_whitespace
tokens_from q current [] = if is_empty current then [] else current ∷ []
tokens_from q current (c ∷ cs) =
    let rest = tokens_from (see c q) (if is_separator c q then [] else current ++ (c ∷ [])) cs in
    if is_separator c q && not (is_empty current) then current ∷ rest else rest

unfoldable pub tokenize_zone_line : Chars → List Chars
unfolding tokens_from
tokenize_zone_line = tokens_from outside []
