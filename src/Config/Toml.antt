-- ===== src/Config/Toml.antt =====
-- src/config.rs: `Toml`, a reader of a part of TOML.
use ironbind.Prelude.{
  ℕ, Bool, true, false, not, ◌&&◌, Option, none, some, List, [], ◌∷◌, map, filter, ◌==◌,
  if◌then◌else◌, is_empty,
}
use mathlib.Core.Option
use ironbind.Prelude.Text.{codes, bytes_eq}
use ironbind.Prelude.Chars.{Chars, trim, lines, split}
use ironbind.Prelude.Assoc.{Assoc, bytes_key, lookup, insert}
use ironbind.Config.Int64.{ℤ, parse_i64}

pub data TomlVal : Type 0 where
  str : Chars → TomlVal
  int : ℤ → TomlVal
  bool : Bool → TomlVal
  array : List Chars → TomlVal

abbrev Section : Type 0
Section = Assoc Chars TomlVal

pub record Toml : Type 0 where
  pub global : Section
  pub sections : Assoc Chars Section

-- What a reader of a value gives, a panic included.
pub data Read {ℓ} (A : Type ℓ) : Type ℓ where
  value : A → Read A
  nothing panic : Read A

abbrev quote_mark : ℕ
quote_mark = 34

unfoldable strip_hash_from : Bool → Chars → Chars
strip_hash_from in_str [] = []
strip_hash_from in_str (c ∷ cs) =
    let rest = strip_hash_from (if c == quote_mark then not in_str else in_str) cs in
    if c == 35 && not in_str then [] else c ∷ rest

unfoldable strip_comment : Chars → Chars
unfolding strip_hash_from
strip_comment = strip_hash_from false

-- The text without its last character, where that is `c`.
unfoldable strip_last : ℕ → Chars → Option Chars
strip_last c [] = none
strip_last c (x ∷ []) = if x == c then some [] else none
strip_last c (x ∷ y ∷ ys) = Option.map (λ s. x ∷ s) (strip_last c (y ∷ ys))

-- `starts_with`, `ends_with` and the slice between them, for two characters that differ.
unfoldable enclosed : ℕ → ℕ → Chars → Option Chars
unfolding strip_last
enclosed open_char close_char [] = none
enclosed open_char close_char (c ∷ cs) = if c == open_char then strip_last close_char cs else none

abbrev trim_start_quotes : Chars → Chars
trim_start_quotes [] = []
trim_start_quotes (c ∷ cs) = if c == quote_mark then trim_start_quotes cs else c ∷ cs

abbrev trim_end_quotes : Chars → Chars
trim_end_quotes [] = []
trim_end_quotes (c ∷ cs) =
    let rest = trim_end_quotes cs in if c == quote_mark && is_empty rest then [] else c ∷ rest

-- The items of an array.
unfoldable array_items : Chars → List Chars
array_items inner =
    filter (λ p. not (is_empty p))
      (map (λ p. trim_end_quotes (trim_start_quotes (trim p))) (split 44 inner))

-- A value that is not a string in quotes.
unfoldable parse_bare : Chars → Read TomlVal
unfolding enclosed array_items
parse_bare s =
    let scalar : Read TomlVal = elim (parse_i64 s) [
      | some n ↦ value (int n)
      | none ↦ if is_empty s then nothing else value (str s)
    ] in
    if bytes_eq s (codes "true")
    then value (bool true)
    else if bytes_eq s (codes "false")
    then value (bool false)
    else elim (enclosed 91 93 s) [ some inner ↦ value (array (array_items inner)) | none ↦ scalar ]

-- A quote alone starts and ends with a quote, and the slice between panics.
unfoldable parse_value : Chars → Read TomlVal
unfolding parse_bare
parse_value s =
    let quoted : Read TomlVal = elim (enclosed quote_mark quote_mark s) [
      | some inner ↦ value (str inner)
      | none ↦ parse_bare s
    ] in
    if bytes_eq s (quote_mark ∷ []) then panic else quoted

-- `find('=')` and the two slices around it.
unfoldable split_equals : Chars → Option (Chars × Chars)
split_equals [] = none
split_equals (c ∷ cs) =
    let rest = split_equals cs in
    if c == 61 then some ([], cs) else Option.map (λ (p : Chars × Chars). (c ∷ p.0, p.1)) rest

unfoldable parse_kv : Chars → Read (Chars × TomlVal)
unfolding split_equals parse_value
parse_kv line = elim (split_equals line) [
  | none ↦ nothing
  | some (key, val_str) ↦ elim (parse_value (trim val_str)) [
    | nothing ↦ nothing
    | panic ↦ panic
    | value v ↦ value (trim key, v)
  ]
]

-- The loop of `parse_str`: the section that the lines are in, and what was read.
pub record Parsing : Type 0 where
  pub current_section : Option Chars
  pub toml : Toml

abbrev or_new : Option Section → Section
or_new none = []
or_new (some s) = s

unfoldable put_value : Option Chars → Chars → TomlVal → Toml → Toml
put_value none k v t = record t { global = insert k v t.global }
put_value (some sec) k v t = record t {
  sections = insert sec (insert k v (or_new (lookup sec t.sections))) t.sections;
}

unfoldable parse_line : Chars → Parsing → Read Parsing
unfolding strip_comment enclosed parse_kv put_value
parse_line raw st =
    let line = trim (strip_comment raw) in
    let entry : Read Parsing = elim (parse_kv line) [
      | nothing ↦ value st
      | panic ↦ panic
      | value (k, v) ↦ value (record st { toml = put_value st.current_section k v st.toml })
    ] in
    if is_empty line then value st else elim (enclosed 91 93 line) [
      | some inner ↦ value (record st { current_section = some (trim inner) })
      | none ↦ entry
    ]

unfoldable parse_lines : List Chars → Parsing → Read Parsing
unfolding parse_line
parse_lines [] st = value st
parse_lines (l ∷ ls) st = elim (parse_line l st) [
  | value st' ↦ parse_lines ls st'
  | nothing ↦ nothing
  | panic ↦ panic
]

-- `parse_str`, or the panic that it ends in.
unfoldable pub parse_str : Chars → Read Toml
unfolding parse_lines
parse_str s =
    let empty : Toml = record { global = []; sections = [] } in
    elim (parse_lines (lines s) (record { current_section = none; toml = empty })) [
      | value st ↦ value st.toml
      | nothing ↦ nothing
      | panic ↦ panic
    ]

unfoldable pub get_value : Toml → Option Chars → Chars → Option TomlVal
get_value t none key = lookup key t.global
get_value t (some sec) key = elim (lookup sec t.sections) [ none ↦ none | some s ↦ lookup key s ]

abbrev str_of : TomlVal → Option Chars
str_of (str s) = some s
str_of (int n) = none
str_of (bool b) = none
str_of (array a) = none

abbrev int_of : TomlVal → Option ℤ
int_of (str s) = parse_i64 s
int_of (int n) = some n
int_of (bool b) = none
int_of (array a) = none

abbrev bool_of : TomlVal → Option Bool
bool_of (str s) =
    if bytes_eq s (codes "true")
    then some true
    else if bytes_eq s (codes "false")
    then some false
    else none
bool_of (int n) = none
bool_of (bool b) = some b
bool_of (array a) = none

abbrev pub array_of : TomlVal → List Chars
array_of (str s) = s ∷ []
array_of (int n) = []
array_of (bool b) = []
array_of (array a) = a

abbrev and_then {ℓ} : {A : Type ℓ} → Option TomlVal → (TomlVal → Option A) → Option A
and_then none f = none
and_then (some v) f = f v

unfoldable pub get_str : Toml → Option Chars → Chars → Option Chars
unfolding get_value
get_str t section key = and_then (get_value t section key) str_of

unfoldable pub get_int : Toml → Option Chars → Chars → Option ℤ
unfolding get_value
get_int t section key = and_then (get_value t section key) int_of

unfoldable pub get_bool : Toml → Option Chars → Chars → Option Bool
unfolding get_value
get_bool t section key = and_then (get_value t section key) bool_of

unfoldable pub get_array : Toml → Option Chars → Chars → List Chars
unfolding get_value
get_array t section key = elim (get_value t section key) [ none ↦ [] | some v ↦ array_of v ]
