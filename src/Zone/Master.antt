-- ===== src/Zone/Master.antt =====
-- src/zone.rs: `Zone::load_file`, the reader of a master file (RFC 1035 §5.1). What goes to stderr is
-- left out.
pub mod Scan
pub mod Decode
pub mod Rdata
pub mod ShortMx
pub mod Lines
pub mod Keys
pub mod KeyLine
pub mod Decimal
pub mod Words
pub mod Base64
use ironbind.Prelude.{
  ℕ, ◌+◌, ◌-◌, ◌^◌, Bool, true, false, not, ◌&&◌, none, some, List, [], ◌∷◌, ◌++◌, Result, ok, err,
  leb, ltb, ◌==◌, if◌then◌else◌, length, is_empty,
}
use ironbind.Prelude.Text.{
  Bytes, codes, dot, bytes_eq, to_ascii_lowercase, trim_end_dots, ends_with, starts_with,
}
use ironbind.Prelude.Chars.{
  Chars, starts_blank, trim, lines, split_whitespace, as_bytes, to_uppercase, parse_unsigned,
}
use ironbind.Proto.Packet.{Record, class_in}
use ironbind.Proto.Reader.{IoError}
use ironbind.Zone.{Zone, add}
use ironbind.Zone.Master.Scan.{strip_zone_comment, parenthesis_balance, tokenize_zone_line}
use ironbind.Zone.Master.Decode.{refused, panicked}
use ironbind.Zone.Master.Rdata.{
  is_class, is_type, unit_of, parse_ttl, str_to_rtype, at_sign, build_rdata,
}

-- The file cannot be read, or its text makes the reader panic.
pub data Stop : Type 0 where
  unreadable : IoError → Stop
  panics : Stop

-- The variables of the loop over the lines.
pub record Loading : Type 0 where
  pub zone : Zone
  pub default_ttl : ℕ
  pub origin : Bytes
  pub last_name : Bytes
  pub pending_record : Chars
  pub open_parentheses : ℕ

-- The name field.
unfoldable pub owner_name : Bytes → Chars → Bytes
owner_name origin n =
    if bytes_eq n at_sign
    then origin
    else if ends_with n (dot ∷ [])
    then to_ascii_lowercase (as_bytes (trim_end_dots n))
    else to_ascii_lowercase (as_bytes n) ++ (dot ∷ origin)

-- The optional TTL, and the fields behind it.
unfoldable pub take_ttl : ℕ → List Chars → ℕ × List Chars
take_ttl default [] = (default, [])
take_ttl default (t ∷ ts) = elim (parse_unsigned (2 ^ 32) t) [
  | some n ↦ (n, ts)
  | none ↦ elim (unit_of t) [ none ↦ (default, t ∷ ts) | some mult ↦ (parse_ttl t, ts) ]
]

unfoldable pub skip_class : List Chars → List Chars
skip_class [] = []
skip_class (t ∷ ts) = if is_class t then ts else t ∷ ts

-- From the type on; a record whose data cannot be built is left out.
unfoldable pub read_typed : Bytes → ℕ → List Chars → Loading → Result Loading Stop
read_typed name ttl [] st = ok st
read_typed name ttl (t ∷ []) st = ok st
read_typed name ttl (t ∷ u ∷ us) st =
    let rtype_str = to_uppercase t in
    elim (build_rdata rtype_str (u ∷ us) st.origin) [
      | ok rdata ↦
          let r : Record = record {
            name = name;
            rtype = str_to_rtype rtype_str;
            class = class_in;
            ttl = ttl;
            rdata = rdata;
          } in
          ok (record st { zone = add r st.zone })
      | err refused ↦ ok st
      | err panicked ↦ err panics
    ]

-- A record's line: [name] [ttl] [class] type rdata...
unfoldable pub read_fields : Bool → List Chars → Loading → Result Loading Stop
unfolding owner_name take_ttl skip_class read_typed
read_fields owner_is_blank (t ∷ u ∷ us) st =
    let named = not owner_is_blank && not (is_type t) && not (is_class t) in
    let name = if named then owner_name st.origin t else st.last_name in
    let (ttl, typed) = take_ttl st.default_ttl (if named then u ∷ us else t ∷ u ∷ us) in
    read_typed name ttl (skip_class typed) (record st { last_name = name })
read_fields owner_is_blank tokens st = ok st

unfoldable set_origin : List Chars → Loading → Loading
set_origin (d ∷ o ∷ rest) st =
    let origin = to_ascii_lowercase (as_bytes (trim_end_dots o)) in
    record st { origin = origin; zone = record st.zone { origin = origin } }
set_origin parts st = st

unfoldable set_ttl : List Chars → Loading → Loading
set_ttl (d ∷ t ∷ rest) st = record st { default_ttl = parse_ttl t }
set_ttl parts st = st

-- A record whose parentheses are closed, trimmed: a directive or the line of a record.
unfoldable pub read_entry : Bool → Chars → Loading → Result Loading Stop
unfolding set_origin set_ttl read_fields
read_entry owner_is_blank line st =
    if is_empty line
    then ok st
    else if starts_with line (codes "$ORIGIN")
    then ok (set_origin (split_whitespace line) st)
    else if starts_with line (codes "$TTL")
    then ok (set_ttl (split_whitespace line) st)
    else if starts_with line (codes "$")
    then ok st
    else read_fields owner_is_blank (tokenize_zone_line line) st

-- One turn of the loop. A count of open parentheses that is not above 0 is reset to 0, as a
-- subtraction that stops at 0 does.
unfoldable pub read_line : Chars → Loading → Result Loading Stop
unfolding read_entry
read_line raw_line st =
    let without_comment = strip_zone_comment raw_line in
    let pending = st.pending_record ++ without_comment ++ (32 ∷ []) in
    let (opening, closing) = parenthesis_balance without_comment in
    let balance = st.open_parentheses + opening - closing in
    if is_empty st.pending_record && is_empty (trim without_comment)
    then ok st
    else if ltb 0 balance
    then ok (record st { pending_record = pending; open_parentheses = balance })
    else read_entry (starts_blank pending) (trim pending)
        (record st { pending_record = []; open_parentheses = 0 })

unfoldable pub read_lines : List Chars → Loading → Result Loading Stop
unfolding read_line
read_lines [] st = ok st
read_lines (l ∷ ls) st = elim (read_line l st) [ ok st' ↦ read_lines ls st' | err e ↦ err e ]

abbrev pub at_start : Zone → Loading
at_start z = record {
  zone = z;
  default_ttl = 3600;
  origin = z.origin;
  last_name = z.origin;
  pending_record = [];
  open_parentheses = 0;
}

-- From what the file holds.
unfoldable pub load_file : Result Chars IoError → Zone → Result Zone Stop
unfolding read_lines
load_file (err e) z = err (unreadable e)
load_file (ok content) z = elim (read_lines (lines content) (at_start z)) [
  | ok st ↦ ok st.zone
  | err e ↦ err e
]
