-- ===== src/Zone/Master/Rdata.antt =====
-- src/zone.rs: the words of a record's line and its data: `is_class`, `is_type`, `parse_ttl`,
-- `str_to_rtype`, `fqdn` and `build_rdata`.
use ironbind.Prelude.{
  ℕ, zero, suc, ◌-◌, ◌*◌, ◌%◌, ◌^◌, Bool, ◌||◌, Option, none, some, List, [], ◌∷◌, ◌++◌, Result, ok,
  err, ltb, ◌==◌, if◌then◌else◌, length, take, drop, get_elem?, any, last?, concat, is_empty,
}
use ironbind.Prelude.Text.{
  Bytes, codes, dot, bytes_eq, to_ascii_lowercase, trim_end_dots, ends_with,
}
use ironbind.Prelude.Chars.{Chars, as_bytes, to_uppercase, parse_unsigned}
use ironbind.Proto.RType.{RType}
use ironbind.Proto.Builder
use ironbind.Proto.Builder.{◌▷◌}
use ironbind.Zone.Master.Scan.{quote}
use ironbind.Zone.Master.Decode.{Refusal, refused, panicked, ◌>>=◌, try, hex_decode, base64_decode}
use ironbind.Prelude.Address.{parse_ipv4, parse_ipv6}

abbrev is_word : List Chars → Chars → Bool
is_word words s = any (bytes_eq s) words

unfoldable pub is_class : Chars → Bool
is_class s = is_word (codes "IN" ∷ codes "ANY" ∷ codes "CH" ∷ codes "HS" ∷ []) (to_uppercase s)

abbrev type_words : List Chars
type_words =
    codes "A"
    ∷ codes "AAAA"
    ∷ codes "NS"
    ∷ codes "CNAME"
    ∷ codes "SOA"
    ∷ codes "PTR"
    ∷ codes "MX"
    ∷ codes "TXT"
    ∷ codes "SRV"
    ∷ codes "NAPTR"
    ∷ codes "DS"
    ∷ codes "DNSKEY"
    ∷ codes "RRSIG"
    ∷ codes "NSEC"
    ∷ codes "NSEC3"
    ∷ codes "CAA"
    ∷ []

unfoldable pub is_type : Chars → Bool
is_type s = is_word type_words (to_uppercase s)

-- The seconds of a unit of time, in either case.
unfoldable pub unit_seconds : ℕ → Option ℕ
unit_seconds c =
    if c == 115 || c == 83
    then some 1
    else if c == 109 || c == 77
    then some 60
    else if c == 104 || c == 72
    then some 3600
    else if c == 100 || c == 68
    then some 86400
    else if c == 119 || c == 87
    then some 604800
    else none

-- The unit that the text ends with.
abbrev pub unit_of : Chars → Option ℕ
unit_of s = elim (last? s) [ none ↦ none | some c ↦ unit_seconds c ]

abbrev or_hour : Option ℕ → ℕ
or_hour none = 3600
or_hour (some n) = n

-- The product is one of 32 bits, which wraps around in a release build.
unfoldable pub parse_ttl : Chars → ℕ
unfolding unit_seconds
parse_ttl s = elim (unit_of s) [
  | none ↦ or_hour (parse_unsigned (2 ^ 32) s) * 1 % 2 ^ 32
  | some mult ↦ or_hour (parse_unsigned (2 ^ 32) (take (length s - 1) s)) * mult % 2 ^ 32
]

unfoldable pub str_to_rtype : Chars → RType
str_to_rtype s =
    if bytes_eq s (codes "A")
    then RType.a
    else if bytes_eq s (codes "AAAA")
    then RType.aaaa
    else if bytes_eq s (codes "NS")
    then RType.ns
    else if bytes_eq s (codes "CNAME")
    then RType.cname
    else if bytes_eq s (codes "SOA")
    then RType.soa
    else if bytes_eq s (codes "PTR")
    then RType.ptr
    else if bytes_eq s (codes "MX")
    then RType.mx
    else if bytes_eq s (codes "TXT")
    then RType.txt
    else if bytes_eq s (codes "SRV")
    then RType.srv
    else if bytes_eq s (codes "DS")
    then RType.ds
    else if bytes_eq s (codes "DNSKEY")
    then RType.dnskey
    else if bytes_eq s (codes "RRSIG")
    then RType.rrsig
    else if bytes_eq s (codes "NSEC")
    then RType.nsec
    else RType.unknown 0

abbrev pub at_sign : Chars
at_sign = codes "@"

unfoldable fqdn : Chars → Bytes → Bytes
fqdn name origin =
    let n = trim_end_dots name in
    if bytes_eq n at_sign
    then origin
    else if ends_with name (dot ∷ [])
    then to_ascii_lowercase (as_bytes n)
    else to_ascii_lowercase (as_bytes n) ++ (dot ∷ origin)

-- `tokens[i]`
abbrev arg : List Chars → ℕ → Result Chars Refusal
arg tokens i = elim (get_elem? tokens i) [ none ↦ err panicked | some t ↦ ok t ]

-- `tokens[i].parse().ok()?` to an integer below a limit.
abbrev pub number : ℕ → List Chars → ℕ → Result ℕ Refusal
number limit tokens i = do t ← arg tokens i; try (parse_unsigned limit t)

abbrev at_least : ℕ → List Chars → Result Bytes Refusal → Result Bytes Refusal
at_least n tokens r = if ltb (length tokens) n then err refused else r

-- The text between the quotes, where it is quoted.
abbrev last_quote : Chars → Option Chars
last_quote [] = none
last_quote (c ∷ []) = if c == quote then some [] else none
last_quote (c ∷ d ∷ cs) = elim (last_quote (d ∷ cs)) [ none ↦ none | some s ↦ some (c ∷ s) ]

unfoldable unquote : Chars → Chars
unquote [] = []
unquote (c ∷ cs) =
    let inner : Chars = elim (last_quote cs) [ none ↦ c ∷ cs | some s ↦ s ] in
    if c == quote then inner else c ∷ cs

-- The chunks of 255 bytes, each with its length; there are no more of them than bytes.
unfoldable char_strings : ℕ → Bytes → Bytes
char_strings zero bytes = []
char_strings (suc fuel) bytes =
    let chunk = take 255 bytes in
    let rest = char_strings fuel (drop 255 bytes) in
    if is_empty bytes then [] else length chunk % 256 ∷ chunk ++ rest

unfoldable txt_rdata : List Chars → Bytes
unfolding unquote char_strings
txt_rdata [] = []
txt_rdata (token ∷ tokens) =
    let bytes = as_bytes (unquote token) in
    (if is_empty bytes then 0 ∷ [] else char_strings (length bytes) bytes) ++ txt_rdata tokens

unfoldable name_rdata : List Chars → Bytes → Result Bytes Refusal
unfolding fqdn
name_rdata tokens origin = do t ← arg tokens 0; ok (Builder.canonical_name (fqdn t origin))

unfoldable pub mx_rdata : List Chars → Bytes → Result Bytes Refusal
unfolding fqdn
mx_rdata tokens origin = do
  pref ← number (2 ^ 16) tokens 0
  t ← arg tokens 1
  ok ([] ▷ Builder.u16 pref ▷ Builder.name (fqdn t origin))

unfoldable soa_rdata : List Chars → Bytes → Result Bytes Refusal
unfolding fqdn parse_ttl
soa_rdata tokens origin = at_least 7 tokens do
  mname ← arg tokens 0
  rname ← arg tokens 1
  serial ← number (2 ^ 32) tokens 2
  refresh ← arg tokens 3
  retry ← arg tokens 4
  expire ← arg tokens 5
  minimum ← arg tokens 6
  ok (
      []
      ▷ Builder.name (fqdn mname origin)
      ▷ Builder.name (fqdn rname origin)
      ▷ Builder.u32 serial
      ▷ Builder.u32 (parse_ttl refresh)
      ▷ Builder.u32 (parse_ttl retry)
      ▷ Builder.u32 (parse_ttl expire)
      ▷ Builder.u32 (parse_ttl minimum))

unfoldable srv_rdata : List Chars → Bytes → Result Bytes Refusal
unfolding fqdn
srv_rdata tokens origin = at_least 4 tokens do
  priority ← number (2 ^ 16) tokens 0
  weight ← number (2 ^ 16) tokens 1
  port ← number (2 ^ 16) tokens 2
  target ← arg tokens 3
  ok (
      []
      ▷ Builder.u16 priority
      ▷ Builder.u16 weight
      ▷ Builder.u16 port
      ▷ Builder.name (fqdn target origin))

unfoldable pub ds_rdata : List Chars → Result Bytes Refusal
ds_rdata tokens = at_least 4 tokens do
  tag ← number (2 ^ 16) tokens 0
  algorithm ← number (2 ^ 8) tokens 1
  digest_type ← number (2 ^ 8) tokens 2
  hex ← arg tokens 3
  digest ← hex_decode hex
  ok ([] ▷ Builder.u16 tag ▷ Builder.u8 algorithm ▷ Builder.u8 digest_type ▷ Builder.raw digest)

unfoldable pub key_rdata : List Chars → Result Bytes Refusal
key_rdata tokens = at_least 4 tokens do
  flags ← number (2 ^ 16) tokens 0
  protocol ← number (2 ^ 8) tokens 1
  algorithm ← number (2 ^ 8) tokens 2
  key ← base64_decode (concat (drop 3 tokens))
  ok ([] ▷ Builder.u16 flags ▷ Builder.u8 protocol ▷ Builder.u8 algorithm ▷ Builder.raw key)

unfoldable address_rdata : (Chars → Option Bytes) → List Chars → Result Bytes Refusal
address_rdata parse tokens = do t ← arg tokens 0; try (parse t)

unfoldable pub build_rdata : Chars → List Chars → Bytes → Result Bytes Refusal
unfolding name_rdata mx_rdata soa_rdata txt_rdata srv_rdata ds_rdata key_rdata address_rdata
build_rdata rtype tokens origin =
    if bytes_eq rtype (codes "A")
    then address_rdata parse_ipv4 tokens
    else if bytes_eq rtype (codes "AAAA")
    then address_rdata parse_ipv6 tokens
    else if is_word (codes "NS" ∷ codes "CNAME" ∷ codes "PTR" ∷ []) rtype
    then name_rdata tokens origin
    else if bytes_eq rtype (codes "MX")
    then mx_rdata tokens origin
    else if bytes_eq rtype (codes "SOA")
    then soa_rdata tokens origin
    else if bytes_eq rtype (codes "TXT")
    then ok (txt_rdata tokens)
    else if bytes_eq rtype (codes "SRV")
    then srv_rdata tokens origin
    else if bytes_eq rtype (codes "DS")
    then ds_rdata tokens
    else if bytes_eq rtype (codes "DNSKEY")
    then key_rdata tokens
    else err refused
