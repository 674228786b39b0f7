-- ===== src/Prelude/Address.antt =====
-- `from_str` of Rust's `Ipv4Addr` and `Ipv6Addr`. A reader takes what it can and gives the characters
-- behind it.
use Prim.Native.Nat.{ℕ, zero, suc, ◌+◌, ◌-◌, ◌*◌, ◌/◌, ◌%◌}
use mathlib.Core.Bool.{Bool, true, false, ◌&&◌, ◌||◌}
use mathlib.Core.Option.{Option, none, some}
use mathlib.Core.List.{List, [], ◌∷◌, ◌++◌}
use ironbind.Prelude.Tests.{ltb, leb, ◌==◌, if◌then◌else◌}
use ironbind.Prelude.Lists.{length}
use ironbind.Prelude.Text.{Bytes, dot}
use ironbind.Prelude.Chars.{Chars, as_bytes}

unfoldable pub hex_digit : ℕ → Option ℕ
hex_digit c =
    if leb 48 c && leb c 57
    then some (c - 48)
    else if leb 65 c && leb c 70
    then some (c - 55)
    else if leb 97 c && leb c 102
    then some (c - 87)
    else none

abbrev colon : ℕ
colon = 58

-- The digits at the front, as values, and the rest.
abbrev digits_of : (ℕ → Option ℕ) → Bytes → List ℕ × Bytes
digits_of digit [] = ([], [])
digits_of digit (c ∷ cs) =
    let (ds, rest) = digits_of digit cs in
    elim (digit c) [ none ↦ ([], c ∷ cs) | some d ↦ (d ∷ ds, rest) ]

abbrev dec_digit : ℕ → Option ℕ
dec_digit c = if leb 48 c && leb c 57 then some (c - 48) else none

abbrev value_from : ℕ → ℕ → List ℕ → ℕ
value_from radix n [] = n
value_from radix n (d ∷ ds) = value_from radix (radix * n + d) ds

abbrev has_leading_zero : List ℕ → Bool
has_leading_zero [] = false
has_leading_zero (d ∷ []) = false
has_leading_zero (d ∷ e ∷ ds) = d == 0

-- An octet: one to three decimal digits without a leading zero.
unfoldable pub read_octet : Bytes → Option (ℕ × Bytes)
read_octet s =
    let (ds, rest) = digits_of dec_digit s in
    let value = value_from 10 0 ds in
    if length ds == 0 || ltb 3 (length ds) || has_leading_zero ds || ltb 255 value
    then none
    else some (value, rest)

-- One to four hexadecimal digits.
unfoldable pub read_group : Bytes → Option (ℕ × Bytes)
read_group s =
    let (ds, rest) = digits_of hex_digit s in
    if length ds == 0 || ltb 4 (length ds) then none else some (value_from 16 0 ds, rest)

-- The separator, which the first item does not have, and the item.
abbrev separated {ℓ} :
    {A : Type ℓ} → ℕ → Bool → (Bytes → Option (A × Bytes)) → Bytes → Option (A × Bytes)
separated sep true read s = read s
separated sep false read [] = none
separated sep false read (c ∷ cs) = if c == sep then read cs else none

unfoldable pub read_octets : ℕ → Bool → Bytes → Option (Bytes × Bytes)
unfolding read_octet
read_octets zero at_start s = some ([], s)
read_octets (suc n) at_start s = elim (separated dot at_start read_octet s) [
  | none ↦ none
  | some r ↦ elim (read_octets n false r.1) [
    | none ↦ none
    | some more ↦ some (r.0 ∷ more.0, more.1)
  ]
]

abbrev whole : Option (Bytes × Bytes) → Option Bytes
whole none = none
whole (some (v, [])) = some v
whole (some (v, c ∷ cs)) = none

-- The octets of an IPv4 address of at most 15 bytes.
unfoldable pub parse_ipv4 : Chars → Option Bytes
unfolding read_octets
parse_ipv4 s =
    let bytes = as_bytes s in
    if ltb 15 (length bytes) then none else whole (read_octets 4 true bytes)

-- What the loop over the groups has read: the octets, whether it ended in an IPv4 address, the rest.
pub record Groups : Type 0 where
  pub octets : Bytes
  pub ipv4 : Bool
  pub rest : Bytes

-- The loop over the slots that are left; with two or more of them an IPv4 address may stand at the end.
unfoldable pub read_groups : ℕ → Bool → Bytes → Groups
unfolding read_octets read_group
read_groups zero at_start s = record { octets = []; ipv4 = false; rest = s }
read_groups (suc n) at_start s =
    let as_group : Groups = elim (separated colon at_start read_group s) [
      | none ↦ record { octets = []; ipv4 = false; rest = s }
      | some r ↦
          let more = read_groups n false r.1 in
          record more { octets = r.0 / 256 ∷ r.0 % 256 ∷ more.octets }
    ] in
    elim (separated colon at_start (read_octets 4 true) s) [
      | none ↦ as_group
      | some r ↦ if leb 1 n then record { octets = r.0; ipv4 = true; rest = r.1 } else as_group
    ]

abbrev zero_octets : ℕ → Bytes
zero_octets zero = []
zero_octets (suc n) = 0 ∷ zero_octets n

-- What stands behind the groups before `::`.
abbrev read_tail : Bytes → Bytes → Option (Bytes × Bytes)
read_tail head (c ∷ d ∷ s) =
    let tail = read_groups (7 - length head / 2) true s in
    if c == colon && d == colon
    then some
        (head ++ (zero_octets (16 - length head - length tail.octets) ++ tail.octets), tail.rest)
    else none
read_tail head s = none

-- The octets of an IPv6 address.
unfoldable pub parse_ipv6 : Chars → Option Bytes
unfolding read_groups
parse_ipv6 s =
    let head = read_groups 8 true (as_bytes s) in
    if length head.octets == 16
    then whole (some (head.octets, head.rest))
    else if head.ipv4
    then none
    else whole (read_tail head.octets head.rest)
