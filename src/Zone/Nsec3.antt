-- ===== src/Zone/Nsec3.antt =====
-- src/zone.rs: the hashed denial of existence. SHA-1, of another crate, is a parameter.
use ironbind.Prelude.{
  ℕ, zero, suc, ◌+◌, ◌-◌, ◌*◌, ◌/◌, ◌%◌, ◌^◌, ◌&&◌, Option, none, some, List, [], ◌∷◌, ◌++◌, map,
  concat, filter, ltb, leb, if◌then◌else◌, length, take, drop, get_elem?, first?, last?, bit_and,
  bit_or,
}
use ironbind.Prelude.Text.{Bytes, bytes_cmp, split_dots}
use ironbind.Prelude.Sort.{is_gt, sort_by}
use ironbind.Proto.RType
use ironbind.Proto.RType.{rtype_eq}
use ironbind.Proto.Packet.{Record}
use ironbind.Proto.Builder.{canonical_name}
use ironbind.Proto.Message.{be16_at}
use ironbind.Zone.{Zone, find_rrset, iter_rrsets}

pub record Nsec3Params : Type 0 where
  pub algorithm : ℕ
  pub flags : ℕ
  pub iterations : ℕ
  pub salt : Bytes

abbrev byte_at : Bytes → ℕ → ℕ
byte_at b i = elim (get_elem? b i) [ none ↦ 0 | some v ↦ v ]

-- `Nsec3Params::parse`
unfoldable parse_params : Bytes → Option Nsec3Params
parse_params rdata =
    let salt_len = byte_at rdata 4 in
    if ltb (length rdata) 5
    then none
    else if ltb (length rdata) (5 + salt_len)
    then none
    else some (record {
      algorithm = byte_at rdata 0;
      flags = byte_at rdata 1;
      iterations = be16_at rdata 2;
      salt = take salt_len (drop 5 rdata);
    })

-- The rounds of `hash_name` behind the first.
unfoldable rehash : (Bytes → Bytes) → Bytes → ℕ → Bytes → Bytes
rehash sha1 salt zero hash = hash
rehash sha1 salt (suc n) hash = rehash sha1 salt n (sha1 (hash ++ salt))

unfoldable hash_name : (Bytes → Bytes) → Nsec3Params → Bytes → Bytes
unfolding rehash
hash_name sha1 p name = rehash sha1 p.salt p.iterations (sha1 (canonical_name name ++ p.salt))

-- The digits 0 to 9 and A to V.
unfoldable base32_digit : ℕ → ℕ
base32_digit i = if ltb i 10 then 48 + i else 55 + i

-- `while bits >= 5`: the digits that `bits` bits of the buffer give, and the bits that stay.
unfoldable full_digits : ℕ → ℕ → Bytes
unfolding base32_digit
full_digits buf (suc (suc (suc (suc (suc bits))))) =
    base32_digit (bit_and (buf / 2 ^ bits) 0x1f) ∷ full_digits buf bits
full_digits buf bits = []

unfoldable bits_left : ℕ → ℕ
bits_left (suc (suc (suc (suc (suc bits))))) = bits_left bits
bits_left bits = bits

-- The loop over the input, and the bits behind it.
unfoldable base32_from : ℕ → ℕ → Bytes → Bytes
unfolding base32_digit full_digits bits_left
base32_from buf bits [] =
    if ltb 0 bits then base32_digit (bit_and (buf * 2 ^ (5 - bits) % 2 ^ 32) 0x1f) ∷ [] else []
base32_from buf bits (b ∷ bs) =
    let more = bit_or (buf * 2 ^ 8 % 2 ^ 32) b in
    full_digits more (bits + 8) ++ base32_from more (bits_left (bits + 8)) bs

unfoldable pub base32hex_encode : Bytes → Bytes
unfolding base32_from
base32hex_encode = base32_from 0 0

unfoldable nsec3_params : Zone → Option Nsec3Params
unfolding parse_params
nsec3_params z = elim (find_rrset z z.origin RType.nsec3param) [
  | none ↦ none
  | some rs ↦ elim (first? rs) [ none ↦ none | some r ↦ parse_params r.rdata ]
]

abbrev upper : ℕ → ℕ
upper c = if leb 97 c && leb c 122 then c - 32 else c

abbrev first_label : Bytes → Bytes
first_label name = elim (first? (split_dots name)) [ none ↦ [] | some l ↦ map upper l ]

abbrev Nsec3Entry : Type 0
Nsec3Entry = Bytes × Record

-- Every NSEC3 record with its hash, in the order of the hashes.
unfoldable nsec3_entries : Zone → List Nsec3Entry
nsec3_entries z =
    sort_by (λ (a b : Nsec3Entry). bytes_cmp a.0 b.0)
      (map (λ r. (first_label r.name, r))
        (filter (λ r. rtype_eq r.rtype RType.nsec3) (concat (iter_rrsets z))))

-- The walk along the chain: the entry before the first that is greater.
unfoldable entry_before : Bytes → Nsec3Entry → List Nsec3Entry → Record
entry_before target prev [] = prev.1
entry_before target prev (e ∷ es) =
    if is_gt (bytes_cmp e.0 target) then prev.1 else entry_before target e es

unfoldable pub nsec3_covering : (Bytes → Bytes) → Zone → Bytes → Option Record
unfolding hash_name base32hex_encode nsec3_params nsec3_entries entry_before
nsec3_covering sha1 z qname = elim (nsec3_params z) [
  | none ↦ none
  | some p ↦
      let entries = nsec3_entries z in
      elim (last? entries) [
        | none ↦ none
        | some e ↦ some (entry_before (base32hex_encode (hash_name sha1 p qname)) e entries)
      ]
]
