-- ===== src/Config/Network.antt =====
-- src/config.rs: `Network::parse` and `Network::contains`. An address is the number that `u32::from`
-- or `u128::from` gives.
use ironbind.Prelude.{
  ℕ, ◌+◌, ◌-◌, ◌*◌, ◌/◌, ◌%◌, ◌^◌, Bool, false, Option, none, some, [], ◌∷◌, ltb, leb, ◌==◌,
  if◌then◌else◌, bit_and,
}
use ironbind.Prelude.Text.{Bytes}
use ironbind.Prelude.Chars.{Chars, trim, parse_unsigned}
use ironbind.Prelude.Address.{parse_ipv4, parse_ipv6}

pub data IpAddr : Type 0 where
  v4 v6 : ℕ → IpAddr

pub record Network : Type 0 where
  pub address : IpAddr
  pub prefix : ℕ

-- `to_canonical` of the standard library: ::ffff:a.b.c.d is an IPv4 address.
abbrev pub to_canonical : IpAddr → IpAddr
to_canonical (v4 a) = v4 a
to_canonical (v6 a) = if a / 2 ^ 32 == 0xffff then v4 (a % 2 ^ 32) else v6 a

-- `MAX.checked_shl(w - prefix).unwrap_or(0)` on `w` bits.
unfoldable pub mask : ℕ → ℕ → ℕ
mask w prefix = if ltb (w - prefix) w then (2 ^ w - 1) * 2 ^ (w - prefix) % 2 ^ w else 0

abbrev pub same_prefix : IpAddr → ℕ → IpAddr → Bool
same_prefix (v4 network) prefix (v4 ip) =
    bit_and network (mask 32 prefix) == bit_and ip (mask 32 prefix)
same_prefix (v4 network) prefix (v6 ip) = false
same_prefix (v6 network) prefix (v4 ip) = false
same_prefix (v6 network) prefix (v6 ip) =
    bit_and network (mask 128 prefix) == bit_and ip (mask 128 prefix)

unfoldable pub contains : Network → IpAddr → Bool
unfolding mask
contains n ip = same_prefix n.address n.prefix (to_canonical ip)

-- The number of the octets.
abbrev number_of : ℕ → Bytes → ℕ
number_of n [] = n
number_of n (b ∷ bs) = number_of (256 * n + b) bs

-- `parse::<IpAddr>()`: an IPv4 address, or else an IPv6 address.
unfoldable parse_address : Chars → Option IpAddr
parse_address s =
    let other : Option IpAddr = elim (parse_ipv6 s) [
      | none ↦ none
      | some b ↦ some (v6 (number_of 0 b))
    ] in
    elim (parse_ipv4 s) [ none ↦ other | some b ↦ some (v4 (number_of 0 b)) ]

abbrev max_prefix : IpAddr → ℕ
max_prefix (v4 a) = 32
max_prefix (v6 a) = 128

-- `split_once('/')`
abbrev split_slash : Chars → Chars × Option Chars
split_slash [] = ([], none)
split_slash (c ∷ cs) =
    let (before, after) = split_slash cs in if c == 47 then ([], some cs) else (c ∷ before, after)

abbrev prefix_of : IpAddr → Option Chars → Option ℕ
prefix_of a none = some (max_prefix a)
prefix_of a (some p) = elim (parse_unsigned (2 ^ 8) (trim p)) [
  | none ↦ none
  | some n ↦ if leb n (max_prefix a) then some n else none
]

unfoldable pub parse_network : Chars → Option Network
unfolding parse_address
parse_network text =
    let (address_text, prefix_text) = split_slash text in
    elim (parse_address (trim address_text)) [
      | none ↦ none
      | some a ↦ elim (prefix_of a prefix_text) [
        | none ↦ none
        | some n ↦ some (record { address = a; prefix = n })
      ]
    ]
