-- ===== src/Resolver/Conf.antt =====
-- src/resolver.rs: the forwarders of /etc/resolv.conf. The port is 53.
use ironbind.Prelude.{
  Bool, not, Option, none, some, List, [], ◌∷◌, if◌then◌else◌, filter, is_empty, get_elem?,
}
use ironbind.Prelude.Text.{Bytes, codes, starts_with}
use ironbind.Prelude.Chars.{Chars, trim_start, lines, split_whitespace}
use ironbind.Prelude.Address.{parse_ipv4, parse_ipv6}

-- `IpAddr::from_str`, as the bytes of the address.
unfoldable ip_bytes : Chars → Option Bytes
ip_bytes s = elim (parse_ipv4 s) [ some b ↦ some b | none ↦ parse_ipv6 s ]

abbrev nameserver_of : Chars → Option Bytes
nameserver_of l = elim (get_elem? (split_whitespace l) 1) [ none ↦ none | some ip ↦ ip_bytes ip ]

abbrev filter_map_ips : List Chars → List Bytes
filter_map_ips [] = []
filter_map_ips (l ∷ ls) =
    let rest = filter_map_ips ls in elim (nameserver_of l) [ none ↦ rest | some ip ↦ ip ∷ rest ]

-- From the text of the file, or `none` where it cannot be read.
unfoldable pub parse_resolv_conf : Option Chars → Option (List Bytes)
unfolding ip_bytes
parse_resolv_conf none = none
parse_resolv_conf (some content) =
    let addrs =
      filter_map_ips
        (filter (λ l. starts_with (trim_start l) (codes "nameserver")) (lines content)) in
    if is_empty addrs then none else some addrs

-- The timeout and the logging decide nothing here.
pub record ResolverConfig : Type 0 where
  pub forwarders : List Bytes
  pub use_forwarders : Bool

abbrev or_no_addresses : Option (List Bytes) → List Bytes
or_no_addresses none = []
or_no_addresses (some ips) = ips

unfoldable pub from_resolv_conf : Option Chars → ResolverConfig
unfolding parse_resolv_conf
from_resolv_conf conf =
    let forwarders = or_no_addresses (parse_resolv_conf conf) in
    record { forwarders = forwarders; use_forwarders = not (is_empty forwarders) }
