-- ===== src/Tests/Networks.antt =====
-- The network 10.0.0.0/8 and a mapped address in it.
use ironbind.Prelude.{◌/◌, ◌^◌, ◌≡◌, ◌↔◌, refl, true, false, [], ◌∷◌, ◌++◌, ok, arith}
use ironbind.Prelude.Text.{codes, bytes_eq}
use ironbind.Prelude.Chars.{Chars, lines, is_whitespace, encode_utf8, parse_unsigned}
use ironbind.Prelude.Address.{parse_ipv4}
use ironbind.Prelude.Assoc.{lookup, insert}
use ironbind.Config.Toml.{Toml, array, value, panic, parse_str, get_value}
use ironbind.Config.Load.{server_section, configure, load}
use ironbind.Config.Allowed.{AllowsOnly, load-AllowsOnly}
use ironbind.Config.Network.{IpAddr, v4, v6, Network, contains, mask, parse_network}
use ironbind.Config.Prefix.{contains_iff}

abbrev ten : Network
ten = record { address = v4 0x0a000000; prefix = 8 }

abbrev mapped : IpAddr
mapped = v6 0xffff0a010203

inside : contains ten mapped ≡ true
unfolding contains mask
inside = refl

outside_ten : contains ten (v4 0x0b000001) ≡ false
unfolding contains mask
outside_ten = refl

contains_iff_example : (contains ten mapped ≡ true) ↔ (0x0a000000 / 2 ^ 24 ≡ 0x0a010203 / 2 ^ 24)
contains_iff_example = contains_iff ten mapped (omega arith) (omega arith) (omega arith)

abbrev content : Chars
content =
    codes "[server] # recursion"
    ++ (10 ∷ codes "allow_recursion = [" ++ (34 ∷ codes "10.0.0.0/8" ++ (34 ∷ codes "]")))

abbrev read_back : Toml
read_back = record {
  global = [];
  sections = (codes "server", (codes "allow_recursion", array (codes "10.0.0.0/8" ∷ [])) ∷ []) ∷ [];
}

content_read : parse_str content ≡ value read_back
unfolding parse_str lines is_whitespace bytes_eq lookup insert
content_read = refl

content_loads : load (ok content) ≡ ok (configure read_back (ten ∷ []))
unfolding load lines is_whitespace bytes_eq lookup insert parse_network parse_ipv4 encode_utf8
    parse_unsigned
content_loads = refl

-- A quote alone panics.
quote_panics : parse_str (codes "key = " ++ (34 ∷ [])) ≡ panic
unfolding parse_str lines is_whitespace bytes_eq
quote_panics = refl

load-AllowsOnly_example :
    (t : Toml) × (parse_str content ≡ value t)
    × AllowsOnly (get_value t server_section (codes "allow_recursion")) (ten ∷ [])
unfolding configure
load-AllowsOnly_example = load-AllowsOnly content (configure read_back (ten ∷ [])) content_loads
