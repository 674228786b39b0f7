-- ===== src/Tests/Startup.antt =====
-- src/main.rs, src/resolver.rs, src/doh.rs: the origin of a zone file, a resolv.conf, and requests.
use ironbind.Prelude.{◌≡◌, refl, false, none, some, [], ◌∷◌, ◌++◌}
use ironbind.Prelude.Text.{Bytes, codes, bytes_eq, starts_with, is_utf8, lower}
use ironbind.Prelude.Chars.{
  split, lines, is_whitespace, split_whitespace, encode_utf8, decode_from, parse_unsigned,
}
use ironbind.Prelude.Address.{parse_ipv4}
use ironbind.Resolver.Conf.{parse_resolv_conf}
use ironbind.Server.Startup.{origin_of}
use ironbind.Server.Doh.{message, http_request, split_crlf}

of_zone_file : origin_of (codes "/etc/zones/example.com.zone") ≡ codes "example.com"
unfolding origin_of split bytes_eq encode_utf8
of_zone_file = refl

forwarder :
    parse_resolv_conf (some (codes "search lan" ++ (10 ∷ codes "nameserver 192.0.2.53")))
    ≡ some ((192 ∷ 0 ∷ 2 ∷ 53 ∷ []) ∷ [])
unfolding parse_resolv_conf lines starts_with is_whitespace split_whitespace parse_ipv4 encode_utf8
forwarder = refl

abbrev crlf : Bytes
crlf = 13 ∷ 10 ∷ []

abbrev post : Bytes
post =
    codes "POST /dns-query HTTP/1.1"
    ++ (crlf
        ++ (codes "Content-Type: application/dns-message"
            ++ (crlf ++ (codes "Content-Length: 3" ++ (crlf ++ crlf)))))

-- The body arrives in two pieces, of which the second is longer than it.
posted :
    http_request
      (λ s. none)
      (record { pieces = (post ++ (1 ∷ [])) ∷ (2 ∷ 3 ∷ 4 ∷ []) ∷ []; fails = false })
    ≡ message (1 ∷ 2 ∷ 3 ∷ [])
unfolding http_request starts_with is_utf8 split_crlf split_whitespace is_whitespace decode_from
    bytes_eq lower parse_unsigned
posted = refl
