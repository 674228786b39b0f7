-- ===== src/Tests/Master.antt =====
-- src/zone.rs: master files read at concrete inputs.
use ironbind.Prelude.{ℕ, ◌≡◌, refl, [], ◌∷◌, ◌++◌, ok, err, All, arith}
use ironbind.Prelude.Text.{codes, starts_with, bytes_eq, lower, trim_end_dots, ends_with}
use ironbind.Prelude.Chars.{lines, is_whitespace, upper, parse_unsigned, encode_utf8}
use ironbind.Proto.RType
use ironbind.Proto.Packet.{class_in}
use ironbind.Proto.Dnssec.{Dnskey, parse_dnskey}
use ironbind.Proto.Dnssec.RoundTrip.{dnskey_bytes}
use ironbind.Zone.{Zone, new, add}
use ironbind.Zone.Master.{panics, owner_name, load_file}
use ironbind.Zone.Master.Scan.{strip_zone_comment, parenthesis_balance, tokenize_zone_line}
use ironbind.Prelude.Address.{parse_ipv4}
use ironbind.Zone.Master.Rdata.{is_type, is_class, unit_seconds, str_to_rtype, build_rdata}
use ironbind.Zone.Master.Keys.{Keys, AreKeys, key_file, add_keys, load_file-key_file}
use ironbind.Zone.Master.ShortMx.{short_mx, load_file-short_mx}

abbrev origin : Zone
origin = new (codes "example.com")

-- A record over two lines, with a comment; its owner is the one of the line.
continued :
    load_file (ok (codes "www IN A ( ; an address" ++ (10 ∷ codes " 192.0.2.1 )"))) origin
    ≡ ok (
        add
          (record {
            name = codes "www.example.com";
            rtype = RType.a;
            class = class_in;
            ttl = 3600;
            rdata = 192 ∷ 0 ∷ 2 ∷ 1 ∷ [];
          })
          origin)
unfolding load_file lines strip_zone_comment is_whitespace parenthesis_balance starts_with
    tokenize_zone_line is_type bytes_eq upper is_class parse_unsigned unit_seconds build_rdata
    parse_ipv4 encode_utf8 str_to_rtype add new owner_name lower trim_end_dots ends_with
continued = refl

-- Without a TTL and a class, the type NS is read as a TTL, and the record is lost.
ns_lost : load_file (ok (codes "@ NS ns1.example.com." ++ (10 ∷ []))) origin ≡ ok origin
unfolding load_file lines strip_zone_comment is_whitespace parenthesis_balance starts_with
    tokenize_zone_line is_type bytes_eq upper is_class parse_unsigned unit_seconds
ns_lost = refl

abbrev apex_key : Dnskey
apex_key = record {
  flags = 257;
  protocol = 3;
  algorithm = 13;
  public_key = 251 ∷ 255 ∷ 16 ∷ 7 ∷ [];
}

abbrev keys : Keys
keys = (3600, apex_key) ∷ []

keys-AreKeys : AreKeys keys
keys-AreKeys = (
  (
    omega arith,
    record {
      flags_fit = omega arith;
      protocol_fits = omega arith;
      algorithm_fits = omega arith;
      key_fits = (omega arith, (omega arith, (omega arith, (omega arith, _))));
      has_key = refl;
    },
  ),
  _,
)

load_file-key_file_example :
    (load_file (ok (key_file keys)) origin ≡ ok (add_keys keys origin))
    × All (λ (e : ℕ × Dnskey). parse_dnskey (dnskey_bytes e.1) ≡ ok e.1) keys
load_file-key_file_example = load_file-key_file keys origin keys-AreKeys

load_file-short_mx_example :
    load_file (ok (key_file keys ++ (short_mx 10 ++ (10 ∷ codes "www IN A 192.0.2.1")))) origin
    ≡ err panics
load_file-short_mx_example =
    load_file-short_mx keys 10 (codes "www IN A 192.0.2.1") origin keys-AreKeys (omega arith)
