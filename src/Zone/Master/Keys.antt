-- ===== src/Zone/Master/Keys.antt =====
-- src/zone.rs: `Zone::load_file` on a file of DNSKEY records, such as a signer includes.
use ironbind.Prelude.{
  ℕ, ◌^◌, ◌<◌, ◌≡◌, refl, ap, ◌∙◌, List, [], ◌∷◌, ◌++◌, ok, All, append-nil, append_assoc,
}
use ironbind.Prelude.Text.{codes}
use ironbind.Prelude.Chars.{Chars, lines}
use ironbind.Proto.Dnssec.{Dnskey, parse_dnskey}
use ironbind.Proto.Dnssec.RoundTrip.{dnskey_bytes, parse_dnskey-dnskey_bytes}
use ironbind.Zone.{Zone, add}
use ironbind.Zone.Master.{at_start, read_lines, load_file}
use ironbind.Zone.Master.Lines.{lines-join_words}
use ironbind.Zone.Master.KeyLine.{
  IsDnskey, line_words, line_words-IsWord, key_line, key_record, read_line-key_line,
}

-- Keys with their TTLs.
abbrev pub Keys : Type 0
Keys = List (ℕ × Dnskey)

abbrev pub AreKeys : Keys → Type 0
AreKeys = All (λ (e : ℕ × Dnskey). (e.0 < 2 ^ 32) × IsDnskey e.1)

-- A line for each key.
abbrev pub key_file : Keys → Chars
key_file [] = []
key_file ((ttl, k) ∷ ks) = key_line ttl k ++ (10 ∷ key_file ks)

-- The records of the keys, in the order of the file.
abbrev pub add_keys : Keys → Zone → Zone
add_keys [] z = z
add_keys ((ttl, k) ∷ ks) z = add_keys ks (add (key_record z.origin ttl k) z)

abbrev key_lines : Keys → List Chars
key_lines [] = []
key_lines ((ttl, k) ∷ ks) = key_line ttl k ∷ key_lines ks

lines-key_file :
    (ks : Keys) (t : Chars) → AreKeys ks → lines (key_file ks ++ t) ≡ key_lines ks ++ lines t
lines-key_file [] t h = refl
lines-key_file ((ttl, k) ∷ ks) t ((hf, hk), hs) =
    ap lines (append_assoc (key_line ttl k) (10 ∷ key_file ks) t)
    ∙ lines-join_words (codes "@" ∷ line_words ttl k) (key_file ks ++ t)
        (line_words-IsWord ttl k hk)
    ∙ ap (λ ls. key_line ttl k ∷ ls) (lines-key_file ks t hs)

read_lines-key_lines :
    (ks : Keys) (ls : List Chars) (z : Zone)
    → AreKeys ks
    → read_lines (key_lines ks ++ ls) (at_start z) ≡ read_lines ls (at_start (add_keys ks z))
unfolding read_lines add
read_lines-key_lines [] ls z h = refl
read_lines-key_lines ((ttl, k) ∷ ks) ls z ((hf, hk), hs) =
    rw (read_lines, read_line-key_line ttl k (at_start z) hf hk)
      (read_lines-key_lines ks ls (add (key_record z.origin ttl k) z) hs)

-- The lines behind the keys are read as if the keys had been in the zone.
pub read_lines-key_file :
    (ks : Keys) (t : Chars) (z : Zone)
    → AreKeys ks
    → read_lines (lines (key_file ks ++ t)) (at_start z)
      ≡ read_lines (lines t) (at_start (add_keys ks z))
read_lines-key_file ks t z h =
    ap (λ ls. read_lines ls (at_start z)) (lines-key_file ks t h)
    ∙ read_lines-key_lines ks (lines t) z h

parse_dnskey-keys :
    (ks : Keys) → AreKeys ks → All (λ (e : ℕ × Dnskey). parse_dnskey (dnskey_bytes e.1) ≡ ok e.1) ks
parse_dnskey-keys [] h = _
parse_dnskey-keys ((ttl, k) ∷ ks) ((hf, hk), hs) =
    (parse_dnskey-dnskey_bytes k hk.flags_fit, parse_dnskey-keys ks hs)

-- A master file with a line for each of some DNSKEY records at the apex, as RFC 4034 writes them,
-- is loaded into the zone with exactly these records added, in their order and with their TTLs, and
-- the data of each record parses to its key; the TTLs and the fields of the keys fit their widths,
-- and no key is empty.
pub load_file-key_file :
    (ks : Keys) (z : Zone)
    → AreKeys ks
    → (load_file (ok (key_file ks)) z ≡ ok (add_keys ks z))
      × All (λ (e : ℕ × Dnskey). parse_dnskey (dnskey_bytes e.1) ≡ ok e.1) ks
unfolding load_file lines read_lines
load_file-key_file ks z h = (
  rw (load_file, ← append-nil (key_file ks), read_lines-key_file ks [] z h) refl,
  parse_dnskey-keys ks h,
)
