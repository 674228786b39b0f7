-- ===== src/Zone/Master/KeyLine.antt =====
-- src/zone.rs, src/proto.rs: a DNSKEY in a master file, from its line to the key that validators read.
use ironbind.Prelude.{
  ℕ, ◌^◌, ◌<◌, ◌≡◌, refl, ap, ◌∙◌, false, List, [], ◌∷◌, ok, arith, is_empty, All, append-nil,
}
use ironbind.Prelude.Text.{Bytes, codes, bytes_eq, starts_with}
use ironbind.Prelude.Chars.{Chars, to_uppercase, upper}
use ironbind.Proto.RType
use ironbind.Proto.Packet.{Record, class_in}
use ironbind.Proto.Builder
use ironbind.Proto.Dnssec.{Dnskey}
use ironbind.Proto.Dnssec.RoundTrip.{dnskey_bytes}
use ironbind.Zone.{add}
use ironbind.Zone.Master.Scan.{tokenize_zone_line}
use ironbind.Zone.Master.Rdata.{key_rdata, build_rdata, is_type, is_class, str_to_rtype}
use ironbind.Zone.Master.Words.{
  IsWord, join_words, strip_zone_comment-join_words, parenthesis_balance-join_words,
  tokenize_zone_line-join_words, trim-join_words, trim-nonempty, join_words-starts_blank,
}
use ironbind.Zone.Master.Decimal.{decimal, decimal-IsWord, parse_unsigned-decimal}
use ironbind.Zone.Master.Base64.{base64_encode, base64_encode-IsPlain, base64_decode-base64_encode}
use ironbind.Zone.Master.{
  Loading, owner_name, take_ttl, skip_class, read_typed, read_fields, read_entry, read_line,
}

-- The fields fit their widths, and there is a key.
pub record IsDnskey (k : Dnskey) : Type 0 where
  pub flags_fit : k.flags < 2 ^ 16
  pub protocol_fits : k.protocol < 2 ^ 8
  pub algorithm_fits : k.algorithm < 2 ^ 8
  pub key_fits : All (λ x. x < 256) k.public_key
  pub has_key : is_empty k.public_key ≡ false

abbrev key_words : Dnskey → List Chars
key_words k =
    decimal k.flags ∷ decimal k.protocol ∷ decimal k.algorithm ∷ base64_encode k.public_key ∷ []

-- The line of a key at the apex of the zone, as RFC 4034, section 2.2 writes it.
abbrev pub key_line : ℕ → Dnskey → Chars
key_line ttl k = join_words (codes "@" ∷ decimal ttl ∷ codes "IN" ∷ codes "DNSKEY" ∷ key_words k)

-- No record is open.
abbrev pub between : Loading → Loading
between st = record st { pending_record = []; open_parentheses = 0 }

abbrev pub key_record : Bytes → ℕ → Dnskey → Record
key_record name ttl k = record {
  name = name;
  rtype = RType.dnskey;
  class = class_in;
  ttl = ttl;
  rdata = dnskey_bytes k;
}

key_rdata-key_words : (k : Dnskey) → IsDnskey k → key_rdata (key_words k) ≡ ok (dnskey_bytes k)
unfolding key_rdata dnskey_bytes Builder.u8 Builder.u16 Builder.raw
key_rdata-key_words k h =
    rw
      (
        parse_unsigned-decimal (2 ^ 16) k.flags h.flags_fit (omega (arith, h.flags_fit)),
        parse_unsigned-decimal (2 ^ 8) k.protocol h.protocol_fits (omega (arith, h.protocol_fits)),
        parse_unsigned-decimal (2 ^ 8) k.algorithm h.algorithm_fits
            (omega (arith, h.algorithm_fits)),
        append-nil (base64_encode k.public_key),
        base64_decode-base64_encode k.public_key h.key_fits,
      )
      refl

base64_encode-nonempty : (s : Bytes) → is_empty s ≡ false → is_empty (base64_encode s) ≡ false
unfolding base64_encode
base64_encode-nonempty [] h = h
base64_encode-nonempty (x ∷ []) h = refl
base64_encode-nonempty (x ∷ y ∷ []) h = refl
base64_encode-nonempty (x ∷ y ∷ z ∷ s) h = refl

abbrev pub line_words : ℕ → Dnskey → List Chars
line_words ttl k = decimal ttl ∷ codes "IN" ∷ codes "DNSKEY" ∷ key_words k

pub line_words-IsWord :
    (ttl : ℕ) (k : Dnskey) → IsDnskey k → All IsWord (codes "@" ∷ line_words ttl k)
line_words-IsWord ttl k h = (
  (refl, (refl, _)),
  (
    decimal-IsWord ttl,
    (
      (refl, (refl, (refl, _))),
      (
        (refl, (refl, (refl, (refl, (refl, (refl, (refl, _))))))),
        (
          decimal-IsWord k.flags,
          (
            decimal-IsWord k.protocol,
            (
              decimal-IsWord k.algorithm,
              (
                (
                  base64_encode-nonempty k.public_key h.has_key,
                  base64_encode-IsPlain k.public_key h.key_fits,
                ),
                _,
              ),
            ),
          ),
        ),
      ),
    ),
  ),
)

-- A line of plain words is a record of its own.
pub read_line-join_words :
    (w : Chars) (ws : List Chars) (st : Loading)
    → All IsWord (w ∷ ws)
    → read_line (join_words (w ∷ ws)) (between st)
      ≡ read_entry false (join_words (w ∷ ws)) (between st)
unfolding read_line read_entry
read_line-join_words w ws st h =
    rw
      (
        strip_zone_comment-join_words (w ∷ ws) h,
        parenthesis_balance-join_words (w ∷ ws) h,
        join_words-starts_blank w ws (32 ∷ []) h,
        trim-join_words w ws h,
        trim-nonempty w ws h,
      )
      refl

pub at_sign-read_entry :
    (w : Chars) (ws : List Chars) (st : Loading)
    → All IsWord (codes "@" ∷ w ∷ ws)
    → read_entry false (join_words (codes "@" ∷ w ∷ ws)) st
      ≡ read_fields false (codes "@" ∷ w ∷ ws) st
unfolding read_entry starts_with tokenize_zone_line
at_sign-read_entry w ws st h =
    ap (λ ts. read_fields false ts st) (tokenize_zone_line-join_words (codes "@" ∷ w ∷ ws) h)

take_ttl-decimal :
    (default ttl : ℕ) (rest : List Chars)
    → ttl < 2 ^ 32
    → take_ttl default (decimal ttl ∷ rest) ≡ (ttl, rest)
unfolding take_ttl
take_ttl-decimal default ttl rest h = rw (take_ttl, parse_unsigned-decimal (2 ^ 32) ttl h h) refl

skip_class-in : (rest : List Chars) → skip_class (codes "IN" ∷ rest) ≡ rest
unfolding skip_class is_class bytes_eq upper
skip_class-in rest = refl

build_rdata-key_words :
    (k : Dnskey) (origin : Bytes)
    → IsDnskey k
    → build_rdata (codes "DNSKEY") (key_words k) origin ≡ ok (dnskey_bytes k)
unfolding build_rdata bytes_eq
build_rdata-key_words k origin h = key_rdata-key_words k h

upper_dnskey : to_uppercase (codes "DNSKEY") ≡ codes "DNSKEY"
unfolding upper
upper_dnskey = refl

read_typed-key_words :
    (name : Bytes) (ttl : ℕ) (k : Dnskey) (st : Loading)
    → IsDnskey k
    → read_typed name ttl (codes "DNSKEY" ∷ key_words k) st
      ≡ ok (record st { zone = add (key_record name ttl k) st.zone })
unfolding read_typed str_to_rtype bytes_eq upper
read_typed-key_words name ttl k st h =
    rw (read_typed, upper_dnskey, build_rdata-key_words k st.origin h) refl

read_fields-line_words :
    (ttl : ℕ) (k : Dnskey) (st : Loading)
    → ttl < 2 ^ 32
    → IsDnskey k
    → read_fields false (codes "@" ∷ line_words ttl k) st
      ≡ ok (record st { zone = add (key_record st.origin ttl k) st.zone; last_name = st.origin })
unfolding read_fields is_type is_class bytes_eq upper owner_name
read_fields-line_words ttl k st fits h =
    rw
      (
        take_ttl-decimal st.default_ttl ttl (codes "IN" ∷ codes "DNSKEY" ∷ key_words k) fits,
        skip_class-in (codes "DNSKEY" ∷ key_words k),
      )
      (read_typed-key_words st.origin ttl k (record st { last_name = st.origin }) h)

-- The line of a key, where no record is open.
pub read_line-key_line :
    (ttl : ℕ) (k : Dnskey) (st : Loading)
    → ttl < 2 ^ 32
    → IsDnskey k
    → read_line (key_line ttl k) (between st)
      ≡ ok (record (between st) {
        zone = add (key_record st.origin ttl k) st.zone;
        last_name = st.origin;
      })
read_line-key_line ttl k st fits h =
    read_line-join_words (codes "@") (line_words ttl k) st (line_words-IsWord ttl k h)
    ∙ at_sign-read_entry (decimal ttl) (codes "IN" ∷ codes "DNSKEY" ∷ key_words k) (between st)
        (line_words-IsWord ttl k h)
    ∙ read_fields-line_words ttl k (between st) fits h
