-- ===== src/Zone/Master/ShortMx.antt =====
-- src/zone.rs: `build_rdata` on an MX record that names no exchange.
use ironbind.Prelude.{ℕ, ◌^◌, ◌<◌, ◌≡◌, refl, false, List, [], ◌∷◌, ◌++◌, ok, err, All, arith}
use ironbind.Prelude.Text.{codes, bytes_eq}
use ironbind.Prelude.Chars.{Chars, lines, upper, parse_unsigned}
use ironbind.Zone.{Zone}
use ironbind.Zone.Master.Decode.{panicked}
use ironbind.Zone.Master.Rdata.{mx_rdata, build_rdata, is_type, is_class, unit_seconds}
use ironbind.Zone.Master.Words.{IsWord, join_words}
use ironbind.Zone.Master.Lines.{lines-join_words}
use ironbind.Zone.Master.Decimal.{decimal, decimal-IsWord, parse_unsigned-decimal}
use ironbind.Zone.Master.KeyLine.{read_line-join_words, at_sign-read_entry}
use ironbind.Zone.Master.Keys.{Keys, AreKeys, key_file, add_keys, read_lines-key_file}
use ironbind.Zone.Master.{
  panics, Loading, at_start, take_ttl, skip_class, read_typed, read_fields, read_lines, load_file,
}

abbrev mx_words : ℕ → List Chars
mx_words pref = codes "IN" ∷ codes "MX" ∷ decimal pref ∷ []

-- The line of an MX record with a preference and no exchange.
abbrev pub short_mx : ℕ → Chars
short_mx pref = join_words (codes "@" ∷ mx_words pref)

mx_words-IsWord : (pref : ℕ) → All IsWord (codes "@" ∷ mx_words pref)
mx_words-IsWord pref = (
  (refl, (refl, _)),
  ((refl, (refl, (refl, _))), ((refl, (refl, (refl, _))), (decimal-IsWord pref, _))),
)

build_rdata-short :
    (pref : ℕ) (st : Loading)
    → pref < 2 ^ 16
    → build_rdata (codes "MX") (decimal pref ∷ []) st.origin ≡ err panicked
unfolding build_rdata bytes_eq mx_rdata
build_rdata-short pref st h = rw (parse_unsigned-decimal (2 ^ 16) pref h (omega arith)) refl

read_typed-short :
    (pref : ℕ) (st : Loading)
    → pref < 2 ^ 16
    → read_typed st.origin st.default_ttl (codes "MX" ∷ decimal pref ∷ []) st ≡ err panics
unfolding read_typed upper bytes_eq
read_typed-short pref st h = rw (read_typed, build_rdata-short pref st h) refl

read_fields-short :
    (pref : ℕ) (st : Loading)
    → pref < 2 ^ 16
    → read_fields false (codes "@" ∷ mx_words pref) st ≡ err panics
unfolding read_fields is_type is_class bytes_eq upper take_ttl skip_class parse_unsigned
    unit_seconds
read_fields-short pref st h = read_typed-short pref (record st { last_name = st.origin }) h

read_lines-short_mx :
    (pref : ℕ) (rest : List Chars) (z : Zone)
    → pref < 2 ^ 16
    → read_lines (short_mx pref ∷ rest) (at_start z) ≡ err panics
unfolding read_lines
read_lines-short_mx pref rest z h =
    let words = mx_words-IsWord pref in
    rw
      (
        read_lines,
        read_line-join_words (codes "@") (mx_words pref) (at_start z) words,
        at_sign-read_entry (codes "IN") (codes "MX" ∷ decimal pref ∷ []) (at_start z) words,
        read_fields-short pref (at_start z) h,
      )
      refl

-- A master file with an MX record at the apex that has a 16-bit preference and no exchange panics
-- the loader, whatever keys the lines before it have and whatever text stands behind it.
pub load_file-short_mx :
    (ks : Keys) (pref : ℕ) (rest : Chars) (z : Zone)
    → AreKeys ks
    → pref < 2 ^ 16
    → load_file (ok (key_file ks ++ (short_mx pref ++ (10 ∷ rest)))) z ≡ err panics
unfolding load_file
load_file-short_mx ks pref rest z hk h =
    rw
      (
        load_file,
        read_lines-key_file ks (short_mx pref ++ (10 ∷ rest)) z hk,
        lines-join_words (codes "@" ∷ mx_words pref) rest (mx_words-IsWord pref),
        read_lines-short_mx pref (lines rest) (add_keys ks z) h,
      )
      refl
