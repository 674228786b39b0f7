-- ===== src/Signing/Keys.antt =====
-- src/zone_signing.rs, src/dnssec.rs: the DNSKEY data of an RSA key, as validators read it.
use ironbind.Prelude.{
  ◌*◌, ◌/◌, ◌%◌, ◌^◌, ◌<◌, ◌≡◌, refl, ap, ◌∙◌, false, [], ◌∷◌, ◌++◌, ok, arith, ltb, leb,
  if◌then◌else◌, length, take, drop, length-append, take-append, drop-append, bit_or, Bool-cases,
  inl, inr,
}
use ironbind.Prelude.Text.{Bytes}
use ironbind.Prelude.Bits.{bit_or_shifted, bit_and-le}
use ironbind.Proto.Builder
use ironbind.Proto.Builder.{be16}
use ironbind.Proto.Dnssec
use ironbind.Proto.Dnssec.{key_tag}
use ironbind.Proto.Dnssec.RoundTrip.{dnskey_bytes}
use ironbind.Dnssec.Signatures.{parse_rsa_pubkey}
use ironbind.Signing.{Rsa, DnsKey, public_rdata}

-- The public key of RFC 3110.
unfoldable pub rsa_bytes : Bytes → Bytes → Bytes
rsa_bytes e m = if leb (length e) 255 then length e ∷ e ++ m else 0 ∷ be16 (length e) ++ (e ++ m)

split_at :
    (e m : Bytes)
    → ◌≡◌ {A = Bytes × Bytes} (take (length e) (e ++ m), drop (length e) (e ++ m)) (e, m)
split_at e m = rw (take-append, drop-append) refl

-- An exponent of 1 to 65535 bytes is read back.
pub parse_rsa_pubkey-rsa_bytes :
    (e m : Bytes) → 0 < length e → length e < 2 ^ 16 → parse_rsa_pubkey (rsa_bytes e m) ≡ ok (e, m)
unfolding parse_rsa_pubkey rsa_bytes
parse_rsa_pubkey-rsa_bytes [] m h k = absurd (omega arith)
parse_rsa_pubkey-rsa_bytes (x ∷ e) m h k = elim (Bool-cases (leb (length (x ∷ e)) 255)) [
  | inl short ↦
      let enough : ltb (length (x ∷ e ++ m)) (length (x ∷ e)) ≡ false =
        ground (arith, length-append {0} (x ∷ e) m) in
      rw (short, enough) (ap ok (split_at (x ∷ e) m))
  | inr long ↦
      let size : bit_or (length (x ∷ e) / 2 ^ 8 % 256 * 2 ^ 8) (length (x ∷ e) % 256)
          ≡ length (x ∷ e) =
        bit_or_shifted 8 (length (x ∷ e) / 2 ^ 8 % 256) (length (x ∷ e) % 256) (omega arith)
        ∙ omega arith in
      let enough : ltb (length (x ∷ e ++ m)) (length (x ∷ e)) ≡ false =
        ground (arith, length-append {0} (x ∷ e) m) in
      rw (long, size, enough) (ap ok (split_at (x ∷ e) m))
]

module _ {K : Type 0} (rsa : Rsa K) (key : DnsKey) (k : K) where
  -- The key that validators read.
  abbrev pub published : Dnssec.Dnskey
  published = record {
    flags = key.flags;
    protocol = key.protocol;
    algorithm = key.algorithm;
    public_key = rsa_bytes (rsa.exponent k) (rsa.modulus k);
  }

  pub public_rdata-dnskey_bytes :
      length (rsa.exponent k) < 2 ^ 16 → public_rdata rsa key k ≡ dnskey_bytes published
  unfolding public_rdata dnskey_bytes rsa_bytes Builder.u8 Builder.u16 Builder.raw
  public_rdata-dnskey_bytes h =
      let small : length (rsa.exponent k) % 2 ^ 16 ≡ length (rsa.exponent k) = omega arith in
      elim (Bool-cases (leb (length (rsa.exponent k)) 255)) [
        | inl short ↦
            let byte : length (rsa.exponent k) % 256 ≡ length (rsa.exponent k) = ground arith in
            rw (short, byte) refl
        | inr long ↦ rw (long, small) refl
      ]

pub key_tag_fits : (b : Bytes) → key_tag b < 2 ^ 16
unfolding key_tag
key_tag_fits b = omega (arith, bit_and-le _ 0xffff)
