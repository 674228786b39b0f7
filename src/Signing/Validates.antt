-- ===== src/Signing/Validates.antt =====
-- src/zone_signing.rs, src/dnssec.rs: `Validator::validate_rrset` on the signatures of `ZoneSigner`.
use ironbind.Prelude.{
  ℕ, ◌+◌, ◌*◌, ◌^◌, ◌<◌, ◌≤◌, ◌≡◌, ◌⊎◌, inl, inr, refl, sym, ap, ◌∙◌, true, Option, some, List, ◌∷◌,
  append_assoc, ok, arith, length, Option-cases,
}
use ironbind.Prelude.Text.{Bytes, to_ascii_lowercase}
use ironbind.Proto.RType.{to_u16}
use ironbind.Proto.Packet.{Record}
use ironbind.Proto.Builder
use ironbind.Proto.Builder.Append.{name-append}
use ironbind.Proto.RoundTrip.{IsName}
use ironbind.Proto.Dnssec
use ironbind.Proto.Dnssec.{Rrsig, key_tag, parse_rrsig, parse_dnskey}
use ironbind.Proto.Dnssec.RoundTrip.{
  IsRrsig, rrsig_bytes, parse_rrsig-rrsig_bytes, dnskey_bytes, parse_dnskey-dnskey_bytes,
}
use ironbind.Dnssec.{RsaHash, rsa_sha256, rsa_sha512, secure, Crypto}
use ironbind.Dnssec.Sha2
use ironbind.Dnssec.Signatures.{build_signed_data, verify_rsa, verify_signature}
use ironbind.Dnssec.Validator.{is_current, matches, try_signatures, validate_rrset}
use ironbind.Signing
use ironbind.Signing.{
  Rsa, DnsKey, ZoneSigner, unsigned, rrsig_rdata, public_rdata, dnskey_record, dnskey_rdata, tag_of,
  sign_data, sign_rrset_with_key,
}
use ironbind.Signing.Keys.{
  rsa_bytes, parse_rsa_pubkey-rsa_bytes, published, public_rdata-dnskey_bytes, key_tag_fits,
}

-- The two crates fit each other: what one signs the other verifies, and the digests of `sha2` are
-- those of the program. An exponent has 1 to 65535 bytes.
pub record Agrees {K : Type 0} (rsa : Rsa K) (c : Crypto) : Type 0 where
  pub verifies :
      (k : K) (h : RsaHash) (d s : Bytes)
      → rsa.sign k h d ≡ some s
      → c.rsa h (rsa.exponent k) (rsa.modulus k) d s ≡ some true
  pub same_sha256 : (m : Bytes) → rsa.sha256 m ≡ Sha2.sha256 m
  pub same_sha512 : (m : Bytes) → rsa.sha512 m ≡ Sha2.sha512 m
  pub exponent_pos : (k : K) → 0 < length (rsa.exponent k)
  pub exponent_fits : (k : K) → length (rsa.exponent k) < 2 ^ 16

rrsig_rdata-rrsig_bytes : (s : Rrsig) → rrsig_rdata s ≡ rrsig_bytes s
unfolding rrsig_rdata rrsig_bytes Builder.u8 Builder.u16 Builder.u32 Builder.raw
rrsig_rdata-rrsig_bytes s = simp (name-append, append_assoc)

-- The first signature decides, and the first key fits it.
try_signatures-secure :
    (c : Crypto) (now : ℕ) (rrset : List Record) (sig key_record : Record) (sigs keys : List Record)
    (s : Rrsig) (key : Dnssec.Dnskey)
    → parse_rrsig sig.rdata ≡ ok s
    → is_current now s ≡ true
    → parse_dnskey key_record.rdata ≡ ok key
    → matches s key_record ≡ true
    → verify_signature c s.algorithm key.public_key (build_signed_data s rrset) s.signature
      ≡ ok true
    → try_signatures c now rrset (key_record ∷ keys) (sig ∷ sigs) ≡ secure
unfolding try_signatures
try_signatures-secure c now rrset sig key_record sigs keys s key parsed current key_parsed fits
      verified =
    rw (parsed, current, fits, key_parsed, verified, try_signatures) refl

module _ {K : Type 0} (rsa : Rsa K) (c : Crypto) (agrees : Agrees rsa c) where
  -- What an RSA key signs is verified under its published form.
  verify_signature-sign_data :
      (key : DnsKey) (k : K) (message signature : Bytes)
      → (key.algorithm ≡ 8) ⊎ (key.algorithm ≡ 10)
      → rsa.decode key.private_key ≡ some k
      → sign_data rsa key message ≡ some signature
      → verify_signature c key.algorithm
          (rsa_bytes (rsa.exponent k) (rsa.modulus k))
          message
          signature
        ≡ ok true
  unfolding sign_data verify_signature
  verify_signature-sign_data key k message signature (inl e) decoded signed =
      let read =
        parse_rsa_pubkey-rsa_bytes (rsa.exponent k) (rsa.modulus k) (agrees.exponent_pos k)
          (agrees.exponent_fits k) in
      let made : rsa.sign k rsa_sha256 (rsa.sha256 message) ≡ some signature =
        rw (decoded, e, sign_data) at signed in
      let checked = agrees.verifies k rsa_sha256 (rsa.sha256 message) signature made in
      rw (e, read, verify_rsa, ← agrees.same_sha256 message, checked) refl
  verify_signature-sign_data key k message signature (inr e) decoded signed =
      let read =
        parse_rsa_pubkey-rsa_bytes (rsa.exponent k) (rsa.modulus k) (agrees.exponent_pos k)
          (agrees.exponent_fits k) in
      let made : rsa.sign k rsa_sha512 (rsa.sha512 message) ≡ some signature =
        rw (decoded, e, sign_data) at signed in
      let checked = agrees.verifies k rsa_sha512 (rsa.sha512 message) signature made in
      rw (e, read, verify_rsa, ← agrees.same_sha512 message, checked) refl

some_inj : {A : Type 0} (x y : A) → some x ≡ some y → x ≡ y
some_inj x y h = cc

module _ {K : Type 0} (rsa : Rsa K) (c : Crypto) (agrees : Agrees rsa c) (key : DnsKey) (k : K)
    (decoded : rsa.decode key.private_key ≡ some k) (flags_fit : key.flags < 2 ^ 16) where
  -- The published record, and its tag.
  abbrev rdata_of : Bytes
  rdata_of = dnskey_bytes (published rsa key k)

  rdata_known : dnskey_rdata rsa key ≡ some rdata_of
  unfolding dnskey_rdata
  rdata_known = rw decoded (ap some (public_rdata-dnskey_bytes rsa key k (agrees.exponent_fits k)))

  tag_known : (tag : ℕ) → tag_of rsa key ≡ some tag → key_tag rdata_of ≡ tag
  unfolding tag_of
  tag_known tag h = some_inj (key_tag rdata_of) tag (rw rdata_known at h)

  record_known : (ttl : ℕ) (r : Record) → dnskey_record rsa ttl key ≡ some r → rdata_of ≡ r.rdata
  unfolding dnskey_record
  record_known ttl r h = ap (λ (x : Record). x.rdata) (some_inj _ r (rw rdata_known at h))

  matches_known :
      (s : Rrsig) (r : Record)
      → rdata_of ≡ r.rdata
      → s.key_tag ≡ key_tag rdata_of
      → s.algorithm ≡ key.algorithm
      → matches s r ≡ true
  matches_known s r e t a =
      let parsed : parse_dnskey r.rdata ≡ ok (published rsa key k) =
        ap parse_dnskey (sym e) ∙ parse_dnskey-dnskey_bytes (published rsa key k) flags_fit in
      let tag : key_tag r.rdata ≡ s.key_tag = ap key_tag (sym e) ∙ sym t in ground arith

  -- Keys and signatures behind the first may be any.
  sign_rrset_with_key-secure :
      (signer : ZoneSigner) (first : Record) (rest : List Record) (zone_name : Bytes)
      (tag ttl now : ℕ) (sig key_record : Record) (sigs keys : List Record)
      → (key.algorithm ≡ 8) ⊎ (key.algorithm ≡ 10)
      → IsName (to_ascii_lowercase zone_name)
      → to_u16 first.rtype < 2 ^ 16
      → first.ttl < 2 ^ 32
      → signer.expiration < 2 ^ 32
      → signer.inception ≤ now
      → now ≤ signer.expiration
      → tag_of rsa key ≡ some tag
      → dnskey_record rsa ttl key ≡ some key_record
      → sign_rrset_with_key rsa signer key (first ∷ rest) zone_name tag ≡ some sig
      → validate_rrset c now (first ∷ rest) (sig ∷ sigs) (key_record ∷ keys) ≡ secure
  unfolding validate_rrset sign_rrset_with_key build_signed_data
  sign_rrset_with_key-secure signer first rest zone_name tag ttl now sig key_record sigs keys alg
        name type_fits ttl_fits expiry_fits from_time to_time tagged published_key signed =
      let s = unsigned signer key first zone_name tag in
      let message = build_signed_data s (first ∷ rest) in
      let tag_eq = tag_known tag tagged in
      elim (Option-cases (sign_data rsa key message)) [
        | inl failed ↦ let h = rw failed at signed in absurd (ground arith)
        | inr (signature, made) ↦
            let full : Rrsig = record s { signature = signature } in
            let same : rrsig_rdata full ≡ sig.rdata =
              ap (λ (x : Record). x.rdata) (some_inj _ sig (rw made at signed)) in
            let fits : IsRrsig full = record {
              type_fits = type_fits;
              ttl_fits = ttl_fits;
              expiry_fits = expiry_fits;
              inception_fits = omega arith;
              tag_fits = omega (arith, tag_eq, key_tag_fits rdata_of);
              signer = name;
            } in
            let parsed : parse_rrsig sig.rdata ≡ ok full =
              ap parse_rrsig (sym same ∙ rrsig_rdata-rrsig_bytes full)
              ∙ parse_rrsig-rrsig_bytes full fits in
            let key_data = record_known ttl key_record published_key in
            try_signatures-secure c now (first ∷ rest) sig key_record sigs keys full
              (published rsa key k) parsed (ground arith)
              (ap parse_dnskey (sym key_data)
                ∙ parse_dnskey-dnskey_bytes (published rsa key k) flags_fit)
              (matches_known full key_record key_data (sym tag_eq) refl)
              (verify_signature-sign_data rsa c agrees key k message signature alg decoded made)
      ]

  -- What a signer that was made at `created` signs with an RSA key validates under the published key,
  -- from an hour before to 30 days after, whatever other signatures and keys stand behind. The zone's
  -- name, the type and the TTL fit the wire, and the times 32 bits.
  pub validate_rrset-sign_rrset_with_key :
      (zsk : DnsKey) (ksk : Option DnsKey) (first : Record) (rest : List Record) (zone_name : Bytes)
      (tag ttl created now : ℕ) (sig key_record : Record) (sigs keys : List Record)
      → (key.algorithm ≡ 8) ⊎ (key.algorithm ≡ 10)
      → IsName (to_ascii_lowercase zone_name)
      → to_u16 first.rtype < 2 ^ 16
      → first.ttl < 2 ^ 32
      → created + 30 * 24 * 3600 < 2 ^ 32
      → created ≤ now + 3600
      → now ≤ created + 30 * 24 * 3600
      → tag_of rsa key ≡ some tag
      → dnskey_record rsa ttl key ≡ some key_record
      → sign_rrset_with_key rsa (Signing.new created zsk ksk) key (first ∷ rest) zone_name tag
        ≡ some sig
      → validate_rrset c now (first ∷ rest) (sig ∷ sigs) (key_record ∷ keys) ≡ secure
  unfolding Signing.new
  validate_rrset-sign_rrset_with_key zsk ksk first rest zone_name tag ttl created now sig key_record
        sigs keys alg name type_fits ttl_fits times_fit before after tagged published_key signed =
      sign_rrset_with_key-secure (Signing.new created zsk ksk) first rest zone_name tag ttl now sig
        key_record sigs keys alg name type_fits ttl_fits (omega arith) (omega arith) (omega arith)
        tagged published_key signed
