-- ===== src/Tests/SignedSets.antt =====
-- A set of records signed with a toy key, whose signature is the digest itself.
use ironbind.Prelude.{ℕ, ◌≡◌, refl, ap, true, Option, none, some, [], ◌∷◌, arith, inl}
use ironbind.Prelude.Text.{Bytes, codes, bytes_eq, bytes_eq_self, lower, is_utf8, join_dots}
use ironbind.Prelude.Assoc.{insert, lookup}
use ironbind.Prelude.Sort.{sort_by}
use ironbind.Proto.RType
use ironbind.Proto.Packet.{Record, class_in}
use ironbind.Proto.Dnssec
use ironbind.Proto.Dnssec.{key_tag}
use ironbind.Proto.Names.{IsLabel}
use ironbind.Proto.RoundTrip.{IsName}
use ironbind.Dnssec.{secure, Crypto}
use ironbind.Dnssec.Sha2
use ironbind.Dnssec.Signatures.{build_signed_data}
use ironbind.Dnssec.Validator.{validate_rrset}
use ironbind.Signing
use ironbind.Signing.{
  Rsa, DnsKey, unsigned, rrsig_rdata, public_rdata, dnskey_record, tag_of, sign_rrset,
  sign_rrset_with_key, from_der,
}
use ironbind.Zone
use ironbind.Zone.{Zone, add, iter_rrsets, build_nsec_chain}
use ironbind.ZoneManager.Sign.{nsec_ttl, signed_zone}
use ironbind.ZoneManager.Signed.{Among, held_at, signed_zone-Validates}
use ironbind.Signing.Validates.{Agrees, validate_rrset-sign_rrset_with_key}

abbrev toy : Rsa (Unit {0})
toy = record {
  decode = λ der. some tt;
  exponent = λ k. 1 ∷ 0 ∷ 1 ∷ [];
  modulus = λ k. 7 ∷ 7 ∷ [];
  sha256 = Sha2.sha256;
  sha512 = Sha2.sha512;
  sign = λ k h d. some d;
}

abbrev checker : Crypto
checker = record {
  rsa = λ h e n d s. some (bytes_eq d s);
  p256 = λ k m s. none;
  p384 = λ k m s. none;
  ed25519 = λ k m s. none;
}

digest_is_signature : (d s : Bytes) → some d ≡ some s → some (bytes_eq d s) ≡ some true
digest_is_signature d s h = let e : d ≡ s = cc in rw e (ap some (bytes_eq_self s))

toy-Agrees : Agrees toy checker
toy-Agrees = record {
  verifies = λ k h d s e. digest_is_signature d s e;
  same_sha256 = λ m. refl;
  same_sha512 = λ m. refl;
  exponent_pos = λ k. omega arith;
  exponent_fits = λ k. omega arith;
}

abbrev zone_key : DnsKey
zone_key = from_der (codes "ex") (1 ∷ [])

abbrev address : Record
address = record {
  name = codes "www.ex";
  rtype = RType.a;
  class = class_in;
  ttl = 300;
  rdata = 203 ∷ 0 ∷ 113 ∷ 10 ∷ [];
}

abbrev tag : ℕ
tag = key_tag (public_rdata toy zone_key tt)

abbrev key_record : Record
key_record = record {
  name = codes "ex";
  rtype = RType.dnskey;
  class = class_in;
  ttl = 3600;
  rdata = public_rdata toy zone_key tt;
}

abbrev fields : Dnssec.Rrsig
fields = unsigned (Signing.new 100000 zone_key none) zone_key address (codes "ex") tag

abbrev signature_record : Record
signature_record = record {
  name = codes "www.ex";
  rtype = RType.rrsig;
  class = class_in;
  ttl = 300;
  rdata =
      rrsig_rdata
        (record fields { signature = Sha2.sha256 (build_signed_data fields (address ∷ [])) });
}

ex-IsLabel : IsLabel (codes "ex")
unfolding lower is_utf8
ex-IsLabel = record {
  nonempty = omega arith;
  short = omega arith;
  no_dot = ground arith;
  is_lower = refl;
  is_text = refl;
}

ex-IsName : IsName (codes "ex")
unfolding join_dots
ex-IsName = record { labels = codes "ex" ∷ []; all = (ex-IsLabel, tt); is_joined = refl }

tagged : tag_of toy zone_key ≡ some tag
unfolding tag_of
tagged = refl

published : dnskey_record toy 3600 zone_key ≡ some key_record
unfolding dnskey_record from_der
published = refl

signed :
    sign_rrset_with_key toy
      (Signing.new 100000 zone_key none)
      zone_key
      (address ∷ [])
      (codes "ex")
      tag
    ≡ some signature_record
unfolding sign_rrset_with_key from_der
signed = refl

validate_rrset-sign_rrset_with_key_example :
    validate_rrset checker 200000 (address ∷ []) (signature_record ∷ []) (key_record ∷ []) ≡ secure
unfolding from_der lower RType.to_u16
validate_rrset-sign_rrset_with_key_example =
    validate_rrset-sign_rrset_with_key toy checker toy-Agrees zone_key tt refl (omega arith)
      zone_key none address [] (codes "ex") tag 3600 100000 200000 signature_record key_record [] []
      (inl refl) ex-IsName (omega arith) (omega arith) (omega arith) (omega arith) (omega arith)
      tagged published signed

abbrev plain : Zone
plain = add address (Zone.new (codes "ex"))

abbrev signed_plain : Zone × Option ℕ
signed_plain = signed_zone toy (Signing.new 100000 zone_key none) (codes "ex") tag none plain

plain_set : Among (address ∷ []) (iter_rrsets (build_nsec_chain (nsec_ttl plain) plain))
unfolding iter_rrsets build_nsec_chain sort_by Zone.new insert bytes_eq lower RType.to_u16 lookup
plain_set = inl refl

plain_signed : signed_plain ≡ (signed_plain.0, some 2)
unfolding signed_zone iter_rrsets build_nsec_chain sort_by Zone.new insert bytes_eq lower
    RType.to_u16 lookup RType.rtype_eq sign_rrset Signing.new from_der
plain_signed = refl

signed_zone-Validates_example :
    Among signature_record (held_at signed_plain.0 (codes "www.ex") RType.rrsig)
    × (validate_rrset checker 200000 (address ∷ []) (signature_record ∷ []) (key_record ∷ [])
        ≡ secure)
unfolding from_der lower RType.to_u16 sign_rrset Signing.new
signed_zone-Validates_example =
    signed_zone-Validates toy checker toy-Agrees zone_key tt refl (omega arith) none none plain
      signed_plain.0 2 address [] (codes "ex") tag 3600 100000 200000 signature_record key_record
      (inl refl) ex-IsName (omega arith) (omega arith) (omega arith) (omega arith) (omega arith)
      tagged published plain_set signed plain_signed
