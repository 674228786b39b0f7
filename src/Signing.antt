-- ===== src/Signing.antt =====
-- src/zone_signing.rs: RRSIG records by RSA keys. The operations of the `rsa` and `sha2` crates are a
-- parameter.
pub mod Keys
pub mod Validates
use ironbind.Prelude.{
  ℕ, ◌+◌, ◌-◌, ◌*◌, ◌%◌, ◌^◌, Bool, not, Option, none, some, List, [], ◌∷◌, ◌++◌, leb, ◌==◌,
  if◌then◌else◌, length, filter, is_empty, bit_and,
}
use mathlib.Core.Option
use ironbind.Prelude.Text.{Bytes, codes, to_ascii_lowercase, trim_end_dots, split_dots, starts_with}
use ironbind.Proto.RType
use ironbind.Proto.RType.{to_u16}
use ironbind.Proto.Packet.{Record, class_in}
use ironbind.Proto.Builder
use ironbind.Proto.Builder.{◌▷◌}
use ironbind.Proto.Dnssec
use ironbind.Proto.Dnssec.{Rrsig}
use ironbind.Dnssec.{RsaHash, rsa_sha256, rsa_sha512}
use ironbind.Dnssec.Signatures.{build_signed_data}

-- `decode` reads a private key in PKCS#8 or PKCS#1 form; `none` stands for an error.
pub record Rsa (K : Type 0) : Type 0 where
  pub decode : Bytes → Option K
  pub exponent : K → Bytes
  pub modulus : K → Bytes
  pub sha256 : Bytes → Bytes
  pub sha512 : Bytes → Bytes
  pub sign : K → RsaHash → Bytes → Option Bytes

pub record DnsKey : Type 0 where
  pub flags : ℕ
  pub protocol : ℕ
  pub algorithm : ℕ
  pub private_key : Bytes
  pub key_name : Bytes

unfoldable is_ksk : DnsKey → Bool
is_ksk key = not (bit_and key.flags 0x0001 == 0)

unfoldable is_zsk : DnsKey → Bool
unfolding is_ksk
is_zsk key = not (is_ksk key)

-- What `from_pem_file` makes of the key that it read.
unfoldable pub from_der : Bytes → Bytes → DnsKey
from_der path der = record {
  flags = 256;
  protocol = 3;
  algorithm = 8;
  private_key = der;
  key_name = path;
}

pub record ZoneSigner : Type 0 where
  pub zsk : DnsKey
  pub ksk : Option DnsKey
  pub inception : ℕ
  pub expiration : ℕ

-- `ZoneSigner::new`, with the clock in seconds.
unfoldable pub new : ℕ → DnsKey → Option DnsKey → ZoneSigner
new clock zsk ksk =
    let now = clock % 2 ^ 32 in
    record {
      zsk = zsk;
      ksk = ksk;
      inception = now - 3600;
      expiration = (now + 30 * 24 * 3600) % 2 ^ 32;
    }

-- The labels of the owner, the root and a leading wildcard not counted.
unfoldable label_count : Bytes → ℕ
label_count name =
    let owner = trim_end_dots name in
    let all = length (filter (λ l. not (is_empty l)) (split_dots owner)) in
    (if starts_with owner (codes "*.") then all - 1 else all) % 256

-- The fields of the signature of a set whose first record is `first`.
unfoldable pub unsigned : ZoneSigner → DnsKey → Record → Bytes → ℕ → Rrsig
unfolding label_count
unsigned signer key first zone_name key_tag = record {
  type_covered = to_u16 first.rtype;
  algorithm = key.algorithm;
  labels = label_count first.name;
  orig_ttl = first.ttl;
  sig_expiry = signer.expiration;
  sig_inception = signer.inception;
  key_tag = key_tag;
  signer_name = to_ascii_lowercase zone_name;
  signature = [];
}

unfoldable pub rrsig_rdata : Rrsig → Bytes
unfolding Builder.u8 Builder.u16 Builder.u32 Builder.raw
rrsig_rdata s =
    []
    ▷ Builder.u16 s.type_covered
    ▷ Builder.u8 s.algorithm
    ▷ Builder.u8 s.labels
    ▷ Builder.u32 s.orig_ttl
    ▷ Builder.u32 s.sig_expiry
    ▷ Builder.u32 s.sig_inception
    ▷ Builder.u16 s.key_tag
    ▷ Builder.name s.signer_name
    ▷ Builder.raw s.signature

module _ {K : Type 0} (rsa : Rsa K) where
  -- RFC 3110: the length of the exponent, the exponent, the modulus.
  unfoldable pub public_rdata : DnsKey → K → Bytes
  unfolding Builder.u8 Builder.u16 Builder.raw
  public_rdata key k =
      let e = rsa.exponent k in
      let head = [] ▷ Builder.u16 key.flags ▷ Builder.u8 key.protocol ▷ Builder.u8 key.algorithm in
      (if leb (length e) 255
        then head ▷ Builder.u8 (length e % 256)
        else head ▷ Builder.u8 0 ▷ Builder.u16 (length e % 2 ^ 16))
      ▷ Builder.raw e
      ▷ Builder.raw (rsa.modulus k)

  unfoldable pub dnskey_rdata : DnsKey → Option Bytes
  unfolding public_rdata
  dnskey_rdata key = Option.map (public_rdata key) (rsa.decode key.private_key)

  unfoldable pub dnskey_record : ℕ → DnsKey → Option Record
  unfolding dnskey_rdata
  dnskey_record ttl key =
      Option.map
        (λ rdata. record {
          name = key.key_name;
          rtype = RType.dnskey;
          class = class_in;
          ttl = ttl;
          rdata = rdata;
        })
        (dnskey_rdata key)

  -- `DnsKey::key_tag`
  unfoldable pub tag_of : DnsKey → Option ℕ
  unfolding dnskey_rdata
  tag_of key = Option.map Dnssec.key_tag (dnskey_rdata key)

  unfoldable pub sign_data : DnsKey → Bytes → Option Bytes
  sign_data key message = elim (rsa.decode key.private_key) [
    | none ↦ none
    | some k ↦
        if key.algorithm == 8
        then rsa.sign k rsa_sha256 (rsa.sha256 message)
        else rsa.sign k rsa_sha512 (rsa.sha512 message)
  ]

  abbrev rrsig_record : Record → Rrsig → Bytes → Record
  rrsig_record first s signature = record {
    name = first.name;
    rtype = RType.rrsig;
    class = first.class;
    ttl = first.ttl;
    rdata = rrsig_rdata (record s { signature = signature });
  }

  unfoldable pub sign_rrset_with_key : ZoneSigner → DnsKey → List Record → Bytes → ℕ → Option Record
  unfolding unsigned sign_data rrsig_rdata
  sign_rrset_with_key signer key [] zone_name key_tag = none
  sign_rrset_with_key signer key (first ∷ rest) zone_name key_tag =
      let s = unsigned signer key first zone_name key_tag in
      Option.map (rrsig_record first s) (sign_data key (build_signed_data s (first ∷ rest)))

  unfoldable pub sign_rrset : ZoneSigner → List Record → Bytes → ℕ → Option Record
  unfolding sign_rrset_with_key
  sign_rrset signer rrset zone_name key_tag =
      sign_rrset_with_key signer signer.zsk rrset zone_name key_tag
