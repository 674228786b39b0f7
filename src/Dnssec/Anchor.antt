-- ===== src/Dnssec/Anchor.antt =====
-- src/anchor.rs: the trust anchors of the root. `digest` is what `hex::decode` makes of the literal.
use ironbind.Prelude.{ℕ, List, [], ◌∷◌, map}
use ironbind.Prelude.Text.{Bytes, dot}
use ironbind.Proto.RType
use ironbind.Proto.Packet.{Record, class_in}
use ironbind.Proto.Builder
use ironbind.Proto.Builder.{◌▷◌}
use ironbind.Dnssec.{ValidationResult}
use ironbind.Dnssec.Validator.{validate_dnskey_with_ds}

pub record RootAnchor : Type 0 where
  pub key_tag : ℕ
  pub algorithm : ℕ
  pub digest_type : ℕ
  pub digest : Bytes

abbrev ksk_2017 : Bytes
ksk_2017 =
    0xe0 ∷ 0x6d ∷ 0x44 ∷ 0xb8 ∷ 0x0b ∷ 0x8f ∷ 0x1d ∷ 0x39 ∷ 0xa9 ∷ 0x5c ∷ 0x0b ∷ 0x0d ∷ 0x7c ∷ 0x65
    ∷ 0xd0 ∷ 0x84 ∷ 0x58 ∷ 0xe8 ∷ 0x80 ∷ 0x40 ∷ 0x9b ∷ 0xbc ∷ 0x68 ∷ 0x34 ∷ 0x57 ∷ 0x10 ∷ 0x42
    ∷ 0x37 ∷ 0xc7 ∷ 0xf8 ∷ 0xec ∷ 0x8d ∷ []

abbrev ksk_2024 : Bytes
ksk_2024 =
    0x68 ∷ 0x3d ∷ 0x2d ∷ 0x0a ∷ 0xcb ∷ 0x8c ∷ 0x9b ∷ 0x71 ∷ 0x2a ∷ 0x19 ∷ 0x48 ∷ 0xb2 ∷ 0x7f ∷ 0x74
    ∷ 0x12 ∷ 0x19 ∷ 0x29 ∷ 0x8d ∷ 0x0a ∷ 0x45 ∷ 0x0d ∷ 0x61 ∷ 0x2c ∷ 0x48 ∷ 0x3a ∷ 0xf4 ∷ 0x44
    ∷ 0xa4 ∷ 0xc0 ∷ 0xfb ∷ 0x2b ∷ 0x16 ∷ []

abbrev root_anchors : List RootAnchor
root_anchors =
    record { key_tag = 20326; algorithm = 8; digest_type = 2; digest = ksk_2017 }
    ∷ record { key_tag = 38696; algorithm = 8; digest_type = 2; digest = ksk_2024 }
    ∷ []

unfoldable as_ds_record : RootAnchor → Record
unfolding Builder.u8 Builder.u16 Builder.raw
as_ds_record a = record {
  name = dot ∷ [];
  rtype = RType.ds;
  class = class_in;
  ttl = 172800;
  rdata =
      []
      ▷ Builder.u16 a.key_tag
      ▷ Builder.u8 a.algorithm
      ▷ Builder.u8 a.digest_type
      ▷ Builder.raw a.digest;
}

unfoldable pub validate_root_dnskeys : List Record → ValidationResult
unfolding as_ds_record
validate_root_dnskeys dnskeys = validate_dnskey_with_ds dnskeys (map as_ds_record root_anchors)
