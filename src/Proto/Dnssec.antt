-- ===== src/Proto/Dnssec.antt =====
-- src/proto.rs: the RRSIG, DNSKEY and DS data, and the key tag of RFC 4034, Appendix B.
pub mod RoundTrip
use ironbind.Prelude.{
  ℕ, ◌+◌, ◌*◌, ◌/◌, ◌%◌, ◌^◌, Bool, true, not, [], ◌∷◌, Result, ◌==◌, if◌then◌else◌, bit_and,
}
use ironbind.Prelude.Text.{Bytes}
use ironbind.Proto.Reader.{IoError, Reader, ◌>>=◌, pure, run, u8, u16, u32, name, bytes, remaining}

pub record Rrsig : Type 0 where
  pub type_covered : ℕ
  pub algorithm : ℕ
  pub labels : ℕ
  pub orig_ttl : ℕ
  pub sig_expiry : ℕ
  pub sig_inception : ℕ
  pub key_tag : ℕ
  pub signer_name : Bytes
  pub signature : Bytes

pub record Dnskey : Type 0 where
  pub flags : ℕ
  pub protocol : ℕ
  pub algorithm : ℕ
  pub public_key : Bytes

unfoldable is_zone_key : Dnskey → Bool
is_zone_key k = not (bit_and k.flags 0x0100 == 0)

unfoldable is_sep : Dnskey → Bool
is_sep k = not (bit_and k.flags 0x0001 == 0)

-- The sum of the bytes, those at even places shifted: `even` tells where the list starts.
unfoldable tag_sum : Bool → ℕ → Bytes → ℕ
tag_sum even ac [] = ac
tag_sum even ac (b ∷ bs) = tag_sum (not even) ((ac + (if even then b * 2 ^ 8 else b)) % 2 ^ 32) bs

-- `Dnskey::key_tag`, and `compute_key_tag` of zone_signing.rs, which is the same code.
unfoldable pub key_tag : Bytes → ℕ
unfolding tag_sum
key_tag rdata = let ac = tag_sum true 0 rdata in bit_and ((ac + ac / 2 ^ 16) % 2 ^ 32) 0xffff

pub record Ds : Type 0 where
  pub key_tag : ℕ
  pub algorithm : ℕ
  pub digest_type : ℕ
  pub digest : Bytes

read_rrsig : Reader Rrsig
read_rrsig = do
  type_covered ← u16
  algorithm ← u8
  labels ← u8
  orig_ttl ← u32
  sig_expiry ← u32
  sig_inception ← u32
  key_tag ← u16
  signer_name ← name
  left ← remaining
  signature ← bytes left
  pure (record {
    type_covered = type_covered;
    algorithm = algorithm;
    labels = labels;
    orig_ttl = orig_ttl;
    sig_expiry = sig_expiry;
    sig_inception = sig_inception;
    key_tag = key_tag;
    signer_name = signer_name;
    signature = signature;
  })

unfoldable pub parse_rrsig : Bytes → Result Rrsig IoError
unfolding read_rrsig
parse_rrsig = run read_rrsig

read_dnskey : Reader Dnskey
read_dnskey = do
  flags ← u16
  protocol ← u8
  algorithm ← u8
  left ← remaining
  public_key ← bytes left
  pure (record {
    flags = flags;
    protocol = protocol;
    algorithm = algorithm;
    public_key = public_key;
  })

unfoldable pub parse_dnskey : Bytes → Result Dnskey IoError
unfolding read_dnskey
parse_dnskey = run read_dnskey

read_ds : Reader Ds
read_ds = do
  tag ← u16
  algorithm ← u8
  digest_type ← u8
  left ← remaining
  digest ← bytes left
  pure (record { key_tag = tag; algorithm = algorithm; digest_type = digest_type; digest = digest })

unfoldable pub parse_ds : Bytes → Result Ds IoError
unfolding read_ds
parse_ds = run read_ds
