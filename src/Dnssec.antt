-- ===== src/Dnssec.antt =====
-- src/dnssec.rs: the algorithms, what a validation comes to, and the public-key operations of other
-- crates, which are parameters.
pub mod Sha2
pub mod Signatures
pub mod Validator
pub mod Anchor
pub mod Chain
pub mod Labels
pub mod Trust
use ironbind.Prelude.{ℕ, Bool, Option}
use ironbind.Prelude.Text.{Bytes}

abbrev pub alg_rsamd5 : ℕ
alg_rsamd5 = 1

abbrev pub alg_rsasha256 : ℕ
alg_rsasha256 = 8

abbrev pub alg_rsasha512 : ℕ
alg_rsasha512 = 10

abbrev pub alg_ecdsap256sha256 : ℕ
alg_ecdsap256sha256 = 13

abbrev pub alg_ecdsap384sha384 : ℕ
alg_ecdsap384sha384 = 14

abbrev pub alg_ed25519 : ℕ
alg_ed25519 = 15

abbrev pub digest_sha256 : ℕ
digest_sha256 = 2

abbrev pub digest_sha384 : ℕ
digest_sha384 = 4

-- Why a validation is bogus: the texts of the source, with what they quote.
pub data Reason : Type 0 where
  signature_mismatch no_valid_rrsig no_root_keys root_keys_unknown : Reason
  digest_mismatch : ℕ → Reason
  ds_invalid no_dnskey dnskey_unchained dnskey_unsigned : Bytes → Reason

pub data ValidationResult : Type 0 where
  secure insecure indeterminate : ValidationResult
  bogus : Reason → ValidationResult

pub data RsaHash : Type 0 where
  rsa_sha256 rsa_sha512 : RsaHash

-- Verification by the crates. `none` means that the key or the form of the signature is refused. RSA
-- takes the exponent, the modulus, the digest and the signature; the others the key, the message and
-- the signature.
pub record Crypto : Type 0 where
  pub rsa : RsaHash → Bytes → Bytes → Bytes → Bytes → Option Bool
  pub p256 : Bytes → Bytes → Bytes → Option Bool
  pub p384 : Bytes → Bytes → Bytes → Option Bool
  pub ed25519 : Bytes → Bytes → Bytes → Option Bool
