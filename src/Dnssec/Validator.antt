-- ===== src/Dnssec/Validator.antt =====
-- src/dnssec.rs: `Validator::validate_rrset` and `Validator::validate_dnskey_with_ds`.
-- The clock is read once.
use ironbind.Prelude.{
  ℕ, Bool, true, false, not, ◌&&◌, ◌||◌, Option, none, some, List, [], ◌∷◌, ◌++◌, ok, err, ltb,
  ◌==◌, if◌then◌else◌, find?, is_empty,
}
use ironbind.Prelude.Text.{Bytes, bytes_eq}
use ironbind.Proto.Packet.{Record}
use ironbind.Proto.Builder.{canonical_name}
use ironbind.Proto.Dnssec.{Rrsig, Ds, key_tag, parse_rrsig, parse_dnskey, parse_ds}
use ironbind.Dnssec.{
  digest_sha256, digest_sha384, signature_mismatch, no_valid_rrsig, digest_mismatch,
  ValidationResult, secure, insecure, bogus, Crypto,
}
use ironbind.Dnssec.Sha2.{sha256, sha384}
use ironbind.Dnssec.Signatures.{build_signed_data, verify_signature}

-- The signature is within its time.
abbrev pub is_current : ℕ → Rrsig → Bool
is_current now s = not (ltb now s.sig_inception) && not (ltb s.sig_expiry now)

-- The key has the tag and the algorithm of the signature.
abbrev pub matches : Rrsig → Record → Bool
matches s r = elim (parse_dnskey r.rdata) [
  | err e ↦ false
  | ok key ↦ key_tag r.rdata == s.key_tag && key.algorithm == s.algorithm
]

-- The loop over the signatures: the first that can be verified at all decides.
unfoldable pub try_signatures :
    Crypto → ℕ → List Record → List Record → List Record → ValidationResult
try_signatures c now rrset dnskeys [] = bogus no_valid_rrsig
try_signatures c now rrset dnskeys (r ∷ rs) =
    let rest = try_signatures c now rrset dnskeys rs in
    elim (parse_rrsig r.rdata) [
      | err e ↦ rest
      | ok s ↦
          let verified : ValidationResult = elim (find? (matches s) dnskeys) [
            | none ↦ rest
            | some key_record ↦ elim (parse_dnskey key_record.rdata) [
              | err e ↦ rest
              | ok key ↦
                  elim (verify_signature c s.algorithm key.public_key (build_signed_data s rrset)
                    s.signature) [
                      | err e ↦ rest
                      | ok true ↦ secure
                      | ok false ↦ bogus signature_mismatch
                    ]
            ]
          ] in
          if is_current now s then verified else rest
    ]

unfoldable pub validate_rrset :
    Crypto → ℕ → List Record → List Record → List Record → ValidationResult
unfolding try_signatures
validate_rrset c now rrset rrsigs dnskeys =
    if is_empty rrset || (is_empty rrsigs || is_empty dnskeys)
    then insecure
    else try_signatures c now rrset dnskeys rrsigs

-- The digest of a key for a DS of a type that passed the test.
abbrev ds_digest : ℕ → Record → Bytes
ds_digest digest_type r =
    let preimage = canonical_name r.name ++ r.rdata in
    if digest_type == digest_sha256 then sha256 preimage else sha384 preimage

-- The loop over the keys for one DS; `none` means that it goes on with the next DS.
unfoldable try_keys : Ds → List Record → Option ValidationResult
try_keys ds [] = none
try_keys ds (r ∷ rs) =
    let rest = try_keys ds rs in
    elim (parse_dnskey r.rdata) [
      | err e ↦ rest
      | ok key ↦
          if not (key_tag r.rdata == ds.key_tag) || not (key.algorithm == ds.algorithm)
          then rest
          else if bytes_eq (ds_digest ds.digest_type r) ds.digest
          then some secure
          else some (bogus (digest_mismatch ds.key_tag))
    ]

unfoldable pub validate_dnskey_with_ds : List Record → List Record → ValidationResult
unfolding try_keys
validate_dnskey_with_ds dnskeys [] = insecure
validate_dnskey_with_ds dnskeys (r ∷ rs) =
    let rest = validate_dnskey_with_ds dnskeys rs in
    elim (parse_ds r.rdata) [
      | err e ↦ rest
      | ok ds ↦
          let tried : ValidationResult = elim (try_keys ds dnskeys) [ none ↦ rest | some v ↦ v ] in
          if not (ds.digest_type == digest_sha256) && not (ds.digest_type == digest_sha384)
          then rest
          else tried
    ]
