-- ===== src/Dnssec/Signatures.antt =====
-- src/dnssec.rs: the data that a signature covers, and its verification.
use ironbind.Prelude.{
  ℕ, zero, suc, ◌*◌, ◌^◌, Bool, not, Option, none, some, List, [], ◌∷◌, ◌++◌, map, concat, Result,
  ok, err, ltb, ◌==◌, if◌then◌else◌, length, take, drop, bit_or,
}
use ironbind.Prelude.Text.{Bytes, bytes_cmp}
use ironbind.Prelude.Sort.{sort_by}
use ironbind.Proto.Packet.{Record}
use ironbind.Proto.Builder
use ironbind.Proto.Builder.{◌▷◌, canonical_rr}
use ironbind.Proto.Dnssec.{Rrsig}
use ironbind.Dnssec.{
  alg_rsamd5, alg_rsasha256, alg_rsasha512, alg_ecdsap256sha256, alg_ecdsap384sha384, alg_ed25519,
  RsaHash, rsa_sha256, rsa_sha512, Crypto,
}
use ironbind.Dnssec.Sha2.{sha256, sha512}

-- The fields of an RRSIG without the signature.
unfoldable rrsig_fields : Rrsig → Bytes
unfolding Builder.u8 Builder.u16 Builder.u32 Builder.name
rrsig_fields s =
    []
    ▷ Builder.u16 s.type_covered
    ▷ Builder.u8 s.algorithm
    ▷ Builder.u8 s.labels
    ▷ Builder.u32 s.orig_ttl
    ▷ Builder.u32 s.sig_expiry
    ▷ Builder.u32 s.sig_inception
    ▷ Builder.u16 s.key_tag
    ▷ Builder.name s.signer_name

unfoldable pub build_signed_data : Rrsig → List Record → Bytes
unfolding rrsig_fields
build_signed_data s rrset =
    rrsig_fields s
    ++ concat (sort_by bytes_cmp (map (λ r. canonical_rr (record r { ttl = s.orig_ttl })) rrset))

pub data VerifyError : Type 0 where
  empty_key short_key short_exponent bad_key wrong_key_length wrong_signature_length : VerifyError
  prohibited : VerifyError
  unsupported : ℕ → VerifyError

-- The length of the exponent stands in the first byte, or in the two behind a first byte 0.
unfoldable pub parse_rsa_pubkey : Bytes → Result (Bytes × Bytes) VerifyError
parse_rsa_pubkey [] = err empty_key
parse_rsa_pubkey (zero ∷ hi ∷ lo ∷ rest) =
    let len = bit_or (hi * 2 ^ 8) lo in
    if ltb (length rest) len then err short_exponent else ok (take len rest, drop len rest)
parse_rsa_pubkey (zero ∷ hi ∷ []) = err short_key
parse_rsa_pubkey (zero ∷ []) = err short_key
parse_rsa_pubkey (suc n ∷ rest) =
    if ltb (length rest) (suc n)
    then err short_exponent
    else ok (take (suc n) rest, drop (suc n) rest)

abbrev or_bad_key : Option Bool → Result Bool VerifyError
or_bad_key none = err bad_key
or_bad_key (some b) = ok b

unfoldable pub verify_rsa : Crypto → RsaHash → Bytes → Bytes → Bytes → Result Bool VerifyError
unfolding parse_rsa_pubkey
verify_rsa c hash pubkey message signature = elim (parse_rsa_pubkey pubkey) [
  | err e ↦ err e
  | ok key ↦ or_bad_key (
      c.rsa hash key.0 key.1
        (elim hash [ rsa_sha256 ↦ sha256 message | rsa_sha512 ↦ sha512 message ]) signature)
]

-- A key and a signature of fixed lengths.
abbrev verify_sized :
    ℕ → ℕ → (Bytes → Bytes → Bytes → Option Bool) → Bytes → Bytes → Bytes → Result Bool VerifyError
verify_sized key_length signature_length verify pubkey message signature =
    if not (length pubkey == key_length)
    then err wrong_key_length
    else if not (length signature == signature_length)
    then err wrong_signature_length
    else or_bad_key (verify pubkey message signature)

-- The ECDSA keys go to the crate as 0x04 || Qx || Qy.
unfoldable pub verify_signature : Crypto → ℕ → Bytes → Bytes → Bytes → Result Bool VerifyError
unfolding verify_rsa
verify_signature c algorithm pubkey message signature =
    if algorithm == alg_rsasha256
    then verify_rsa c rsa_sha256 pubkey message signature
    else if algorithm == alg_rsasha512
    then verify_rsa c rsa_sha512 pubkey message signature
    else if algorithm == alg_ecdsap256sha256
    then verify_sized 64 64 (λ k. c.p256 (4 ∷ k)) pubkey message signature
    else if algorithm == alg_ecdsap384sha384
    then verify_sized 96 96 (λ k. c.p384 (4 ∷ k)) pubkey message signature
    else if algorithm == alg_ed25519
    then verify_sized 32 64 c.ed25519 pubkey message signature
    else if algorithm == alg_rsamd5
    then err prohibited
    else err (unsupported algorithm)
