-- ===== src/Proto/Dnssec/RoundTrip.antt =====
-- src/proto.rs: `parse_rrsig` and `parse_dnskey` on the bytes that signing writes.
use ironbind.Prelude.{◌^◌, ◌<◌, ◌≡◌, ap, [], ◌∷◌, ◌++◌, ok}
use ironbind.Prelude.Text.{Bytes}
use ironbind.Proto.Reader
use ironbind.Proto.Reader.{Reader, run}
use ironbind.Proto.Builder.{be16, be32}
use ironbind.Proto.Builder.Append.{name_bytes}
use ironbind.Proto.Reads.{
  ReadsLast, ReadsLast-bind, ReadsLast-bytes, Reads-u8, Reads-u16, Reads-u32,
}
use ironbind.Proto.RoundTrip.{IsName, Reads-IsName}
use ironbind.Proto.Dnssec.{Rrsig, Dnskey, parse_rrsig, parse_dnskey}

-- The fields fit their widths, and the signer is a name in lower case.
pub record IsRrsig (s : Rrsig) : Type 0 where
  pub type_fits : s.type_covered < 2 ^ 16
  pub ttl_fits : s.orig_ttl < 2 ^ 32
  pub expiry_fits : s.sig_expiry < 2 ^ 32
  pub inception_fits : s.sig_inception < 2 ^ 32
  pub tag_fits : s.key_tag < 2 ^ 16
  pub signer : IsName s.signer_name

unfoldable pub rrsig_bytes : Rrsig → Bytes
rrsig_bytes s =
    be16 s.type_covered
    ++ ((s.algorithm ∷ [])
        ++ ((s.labels ∷ [])
            ++ (be32 s.orig_ttl
                ++ (be32 s.sig_expiry
                    ++ (be32 s.sig_inception
                        ++ (be16 s.key_tag ++ (name_bytes s.signer_name ++ s.signature)))))))

run-ReadsLast {ℓ} :
    {A : Type ℓ} (m : Reader A) {w : Bytes} {v : A} → ReadsLast m w v → run m w ≡ ok v
run-ReadsLast m r = ap (λ p. p.0) (r.at [])

pub parse_rrsig-rrsig_bytes : (s : Rrsig) → IsRrsig s → parse_rrsig (rrsig_bytes s) ≡ ok s
unfolding parse_rrsig rrsig_bytes
parse_rrsig-rrsig_bytes s h = run-ReadsLast _ (
    ReadsLast-bind Reader.u16 _ (Reads-u16 s.type_covered h.type_fits) (
      ReadsLast-bind Reader.u8 _ (Reads-u8 s.algorithm) (
        ReadsLast-bind Reader.u8 _ (Reads-u8 s.labels) (
          ReadsLast-bind Reader.u32 _ (Reads-u32 s.orig_ttl h.ttl_fits) (
            ReadsLast-bind Reader.u32 _ (Reads-u32 s.sig_expiry h.expiry_fits) (
              ReadsLast-bind Reader.u32 _ (Reads-u32 s.sig_inception h.inception_fits) (
                ReadsLast-bind Reader.u16 _ (Reads-u16 s.key_tag h.tag_fits) (
                  ReadsLast-bind Reader.name _ (Reads-IsName s.signer_name h.signer)
                    (ReadsLast-bytes _ s.signature)))))))))

unfoldable pub dnskey_bytes : Dnskey → Bytes
dnskey_bytes k = be16 k.flags ++ ((k.protocol ∷ []) ++ ((k.algorithm ∷ []) ++ k.public_key))

pub parse_dnskey-dnskey_bytes :
    (k : Dnskey) → k.flags < 2 ^ 16 → parse_dnskey (dnskey_bytes k) ≡ ok k
unfolding parse_dnskey dnskey_bytes
parse_dnskey-dnskey_bytes k h = run-ReadsLast _ (
    ReadsLast-bind Reader.u16 _ (Reads-u16 k.flags h) (
      ReadsLast-bind Reader.u8 _ (Reads-u8 k.protocol)
        (ReadsLast-bind Reader.u8 _ (Reads-u8 k.algorithm) (ReadsLast-bytes _ k.public_key))))
