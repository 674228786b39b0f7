-- ===== src/Tests/Validating.antt =====
-- A chain of delegations that starts at the root key of 2017.
use ironbind.Prelude.{ℕ, ◌+◌, ◌≡◌, ◌≢◌, refl, arith, true, some, [], ◌∷◌}
use ironbind.Prelude.Text.{
  Bytes, codes, dot, bytes_eq, trim_end_dots, lower, split_dots, is_utf8, bytes_cmp, join_dots,
}
use ironbind.Prelude.Sort.{sort_by}
use ironbind.Proto.Reader
use ironbind.Proto.Reader.{u8, u16, u32, remaining, bytes, label_text}
use ironbind.Proto.Builder.{canonical_name, canonical_rr}
use ironbind.Proto.Dnssec.{parse_ds, parse_dnskey, parse_rrsig, key_tag}
use ironbind.Dnssec.Sha2.{sha256}
use ironbind.Dnssec.Signatures.{build_signed_data, verify_signature}
use ironbind.Dnssec.Validator.{validate_rrset, validate_dnskey_with_ds}
use ironbind.Proto.RType.{RType, rtype_eq, to_u16}
use ironbind.Proto.Packet.{Record, class_in}
use ironbind.Prelude.{if◌then◌else◌}
use ironbind.Dnssec.{Crypto, secure}
use ironbind.Dnssec.Anchor.{validate_root_dnskeys}
use ironbind.Dnssec.Chain.{Fetch, chain_validate}
use ironbind.Dnssec.Trust.{Secured, chain_validate-Secured, chain_validate-ne-secure}

-- KSK-2017.
abbrev root_rdata : Bytes
root_rdata =
    1 ∷ 1 ∷ 3 ∷ 8 ∷ 3 ∷ 1 ∷ 0 ∷ 1 ∷ 172 ∷ 255 ∷ 180 ∷ 9 ∷ 188 ∷ 201 ∷ 57 ∷ 248 ∷ 49 ∷ 247 ∷ 161
    ∷ 229 ∷ 236 ∷ 136 ∷ 247 ∷ 165 ∷ 146 ∷ 85 ∷ 236 ∷ 83 ∷ 4 ∷ 11 ∷ 228 ∷ 50 ∷ 2 ∷ 115 ∷ 144 ∷ 164
    ∷ 206 ∷ 137 ∷ 109 ∷ 111 ∷ 144 ∷ 134 ∷ 243 ∷ 197 ∷ 225 ∷ 119 ∷ 251 ∷ 254 ∷ 17 ∷ 129 ∷ 99 ∷ 170
    ∷ 236 ∷ 122 ∷ 241 ∷ 70 ∷ 44 ∷ 71 ∷ 148 ∷ 89 ∷ 68 ∷ 196 ∷ 226 ∷ 192 ∷ 38 ∷ 190 ∷ 94 ∷ 152 ∷ 187
    ∷ 205 ∷ 237 ∷ 37 ∷ 151 ∷ 130 ∷ 114 ∷ 225 ∷ 227 ∷ 224 ∷ 121 ∷ 197 ∷ 9 ∷ 77 ∷ 87 ∷ 63 ∷ 14 ∷ 131
    ∷ 201 ∷ 47 ∷ 2 ∷ 179 ∷ 45 ∷ 53 ∷ 19 ∷ 177 ∷ 85 ∷ 11 ∷ 130 ∷ 105 ∷ 41 ∷ 200 ∷ 13 ∷ 208 ∷ 249 ∷ 44
    ∷ 172 ∷ 150 ∷ 109 ∷ 23 ∷ 118 ∷ 159 ∷ 213 ∷ 134 ∷ 123 ∷ 100 ∷ 124 ∷ 63 ∷ 56 ∷ 2 ∷ 154 ∷ 189 ∷ 196
    ∷ 129 ∷ 82 ∷ 235 ∷ 143 ∷ 32 ∷ 113 ∷ 89 ∷ 236 ∷ 197 ∷ 210 ∷ 50 ∷ 199 ∷ 193 ∷ 83 ∷ 124 ∷ 121 ∷ 244
    ∷ 183 ∷ 172 ∷ 40 ∷ 255 ∷ 17 ∷ 104 ∷ 47 ∷ 33 ∷ 104 ∷ 27 ∷ 246 ∷ 214 ∷ 171 ∷ 165 ∷ 85 ∷ 3 ∷ 43
    ∷ 246 ∷ 249 ∷ 240 ∷ 54 ∷ 190 ∷ 178 ∷ 170 ∷ 165 ∷ 179 ∷ 119 ∷ 141 ∷ 110 ∷ 235 ∷ 251 ∷ 166 ∷ 191
    ∷ 158 ∷ 161 ∷ 145 ∷ 190 ∷ 74 ∷ 176 ∷ 202 ∷ 234 ∷ 117 ∷ 158 ∷ 47 ∷ 119 ∷ 58 ∷ 31 ∷ 144 ∷ 41 ∷ 199
    ∷ 62 ∷ 203 ∷ 141 ∷ 87 ∷ 53 ∷ 185 ∷ 50 ∷ 29 ∷ 176 ∷ 133 ∷ 241 ∷ 184 ∷ 226 ∷ 216 ∷ 3 ∷ 143 ∷ 226
    ∷ 148 ∷ 25 ∷ 146 ∷ 84 ∷ 140 ∷ 238 ∷ 13 ∷ 103 ∷ 221 ∷ 69 ∷ 71 ∷ 225 ∷ 29 ∷ 214 ∷ 58 ∷ 249 ∷ 201
    ∷ 252 ∷ 28 ∷ 84 ∷ 102 ∷ 251 ∷ 104 ∷ 76 ∷ 240 ∷ 9 ∷ 215 ∷ 25 ∷ 124 ∷ 44 ∷ 247 ∷ 158 ∷ 121 ∷ 42
    ∷ 181 ∷ 1 ∷ 230 ∷ 168 ∷ 161 ∷ 202 ∷ 81 ∷ 154 ∷ 242 ∷ 203 ∷ 155 ∷ 95 ∷ 99 ∷ 103 ∷ 233 ∷ 76 ∷ 13
    ∷ 71 ∷ 80 ∷ 36 ∷ 81 ∷ 53 ∷ 123 ∷ 225 ∷ 181 ∷ []

abbrev root_key : Record
root_key = record {
  name = dot ∷ [];
  rtype = RType.dnskey;
  class = class_in;
  ttl = 172800;
  rdata = root_rdata;
}

-- A signature with its tag, from 0 to 2000 seconds.
abbrev signature : Record
signature = record {
  name = dot ∷ [];
  rtype = RType.rrsig;
  class = class_in;
  ttl = 300;
  rdata = 0 ∷ 48 ∷ 8 ∷ 0 ∷ 0 ∷ 0 ∷ 1 ∷ 44 ∷ 0 ∷ 0 ∷ 7 ∷ 208 ∷ 0 ∷ 0 ∷ 0 ∷ 0 ∷ 79 ∷ 102 ∷ 0 ∷ 9 ∷ [];
}

abbrev pub trusting : Crypto
trusting = record {
  rsa = λ h e n d s. some true;
  p256 = λ k m s. some true;
  p384 = λ k m s. some true;
  ed25519 = λ k m s. some true;
}

abbrev ds_rdata : Bytes
ds_rdata =
    79 ∷ 102 ∷ 8 ∷ 2 ∷ 224 ∷ 109 ∷ 68 ∷ 184 ∷ 11 ∷ 143 ∷ 29 ∷ 57 ∷ 169 ∷ 92 ∷ 11 ∷ 13 ∷ 124 ∷ 101
    ∷ 208 ∷ 132 ∷ 88 ∷ 232 ∷ 128 ∷ 64 ∷ 155 ∷ 188 ∷ 104 ∷ 52 ∷ 87 ∷ 16 ∷ 66 ∷ 55 ∷ 199 ∷ 248 ∷ 236
    ∷ 141 ∷ []

abbrev root_ds : Record
root_ds = record {
  name = dot ∷ [];
  rtype = RType.ds;
  class = class_in;
  ttl = 172800;
  rdata = ds_rdata;
}

-- The same key at every name; the world counts the lookups.
abbrev same_keys : Fetch ℕ
same_keys name t n =
    if rtype_eq t RType.ds
    then ((root_ds ∷ [], signature ∷ []), n + 1)
    else ((root_key ∷ [], signature ∷ []), n + 1)

anchored : validate_root_dnskeys (root_key ∷ []) ≡ secure
unfolding validate_root_dnskeys validate_dnskey_with_ds parse_ds u16 u8 remaining bytes parse_dnskey
    key_tag bytes_eq sha256 canonical_name trim_end_dots lower
anchored = refl

chained :
    (chain_validate trusting 1000 same_keys (codes "ex") (root_key ∷ []) (signature ∷ []) 0).0
    ≡ secure
unfolding chain_validate rtype_eq validate_root_dnskeys validate_dnskey_with_ds parse_ds u16 u8
    remaining bytes parse_dnskey key_tag bytes_eq sha256 canonical_name trim_end_dots lower
    split_dots validate_rrset parse_rrsig u32 Reader.name label_text is_utf8 verify_signature
    build_signed_data sort_by bytes_cmp canonical_rr to_u16 join_dots
chained = refl

chain_validate-Secured_example :
    Secured trusting 1000 same_keys (codes "ex") (root_key ∷ []) (signature ∷ [])
chain_validate-Secured_example =
    chain_validate-Secured trusting 1000 same_keys (codes "ex") (root_key ∷ []) (signature ∷ []) 0
      chained

-- The keys alone.
abbrev no_ds : Fetch ℕ
no_ds name t n = if rtype_eq t RType.ds then (([], []), n) else ((root_key ∷ [], signature ∷ []), n)

chain_validate-ne-secure_example :
    (chain_validate trusting 1000 no_ds (codes "www.ex") (root_key ∷ []) (signature ∷ []) 0).0
    ≢ secure
unfolding trim_end_dots rtype_eq to_u16
chain_validate-ne-secure_example =
    chain_validate-ne-secure trusting 1000 no_ds (codes "www.ex") (root_key ∷ []) (signature ∷ [])
      (λ e. ground arith) (λ name w e. refl) 0
