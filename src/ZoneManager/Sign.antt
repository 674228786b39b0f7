-- ===== src/ZoneManager/Sign.antt =====
-- src/zone_manager.rs: `ZoneManager::sign_zone`. `zsk` and `ksk` are the private keys that the files in
-- the key directory hold, or `none` for a file that cannot be read.
use ironbind.Prelude.{
  ℕ, Bool, Option, none, some, List, [], ◌∷◌, ◌++◌, min, if◌then◌else◌, length, first?,
}
use mathlib.Core.Option
use ironbind.Prelude.Text.{Bytes}
use ironbind.Prelude.Assoc.{is_some}
use ironbind.Proto.RType
use ironbind.Proto.RType.{rtype_eq}
use ironbind.Proto.Packet.{Record}
use ironbind.Cache.{soa_minimum_ttl}
use ironbind.Zone.{Zone, add, find_rrset, soa, build_nsec_chain, iter_rrsets}
use ironbind.Signing
use ironbind.Signing.{
  Rsa, DnsKey, ZoneSigner, from_der, dnskey_record, tag_of, sign_rrset, sign_rrset_with_key,
}

-- The first SOA record.
abbrev apex_soa : Zone → Option Record
apex_soa z = elim (soa z) [ none ↦ none | some rs ↦ first? rs ]

unfoldable dnskey_ttl : Zone → ℕ
dnskey_ttl z = elim (apex_soa z) [ none ↦ 3600 | some r ↦ r.ttl ]

unfoldable pub nsec_ttl : Zone → ℕ
nsec_ttl z = elim (apex_soa z) [ none ↦ 3600 | some r ↦ min r.ttl (soa_minimum_ttl r.rdata) ]

abbrev pub add_each : List Record → Zone → Zone
add_each [] z = z
add_each (r ∷ rs) z = add_each rs (add r z)

-- A key under the zone's name, the KSK with its flags.
abbrev zsk_of : Bytes → Bytes → DnsKey
zsk_of origin der = from_der origin der

abbrev ksk_of : Bytes → Bytes → DnsKey
ksk_of origin der = record (from_der origin der) { flags = 257 }

module _ {K : Type 0} (rsa : Rsa K) where
  abbrev pub with_ksk :
      ZoneSigner → Bytes → List Record → List Record → Option (DnsKey × ℕ) → Option (List Record)
  with_ksk signer origin rrset by_zsk none = some by_zsk
  with_ksk signer origin rrset by_zsk (some (key, tag)) =
      Option.map (λ r. by_zsk ++ (r ∷ [])) (sign_rrset_with_key rsa signer key rrset origin tag)

  abbrev as_list : Option Record → List Record
  as_list none = []
  as_list (some r) = r ∷ []

  -- The signatures of one set: by the ZSK, and for the DNSKEY set also by the KSK. `none` is an error
  -- of the KSK, which ends the loop; an error of the ZSK is passed over.
  unfoldable pub set_signatures :
      ZoneSigner → Bytes → ℕ → Option (DnsKey × ℕ) → List Record → Option (List Record)
  set_signatures signer origin tag ksk [] = none
  set_signatures signer origin tag ksk (first ∷ rest) =
      let by_zsk = as_list (sign_rrset rsa signer (first ∷ rest) origin tag) in
      if rtype_eq first.rtype RType.dnskey
      then with_ksk signer origin (first ∷ rest) by_zsk ksk
      else some by_zsk

  -- The loop over the sets.
  unfoldable pub all_signatures :
      ZoneSigner → Bytes → ℕ → Option (DnsKey × ℕ) → List (List Record) → Option (List Record)
  unfolding set_signatures
  all_signatures signer origin tag ksk [] = some []
  all_signatures signer origin tag ksk (rs ∷ sets) =
      let more = all_signatures signer origin tag ksk sets in
      elim (set_signatures signer origin tag ksk rs) [
        | none ↦ none
        | some sigs ↦ elim more [ none ↦ none | some others ↦ some (sigs ++ others) ]
      ]

  -- The zone with the keys, the NSEC chain and the signatures. An error leaves the zone as it stands by
  -- then, here without the signatures.
  unfoldable pub signed_zone : ZoneSigner → Bytes → ℕ → Option (DnsKey × ℕ) → Zone → Zone × Option ℕ
  unfolding all_signatures nsec_ttl
  signed_zone signer origin tag ksk z =
      let chained = build_nsec_chain (nsec_ttl z) z in
      elim (all_signatures signer origin tag ksk (iter_rrsets chained)) [
        | none ↦ (chained, none)
        | some sigs ↦ (add_each sigs chained, some (length sigs))
      ]

  -- With the KSK, if there is one.
  unfoldable sign_with : ℕ → Bytes → ℕ → ℕ → Option Bytes → DnsKey → Zone → Zone × Option ℕ
  unfolding signed_zone
  sign_with clock origin ttl tag none zsk z =
      signed_zone (Signing.new clock zsk none) origin tag none z
  sign_with clock origin ttl tag (some der) zsk z =
      let ksk = ksk_of origin der in
      elim (dnskey_record rsa ttl ksk) [
        | none ↦ (z, none)
        | some r ↦ elim (tag_of rsa ksk) [
          | none ↦ (add r z, none)
          | some ksk_tag ↦
              signed_zone (Signing.new clock zsk (some ksk)) origin tag (some (ksk, ksk_tag))
                (add r z)
        ]
      ]

  -- The zone and the number of its signatures, or `none` for an error. A zone with keys of its own
  -- stays as it is.
  unfoldable sign_zone : ℕ → Option Bytes → Option Bytes → Zone → Zone × Option ℕ
  unfolding sign_with dnskey_ttl
  sign_zone clock zsk_der ksk_der z =
      let signed : Zone × Option ℕ = elim zsk_der [
        | none ↦ (z, none)
        | some der ↦
            let zsk = zsk_of z.origin der in
            elim (tag_of rsa zsk) [
              | none ↦ (z, none)
              | some tag ↦ elim (dnskey_record rsa (dnskey_ttl z) zsk) [
                | none ↦ (z, none)
                | some r ↦ sign_with clock z.origin (dnskey_ttl z) tag ksk_der zsk (add r z)
              ]
            ]
      ] in
      if is_some (find_rrset z z.origin RType.dnskey) then (z, some 0) else signed

  -- What `load_zone` publishes: with a file for the ZSK, what the signing leaves, whether or not it
  -- failed.
  unfoldable published_zone : ℕ → Bool → Option Bytes → Option Bytes → Zone → Zone
  unfolding sign_zone
  published_zone clock has_zsk_file zsk_der ksk_der z =
      if has_zsk_file then (sign_zone clock zsk_der ksk_der z).0 else z
