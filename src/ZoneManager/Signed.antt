-- ===== src/ZoneManager/Signed.antt =====
-- src/zone_manager.rs, src/zone_signing.rs, src/dnssec.rs: what a signed zone serves validates.
use ironbind.Prelude.{
  ℕ, ◌+◌, ◌*◌, ◌^◌, ◌<◌, ◌≤◌, ◌≡◌, refl, sym, ap, ◌⊎◌, inl, inr, true, Option, none, some, List, [],
  ◌∷◌, ◌++◌, arith, Bool-cases, Option-cases,
}
use ironbind.Prelude.Text.{Bytes, to_ascii_lowercase}
use ironbind.Prelude.Assoc.{pair_key, lookup}
use ironbind.Proto.RType
use ironbind.Proto.RType.{to_u16, rtype_eq}
use ironbind.Proto.Packet.{Record}
use ironbind.Proto.RoundTrip.{IsName}
use ironbind.Dnssec.{secure, Crypto}
use ironbind.Dnssec.Signatures.{build_signed_data}
use ironbind.Dnssec.Validator.{validate_rrset}
use ironbind.Signing
use ironbind.Signing.{
  Rsa, DnsKey, ZoneSigner, dnskey_record, tag_of, unsigned, sign_data, sign_rrset,
  sign_rrset_with_key,
}
use ironbind.Signing.Validates.{Agrees, validate_rrset-sign_rrset_with_key}
use ironbind.Zone.{Zone, add, rrset_key, or_default, find_rrset, iter_rrsets, build_nsec_chain}
use ironbind.Zone.Store.{find_rrset-add}
use ironbind.ZoneManager.Sign.{
  nsec_ttl, add_each, with_ksk, set_signatures, all_signatures, signed_zone,
}

abbrev pub Among : {A : Type 0} → A → List A → Type 0
Among x [] = ⊥
Among x (y ∷ ys) = (y ≡ x) ⊎ Among x ys

Among-append : {A : Type 0} (x : A) (ys zs : List A) → Among x ys ⊎ Among x zs → Among x (ys ++ zs)
Among-append x [] zs (inl h) = elim h [ ]
Among-append x [] zs (inr h) = h
Among-append x (y ∷ ys) zs (inl (inl e)) = inl e
Among-append x (y ∷ ys) zs (inl (inr h)) = inr (Among-append x ys zs (inl h))
Among-append x (y ∷ ys) zs (inr h) = inr (Among-append x ys zs (inr h))

some_inj : {A : Type 0} (x y : A) → some x ≡ some y → x ≡ y
some_inj x y h = cc

-- The records of a type at a name.
abbrev pub held_at : Zone → Bytes → RType.RType → List Record
held_at z name t = or_default (find_rrset z name t)

add-keeps :
    (r x : Record) (z : Zone) (n : Bytes) (t : RType.RType)
    → Among x (held_at z n t)
    → Among x (held_at (add r z) n t)
unfolding find_rrset
add-keeps r x z n t h =
    elim (Bool-cases (pair_key.beq (rrset_key n t) (rrset_key r.name r.rtype))) [
      | inr other ↦ let after = find_rrset-add r z n t in rw (after, other) h
      | inl same ↦
          let key : rrset_key n t ≡ rrset_key r.name r.rtype =
            (pair_key.beq_iff (rrset_key n t) (rrset_key r.name r.rtype)).0 same in
          let before = ap (λ k. or_default (lookup k z.rrsets)) key in
          let after = find_rrset-add r z n t in
          rw (after, same)
            (Among-append x (held_at z r.name r.rtype) (r ∷ []) (inl (rw (← before) h)))
    ]

add-holds : (r : Record) (z : Zone) → Among r (held_at (add r z) r.name r.rtype)
add-holds r z =
    let key = rrset_key r.name r.rtype in
    let same : pair_key.beq key key ≡ true = (pair_key.beq_iff key key).1 refl in
    let after = find_rrset-add r z r.name r.rtype in
    rw (after, same) (Among-append r (held_at z r.name r.rtype) (r ∷ []) (inr (inl refl)))

add_each-holds :
    (rs : List Record) (x : Record) (z : Zone)
    → Among x rs ⊎ Among x (held_at z x.name x.rtype)
    → Among x (held_at (add_each rs z) x.name x.rtype)
add_each-holds [] x z (inl h) = elim h [ ]
add_each-holds [] x z (inr h) = h
add_each-holds (r ∷ rs) x z (inl (inl e)) =
    add_each-holds rs x (add r z) (inr (rw (← e) (add-holds r z)))
add_each-holds (r ∷ rs) x z (inl (inr h)) = add_each-holds rs x (add r z) (inl h)
add_each-holds (r ∷ rs) x z (inr h) =
    add_each-holds rs x (add r z) (inr (add-keeps r x z x.name x.rtype h))

module _ {K : Type 0} (rsa : Rsa K) (signer : ZoneSigner) (origin : Bytes) (tag : ℕ)
    (ksk : Option (DnsKey × ℕ)) where
  with_ksk-Among :
      (rrset by_zsk sigs : List Record) (sig : Record) (o : Option (DnsKey × ℕ))
      → Among sig by_zsk
      → with_ksk rsa signer origin rrset by_zsk o ≡ some sigs
      → Among sig sigs
  with_ksk-Among rrset by_zsk sigs sig none m h = rw (← some_inj by_zsk sigs h) m
  with_ksk-Among rrset by_zsk sigs sig (some (key, t)) m h =
      elim (Option-cases (sign_rrset_with_key rsa signer key rrset origin t)) [
        | inl e ↦ let k = rw e at h in absurd (ground arith)
        | inr (r, e) ↦
            let whole : by_zsk ++ (r ∷ []) ≡ sigs = some_inj _ _ (rw e at h) in
            rw (← whole) (Among-append sig by_zsk (r ∷ []) (inl m))
      ]

  set_signatures-Among :
      (rs : List Record) (sig : Record) (sigs : List Record)
      → sign_rrset rsa signer rs origin tag ≡ some sig
      → set_signatures rsa signer origin tag ksk rs ≡ some sigs
      → Among sig sigs
  unfolding set_signatures
  set_signatures-Among [] sig sigs signed h = absurd (ground arith)
  set_signatures-Among (first ∷ rest) sig sigs signed h =
      elim (Bool-cases (rtype_eq first.rtype RType.dnskey)) [
        | inr other ↦
            let e : sig ∷ [] ≡ sigs = some_inj _ _ (rw (signed, other, set_signatures) at h) in
            rw (← e) (inl refl)
        | inl keys ↦
            with_ksk-Among (first ∷ rest) (sig ∷ []) sigs sig ksk (inl refl)
              (rw (signed, keys, set_signatures) at h)
      ]

  all_signatures-split :
      (set : List Record) (sets : List (List Record)) (sigs : List Record)
      → all_signatures rsa signer origin tag ksk (set ∷ sets) ≡ some sigs
      → (here : List Record) × (others : List Record) × (set_signatures rsa signer origin tag ksk
            set
          ≡ some here)
        × (all_signatures rsa signer origin tag ksk sets ≡ some others)
        × (here ++ others ≡ sigs)
  unfolding all_signatures
  all_signatures-split set sets sigs h =
      elim (Option-cases (set_signatures rsa signer origin tag ksk set)) [
        | inl e ↦ let k = rw (e, all_signatures) at h in absurd (ground arith)
        | inr (here, e) ↦ elim (Option-cases (all_signatures rsa signer origin tag ksk sets)) [
          | inl f ↦ let k = rw (e, f, all_signatures) at h in absurd (ground arith)
          | inr (others, f) ↦ (here, others, e, f, some_inj _ _ (rw (e, f, all_signatures) at h))
        ]
      ]

  all_signatures-Among :
      (sets : List (List Record)) (rs : List Record) (sig : Record) (sigs : List Record)
      → Among rs sets
      → sign_rrset rsa signer rs origin tag ≡ some sig
      → all_signatures rsa signer origin tag ksk sets ≡ some sigs
      → Among sig sigs
  all_signatures-Among [] rs sig sigs m signed h = elim m [ ]
  all_signatures-Among (set ∷ sets) rs sig sigs (inl same) signed h =
      let (here, others, e, f, whole) = all_signatures-split set sets sigs h in
      let first = set_signatures-Among rs sig here signed (rw (← same) e) in
      rw (← whole) (Among-append sig here others (inl first))
  all_signatures-Among (set ∷ sets) rs sig sigs (inr m) signed h =
      let (here, others, e, f, whole) = all_signatures-split set sets sigs h in
      let later = all_signatures-Among sets rs sig others m signed f in
      rw (← whole) (Among-append sig here others (inr later))

  -- The signed zone holds the signature of each of its sets at the owner of the set.
  signed_zone-holds :
      (z z' : Zone) (n : ℕ) (rs : List Record) (sig : Record)
      → Among rs (iter_rrsets (build_nsec_chain (nsec_ttl z) z))
      → sign_rrset rsa signer rs origin tag ≡ some sig
      → signed_zone rsa signer origin tag ksk z ≡ (z', some n)
      → Among sig (held_at z' sig.name sig.rtype)
  unfolding signed_zone
  signed_zone-holds z z' n rs sig m signed h =
      let chained = build_nsec_chain (nsec_ttl z) z in
      elim (Option-cases (all_signatures rsa signer origin tag ksk (iter_rrsets chained))) [
        | inl e ↦ let k = rw (e, signed_zone) at h in absurd (ground arith)
        | inr (sigs, e) ↦
            let made : add_each sigs chained ≡ z' =
              ap (λ (p : Zone × Option ℕ). p.0) (rw (e, signed_zone) at h) in
            let there = all_signatures-Among (iter_rrsets chained) rs sig sigs m signed e in
            rw (← made) (add_each-holds sigs sig chained (inl there))
      ]

-- A signature stands at the owner of its set, under the type RRSIG.
sign_rrset_owner :
    {K : Type 0} (rsa : Rsa K) (signer : ZoneSigner) (first : Record) (rest : List Record)
    (origin : Bytes) (tag : ℕ) (sig : Record)
    → sign_rrset rsa signer (first ∷ rest) origin tag ≡ some sig
    → (sig.name ≡ first.name) × (sig.rtype ≡ RType.rrsig)
unfolding sign_rrset sign_rrset_with_key
sign_rrset_owner rsa signer first rest origin tag sig h =
    let s = unsigned signer signer.zsk first origin tag in
    elim (Option-cases (sign_data rsa signer.zsk (build_signed_data s (first ∷ rest)))) [
      | inl e ↦ let k = rw e at h in absurd (ground arith)
      | inr (signature, e) ↦
          let made = some_inj _ sig (rw e at h) in
          (sym (ap (λ (r : Record). r.name) made), sym (ap (λ (r : Record). r.rtype) made))
    ]

module _ {K : Type 0} (rsa : Rsa K) (c : Crypto) (agrees : Agrees rsa c) (key : DnsKey) (k : K)
    (decoded : rsa.decode key.private_key ≡ some k) (flags_fit : key.flags < 2 ^ 16) where
  -- When a zone has been signed, the signature that the ZSK gives for one of its sets stands in it at
  -- the owner of the set, and validates the set under the published key, from an hour before to 30
  -- days after the signer was made. The key is an RSA key, the zone's name, the type and the TTL fit
  -- the wire, and the times 32 bits.
  pub signed_zone-Validates :
      (ksk : Option DnsKey) (ksk_tag : Option (DnsKey × ℕ)) (z z' : Zone) (n : ℕ) (first : Record)
      (rest : List Record) (origin : Bytes) (tag ttl created now : ℕ) (sig key_record : Record)
      → (key.algorithm ≡ 8) ⊎ (key.algorithm ≡ 10)
      → IsName (to_ascii_lowercase origin)
      → to_u16 first.rtype < 2 ^ 16
      → first.ttl < 2 ^ 32
      → created + 30 * 24 * 3600 < 2 ^ 32
      → created ≤ now + 3600
      → now ≤ created + 30 * 24 * 3600
      → tag_of rsa key ≡ some tag
      → dnskey_record rsa ttl key ≡ some key_record
      → Among (first ∷ rest) (iter_rrsets (build_nsec_chain (nsec_ttl z) z))
      → sign_rrset rsa (Signing.new created key ksk) (first ∷ rest) origin tag ≡ some sig
      → signed_zone rsa (Signing.new created key ksk) origin tag ksk_tag z ≡ (z', some n)
      → Among sig (held_at z' first.name RType.rrsig)
        × (validate_rrset c now (first ∷ rest) (sig ∷ []) (key_record ∷ []) ≡ secure)
  unfolding sign_rrset Signing.new
  signed_zone-Validates ksk ksk_tag z z' n first rest origin tag ttl created now sig key_record alg
        name type_fits ttl_fits times_fit before after tagged published set signed made =
      let signer = Signing.new created key ksk in
      let (owner, type) = sign_rrset_owner rsa signer first rest origin tag sig signed in
      (
        rw (← owner, ← type)
            (signed_zone-holds rsa signer origin tag ksk_tag z z' n (first ∷ rest) sig set signed
              made),
        validate_rrset-sign_rrset_with_key rsa c agrees key k decoded flags_fit key ksk first rest
            origin tag ttl created now sig key_record [] [] alg name type_fits ttl_fits times_fit
            before after tagged published signed,
      )
