-- ===== src/Dnssec/Trust.antt =====
-- src/dnssec.rs: what an answer that `Validator::chain_validate` finds secure rests on.
use mathlib.Core.List.{reverse}
use ironbind.Prelude.{
  ℕ, ◌≡◌, ◌≢◌, refl, sym, ap, ◌∙◌, true, List, [], ◌∷◌, arith, is_empty, Bool-cases, inl, inr,
}
use ironbind.Prelude.Text.{Bytes, dot, bytes_eq, bytes_eq_iff, trim_end_dots, split_dots}
use ironbind.Proto.RType
use ironbind.Proto.Packet.{Record}
use ironbind.Dnssec.{ValidationResult, secure, insecure, indeterminate, bogus, Crypto}
use ironbind.Dnssec.Validator.{validate_rrset, validate_dnskey_with_ds}
use ironbind.Dnssec.Anchor.{validate_root_dnskeys}
use ironbind.Dnssec.Labels.{after, after_labels}
use ironbind.Dnssec.Chain.{
  is_secure, child_of, Fetch, check_ds, check_keys, unless_secure, walk, chain_validate,
}

-- The keys of a zone that a chain of delegations ties to the anchors of the root. Each link holds the
-- records that `fetch` gave for the child: DS records that the parent's keys sign, and keys that a DS
-- names and that sign themselves.
pub data TrustedKeys {W : Type 0} (c : Crypto) (now : ℕ) (fetch : Fetch W)
    : Bytes → List Record → Type 0 where
  root :
      {keys : List Record}
      → validate_root_dnskeys keys ≡ secure
      → TrustedKeys c now fetch (dot ∷ []) keys
  child :
      {zone : Bytes} {parent_keys ds ds_sigs keys key_sigs : List Record} (label : Bytes)
      (w1 w2 w3 : W)
      → TrustedKeys c now fetch zone parent_keys
      → fetch (child_of label zone) RType.ds w1 ≡ ((ds, ds_sigs), w2)
      → fetch (child_of label zone) RType.dnskey w2 ≡ ((keys, key_sigs), w3)
      → validate_rrset c now ds ds_sigs parent_keys ≡ secure
      → validate_dnskey_with_ds keys ds ≡ secure
      → validate_rrset c now keys key_sigs keys ≡ secure
      → TrustedKeys c now fetch (child_of label zone) keys

is_secure_lem : (v : ValidationResult) → is_secure v ≡ true → v ≡ secure
is_secure_lem secure h = refl
is_secure_lem insecure h = absurd (ground arith)
is_secure_lem indeterminate h = absurd (ground arith)
is_secure_lem (bogus r) h = absurd (ground arith)

unless_secure_lem :
    {W : Type 0} (v : ValidationResult) (w : W) (more : ValidationResult × W)
    → (unless_secure v (λ u. (u, w)) more).0 ≡ secure
    → (v ≡ secure) × (more.0 ≡ secure)
unless_secure_lem secure w more h = (refl, h)
unless_secure_lem insecure w more h = absurd (ground arith)
unless_secure_lem indeterminate w more h = absurd (ground arith)
unless_secure_lem (bogus r) w more h = absurd (ground arith)

check_ds_lem :
    (c : Crypto) (now : ℕ) (name : Bytes) (parent_keys ds ds_sigs : List Record)
    → check_ds c now name parent_keys ds ds_sigs ≡ secure
    → validate_rrset c now ds ds_sigs parent_keys ≡ secure
unfolding check_ds
check_ds_lem c now name parent_keys ds ds_sigs h =
    is_secure_lem (validate_rrset c now ds ds_sigs parent_keys) (ground arith)

check_keys_lem :
    (c : Crypto) (now : ℕ) (name : Bytes) (ds keys key_sigs : List Record)
    → check_keys c now name ds keys key_sigs ≡ secure
    → (validate_dnskey_with_ds keys ds ≡ secure)
      × (validate_rrset c now keys key_sigs keys ≡ secure)
unfolding check_keys
check_keys_lem c now name ds keys key_sigs h = (
  is_secure_lem (validate_dnskey_with_ds keys ds) (ground arith),
  is_secure_lem (validate_rrset c now keys key_sigs keys) (ground arith),
)

module _ {W : Type 0} (c : Crypto) (now : ℕ) (fetch : Fetch W) (owner : Bytes)
    (rrset rrsigs : List Record) where
  -- Trusted keys of the zone with the owner's name, under which the records validate.
  pub record Secured : Type 0 where
    pub zone : Bytes
    pub keys : List Record
    trusted : TrustedKeys c now fetch zone keys
    is_owner : trim_end_dots zone ≡ trim_end_dots owner
    pub validates : validate_rrset c now rrset rrsigs keys ≡ secure

  walk-Secured :
      (labels : List Bytes) (current : Bytes) (parent_keys : List Record) (w : W)
      → TrustedKeys c now fetch current parent_keys
      → trim_end_dots (after current labels) ≡ trim_end_dots owner
      → (walk c now fetch owner rrset rrsigs labels current parent_keys w).0 ≡ secure
      → Secured
  unfolding walk
  walk-Secured [] current parent_keys w t e h = record {
    zone = current;
    keys = parent_keys;
    trusted = t;
    is_owner = e;
    validates = h;
  }
  walk-Secured (label ∷ labels) current parent_keys w t e h =
      let next = child_of label current in
      let f = fetch next RType.ds w in
      let g = fetch next RType.dnskey f.1 in
      let deeper = walk c now fetch owner rrset rrsigs labels next g.0.0 g.1 in
      let (ds_checked, rest) =
        unless_secure_lem (check_ds c now next parent_keys f.0.0 f.0.1) f.1 _ h in
      let (keys_checked, reached) =
        unless_secure_lem (check_keys c now next f.0.0 g.0.0 g.0.1) g.1 _ rest in
      let (named_by_ds, self_signed) = check_keys_lem c now next f.0.0 g.0.0 g.0.1 keys_checked in
      let here : TrustedKeys c now fetch next g.0.0 =
        child label w f.1 g.1 t refl refl
          (check_ds_lem c now next parent_keys f.0.0 f.0.1 ds_checked) named_by_ds self_signed in
      elim (Bool-cases (bytes_eq (trim_end_dots next) (trim_end_dots owner))) [
        | inl same ↦ record {
          zone = next;
          keys = g.0.0;
          trusted = here;
          is_owner = (bytes_eq_iff (trim_end_dots next) (trim_end_dots owner)).0 same;
          validates = rw same at reached;
        }
        | inr other ↦ walk-Secured labels next g.0.0 g.1 here e (rw other at reached)
      ]

  -- An answer that the walk from the root finds secure validates under keys of the zone with the
  -- owner's name, which an unbroken chain of delegations ties to the anchors of the root: at each
  -- link, DS records that the keys above sign, and keys that a DS names and that sign themselves, as
  -- they were fetched for the names from the root down.
  pub chain_validate-Secured :
      (w : W) → (chain_validate c now fetch owner rrset rrsigs w).0 ≡ secure → Secured
  unfolding chain_validate
  chain_validate-Secured w h =
      let f = fetch (dot ∷ []) RType.dnskey w in
      let walked =
        walk c now fetch owner rrset rrsigs (reverse (split_dots (trim_end_dots owner))) (dot ∷ [])
          f.0.0 f.1 in
      elim (Bool-cases (is_empty f.0.0)) [
        | inl none_there ↦ let k = rw none_there at h in absurd (ground arith)
        | inr some_there ↦ elim (Bool-cases (is_secure (validate_root_dnskeys f.0.0))) [
          | inr unknown ↦ let k = rw (some_there, unknown) at h in absurd (ground arith)
          | inl anchored ↦
              walk-Secured (reverse (split_dots (trim_end_dots owner))) (dot ∷ []) f.0.0 f.1
                (root (is_secure_lem (validate_root_dnskeys f.0.0) anchored)) (after_labels owner)
                (rw (some_there, anchored) at h)
        ]
      ]

  trimmed_root : trim_end_dots (dot ∷ []) ≡ []
  unfolding trim_end_dots
  trimmed_root = refl

  no_ds-TrustedKeys :
      {zone : Bytes} {keys : List Record}
      → TrustedKeys c now fetch zone keys
      → trim_end_dots zone ≡ trim_end_dots owner
      → trim_end_dots owner ≢ []
      → ((name : Bytes) (w : W)
          → trim_end_dots name ≡ trim_end_dots owner
          → (fetch name RType.ds w).0.0 ≡ [])
      → ⊥
  unfolding validate_rrset
  no_ds-TrustedKeys (root r) e named_owner no_ds = named_owner (sym e ∙ trimmed_root)
  no_ds-TrustedKeys
        (child {zone} {ds = ds} label w1 w2 w3 t fetched fetched_keys signed_ds named_by_ds
          self_signed)
        e named_owner no_ds =
      let empty : ds ≡ [] = ap (λ r. r.0.0) (sym fetched) ∙ no_ds (child_of label zone) w1 e in
      let insecure_ds = rw empty at signed_ds in absurd (ground arith)

  -- An answer at a name without DS records of its own, such as every name below the apex of a zone,
  -- is never found secure, whatever keys and signatures the lookups give.
  pub chain_validate-ne-secure :
      trim_end_dots owner ≢ []
      → ((name : Bytes) (w : W)
          → trim_end_dots name ≡ trim_end_dots owner
          → (fetch name RType.ds w).0.0 ≡ [])
      → (w : W) → (chain_validate c now fetch owner rrset rrsigs w).0 ≢ secure
  chain_validate-ne-secure named_owner no_ds w h =
      let s = chain_validate-Secured w h in no_ds-TrustedKeys s.trusted s.is_owner named_owner no_ds
