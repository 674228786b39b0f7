-- ===== src/Dnssec/Chain.antt =====
-- src/dnssec.rs: `Validator::chain_validate`. The lookups change the world; each of them gives the
-- records and their signatures.
use mathlib.Core.List.{reverse}
use ironbind.Prelude.{ℕ, Bool, true, false, not, List, [], ◌∷◌, ◌++◌, if◌then◌else◌, is_empty}
use ironbind.Prelude.Text.{Bytes, dot, bytes_eq, trim_end_dots, split_dots}
use ironbind.Proto.RType.{RType}
use ironbind.Proto.Packet.{Record}
use ironbind.Dnssec.{
  no_root_keys, root_keys_unknown, ds_invalid, no_dnskey, dnskey_unchained, dnskey_unsigned,
  ValidationResult, secure, insecure, indeterminate, bogus, Crypto,
}
use ironbind.Dnssec.Validator.{validate_rrset, validate_dnskey_with_ds}
use ironbind.Dnssec.Anchor.{validate_root_dnskeys}

abbrev pub is_secure : ValidationResult → Bool
is_secure secure = true
is_secure insecure = false
is_secure indeterminate = false
is_secure (bogus r) = false

-- `current` ends with a dot, and is "." at the root.
abbrev pub child_of : Bytes → Bytes → Bytes
child_of label current =
    if bytes_eq current (dot ∷ []) then label ++ (dot ∷ []) else label ++ (dot ∷ current)

abbrev pub Fetch : Type 0 → Type 0
Fetch W = Bytes → RType → W → (List Record × List Record) × W

-- The tests at a child in their order, up to the fetch of the keys and behind it; `secure` means
-- that the walk goes on.
unfoldable pub check_ds :
    Crypto → ℕ → Bytes → List Record → List Record → List Record → ValidationResult
check_ds c now child parent_keys ds ds_sigs =
    if is_empty ds
    then insecure
    else if not (is_secure (validate_rrset c now ds ds_sigs parent_keys))
    then bogus (ds_invalid child)
    else secure

unfoldable pub check_keys :
    Crypto → ℕ → Bytes → List Record → List Record → List Record → ValidationResult
check_keys c now child ds keys key_sigs =
    if is_empty keys
    then bogus (no_dnskey child)
    else if not (is_secure (validate_dnskey_with_ds keys ds))
    then bogus (dnskey_unchained child)
    else if not (is_secure (validate_rrset c now keys key_sigs keys))
    then bogus (dnskey_unsigned child)
    else secure

abbrev pub unless_secure {ℓ} : {A : Type ℓ} → ValidationResult → (ValidationResult → A) → A → A
unless_secure secure stop more = more
unless_secure insecure stop more = stop insecure
unless_secure indeterminate stop more = stop indeterminate
unless_secure (bogus r) stop more = stop (bogus r)

module _ {W : Type 0} (c : Crypto) (now : ℕ) (fetch : Fetch W) (owner : Bytes)
    (rrset rrsigs : List Record) where
  -- The walk down the labels that are left, from the keys of `current`.
  unfoldable pub walk : List Bytes → Bytes → List Record → W → ValidationResult × W
  unfolding check_ds check_keys
  walk [] current parent_keys w = (validate_rrset c now rrset rrsigs parent_keys, w)
  walk (label ∷ labels) current parent_keys w =
      let child = child_of label current in
      let ((ds, ds_sigs), w1) = fetch child RType.ds w in
      let ((keys, key_sigs), w2) = fetch child RType.dnskey w1 in
      let deeper = walk labels child keys w2 in
      unless_secure (check_ds c now child parent_keys ds ds_sigs) (λ v. (v, w1))
        (unless_secure (check_keys c now child ds keys key_sigs) (λ v. (v, w2))
          (if bytes_eq (trim_end_dots child) (trim_end_dots owner)
            then (validate_rrset c now rrset rrsigs keys, w2)
            else deeper))

  unfoldable pub chain_validate : W → ValidationResult × W
  unfolding walk
  chain_validate w =
      let ((root_keys, root_sigs), w1) = fetch (dot ∷ []) RType.dnskey w in
      let walked = walk (reverse (split_dots (trim_end_dots owner))) (dot ∷ []) root_keys w1 in
      if is_empty root_keys
      then (bogus no_root_keys, w1)
      else if not (is_secure (validate_root_dnskeys root_keys))
      then (bogus root_keys_unknown, w1)
      else walked
