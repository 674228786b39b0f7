-- ===== src/Zone.antt =====
-- src/zone.rs: the store of an authoritative zone, and its NSEC chain.
pub mod Order
pub mod Bitmap
pub mod Store
pub mod Nsec
pub mod Nsec3
pub mod Master
use ironbind.Prelude.{
  ℕ, zero, suc, ◌+◌, ◌-◌, ◌%◌, Bool, true, false, not, ◌&&◌, ◌||◌, Option, none, some, List, [],
  ◌∷◌, ◌++◌, map, ◌==◌, if◌then◌else◌, length, get_elem?, filter, any, first?, is_empty,
}
use ironbind.Prelude.Text.{
  Bytes, dot, to_ascii_lowercase, trim_end_dots, bytes_eq, bytes_cmp, ends_with,
}
use ironbind.Prelude.Assoc.{Assoc, pair_key, bytes_key, lookup, insert, is_some}
use ironbind.Prelude.Sort.{is_lt, is_gt, sort_by, partition_point}
use ironbind.Proto.RType.{RType, to_u16}
use ironbind.Proto.Packet.{Record, class_in}
use ironbind.Proto.Builder
use ironbind.Proto.Builder.{◌▷◌}
use ironbind.Zone.Order.{canonical_order}
use ironbind.Zone.Bitmap.{encode_nsec_bitmap}

-- `names` holds the keys of a `BTreeMap`, in their order.
pub record Zone : Type 0 where
  pub origin : Bytes
  pub rrsets : Assoc (Bytes × ℕ) (List Record)
  pub names : List Bytes
  pub nsec_owners : List Bytes

unfoldable pub new : Bytes → Zone
new origin = record {
  origin = to_ascii_lowercase (trim_end_dots origin);
  rrsets = [];
  names = [];
  nsec_owners = [];
}

-- An insertion into the `BTreeMap`.
unfoldable pub insert_name : Bytes → List Bytes → List Bytes
insert_name n [] = n ∷ []
insert_name n (m ∷ ms) =
    if bytes_eq n m
    then m ∷ ms
    else if is_gt (bytes_cmp n m)
    then m ∷ insert_name n ms
    else n ∷ m ∷ ms

abbrev pub rrset_key : Bytes → RType → Bytes × ℕ
rrset_key name t = (to_ascii_lowercase name, to_u16 t)

abbrev pub or_default : Option (List Record) → List Record
or_default none = []
or_default (some rs) = rs

unfoldable pub add : Record → Zone → Zone
unfolding insert_name
add r z =
    let key = rrset_key r.name r.rtype in
    record z {
      names = insert_name (to_ascii_lowercase r.name) z.names;
      rrsets = insert key (or_default (lookup key z.rrsets) ++ (r ∷ [])) z.rrsets;
    }

-- `Zone::lookup`
unfoldable pub find_rrset : Zone → Bytes → RType → Option (List Record)
find_rrset z name qtype = lookup (rrset_key name qtype) z.rrsets

unfoldable pub name_exists : Zone → Bytes → Bool
name_exists z name =
    let lower = to_ascii_lowercase name in
    any (bytes_eq lower) z.names || any (λ existing. ends_with existing (dot ∷ lower)) z.names

unfoldable pub is_authoritative_for : Zone → Bytes → Bool
is_authoritative_for z name =
    let n = to_ascii_lowercase name in bytes_eq n z.origin || ends_with n (dot ∷ z.origin)

unfoldable pub soa : Zone → Option (List Record)
unfolding find_rrset
soa z = find_rrset z z.origin RType.soa

unfoldable pub iter_rrsets : Zone → List (List Record)
iter_rrsets z = map (λ (kv : (Bytes × ℕ) × List Record). kv.1) z.rrsets

-- The types at `owner`, with the two that signing adds.
abbrev types_at : Zone → Bytes → List ℕ
types_at z owner =
    map (λ (kv : (Bytes × ℕ) × List Record). kv.0.1)
      (filter (λ (kv : (Bytes × ℕ) × List Record). bytes_eq kv.0.0 owner) z.rrsets)
    ++ (to_u16 RType.rrsig ∷ to_u16 RType.nsec ∷ [])

unfoldable nsec_record : Zone → ℕ → Bytes → Bytes → Record
nsec_record z ttl owner next = record {
  name = owner;
  rtype = RType.nsec;
  class = class_in;
  ttl = ttl;
  rdata = [] ▷ Builder.name next ▷ Builder.raw (encode_nsec_bitmap (types_at z owner));
}

-- The loop over the owners: the owner after the last is the first.
unfoldable add_nsecs : ℕ → Bytes → List Bytes → Zone → Zone
unfolding nsec_record add
add_nsecs ttl first [] z = z
add_nsecs ttl first (owner ∷ []) z = add (nsec_record z ttl owner first) z
add_nsecs ttl first (owner ∷ next ∷ rest) z =
    add_nsecs ttl first (next ∷ rest) (add (nsec_record z ttl owner next) z)

abbrev first_or : List Bytes → Bytes
first_or [] = []
first_or (n ∷ ns) = n

unfoldable pub build_nsec_chain : ℕ → Zone → Zone
unfolding add_nsecs
build_nsec_chain ttl z =
    let owners = sort_by canonical_order z.names in
    record (add_nsecs ttl (first_or owners) owners z) { nsec_owners = owners }

unfoldable pub is_signed : Zone → Bool
is_signed z = not (is_empty z.nsec_owners)

-- `len().checked_sub(1)?` where nothing sorts before the name.
unfoldable pub covering_index : ℕ → ℕ → Option ℕ
covering_index zero zero = none
covering_index zero (suc last) = some last
covering_index (suc i) len = some i

abbrev pub at_index : List Bytes → Option ℕ → Option Bytes
at_index owners none = none
at_index owners (some i) = get_elem? owners i

unfoldable pub nsec_covering_owner : Zone → Bytes → Option Bytes
unfolding covering_index
nsec_covering_owner z name = at_index z.nsec_owners (
    covering_index (partition_point (λ owner. is_lt (canonical_order owner name)) z.nsec_owners)
      (length z.nsec_owners))

-- `split_once('.')`: what follows the first dot.
unfoldable pub parent_of : Bytes → Option Bytes
parent_of [] = none
parent_of (c ∷ cs) = if c == dot then some cs else parent_of cs

-- The loop of `closest_encloser`; `none` means that the fuel ran out.
unfoldable pub encloser_loop : ℕ → Zone → Bytes → Option Bytes
encloser_loop zero z candidate = none
encloser_loop (suc fuel) z candidate =
    let next : Option Bytes = elim (parent_of candidate) [
      | none ↦ some z.origin
      | some parent ↦
          let more = encloser_loop fuel z parent in
          if name_exists z parent then some parent else more
    ] in
    if bytes_eq candidate z.origin then some candidate else next

unfoldable pub closest_encloser : Zone → Bytes → Option Bytes
unfolding encloser_loop
closest_encloser z name = encloser_loop (length name + 1) z (to_ascii_lowercase name)
