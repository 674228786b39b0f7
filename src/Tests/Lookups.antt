-- ===== src/Tests/Lookups.antt =====
-- The zone store and its NSEC chain at a small zone.
use ironbind.Prelude.{◌≡◌, ◌≢◌, refl, some, [], ◌∷◌, arith}
use ironbind.Prelude.Text.{
  Bytes, codes, to_ascii_lowercase, split_dots, trim_end_dots, bytes_cmp, lower,
}
use ironbind.Prelude.Assoc.{pair_key}
use ironbind.Prelude.Sort.{list_cmp}
use ironbind.Prelude.Sort.Sorted.{IsSorted}
use ironbind.Proto.RType.{RType}
use ironbind.Proto.Packet.{Record, class_in}
use ironbind.Zone.{Zone, new, add, nsec_covering_owner, closest_encloser}
use ironbind.Zone.Order.{canonical_order}
use ironbind.Zone.Store.{nearest, closest_encloser-nearest}
use ironbind.Zone.Nsec.{Covers, nsec_covering_owner-Covers}

abbrev address : Record
address = record {
  name = codes "a.b.example";
  rtype = RType.a;
  class = class_in;
  ttl = 300;
  rdata = 192 ∷ 0 ∷ 2 ∷ 1 ∷ [];
}

abbrev small : Zone
small = add address (new (codes "example."))

abbrev signed : Zone
signed = record (new (codes "example.")) { nsec_owners = codes "example" ∷ codes "m.example" ∷ [] }

closest_encloser-nearest_example :
    closest_encloser small (codes "x.b.example")
    ≡ some (nearest small (to_ascii_lowercase (codes "x.b.example")))
closest_encloser-nearest_example = closest_encloser-nearest small (codes "x.b.example")

signed-IsSorted : IsSorted canonical_order signed.nsec_owners
unfolding new canonical_order list_cmp split_dots trim_end_dots bytes_cmp lower
signed-IsSorted = ((refl, tt), (tt, tt))

signed_nonempty : signed.nsec_owners ≢ []
signed_nonempty = ground arith

nsec_covering_owner-Covers_example :
    (o : Bytes) × (nsec_covering_owner signed (codes "b.example") ≡ some o)
    × Covers signed.nsec_owners (codes "b.example") o
nsec_covering_owner-Covers_example =
    nsec_covering_owner-Covers signed (codes "b.example") signed_nonempty signed-IsSorted
