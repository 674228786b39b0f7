-- ===== src/Zone/Order.antt =====
-- src/zone.rs: `canonical_order`, the order of names of RFC 4034, section 6.1.
use Prim.Native.Nat.{Ordering}
use ironbind.Prelude.{not, List, map, filter, is_empty}
use mathlib.Core.List.{reverse}
use ironbind.Prelude.Text.{Bytes, to_ascii_lowercase, trim_end_dots, split_dots, bytes_cmp}
use ironbind.Prelude.Sort.{list_cmp}

-- The labels from the root down, without empty ones, in lower case.
unfoldable pub order_labels : Bytes → List Bytes
order_labels name =
    map to_ascii_lowercase
      (filter (λ l. not (is_empty l)) (reverse (split_dots (trim_end_dots name))))

unfoldable pub canonical_order : Bytes → Bytes → Ordering
unfolding order_labels
canonical_order m n = list_cmp bytes_cmp (order_labels m) (order_labels n)
