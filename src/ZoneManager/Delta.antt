-- ===== src/ZoneManager/Delta.antt =====
-- src/zone_manager.rs: `ZoneDelta`, `build_delta` and `soa_serial`.
use ironbind.Prelude.{
  ℕ, Bool, not, ◌&&◌, Option, none, some, List, Result, ok, err, ◌==◌, filter, any, first?,
}
use mathlib.Core.List.{flatten}
use ironbind.Prelude.Text.{Bytes, bytes_eq, to_ascii_lowercase}
use ironbind.Proto.RType.{RType, to_u16, rtype_eq}
use ironbind.Proto.Packet.{Record}
use ironbind.Proto.Reader
use ironbind.Proto.Reader.{Reader, ◌>>=◌, run}
use ironbind.Zone.{Zone, iter_rrsets, soa}

pub record ZoneDelta : Type 0 where
  pub from_serial : ℕ
  pub to_serial : ℕ
  pub from_soa : Record
  pub to_soa : Record
  pub removed : List Record
  pub added : List Record

abbrev ok_or_none {ℓ κ} : {A : Type ℓ} {E : Type κ} → Result A E → Option A
ok_or_none (ok x) = some x
ok_or_none (err e) = none

-- `soa_serial`, `extract_serial` of axfr.rs, and the closure in `maybe_zone_transfer`.
unfoldable pub soa_serial : Bytes → Option ℕ
soa_serial rdata = ok_or_none (run (do _ ← Reader.name; _ ← Reader.name; Reader.u32) rdata)

-- `soa().and_then(|s| s.first())`
unfoldable pub first_soa : Zone → Option Record
first_soa z = elim (soa z) [ none ↦ none | some rs ↦ first? rs ]

-- The records of a zone but the SOA.
unfoldable pub body_records : Zone → List Record
body_records z = filter (λ r. not (rtype_eq r.rtype RType.soa)) (flatten (iter_rrsets z))

-- `(name, type, rdata)`, by which records are compared.
unfoldable pub same_data : Record → Record → Bool
same_data r s =
    bytes_eq (to_ascii_lowercase r.name) (to_ascii_lowercase s.name)
    && (to_u16 r.rtype == to_u16 s.rtype && bytes_eq r.rdata s.rdata)

-- Membership of the key of `r` in the hash set of the keys of `rs`.
unfoldable pub holds : List Record → Record → Bool
holds rs r = any (same_data r) rs

abbrev pub delta_of : Zone → Zone → Record → Record → ℕ → ℕ → ZoneDelta
delta_of old new old_soa new_soa from_serial to_serial = record {
  from_serial = from_serial;
  to_serial = to_serial;
  from_soa = old_soa;
  to_soa = new_soa;
  removed = filter (λ r. not (holds (body_records new) r)) (body_records old);
  added = filter (λ r. not (holds (body_records old) r)) (body_records new);
}

abbrev pub and_then {ℓ κ} : {A : Type ℓ} {B : Type κ} → Option A → (A → Option B) → Option B
and_then none f = none
and_then (some x) f = f x

unfoldable pub build_delta : Zone → Zone → Option ZoneDelta
build_delta old new = and_then (first_soa old) λ old_soa. and_then (first_soa new) λ new_soa.
    and_then (soa_serial old_soa.rdata) λ from_serial.
      and_then (soa_serial new_soa.rdata)
        λ to_serial. some (delta_of old new old_soa new_soa from_serial to_serial)
