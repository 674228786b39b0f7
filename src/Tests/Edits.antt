-- ===== src/Tests/Edits.antt =====
-- Two versions of a zone, the delta between them, its history, and the transfers.
use ironbind.Prelude.{
  ℕ, ◌+◌, ◌%◌, ◌^◌, ◌≡◌, ◌≢◌, refl, ◌⊎◌, true, false, not, ◌&&◌, ◌||◌, some, List, [], ◌∷◌, ◌++◌,
  map, arith, if◌then◌else◌, Result, ok, err, All, concat,
}
use mathlib.Core.List.{flatten}
use ironbind.Prelude.Text.{Bytes, codes, bytes_eq, lower, trim_end_dots}
use ironbind.Prelude.Assoc.{bytes_key, lookup, insert}
use ironbind.Prelude.Sort.{sort_by}
use ironbind.Proto.RType
use ironbind.Proto.RType.{RType}
use ironbind.Proto.Reader
use ironbind.Proto.Reader.{IoError}
use ironbind.Proto.Packet.{Packet, Record, class_in, new_response}
use ironbind.Zone.{Zone, add}
use ironbind.Zone
use ironbind.ZoneManager
use ironbind.ZoneManager.{ZoneManager, load_zone, get_zone, get_version, ixfr_chain}
use ironbind.ZoneManager.Delta.{
  ZoneDelta, soa_serial, first_soa, body_records, holds, same_data, build_delta,
}
use ironbind.ZoneManager.Apply.{build_delta_applies}
use ironbind.ZoneManager.History.{
  stop, link, IsTail, load_zone_effect, ixfr_chain-IsTail, ixfr_chain_complete,
}
use ironbind.Axfr.{build_axfr_msg, record_cmp, axfr_stream, ixfr_stream, delta_records, ends_at}
use ironbind.Axfr.Stream.{Fits, axfr_stream_messages, ixfr_stream_messages}

abbrev origin : Bytes
origin = codes "ex"

abbrev soa_of : ℕ → Record
soa_of serial = record {
  name = origin;
  rtype = RType.soa;
  class = class_in;
  ttl = 300;
  rdata =
      0 ∷ 0 ∷ 0 ∷ 0 ∷ 0 ∷ serial ∷ 0 ∷ 0 ∷ 0 ∷ 1 ∷ 0 ∷ 0 ∷ 0 ∷ 1 ∷ 0 ∷ 0 ∷ 0 ∷ 1 ∷ 0 ∷ 0 ∷ 0 ∷ 1
      ∷ [];
}

abbrev address : ℕ → Record
address host = record {
  name = codes "a.ex";
  rtype = RType.a;
  class = class_in;
  ttl = 300;
  rdata = 192 ∷ 0 ∷ 2 ∷ host ∷ [];
}

abbrev old : Zone
old = add (address 1) (add (soa_of 1) (Zone.new origin))

abbrev edited : Zone
edited = add (address 2) (add (soa_of 2) (Zone.new origin))

abbrev edit : ZoneDelta
edit = record {
  from_serial = 1;
  to_serial = 2;
  from_soa = soa_of 1;
  to_soa = soa_of 2;
  removed = address 1 ∷ [];
  added = address 2 ∷ [];
}

build_delta-edit : build_delta old edited ≡ some edit
unfolding build_delta first_soa soa_serial body_records holds add Zone.new Zone.soa lookup insert
    bytes_eq lower trim_end_dots RType.to_u16 Reader.name Reader.u32 Reader.u16 Reader.u8 flatten
    Zone.iter_rrsets RType.rtype_eq same_data
build_delta-edit = refl

first_soa-edited : first_soa edited ≡ some (soa_of 2)
unfolding first_soa add Zone.new Zone.soa lookup insert bytes_eq lower trim_end_dots RType.to_u16
first_soa-edited = refl

build_delta_applies_example :
    (first_soa old ≡ some (soa_of 1))
    × (first_soa edited ≡ some (soa_of 2))
    × (soa_serial (soa_of 1).rdata ≡ some 1)
    × (soa_serial (soa_of 2).rdata ≡ some 2)
    × (holds (body_records edited) (address 2) ≡ (
        (holds (body_records old) (address 2) && not (holds edit.removed (address 2)))
        || holds edit.added (address 2)))
build_delta_applies_example = build_delta_applies old edited edit (address 2) build_delta-edit

abbrev kept : ZoneManager
kept = record {
  zones = [];
  zone_files = [];
  versions = [];
  history = (origin, edit ∷ []) ∷ [];
  history_cap = 32;
}

abbrev loaded : Result Zone IoError
loaded = ok old

abbrev fresh : ZoneManager
fresh = ZoneManager.new

load_zone_effect_example :
    ((e : IoError) × (loaded ≡ err e)
      × (load_zone origin (codes "db.ex") loaded fresh ≡ (fresh, false)))
    ⊎ ((z : Zone) × (loaded ≡ ok z)
        × (get_zone origin (load_zone origin (codes "db.ex") loaded fresh).0
            ≡ (if bytes_key.beq origin origin then some z else get_zone origin fresh))
        × (get_version origin (load_zone origin (codes "db.ex") loaded fresh).0 ≡ (
            if bytes_key.beq origin origin
            then (get_version origin fresh + 1) % 2 ^ 32
            else get_version origin fresh)))
load_zone_effect_example = load_zone_effect origin (codes "db.ex") origin loaded fresh

ixfr_chain-kept : ixfr_chain origin 1 kept ≡ some (edit ∷ [])
unfolding ixfr_chain lookup bytes_eq
ixfr_chain-kept = refl

ixfr_chain-IsTail_example :
    (queue : List ZoneDelta) × (lookup origin kept.history ≡ some queue)
    × IsTail 1 queue (edit ∷ [])
ixfr_chain-IsTail_example = ixfr_chain-IsTail origin 1 kept (edit ∷ []) ixfr_chain-kept

kept_queue : lookup origin kept.history ≡ some (edit ∷ [])
unfolding lookup bytes_eq
kept_queue = refl

kept-IsTail : IsTail 1 (edit ∷ []) (edit ∷ [])
kept-IsTail = record {
  front = [];
  split = refl;
  first = tt;
  nonempty = ground arith;
  chain = link refl stop;
}

ixfr_chain_complete_example : ixfr_chain origin 1 kept ≡ some (edit ∷ [])
ixfr_chain_complete_example =
    ixfr_chain_complete origin 1 kept (edit ∷ []) (edit ∷ []) kept_queue kept-IsTail

abbrev request : Packet
request = new_response 7 0

axfr_stream_messages_example :
    (ms : List (List Record)) × (axfr_stream request edited ≡ map (build_axfr_msg request) ms)
    × (concat ms ≡ soa_of 2 ∷ (sort_by record_cmp (body_records edited) ++ (soa_of 2 ∷ [])))
    × All Fits ms
axfr_stream_messages_example = axfr_stream_messages request edited (soa_of 2) first_soa-edited

serial_two : soa_serial (soa_of 2).rdata ≡ some 2
unfolding soa_serial Reader.name Reader.u32 Reader.u16 Reader.u8
serial_two = refl

two_not_one : ◌≢◌ {A = ℕ} 2 1
two_not_one = omega arith

ends_at_two : ends_at 2 (edit ∷ []) ≡ true
unfolding ends_at
ends_at_two = refl

ixfr_stream_messages_example :
    (ms : List (List Record)) × (ixfr_stream request edited 1 (some (edit ∷ []))
      ≡ map (build_axfr_msg request) ms)
    × (concat ms ≡ soa_of 2 ∷ (delta_records (edit ∷ []) ++ (soa_of 2 ∷ [])))
    × All Fits ms
ixfr_stream_messages_example =
    ixfr_stream_messages request edited (soa_of 2) 1 2 edit [] first_soa-edited serial_two
      two_not_one ends_at_two
