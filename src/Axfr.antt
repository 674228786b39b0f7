-- ===== src/Axfr.antt =====
-- src/axfr.rs: the message streams of AXFR and IXFR.
pub mod Stream
use Prim.Native.Nat.{compare, Ordering}
use ironbind.Prelude.{
  ℕ, zero, suc, ◌+◌, ◌-◌, Bool, true, false, not, ◌&&◌, Option, none, some, List, [], ◌∷◌, ◌++◌,
  map, ltb, ◌==◌, if◌then◌else◌, length, is_empty, last?, take, drop,
}
use ironbind.Prelude.Text.{Bytes, bytes_cmp}
use ironbind.Prelude.Sort.{then_cmp, sort_by}
use ironbind.Proto.RType.{to_u16}
use ironbind.Proto.Packet.{Packet, Record, new_response, set_aa}
use ironbind.Proto.Message.{serialize}
use ironbind.Zone.{Zone}
use ironbind.ZoneManager.Delta.{ZoneDelta, first_soa, body_records, soa_serial}

abbrev pub max_rrs_per_msg : ℕ
max_rrs_per_msg = 64

unfoldable pub build_axfr_msg : Packet → List Record → Bytes
unfolding new_response set_aa
build_axfr_msg req answers =
    let resp = set_aa (record (new_response req.id req.flags) { questions = req.questions }) in
    serialize (record resp { answers = answers }) false

-- By name, and then by type.
unfoldable pub record_cmp : Record → Record → Ordering
record_cmp r s = then_cmp (bytes_cmp r.name s.name) (compare (to_u16 r.rtype) (to_u16 s.rtype))

-- The loop over the body, and the closing SOA behind it. `build` makes a message of records.
unfoldable pub pack {ℓ} :
    {M : Type ℓ} → (List Record → M) → Record → List Record → List Record → List M
pack build soa current [] =
    if ltb (length current) max_rrs_per_msg
    then build (current ++ (soa ∷ [])) ∷ []
    else build current ∷ build (soa ∷ []) ∷ []
pack build soa current (rr ∷ body) =
    let full = not (ltb (length current) max_rrs_per_msg) in
    let rest = pack build soa (if full then rr ∷ [] else current ++ (rr ∷ [])) body in
    if full then build current ∷ rest else rest

unfoldable pub axfr_stream : Packet → Zone → List Bytes
unfolding pack
axfr_stream req zone = elim (first_soa zone) [
  | none ↦ []
  | some soa ↦ pack (build_axfr_msg req) soa (soa ∷ []) (sort_by record_cmp (body_records zone))
]

-- The deltas in the order of RFC 1995.
unfoldable pub delta_records : List ZoneDelta → List Record
delta_records [] = []
delta_records (d ∷ ds) = (d.from_soa ∷ d.removed) ++ ((d.to_soa ∷ d.added) ++ delta_records ds)

-- `chunks(n)` for n > 0: `room` items more fit the chunk at hand, which is not empty.
unfoldable pub chunks_from {ℓ} : {A : Type ℓ} → ℕ → ℕ → List A → List A → List (List A)
chunks_from n room chunk [] = chunk ∷ []
chunks_from n zero chunk (x ∷ xs) = chunk ∷ chunks_from n (n - 1) (x ∷ []) xs
chunks_from n (suc room) chunk (x ∷ xs) = chunks_from n room (chunk ++ (x ∷ [])) xs

unfoldable pub chunks {ℓ} : {A : Type ℓ} → ℕ → List A → List (List A)
unfolding chunks_from
chunks n [] = []
chunks n (x ∷ xs) = chunks_from n (n - 1) (x ∷ []) xs

-- `deltas.last().map(|d| d.to_serial) == Some(our_serial)`
unfoldable pub ends_at : ℕ → List ZoneDelta → Bool
ends_at serial ds = elim (last? ds) [ none ↦ false | some d ↦ d.to_serial == serial ]

abbrev or_zero : Option ℕ → ℕ
or_zero none = 0
or_zero (some s) = s

unfoldable pub ixfr_from : Packet → Zone → Record → Option (List ZoneDelta) → List Bytes
unfolding delta_records chunks axfr_stream ends_at
ixfr_from req zone our_soa none = axfr_stream req zone
ixfr_from req zone our_soa (some deltas) =
    if not (is_empty deltas) && ends_at (or_zero (soa_serial our_soa.rdata)) deltas
    then map (build_axfr_msg req)
        (chunks max_rrs_per_msg (our_soa ∷ delta_records deltas ++ (our_soa ∷ [])))
    else axfr_stream req zone

unfoldable pub ixfr_stream : Packet → Zone → ℕ → Option (List ZoneDelta) → List Bytes
unfolding ixfr_from
ixfr_stream req zone requester_serial history = elim (first_soa zone) [
  | none ↦ []
  | some our_soa ↦
      if or_zero (soa_serial our_soa.rdata) == requester_serial
      then build_axfr_msg req (our_soa ∷ []) ∷ []
      else ixfr_from req zone our_soa history
]
