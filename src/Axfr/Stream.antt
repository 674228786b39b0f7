-- ===== src/Axfr/Stream.antt =====
-- src/axfr.rs: the records in the messages of a transfer.
use ironbind.Prelude.{
  ℕ, zero, suc, ◌+◌, ◌≤◌, ◌<◌, ◌≡◌, ◌≢◌, refl, ap, ◌∙◌, true, some, List, [], ◌∷◌, ◌++◌, map,
  append-nil, append_assoc, arith, ltb, ltb→lt, ne→false, length, length-append, All, concat,
  Bool-cases, inl, inr,
}
use ironbind.Prelude.Text.{Bytes}
use ironbind.Prelude.Sort.{sort_by}
use ironbind.Proto.Packet.{Packet, Record}
use ironbind.Zone.{Zone}
use ironbind.ZoneManager.Delta.{ZoneDelta, soa_serial, first_soa, body_records}
use ironbind.Axfr.{
  max_rrs_per_msg, build_axfr_msg, record_cmp, pack, axfr_stream, delta_records, chunks_from,
  chunks, ends_at, ixfr_from, ixfr_stream,
}

abbrev self : List Record → List Record
self rs = rs

pack-map :
    (build : List Record → Bytes) (soa : Record) (current body : List Record)
    → pack build soa current body ≡ map build (pack self soa current body)
unfolding pack
pack-map build soa current [] = ground arith
pack-map build soa current (rr ∷ body) = elim (Bool-cases (ltb (length current) max_rrs_per_msg)) [
  | inl e ↦ rw (e, pack) (pack-map build soa (current ++ (rr ∷ [])) body)
  | inr e ↦ rw (e, pack) (ap (λ ms. build current ∷ ms) (pack-map build soa (rr ∷ []) body))
]

-- From 1 to 64 records.
abbrev pub Fits : List Record → Type 0
Fits rs = (0 < length rs) × (length rs ≤ max_rrs_per_msg)

Fits-single : (r : Record) → Fits (r ∷ [])
Fits-single r = (omega arith, omega arith)

Fits-append :
    (rs : List Record) (r : Record) → ltb (length rs) max_rrs_per_msg ≡ true → Fits (rs ++ (r ∷ []))
Fits-append rs r e = (
  omega (arith, length-append rs (r ∷ [])),
  omega (arith, length-append rs (r ∷ []), ltb→lt (length rs) max_rrs_per_msg e),
)

pack_records :
    (soa : Record) (current body : List Record)
    → Fits current
    → (concat (pack self soa current body) ≡ current ++ (body ++ (soa ∷ [])))
      × All Fits (pack self soa current body)
unfolding pack
pack_records soa current [] f = elim (Bool-cases (ltb (length current) max_rrs_per_msg)) [
  | inl e ↦ rw e (append-nil (current ++ (soa ∷ [])), (Fits-append current soa e, tt))
  | inr e ↦ rw e (refl, (f, (Fits-single soa, tt)))
]
pack_records soa current (rr ∷ body) f = elim (Bool-cases (ltb (length current) max_rrs_per_msg)) [
  | inl e ↦
      let (c, a) = pack_records soa (current ++ (rr ∷ [])) body (Fits-append current rr e) in
      rw e (c ∙ append_assoc current (rr ∷ []) (body ++ (soa ∷ [])), a)
  | inr e ↦
      let (c, a) = pack_records soa (rr ∷ []) body (Fits-single rr) in
      rw e (ap (λ rs. current ++ rs) c, (f, a))
]

-- A zone with an SOA is transferred as messages of 1 to 64 records each, which together hold the
-- SOA, every other record ordered by name and type, and the SOA again.
pub axfr_stream_messages :
    (req : Packet) (zone : Zone) (soa : Record)
    → first_soa zone ≡ some soa
    → (ms : List (List Record)) × (axfr_stream req zone ≡ map (build_axfr_msg req) ms)
      × (concat ms ≡ soa ∷ (sort_by record_cmp (body_records zone) ++ (soa ∷ [])))
      × All Fits ms
unfolding axfr_stream
axfr_stream_messages req zone soa h =
    let body = sort_by record_cmp (body_records zone) in
    let (c, a) = pack_records soa (soa ∷ []) body (Fits-single soa) in
    (
      pack self soa (soa ∷ []) body,
      rw (h, axfr_stream) (pack-map (build_axfr_msg req) soa (soa ∷ []) body),
      c,
      a,
    )

chunks_from_lem :
    (room : ℕ) (chunk rs : List Record)
    → 0 < length chunk
    → length chunk + room ≡ max_rrs_per_msg
    → (concat (chunks_from max_rrs_per_msg room chunk rs) ≡ chunk ++ rs)
      × All Fits (chunks_from max_rrs_per_msg room chunk rs)
unfolding chunks_from
chunks_from_lem room chunk [] p q = (refl, ((p, omega arith), tt))
chunks_from_lem zero chunk (r ∷ rs) p q =
    let (c, a) = chunks_from_lem 63 (r ∷ []) rs (omega arith) refl in
    (ap (λ xs. chunk ++ xs) c, ((p, omega arith), a))
chunks_from_lem (suc room) chunk (r ∷ rs) p q =
    let len = length-append chunk (r ∷ []) in
    let (c, a) =
      chunks_from_lem room (chunk ++ (r ∷ [])) rs (omega (arith, len)) (omega (arith, len)) in
    (c ∙ append_assoc chunk (r ∷ []) rs, a)

chunks_lem :
    (rs : List Record)
    → (concat (chunks max_rrs_per_msg rs) ≡ rs) × All Fits (chunks max_rrs_per_msg rs)
unfolding chunks
chunks_lem [] = (refl, tt)
chunks_lem (r ∷ rs) = chunks_from_lem 63 (r ∷ []) rs (omega arith) refl

-- A requester with another serial, and a history that ends at the zone's serial, get messages of 1
-- to 64 records each, which together hold the new SOA, each delta as its old SOA, the records
-- removed, its new SOA and the records added, and the new SOA again.
pub ixfr_stream_messages :
    (req : Packet) (zone : Zone) (soa : Record) (serial mine : ℕ) (d : ZoneDelta)
    (ds : List ZoneDelta)
    → first_soa zone ≡ some soa
    → soa_serial soa.rdata ≡ some mine
    → mine ≢ serial
    → ends_at mine (d ∷ ds) ≡ true
    → (ms : List (List Record)) × (ixfr_stream req zone serial (some (d ∷ ds))
        ≡ map (build_axfr_msg req) ms)
      × (concat ms ≡ soa ∷ (delta_records (d ∷ ds) ++ (soa ∷ [])))
      × All Fits ms
unfolding ixfr_stream ixfr_from
ixfr_stream_messages req zone soa serial mine d ds h s ne e =
    let rs = soa ∷ (delta_records (d ∷ ds) ++ (soa ∷ [])) in
    let (c, a) = chunks_lem rs in
    (
      chunks max_rrs_per_msg rs,
      rw (h, s, e, ne→false mine serial ne, ixfr_stream, ixfr_from) refl,
      c,
      a,
    )
