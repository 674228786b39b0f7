-- ===== src/Server/Transfer.antt =====
-- src/server.rs: `maybe_zone_transfer` and `maybe_sign_response`. A serialized packet has a header, so
-- that signing it does not index out of range.
use ironbind.Prelude.{
  ℕ, false, not, ◌&&◌, ◌||◌, Option, none, some, List, [], ◌∷◌, ◌≡◌, refl, ◌⊎◌, Result, map, ok,
  err, arith, if◌then◌else◌, find?, first?, Bool-cases, Option-cases, Result-cases, inl, inr,
}
use ironbind.Prelude.Text.{Bytes, codes}
use ironbind.Proto.RType.{RType, rtype_eq}
use ironbind.Proto.Packet.{Question, Packet, rcode_refused}
use ironbind.Proto.Reader.{run}
use ironbind.Proto.Message.{parse}
use ironbind.Zone.{Zone, is_authoritative_for}
use ironbind.ZoneManager.{ZoneManager, ixfr_chain}
use ironbind.ZoneManager.Delta.{soa_serial}
use ironbind.Axfr.{axfr_stream, ixfr_stream}
use ironbind.Tsig.Authentic.{IsAuthentic, verify_message-IsAuthentic}
use ironbind.Tsig.{TsigKeyring, get_key, is_empty_ring, sign_message, verify_message}
use ironbind.Server.Responses.{error_response}
use ironbind.Server.State.{is_error}

abbrev sign_or_same : Option Bytes → Bytes → Bytes
sign_or_same none p = p
sign_or_same (some s) p = s

-- Every packet is signed if the keyring has the transfer key.
unfoldable sign_stream : (Bytes → Bytes → Bytes) → ℕ → TsigKeyring → List Bytes → List Bytes
sign_stream hmac clock keys packets =
    if is_empty_ring keys then packets else (elim (get_key (codes "transfer-key.") keys) [
      | none ↦ packets
      | some key ↦ map (λ p. sign_or_same (sign_message hmac clock p key) p) packets
    ])

-- The serial of the SOA in the authority section, or 0.
unfoldable pub requester_serial : Packet → ℕ
requester_serial pkt = elim (find? (λ r. rtype_eq r.rtype RType.soa) pkt.authority) [
  | none ↦ 0
  | some r ↦ elim (soa_serial r.rdata) [ none ↦ 0 | some s ↦ s ]
]

unfoldable pub transfer : Packet → Question → ZoneManager → Zone → List Bytes
unfolding requester_serial
transfer pkt q m zone =
    if rtype_eq q.qtype RType.axfr
    then axfr_stream pkt zone
    else ixfr_stream pkt zone (requester_serial pkt) (ixfr_chain q.name (requester_serial pkt) m)

-- `none` for a message that asks for no transfer, or for no zone of this server.
unfoldable transfer_for :
    (Bytes → Bytes → Bytes)
    → ℕ
    → Bytes
    → List Zone
    → ZoneManager
    → TsigKeyring
    → Packet
    → Question
    → Option (List Bytes)
unfolding sign_stream transfer
transfer_for hmac clock data_bytes zones m keys pkt q =
    let found : Option (List Bytes) = elim (find? (λ z. is_authoritative_for z q.name) zones) [
      | none ↦ none
      | some zone ↦ some (sign_stream hmac clock keys (transfer pkt q m zone))
    ] in
    if not (rtype_eq q.qtype RType.axfr || rtype_eq q.qtype RType.ixfr)
    then none
    else if not (is_empty_ring keys) && is_error (verify_message hmac clock data_bytes keys)
    then some (error_response pkt rcode_refused ∷ [])
    else found

unfoldable pub maybe_zone_transfer :
    (Bytes → Bytes → Bytes)
    → ℕ
    → Bytes
    → List Zone
    → ZoneManager
    → TsigKeyring
    → Option (List Bytes)
unfolding transfer_for
maybe_zone_transfer hmac clock data_bytes zones m keys = elim (run parse data_bytes) [
  | err e ↦ none
  | ok pkt ↦ elim (first? pkt.questions) [
    | none ↦ none
    | some q ↦ transfer_for hmac clock data_bytes zones m keys pkt q
  ]
]

-- The response is signed with the key that the request names.
unfoldable pub maybe_sign_response :
    (Bytes → Bytes → Bytes) → ℕ → Bytes → Bytes → TsigKeyring → Bytes
maybe_sign_response hmac clock req resp keys =
    if is_empty_ring keys then resp else (elim (run parse req) [
      | err e ↦ resp
      | ok p ↦ elim (find? (λ r. rtype_eq r.rtype RType.tsig) p.additional) [
        | none ↦ resp
        | some r ↦ elim (get_key r.name keys) [
          | none ↦ resp
          | some key ↦ sign_or_same (sign_message hmac clock resp key) resp
        ]
      ]
    ])

verified : {E : Type 0} (r : Result (Unit {0}) E) → is_error r ≡ false → r ≡ ok tt
verified (ok tt) h = refl
verified (err e) h = absurd (ground arith)

-- With keys configured: where `maybe_zone_transfer` sends something for a message, it is the refusal of
-- the packet that the message parses to, alone, or the message is authentic: its last record is a TSIG
-- record that names a configured key and an algorithm that begins with hmac-sha256, was made within its
-- fudge of the present time, and has the MAC of the message under the secret of that key.
pub maybe_zone_transfer-IsAuthentic :
    (hmac : Bytes → Bytes → Bytes) (clock : ℕ) (data_bytes : Bytes) (zones : List Zone)
    (m : ZoneManager) (keys : TsigKeyring) (packets : List Bytes)
    → is_empty_ring keys ≡ false
    → maybe_zone_transfer hmac clock data_bytes zones m keys ≡ some packets
    → ((pkt : Packet) × (run parse data_bytes ≡ ok pkt)
        × (packets ≡ error_response pkt rcode_refused ∷ []))
      ⊎ IsAuthentic hmac clock data_bytes keys
unfolding maybe_zone_transfer transfer_for
maybe_zone_transfer-IsAuthentic hmac clock data_bytes zones m keys packets e h =
    let r = verify_message hmac clock data_bytes keys in
    elim (Bool-cases (is_error r)) [
      | inr v ↦ inr (verify_message-IsAuthentic hmac clock data_bytes keys (verified r v))
      | inl v ↦ elim (Result-cases (run parse data_bytes)) [
        | inr (x, n) ↦ absurd (ground arith)
        | inl (pkt, n) ↦ elim (Option-cases (first? pkt.questions)) [
          | inl f ↦ absurd (ground arith)
          | inr (q, f) ↦
              elim (Bool-cases (rtype_eq q.qtype RType.axfr || rtype_eq q.qtype RType.ixfr)) [
                | inr a ↦ absurd (ground arith)
                | inl a ↦ inl (pkt, n, ground arith)
              ]
        ]
      ]
    ]
