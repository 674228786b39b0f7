-- ===== src/Server/Responses.antt =====
-- src/server.rs: the short responses, and the cut of a response that is too long for UDP.
use ironbind.Prelude.{ℕ, false, ok, err, min, max, ltb, if◌then◌else◌, length}
use ironbind.Prelude.Text.{Bytes}
use ironbind.Proto.Packet.{Packet, new_response, set_rcode, set_tc, set_ra}
use ironbind.Proto.Reader.{run}
use ironbind.Proto.Message.{parse, serialize, be16_at}

unfoldable pub error_packet : Packet → ℕ → Packet
unfolding new_response set_rcode
error_packet p rcode =
    set_rcode rcode (record (new_response p.id p.flags) { questions = p.questions })

unfoldable pub error_response : Packet → ℕ → Bytes
error_response p rcode = serialize (error_packet p rcode) false

-- The identifier of a message that does not parse.
abbrev pub best_id : Bytes → ℕ
best_id data_bytes = if ltb (length data_bytes) 2 then 0 else be16_at data_bytes 0

unfoldable pub formerr_response : Bytes → Bytes
formerr_response data_bytes = serialize (set_rcode 1 (new_response (best_id data_bytes) 0)) false

unfoldable pub build_truncated : Bytes → Bytes
build_truncated query = elim (run parse query) [
  | err e ↦ formerr_response query
  | ok p ↦
      serialize (set_ra (set_tc (record (new_response p.id p.flags) { questions = p.questions })))
        false
]

-- `clamp(512, 4096)`, and 512 for a query that does not parse.
unfoldable pub udp_limit : Bytes → ℕ
udp_limit query = elim (run parse query) [ err e ↦ 512 | ok p ↦ max 512 (min p.edns_udp_size 4096) ]

-- What `send_udp` sends.
unfoldable pub udp_payload : Bytes → Bytes → Bytes
unfolding build_truncated udp_limit
udp_payload query resp = if ltb (udp_limit query) (length resp) then build_truncated query else resp
