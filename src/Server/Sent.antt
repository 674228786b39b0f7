-- ===== src/Server/Sent.antt =====
-- src/server.rs: the bytes that are sent for a message.
use ironbind.Prelude.{ℕ, ◌≡◌, Bool, true, false, not, ◌&&◌, ◌⊎◌, ok, err}
use ironbind.Prelude.Text.{Bytes}
use ironbind.Proto.Packet.{Packet, new_response, is_response, set_rcode, rcode_refused}
use ironbind.Proto.Reader.{IoError, run}
use ironbind.Proto.Message.{parse}
use ironbind.Tsig.{is_empty_ring, verify_message}
use ironbind.Server.Responses.{best_id}
use ironbind.Server.State.{State, Outside, Times, is_error}
use ironbind.Server.Echoes.{Echoes}

-- A response with the identifier of the message, no questions and no records.
abbrev pub bare_response : Bytes → ℕ → Packet
bare_response data_bytes rcode = set_rcode rcode (new_response (best_id data_bytes) 0)

-- Whether the configuration asks for a signature that the message does not have.
abbrev pub is_unsigned : {W : Type 0} → Outside W → Times → Bytes → State W → Bool
is_unsigned out t data_bytes st =
    (st.settings.tsig_require_all && not (is_empty_ring st.tsig_keys))
    && is_error (verify_message out.hmac t.clock data_bytes st.tsig_keys)

-- The packet that answers a message: the refusal of one that is not signed, the format error of one
-- that does not parse, or an echo of the packet that it parses to, which is a query.
abbrev pub Answers : Bool → Bytes → Packet → Type 0
Answers unsigned data_bytes r =
    ((unsigned ≡ true) × (r ≡ bare_response data_bytes rcode_refused))
    ⊎ (((unsigned ≡ false)
          × (x : IoError) × (run parse data_bytes ≡ err x)
          × (r ≡ bare_response data_bytes 1))
        ⊎ ((unsigned ≡ false)
            × (pkt : Packet) × (run parse data_bytes ≡ ok pkt)
            × Echoes pkt r
            × (is_response pkt ≡ false)))
