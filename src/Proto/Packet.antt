-- ===== src/Proto/Packet.antt =====
-- src/proto.rs: `Question`, `Record`, `Packet` with its flag bits, and the codes of RFC 1035.
pub mod Flags
use ironbind.Prelude.{
  ℕ, ◌+◌, ◌-◌, ◌*◌, ◌/◌, ◌%◌, ◌^◌, ◌≡◌, refl, Bool, not, List, [], ◌∷◌, bit_and, bit_or, arith,
  ◌==◌,
}
use ironbind.Prelude.Text.{Bytes}
use ironbind.Proto.RType.{RType}

abbrev pub class_in : ℕ
class_in = 1

abbrev pub class_any : ℕ
class_any = 255

abbrev pub rcode_noerror : ℕ
rcode_noerror = 0

abbrev rcode_formerr : ℕ
rcode_formerr = 1

abbrev pub rcode_servfail : ℕ
rcode_servfail = 2

abbrev pub rcode_nxdomain : ℕ
rcode_nxdomain = 3

abbrev pub rcode_notimp : ℕ
rcode_notimp = 4

abbrev pub rcode_refused : ℕ
rcode_refused = 5

pub record Question : Type 0 where
  pub name : Bytes
  pub qtype : RType
  pub qclass : ℕ

pub record Record : Type 0 where
  pub name : Bytes
  pub rtype : RType
  pub class : ℕ
  pub ttl : ℕ
  pub rdata : Bytes

pub record Packet : Type 0 where
  pub id : ℕ
  pub flags : ℕ
  pub questions : List Question
  pub answers : List Record
  pub authority : List Record
  pub additional : List Record
  pub edns_udp_size : ℕ
  pub dnssec_ok : Bool

unfoldable pub new_response : ℕ → ℕ → Packet
new_response id req_flags = record {
  id = id;
  flags = bit_or (bit_or 0x8000 (bit_and req_flags 0x0100)) 0x0080;
  questions = [];
  answers = [];
  authority = [];
  additional = [];
  edns_udp_size = 0;
  dnssec_ok = Bool.false;
}

unfoldable is_query : Packet → Bool
is_query p = bit_and p.flags 0x8000 == 0

unfoldable pub is_response : Packet → Bool
is_response p = not (bit_and p.flags 0x8000 == 0)

unfoldable pub rd : Packet → Bool
rd p = not (bit_and p.flags 0x0100 == 0)

unfoldable pub truncated : Packet → Bool
truncated p = not (bit_and p.flags 0x0200 == 0)

unfoldable pub set_aa : Packet → Packet
set_aa p = record p { flags = bit_or p.flags 0x0400 }

unfoldable pub set_tc : Packet → Packet
set_tc p = record p { flags = bit_or p.flags 0x0200 }

-- `!0x0200` on sixteen bits.
unfoldable clear_tc : Packet → Packet
clear_tc p = record p { flags = bit_and p.flags 0xfdff }

unfoldable pub set_ra : Packet → Packet
set_ra p = record p { flags = bit_or p.flags 0x0080 }

unfoldable pub rcode : Packet → ℕ
rcode p = bit_and p.flags 0x000f % 256

unfoldable pub set_rcode : ℕ → Packet → Packet
set_rcode c p = record p { flags = bit_or (bit_and p.flags 0xfff0) (bit_and c 0xf) }

unfoldable pub opcode : Packet → ℕ
opcode p = bit_and (p.flags / 2 ^ 11) 0xf % 256
