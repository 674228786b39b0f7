-- ===== src/Server/State.antt =====
-- src/server.rs: the state that a query reads and changes, and what becomes of a query.
use ironbind.Prelude.{
  ℕ, Bool, true, false, not, ◌&&◌, Option, none, some, List, [], ◌∷◌, Result, ok, err, min, ltb,
  ◌==◌, filter, get_elem?, bit_and,
}
use ironbind.Prelude.Text.{Bytes}
use ironbind.Proto.RType.{RType, rtype_eq}
use ironbind.Proto.Packet.{Record, Packet, new_response}
use ironbind.Proto.Message.{serialize}
use ironbind.Cache.{Cache}
use ironbind.Config.Network.{IpAddr, contains}
use ironbind.Config.Network
use ironbind.Resolver
use ironbind.Resolver.{ResolveResult, resolve}
use ironbind.Tsig.{TsigKeyring}
use ironbind.Zone.{Zone}
use ironbind.Dnssec.{Crypto}
use ironbind.Metrics.{Metrics}

-- How a query that needs an upstream lookup is handled.
pub data Recursion : Type 0 where
  inline defer resume : Recursion

pub data Answer : Type 0 where
  ready : Option Bytes → Answer
  recursive : Answer

-- What a query reads of the configuration, and the forwarders of the resolver.
pub record Settings : Type 0 where
  pub tsig_require_all : Bool
  pub dnssec_validate : Bool
  pub dnssec_strict : Bool
  pub neg_cache_ttl : ℕ
  pub allow_recursion : List Network.Network
  pub forwarders : List Bytes
  pub use_forwarders : Bool

pub record State (W : Type 0) : Type 0 where
  pub zones : List Zone
  pub cache : Cache
  pub settings : Settings
  pub tsig_keys : TsigKeyring
  pub metrics : Metrics
  pub world : W

-- What the program takes from the network and from other crates.
pub record Outside (W : Type 0) : Type 0 where
  pub network : Resolver.Network W
  pub hmac : Bytes → Bytes → Bytes
  pub sha1 : Bytes → Bytes
  pub crypto : Crypto

-- The clock for TSIG and DNSSEC in seconds, the times of the lookup in the cache and of a write to it,
-- and how long the query has taken when its time is counted.
pub record Times : Type 0 where
  pub clock : ℕ
  pub now : ℕ
  pub later : ℕ
  pub elapsed : ℕ

-- What becomes of a query: nothing is sent, a packet is sent (with EDNS or not), or it is handed off.
pub data Outcome : Type 0 where
  silent handed_off : Outcome
  respond : Packet → Bool → Outcome

abbrev pub reply : Packet → Outcome
reply r = respond r (ltb 0 r.edns_udp_size)

abbrev pub is_resume : Recursion → Bool
is_resume inline = false
is_resume defer = false
is_resume resume = true

abbrev pub is_defer : Recursion → Bool
is_defer inline = false
is_defer defer = true
is_defer resume = false

abbrev pub is_error {ℓ κ} : {A : Type ℓ} {E : Type κ} → Result A E → Bool
is_error (ok x) = false
is_error (err e) = true

abbrev pub of_type : RType → List Record → List Record
of_type t rs = filter (λ r. rtype_eq r.rtype t) rs

abbrev pub not_of_types : RType → RType → List Record → List Record
not_of_types t u rs = filter (λ r. not (rtype_eq r.rtype t) && not (rtype_eq r.rtype u)) rs

abbrev pub min_ttl : List Record → Option ℕ
min_ttl [] = none
min_ttl (r ∷ rs) = elim (min_ttl rs) [ none ↦ some r.ttl | some t ↦ some (min r.ttl t) ]

-- The third byte has the QR bit.
abbrev pub looks_like_response : Bytes → Bool
looks_like_response data_bytes = elim (get_elem? data_bytes 2) [
  | none ↦ true
  | some b ↦ not (bit_and b 0x80 == 0)
]

abbrev pub base_response : Packet → Packet
base_response pkt = record (new_response pkt.id pkt.flags) {
  questions = pkt.questions;
  edns_udp_size = pkt.edns_udp_size;
  dnssec_ok = pkt.dnssec_ok;
}

abbrev pub answer_of : Outcome → Answer
answer_of silent = ready none
answer_of handed_off = recursive
answer_of (respond r e) = ready (some (serialize r e))

module _ {W : Type 0} where
  abbrev pub note : (Metrics → Metrics) → State W → State W
  note count st = record st { metrics = count st.metrics }
