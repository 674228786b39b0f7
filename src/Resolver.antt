-- ===== src/Resolver.antt =====
-- src/resolver.rs: what counts as a reply, and the iterative walk from the root. The network is a
-- parameter, see `Network`.
pub mod Exchange
pub mod Replies
pub mod Turns
pub mod Bailiwick
pub mod Below
pub mod Referrals
pub mod Conf
use ironbind.Prelude.{
  ℕ, zero, suc, ◌+◌, ◌-◌, Bool, true, false, not, ◌&&◌, ◌||◌, Option, none, some, List, [], ◌∷◌,
  ◌++◌, map, Result, ok, err, ◌==◌, if◌then◌else◌, length, filter, find?, any, is_empty, concat,
}
use ironbind.Prelude.Text.{
  Bytes, codes, dot, to_ascii_lowercase, bytes_eq, ends_with, trim_end_dots,
}
use ironbind.Proto.RType
use ironbind.Proto.RType.{RType, rtype_eq}
use ironbind.Proto.Packet.{
  Question, Record, Packet, class_in, rcode, rcode_servfail, rcode_nxdomain,
}
use ironbind.Proto.Reader
use ironbind.Proto.Reader.{run}
use ironbind.Proto.Message.{serialize}
use ironbind.Resolver.Exchange.{NetError}

unfoldable pub in_bailiwick : Bytes → Bytes → Bool
in_bailiwick name zone =
    let n = to_ascii_lowercase (trim_end_dots name) in
    let z = to_ascii_lowercase (trim_end_dots zone) in
    is_empty z || (bytes_eq n z || ends_with n (dot ∷ z))

-- `unwrap_or_default`
abbrev or_nothing {ℓ} : {E : Type ℓ} → Result Bytes E → Bytes
or_nothing (ok n) = n
or_nothing (err e) = []

unfoldable pub parse_name_from_rdata : Bytes → Bytes
parse_name_from_rdata rdata = or_nothing (run Reader.name rdata)

-- The random identifier is an argument.
abbrev query_packet : ℕ → ℕ → Bool → Bytes → RType → Packet
query_packet id flags dnssec_ok name qtype = record {
  id = id;
  flags = flags;
  questions = record { name = name; qtype = qtype; qclass = class_in } ∷ [];
  answers = [];
  authority = [];
  additional = [];
  edns_udp_size = 4096;
  dnssec_ok = dnssec_ok;
}

unfoldable pub build_query_dnssec : ℕ → Bytes → RType → Bytes
build_query_dnssec id name qtype = serialize (query_packet id 0x0100 true name qtype) true

unfoldable pub build_query : ℕ → Bytes → RType → Bool → Bytes
build_query id name qtype recurse =
    serialize (query_packet id (if recurse then 0x0100 else 0) false name qtype) true

-- Why `ServFail`: the message of the source, less the names in it.
pub data Failure : Type 0 where
  depth_exceeded max_referrals_exceeded all_failed cname_loop bogus_referral empty_referral
        unresolved :
      Failure

pub data ResolveResult : Type 0 where
  answer : Packet → ResolveResult
  nx_domain : Packet → ResolveResult
  serv_fail : Failure → ResolveResult

-- An IPv4 address is its four bytes. The port is 53 everywhere.
abbrev pub root_servers : List Bytes
root_servers =
    (198 ∷ 41 ∷ 0 ∷ 4 ∷ [])
    ∷ (199 ∷ 9 ∷ 14 ∷ 201 ∷ [])
    ∷ (192 ∷ 33 ∷ 4 ∷ 12 ∷ [])
    ∷ (199 ∷ 7 ∷ 91 ∷ 13 ∷ [])
    ∷ (192 ∷ 203 ∷ 230 ∷ 10 ∷ [])
    ∷ (192 ∷ 5 ∷ 5 ∷ 241 ∷ [])
    ∷ (192 ∷ 112 ∷ 36 ∷ 4 ∷ [])
    ∷ (198 ∷ 97 ∷ 190 ∷ 53 ∷ [])
    ∷ (192 ∷ 36 ∷ 148 ∷ 17 ∷ [])
    ∷ (192 ∷ 58 ∷ 128 ∷ 30 ∷ [])
    ∷ (193 ∷ 0 ∷ 14 ∷ 129 ∷ [])
    ∷ (199 ∷ 7 ∷ 83 ∷ 42 ∷ [])
    ∷ (202 ∷ 12 ∷ 27 ∷ 33 ∷ [])
    ∷ []

abbrev pub max_referrals : ℕ
max_referrals = 20

abbrev pub max_ns_lookup_depth : ℕ
max_ns_lookup_depth = 4

-- The locals of the loop of `iterative_resolve`. A key of `visited` is the string
-- "name-address:53", which the last dash cuts in two: here it is the pair.
pub record Iter : Type 0 where
  pub nameservers : List Bytes
  pub current_zone : Bytes
  pub visited : List (Bytes × Bytes)
  pub cname_chain : List Bytes
  pub current_name : Bytes

pub data Turn : Type 0 where
  finish : ResolveResult → Turn
  again : Iter → Turn

abbrev pub start : Bytes → Iter
start name = record {
  nameservers = root_servers;
  current_zone = dot ∷ [];
  visited = [];
  cname_chain = [];
  current_name = name;
}

-- The three `retain`s.
unfoldable pub keep_bailiwick : Bytes → Packet → Packet
unfolding in_bailiwick
keep_bailiwick zone p = record p {
  answers = filter (λ r. in_bailiwick r.name zone) p.answers;
  authority = filter (λ r. in_bailiwick r.name zone) p.authority;
  additional = filter (λ r. rtype_eq r.rtype RType.opt || in_bailiwick r.name zone) p.additional;
}

unfoldable pub on_answers : RType → Iter → Packet → Turn
on_answers qtype s p = elim (find? (λ r. rtype_eq r.rtype RType.cname) p.answers) [
  | none ↦ finish (answer p)
  | some cn ↦
      let target = parse_name_from_rdata cn.rdata in
      if rtype_eq qtype RType.cname
      then finish (answer p)
      else if is_empty target || any (bytes_eq target) s.cname_chain
      then finish (serv_fail cname_loop)
      else again (record s {
        cname_chain = s.cname_chain ++ (s.current_name ∷ []);
        current_name = target;
        nameservers = root_servers;
        current_zone = dot ∷ [];
      })
]

-- The IPv4 addresses of records.
unfoldable pub addresses : List Record → List Bytes
addresses rs =
    map (λ (r : Record). r.rdata)
      (filter (λ r. rtype_eq r.rtype RType.a && (length r.rdata == 4)) rs)

abbrev same_name : Bytes → Record → Bool
same_name n r = bytes_eq (to_ascii_lowercase r.name) (to_ascii_lowercase n)

unfoldable pub glue : List Bytes → List Record → List Bytes
unfolding addresses
glue ns_names additional =
    concat (map (λ ns. addresses (filter (same_name ns) additional)) ns_names)

unfoldable pub delegated_names : Bytes → List Record → List Bytes
delegated_names zone authority =
    filter (λ n. not (is_empty n))
      (map (λ (r : Record). parse_name_from_rdata r.rdata)
        (filter (λ r. rtype_eq r.rtype RType.ns && same_name zone r) authority))

-- `return` out of the loop, or `continue` it.
abbrev pub continue : {W : Type 0} → (Iter → W → ResolveResult × W) → Turn × W → ResolveResult × W
continue k (finish r, w) = (r, w)
continue k (again s, w) = k s w

-- What the resolver uses of the world `W`: a random number, and `udp_exchange` with an address.
pub record Network (W : Type 0) : Type 0 where
  pub random_id : W → ℕ × W
  pub exchange : Bytes → Bytes → W → Result Packet NetError × W

module _ {W : Type 0} (net : Network W) where
  -- The inner loop over the nameservers.
  unfoldable pub try_servers :
      Bytes
      → Bytes
      → List Bytes
      → List (Bytes × Bytes)
      → W
      → Option Packet × (List (Bytes × Bytes) × W)
  try_servers q name [] visited w = (none, (visited, w))
  try_servers q name (ip ∷ ips) visited w =
      let seen = any (λ (k : Bytes × Bytes). bytes_eq name k.0 && bytes_eq ip k.1) visited in
      let skipped = try_servers q name ips visited w in
      let (reply, w') = net.exchange q ip w in
      let failed = try_servers q name ips ((name, ip) ∷ visited) w' in
      if seen
      then skipped
      else elim reply [ ok p ↦ (some p, ((name, ip) ∷ visited, w')) | err e ↦ failed ]

  -- The nested lookups of nameservers without glue, up to the first that has addresses.
  unfoldable pub resolve_ns : (Bytes → W → ResolveResult × W) → List Bytes → W → List Bytes × W
  unfolding addresses
  resolve_ns nested [] w = ([], w)
  resolve_ns nested (ns ∷ rest) w =
      let (r, w') = nested ns w in
      let found : List Bytes = elim r [
        | answer p ↦ addresses p.answers
        | nx_domain p ↦ []
        | serv_fail e ↦ []
      ] in
      let later = resolve_ns nested rest w' in if is_empty found then later else (found, w')

  unfoldable pub delegate_to : Iter → Bytes → List Bytes × W → Turn × W
  delegate_to s zone (next, w) =
      if is_empty next
      then (finish (serv_fail unresolved), w)
      else (again (record s { nameservers = next; current_zone = zone }), w)

  unfoldable pub delegate : (Bytes → W → ResolveResult × W) → Iter → Bytes → Packet → W → Turn × W
  unfolding delegated_names glue resolve_ns delegate_to
  delegate nested s zone p w =
      let ns_names = delegated_names zone p.authority in
      let known = glue ns_names p.additional in
      if is_empty ns_names
      then (finish (serv_fail empty_referral), w)
      else delegate_to s zone (if is_empty known then resolve_ns nested ns_names w else (known, w))

  unfoldable pub on_referral : (Bytes → W → ResolveResult × W) → Iter → Packet → W → Turn × W
  unfolding delegate
  on_referral nested s p w = elim (find? (λ r. rtype_eq r.rtype RType.ns) p.authority) [
    | none ↦ (finish (serv_fail bogus_referral), w)
    | some r ↦
        let zone = to_ascii_lowercase r.name in
        if not (bytes_eq zone s.current_zone) && in_bailiwick s.current_name zone
        then delegate nested s zone p w
        else (finish (serv_fail bogus_referral), w)
  ]

  -- The body of the loop behind the `retain`s.
  unfoldable pub on_reply : (Bytes → W → ResolveResult × W) → RType → Iter → Packet → W → Turn × W
  unfolding on_answers on_referral
  on_reply nested qtype s p w =
      if rcode p == rcode_nxdomain
      then (finish (nx_domain p), w)
      else if not (is_empty p.answers)
      then (on_answers qtype s p, w)
      else if not (is_empty p.authority)
      then on_referral nested s p w
      else (finish (answer p), w)

  -- The loop, with the referrals that are left. Each turn that goes on uses one.
  unfoldable pub resolve_loop :
      (Bytes → W → ResolveResult × W) → RType → ℕ → Iter → W → ResolveResult × W
  unfolding try_servers keep_bailiwick on_reply
  resolve_loop nested qtype zero s w = (serv_fail max_referrals_exceeded, w)
  resolve_loop nested qtype (suc left) s w =
      let (id, w0) = net.random_id w in
      let q = build_query id s.current_name qtype false in
      let (reply, (visited, w1)) = try_servers q s.current_name s.nameservers s.visited w0 in
      elim reply [
        | none ↦ (serv_fail all_failed, w1)
        | some p ↦
            continue (λ s' w'. resolve_loop nested qtype left s' w')
              (on_reply nested qtype (record s { visited = visited })
                (keep_bailiwick s.current_zone p) w1)
      ]

  -- `iterative_resolve`, with the levels of nested lookups that are left: 5 at depth 0.
  unfoldable pub resolve_at : ℕ → RType → Bytes → W → ResolveResult × W
  unfolding resolve_loop
  resolve_at zero qtype name w = (serv_fail depth_exceeded, w)
  resolve_at (suc levels) qtype name w =
      resolve_loop (λ ns w'. resolve_at levels RType.a ns w') qtype max_referrals (start name) w

  unfoldable pub iterative_resolve : RType → Bytes → W → ResolveResult × W
  unfolding resolve_at
  iterative_resolve qtype name w = resolve_at (max_ns_lookup_depth + 1) qtype name w

  -- The loop over the forwarders; `none` if each failed.
  unfoldable forward : Bytes → List Bytes → W → Option ResolveResult × W
  forward q [] w = (none, w)
  forward q (fwd ∷ fwds) w =
      let (reply, w') = net.exchange q fwd w in
      let later = forward q fwds w' in
      elim reply [
        | err e ↦ later
        | ok p ↦
            if rcode p == rcode_servfail
            then later
            else if rcode p == rcode_nxdomain
            then (some (nx_domain p), w')
            else (some (answer p), w')
      ]

  unfoldable pub resolve : List Bytes → Bool → RType → Bytes → W → ResolveResult × W
  unfolding forward iterative_resolve
  resolve forwarders use_forwarders qtype name w =
      let (id, w0) = net.random_id w in
      let (found, w1) = forward (build_query id name qtype true) forwarders w0 in
      if use_forwarders
      then (elim found [ none ↦ iterative_resolve qtype name w1 | some r ↦ (r, w1) ])
      else iterative_resolve qtype name w

  unfoldable pub fetch_with_rrsig : List Bytes → Bytes → RType → W → (List Record × List Record) × W
  fetch_with_rrsig forwarders name qtype w =
      let (id, w0) = net.random_id w in fetch (build_query_dnssec id name qtype) forwarders w0
    where
      fetch : Bytes → List Bytes → W → (List Record × List Record) × W
      fetch q [] w = (([], []), w)
      fetch q (fwd ∷ fwds) w =
          let (reply, w') = net.exchange q fwd w in
          let later = fetch q fwds w' in
          elim reply [
            | err e ↦ later
            | ok p ↦ (
              (
                filter (λ r. rtype_eq r.rtype qtype) p.answers,
                filter (λ r. rtype_eq r.rtype RType.rrsig) p.answers,
              ),
              w',
            )
          ]
