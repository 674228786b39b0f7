-- ===== src/Resolver/Bailiwick.antt =====
-- src/resolver.rs: the packets that the iterative walk returns.
use ironbind.Prelude.{
  ℕ, zero, suc, ◌≡◌, refl, true, false, ◌&&◌, Option, none, some, List, [], ◌∷◌, ok, arith, any,
  Bool-cases, Option-cases, Result-cases, inl, inr,
}
use ironbind.Prelude.Text.{Bytes, bytes_eq, bytes_eq_iff}
use ironbind.Proto.RType.{RType}
use ironbind.Proto.Packet.{Packet}
use ironbind.Resolver.{
  in_bailiwick, build_query, ResolveResult, answer, nx_domain, serv_fail, Iter, Turn, finish, again,
  start, keep_bailiwick, Network, try_servers, on_reply, continue, resolve_loop, resolve_at,
  iterative_resolve, max_referrals, max_ns_lookup_depth,
}
use ironbind.Resolver.Turns.{IsWithin, in_root, TurnOf, on_reply-TurnOf}

-- The packet of a result that has one.
abbrev pub packet_of : ResolveResult → Option Packet
packet_of (answer p) = some p
packet_of (nx_domain p) = some p
packet_of (serv_fail e) = none

module _ {W : Type 0} (net : Network W) where
  -- `raw` is the reply of a server that `s` names to a query for the name of `s`.
  pub record Sent (qtype : RType) (s : Iter) (raw : Packet) : Type 0 where
    pub id : ℕ
    pub ip : Bytes
    pub w : W
    pub known : any (bytes_eq ip) s.nameservers ≡ true
    pub replied : (net.exchange (build_query id s.current_name qtype false) ip w).0 ≡ ok raw

  module _ (nested : Bytes → W → ResolveResult × W) (qtype : RType) (name : Bytes) where
    -- The states that a walk from the root comes to where each turn sees of the reply only the records
    -- in the zone of the state.
    pub data Walked : Iter → Type 0 where
      from_root : Walked (start name)
      turned :
          {s s' : Iter}
          → Walked s
          → (raw : Packet) → Sent qtype s raw
          → (visited : List (Bytes × Bytes)) (w : W)
          → (on_reply net nested qtype
              (record s { visited = visited })
              (keep_bailiwick s.current_zone raw)
              w).0
            ≡ again s'
          → Walked s'

    -- `p` is the reply to a state of the walk, less the records outside the zone of that state, which
    -- contains its name.
    pub record IsFiltered (p : Packet) : Type 0 where
      pub state : Iter
      pub walked : Walked state
      pub contains : in_bailiwick state.current_name state.current_zone ≡ true
      pub raw : Packet
      pub sent : Sent qtype state raw
      pub kept : p ≡ keep_bailiwick state.current_zone raw

    abbrev ResultOf : ResolveResult → Type 0
    ResultOf (answer p) = IsFiltered p
    ResultOf (nx_domain p) = IsFiltered p
    ResultOf (serv_fail e) = Unit

  -- One of the servers replied `p`.
  abbrev Asked : Bytes → Packet → List Bytes → Type 0
  Asked q p ips =
      (ip : Bytes) × (w : W) × (any (bytes_eq ip) ips ≡ true) × ((net.exchange q ip w).0 ≡ ok p)

  Asked-more :
      (q : Bytes) (p : Packet) (ip : Bytes) (ips : List Bytes)
      → Asked q p ips
      → Asked q p (ip ∷ ips)
  Asked-more q p ip ips (a, w, k, h) = (a, w, ground arith, h)

  try_servers-Asked :
      (q name : Bytes) (ips : List Bytes) (visited : List (Bytes × Bytes)) (w : W) (p : Packet)
      → (try_servers net q name ips visited w).0 ≡ some p
      → Asked q p ips
  unfolding try_servers
  try_servers-Asked q name [] visited w p h = absurd (ground arith)
  try_servers-Asked q name (ip ∷ ips) visited w p h =
      elim (Bool-cases
        (any (λ (k : Bytes × Bytes). bytes_eq name k.0 && bytes_eq ip k.1) visited)) [
          | inl e ↦
              Asked-more q p ip ips
                (try_servers-Asked q name ips visited w p (rw (e, try_servers) at h))
          | inr e ↦ elim (Result-cases (net.exchange q ip w).0) [
            | inl (r, n) ↦
                let same : r ≡ p = ground arith in
                (ip, w, rw ((bytes_eq_iff ip ip).1 refl) refl, rw (← same) n)
            | inr (x, n) ↦ Asked-more q p ip ips (
                try_servers-Asked q name ips ((name, ip) ∷ visited) (net.exchange q ip w).1 p
                  (rw (e, n, try_servers) at h))
          ]
        ]

  module _ (nested : Bytes → W → ResolveResult × W) (qtype : RType) (name : Bytes) where
    ResultOf-continue :
        (k : Iter → W → ResolveResult × W) (t : Turn × W) (p : Packet)
        → IsFiltered nested qtype name p
        → TurnOf p t.0
        → ((s : Iter) (w : W) → t.0 ≡ again s → IsWithin s → ResultOf nested qtype name (k s w).0)
        → ResultOf nested qtype name (continue k t).0
    ResultOf-continue k (finish (answer q), w) p f t h = rw t f
    ResultOf-continue k (finish (nx_domain q), w) p f t h = rw t f
    ResultOf-continue k (finish (serv_fail e), w) p f t h = tt
    ResultOf-continue k (again s, w) p f t h = h s w refl t

    resolve_loop-ResultOf :
        (left : ℕ) (s : Iter) (w : W)
        → IsWithin s
        → Walked nested qtype name s
        → ResultOf nested qtype name (resolve_loop net nested qtype left s w).0
    unfolding resolve_loop
    resolve_loop-ResultOf zero s w h r = tt
    resolve_loop-ResultOf (suc left) s w h r =
        let (id, w0) = net.random_id w in
        let q = build_query id s.current_name qtype false in
        let tried = try_servers net q s.current_name s.nameservers s.visited w0 in
        elim (Option-cases tried.0) [
          | inl e ↦ rw (e, resolve_loop) tt
          | inr (p, e) ↦
              let (ip, w', known, replied) =
                try_servers-Asked q s.current_name s.nameservers s.visited w0 p e in
              let s' = record s { visited = tried.1.0 } in
              let kept = keep_bailiwick s.current_zone p in
              let sent : Sent qtype s p = record {
                id = id;
                ip = ip;
                w = w';
                known = known;
                replied = replied;
              } in
              let filtered : IsFiltered nested qtype name kept = record {
                state = s;
                walked = r;
                contains = h;
                raw = p;
                sent = sent;
                kept = refl;
              } in
              rw (e, resolve_loop)
                (ResultOf-continue (λ t v. resolve_loop net nested qtype left t v)
                  (on_reply net nested qtype s' kept tried.1.1) kept filtered
                  (on_reply-TurnOf net nested qtype s' kept tried.1.1)
                  (λ t v again_at i.
                    resolve_loop-ResultOf left t v i
                      (turned r p sent tried.1.0 tried.1.1 again_at)))
        ]

    ResultOf-packet_of :
        (r : ResolveResult) (p : Packet)
        → ResultOf nested qtype name r
        → packet_of r ≡ some p
        → IsFiltered nested qtype name p
    ResultOf-packet_of (answer q) p f h = let e : q ≡ p = ground arith in rw (← e) f
    ResultOf-packet_of (nx_domain q) p f h = let e : q ≡ p = ground arith in rw (← e) f
    ResultOf-packet_of (serv_fail e) p f h = absurd (ground arith)

  -- The lookups of the names of nameservers that `iterative_resolve` makes at its first level.
  abbrev pub nested_lookup : Bytes → W → ResolveResult × W
  nested_lookup ns w = resolve_at net max_ns_lookup_depth RType.a ns w

  -- A packet that the walk from the root returns is the reply of a server, less the records outside
  -- the zone that the walk was in, OPT aside: there is a state, which turns that see only the records in
  -- their zones lead to from the root, so that one of the servers of that state sent the reply to a
  -- query for its name, its zone contains its name, and of the reply the records in its zone are
  -- returned.
  pub iterative_resolve-IsFiltered :
      (qtype : RType) (name : Bytes) (w : W) (p : Packet)
      → packet_of (iterative_resolve net qtype name w).0 ≡ some p
      → IsFiltered nested_lookup qtype name p
  unfolding iterative_resolve resolve_at
  iterative_resolve-IsFiltered qtype name w p h =
      ResultOf-packet_of nested_lookup qtype name (iterative_resolve net qtype name w).0 p
        (resolve_loop-ResultOf nested_lookup qtype name max_referrals (start name) w (in_root name)
          from_root)
        h
