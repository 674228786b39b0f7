-- ===== src/Lib.antt =====
-- A verification library for ironbind, a DNS server in Rust: authoritative zones with DNSSEC and
-- zone transfer, a caching resolver, and the wire format that all of it speaks.
--
-- How the program's parts interact. A datagram or a TCP message is parsed by src/proto.rs; the
-- server looks the question up in the zones, which src/zone_manager.rs loads and reloads, and in the
-- cache of src/cache.rs; the answer is a `Packet` that src/proto.rs serializes. A transfer of a whole
-- zone, or of its history, is the stream of messages of src/axfr.rs. What is in no zone and not in the
-- cache is resolved by src/resolver.rs. src/tsig.rs signs and verifies messages, and src/ratelimit.rs
-- is asked before a query is read.
--
-- Which file models what:
--   Prelude            lists, bits, bytes as text, hash maps as association lists, stable sorting
--   Proto/RType        src/proto.rs, `RType` and its numbers
--   Proto/Packet       src/proto.rs, `Question`, `Record`, `Packet` and the flag bits
--   Proto/Reader       src/proto.rs, `Parser`: a reader over the buffer and the cursor
--   Proto/Builder      src/proto.rs, `Builder`, `canonical_name` and `canonical_rr`
--   Proto/Message      src/proto.rs, `Parser::parse`, `decompress_rdata` and `serialize`
--   Proto/Dnssec       src/proto.rs, `Rrsig`, `Dnskey`, `Ds`, their parsers and the key tag
--   Cache              src/cache.rs, `Cache` and `soa_minimum_ttl`
--   Zone               src/zone.rs, the store, the NSEC chain, its bitmap, the canonical order
--   Zone/Nsec3         src/zone.rs, the NSEC3 parameters, the hash of a name, `nsec3_covering`
--   Zone/Master        src/zone.rs, `load_file`: lines and fields (Scan), data (Rdata, Decode, Address)
--   ZoneManager        src/zone_manager.rs, loads, versions, the edit history, the diff of zones
--   ZoneManager/Sign   src/zone_manager.rs, `sign_zone`, with the zone it leaves on an error
--   Dnssec             src/dnssec.rs: SHA-2 (Sha2), keys and signatures (Signatures), one signed set
--                      (Validator), the chain of zones (Chain); src/anchor.rs (Anchor)
--   Signing            src/zone_signing.rs: `sign_rrset_with_key`, and the key files (Keys)
--   Resolver           src/resolver.rs, `udp_exchange` and `answers_query` (Exchange), the iterative walk
--   Metrics            src/metrics.rs, the counters; their text, and what the metrics server answers (Export)
--   RateLimit          src/ratelimit.rs, `RateLimiter`
--   ThreadPool         src/threadpool.rs, the channel and its workers
--   Tsig               src/tsig.rs, signing, verifying, and `extract_tsig` (Extract)
--   Config             src/config.rs: the TOML reader (Toml), its integers (Int64), `ServerConfig` (Load),
--                      `Network` (Network)
--   Server             src/server.rs, `handle_query`: the short responses (Responses), a zone of this
--                      server (Authority), the state (State), the branches (Query), transfers (Transfer),
--                      datagrams and connections (Serve)
--   Server/Startup     src/main.rs, the state that the server starts with
--   Server/Pools       src/server.rs, the pools that `run` makes
--   Server/Supervisor  src/server.rs, `run_supervised`
--   Server/Background  src/signals.rs, and of src/server.rs the sweep of the cache and the reload of the zones
--   Server/System      src/server.rs, the running program as the events that reach it
--   Server/Dot, Doh    src/dot.rs, src/doh.rs: messages over TLS, and requests over HTTPS
--   Resolver/Conf      src/resolver.rs, the forwarders of /etc/resolv.conf
--   Axfr               src/axfr.rs, `axfr_stream` and `ixfr_stream`
-- The other files hold proofs, and Tests the theorems at concrete inputs.
--
-- How state and operations correspond. A struct is a record with the fields of the source, a method
-- a function on it that returns the new record. Every lock of the source is held for one call, so an
-- operation is one step, and interleavings of the cache's operations are the sequences of `Op` of
-- Cache/Eviction. A `String` is the list of its UTF-8 bytes. Machine integers are natural numbers,
-- with each cast and each wrap-around written out. `Instant::now()` is an argument, in nanoseconds.
-- The network of the resolver, the arithmetic of `f64`, the hash of an address, HMAC, SHA-1 and the
-- public-key operations (RSA, ECDSA, EdDSA) of other crates are parameters; SHA-2 is written out. The
-- clock of a validation is read once. An event of Server/System is one turn of a loop or one job of a
-- pool, so that a run of the program is a list of events, in whatever order the threads take them.
--
-- Bounds and fuel. `Parser::name` is a loop on fuel 21 * (length + 2): at most 20 jumps, each
-- followed by a walk forward through the buffer, so that no run uses it up. The loop of
-- `closest_encloser` has one turn per byte of the name, and each turn drops a label. The resolver needs
-- no fuel: its loop recurses on the referrals that are left, and its nested lookups on the levels.
--
-- What is not modelled: sockets, TLS, the start of threads, files and logging, and
-- `TsigSecretSource::resolve`; a peer reads what is written to it. src/advanced.rs is used by
-- nothing. A `HashMap` hands its entries in an unspecified order, of which the model takes that of
-- insertion.
pub mod Prelude
pub mod Proto
pub mod Cache
pub mod Zone
pub mod ZoneManager
pub mod Axfr
pub mod Resolver
pub mod Metrics
pub mod RateLimit
pub mod ThreadPool
pub mod Tsig
pub mod Dnssec
pub mod Signing
pub mod Config
pub mod Server
pub mod Tests
