-- ===== src/Metrics.antt =====
-- src/metrics.rs: the counters, and their text form (Export). A counter is an `AtomicU64` on which
-- each call does one `fetch_add`.
pub mod Export
use ironbind.Prelude.{ℕ, ◌+◌, ◌%◌, ◌^◌}

pub record Metrics : Type 0 where
  pub total_queries : ℕ
  pub cache_hits : ℕ
  pub cache_misses : ℕ
  pub success_count : ℕ
  pub nxdomain_count : ℕ
  pub servfail_count : ℕ
  pub dnssec_valid : ℕ
  pub dnssec_bogus : ℕ
  pub tcp_queries : ℕ
  pub udp_queries : ℕ
  pub total_query_time : ℕ
  pub query_count_for_avg : ℕ
  pub dropped_rate_limited : ℕ
  pub dropped_recursion_limit : ℕ
  pub dropped_connections : ℕ

-- `fetch_add` wraps around.
abbrev pub fetch_add : ℕ → ℕ → ℕ
fetch_add counter n = (counter + n) % 2 ^ 64

abbrev pub new : Metrics
new = record {
  total_queries = 0;
  cache_hits = 0;
  cache_misses = 0;
  success_count = 0;
  nxdomain_count = 0;
  servfail_count = 0;
  dnssec_valid = 0;
  dnssec_bogus = 0;
  tcp_queries = 0;
  udp_queries = 0;
  total_query_time = 0;
  query_count_for_avg = 0;
  dropped_rate_limited = 0;
  dropped_recursion_limit = 0;
  dropped_connections = 0;
}

unfoldable pub record_query : Metrics → Metrics
record_query m = record m { total_queries = fetch_add m.total_queries 1 }

unfoldable pub record_udp_query : Metrics → Metrics
record_udp_query m = record m { udp_queries = fetch_add m.udp_queries 1 }

unfoldable pub record_tcp_query : Metrics → Metrics
record_tcp_query m = record m { tcp_queries = fetch_add m.tcp_queries 1 }

unfoldable pub record_cache_hit : Metrics → Metrics
record_cache_hit m = record m { cache_hits = fetch_add m.cache_hits 1 }

unfoldable pub record_cache_miss : Metrics → Metrics
record_cache_miss m = record m { cache_misses = fetch_add m.cache_misses 1 }

unfoldable pub record_success : Metrics → Metrics
record_success m = record m { success_count = fetch_add m.success_count 1 }

unfoldable pub record_nxdomain : Metrics → Metrics
record_nxdomain m = record m { nxdomain_count = fetch_add m.nxdomain_count 1 }

unfoldable pub record_servfail : Metrics → Metrics
record_servfail m = record m { servfail_count = fetch_add m.servfail_count 1 }

unfoldable pub record_dnssec_valid : Metrics → Metrics
record_dnssec_valid m = record m { dnssec_valid = fetch_add m.dnssec_valid 1 }

unfoldable pub record_dnssec_bogus : Metrics → Metrics
record_dnssec_bogus m = record m { dnssec_bogus = fetch_add m.dnssec_bogus 1 }

-- The time is in nanoseconds.
unfoldable pub record_query_time : ℕ → Metrics → Metrics
record_query_time duration_ns m = record m {
  total_query_time = fetch_add m.total_query_time duration_ns;
  query_count_for_avg = fetch_add m.query_count_for_avg 1;
}

unfoldable pub record_dropped_rate_limited : Metrics → Metrics
record_dropped_rate_limited m = record m {
  dropped_rate_limited = fetch_add m.dropped_rate_limited 1;
}

unfoldable pub record_dropped_recursion_limit : Metrics → Metrics
record_dropped_recursion_limit m = record m {
  dropped_recursion_limit = fetch_add m.dropped_recursion_limit 1;
}

unfoldable pub record_dropped_connection : Metrics → Metrics
record_dropped_connection m = record m { dropped_connections = fetch_add m.dropped_connections 1 }
