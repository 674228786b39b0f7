-- ===== src/Metrics/Export.antt =====
-- src/metrics.rs: the getters, and `export_prometheus`; src/server.rs, what the metrics server answers.
-- The arithmetic of `f64` is a parameter.
use ironbind.Prelude.{ℕ, Bool, List, [], ◌∷◌, ◌++◌, if◌then◌else◌, length, concat, map}
use ironbind.Prelude.Text.{Bytes, codes}
use ironbind.Prelude.Decimal.{decimal_from}
use ironbind.Metrics.{Metrics}

-- `f64`: a counter as a float, its operations, the test for 0, and `{:.4}`.
pub record Double (F : Type 0) : Type 0 where
  pub of_u64 : ℕ → F
  pub add : F → F → F
  pub div : F → F → F
  pub is_zero : F → Bool
  pub fixed4 : F → Bytes

abbrev get_total_queries : Metrics → ℕ
get_total_queries m = m.total_queries

unfoldable get_cache_hit_rate : {F : Type 0} → Double F → Metrics → F
get_cache_hit_rate float m =
    let hits = float.of_u64 m.cache_hits in
    let all = float.add hits (float.of_u64 m.cache_misses) in
    if float.is_zero all then float.of_u64 0 else float.div hits all

unfoldable get_avg_query_time_ms : {F : Type 0} → Double F → Metrics → F
get_avg_query_time_ms float m =
    let total = float.of_u64 m.total_query_time in
    let count = float.of_u64 m.query_count_for_avg in
    if float.is_zero count
    then float.of_u64 0
    else float.div (float.div total count) (float.of_u64 1000000)

-- A `u64` as `{}` writes it.
abbrev shown : ℕ → Bytes
shown = decimal_from 19

-- One series: its text of help, its type and its value.
pub record Series : Type 0 where
  pub name : Bytes
  pub help : Bytes
  pub kind : Bytes
  pub value : Bytes

abbrev line_end : Bytes
line_end = 10 ∷ []

unfoldable push_series : Series → Bytes
push_series s =
    let name = codes "ironbind_" ++ s.name in
    (codes "# HELP " ++ (name ++ (32 ∷ (s.help ++ line_end))))
    ++ ((codes "# TYPE " ++ (name ++ (32 ∷ (s.kind ++ line_end))))
        ++ (name ++ (32 ∷ (s.value ++ line_end))))

abbrev counter : Bytes → Bytes → ℕ → Series
counter name help n = record { name = name; help = help; kind = codes "counter"; value = shown n }

abbrev gauge : Bytes → Bytes → Bytes → Series
gauge name help text = record { name = name; help = help; kind = codes "gauge"; value = text }

unfoldable all_series : {F : Type 0} → Double F → Metrics → List Series
unfolding get_cache_hit_rate get_avg_query_time_ms
all_series float m =
    counter (codes "queries_total") (codes "Total DNS queries received") m.total_queries
    ∷ counter (codes "queries_udp") (codes "UDP queries") m.udp_queries
    ∷ counter (codes "queries_tcp") (codes "TCP queries") m.tcp_queries
    ∷ counter (codes "cache_hits") (codes "Cache hits") m.cache_hits
    ∷ counter (codes "cache_misses") (codes "Cache misses") m.cache_misses
    ∷ gauge (codes "cache_hit_rate") (codes "Cache hit rate")
        (float.fixed4 (get_cache_hit_rate float m))
    ∷ counter (codes "responses_success") (codes "Successful responses") m.success_count
    ∷ counter (codes "responses_nxdomain") (codes "NXDOMAIN responses") m.nxdomain_count
    ∷ counter (codes "responses_servfail") (codes "SERVFAIL responses") m.servfail_count
    ∷ counter (codes "dnssec_valid") (codes "Valid DNSSEC signatures") m.dnssec_valid
    ∷ counter (codes "dnssec_bogus") (codes "BOGUS DNSSEC signatures") m.dnssec_bogus
    ∷ gauge (codes "query_time_ms") (codes "Average query time in milliseconds")
        (float.fixed4 (get_avg_query_time_ms float m))
    ∷ counter (codes "dropped_rate_limited") (codes "Queries dropped by the rate limiter")
        m.dropped_rate_limited
    ∷ counter (codes "dropped_recursion_limit")
        (codes "Recursive UDP queries dropped because the recursion pool was full")
        m.dropped_recursion_limit
    ∷ counter (codes "dropped_connections")
        (codes "Connections closed because all connection workers were busy") m.dropped_connections
    ∷ []

unfoldable export_prometheus : {F : Type 0} → Double F → Metrics → Bytes
unfolding all_series push_series
export_prometheus float m = concat (map push_series (all_series float m))

abbrev http_line_end : Bytes
http_line_end = 13 ∷ 10 ∷ []

-- What the metrics server writes to each connection, whatever the request is.
unfoldable metrics_server : {F : Type 0} → Double F → Metrics → Bytes
unfolding export_prometheus
metrics_server float m =
    let body = export_prometheus float m in
    codes "HTTP/1.1 200 OK"
    ++ (http_line_end
        ++ (codes "Content-Type: text/plain; version=0.0.4"
            ++ (http_line_end
                ++ (codes "Content-Length: "
                    ++ (decimal_from 19 (length body)
                        ++ (http_line_end
                            ++ (codes "Connection: close"
                                ++ (http_line_end ++ (http_line_end ++ body)))))))))
